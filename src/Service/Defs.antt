-- ===== src/Service/Defs.antt =====
-- The exceptions of src/core/exceptions.py, and a service method as an action on the stored state.
-- The state comes back after a raise too: what was written to the database stays written.
use econmesh_api.Prelude.{
  Bool, true, false, Option, none, some, String, List, ◌≡◌, refl, ap, if◌then◌else◌,
}

pub data AppException : Type 0 where
  auth_error forbidden not_found gone conflict validation rate_limit external_service timeout :
      String → AppException
  -- an exception of a library that the services let through
  unhandled : String → AppException
  -- `ValidationAppError(code="profile_incomplete", details={"missing": ...})`
  incomplete : List String → AppException

pub data Result {ℓ} (A : Type ℓ) : Type ℓ where
  ok : A → Result A
  err : AppException → Result A

abbrev pub Action : Type 0 → Type 0 → Type 0
Action S A = S → Result A × S

module _ {S A : Type 0} where
  unfoldable pub pure : A → Action S A
  pure a s = (ok a, s)

  unfoldable pub raise : AppException → Action S A
  raise e s = (err e, s)

  unfoldable pub gets : (S → A) → Action S A
  gets f s = (ok (f s), s)

  -- a lookup whose `None` raises
  unfoldable pub or_raise : Option A → AppException → Action S A
  unfolding raise pure
  or_raise none e = raise e
  or_raise (some a) e = pure a

-- `if c: return m` and `else: return n`, and the same on a value that may be `None`
module _ {S A : Type 0} where
  unfoldable pub branch : Bool → Action S A → Action S A → Action S A
  branch true m n = m
  branch false m n = n

  unfoldable pub match_some {κ} :
      {B : Type κ} → Option B → (B → Action S A) → Action S A → Action S A
  match_some none f n = n
  match_some (some b) f n = f b

module _ {S : Type 0} where
  unfoldable pub raise_if : Bool → AppException → Action S (Unit {0})
  raise_if true e s = (err e, s)
  raise_if false e s = (ok tt, s)

  unfoldable pub modify : (S → S) → Action S (Unit {0})
  modify f s = (ok tt, f s)

  -- `if c: m`
  unfoldable pub when : Bool → Action S (Unit {0}) → Action S (Unit {0})
  unfolding pure
  when true m = m
  when false m = pure tt

-- A method goes on from a value, and a raise passes through.
abbrev pub resume : {S A B : Type 0} → (A → Action S B) → Result A × S → Result B × S
resume f (ok a, s) = f a s
resume f (err e, s) = (err e, s)

-- The line opens every way to build a method, so a proof that computes names the bind alone.
infixl 5 ◌>>=◌ ◌>>◌
unfoldable pub ◌>>=◌ : {S A B : Type 0} → Action S A → (A → Action S B) → Action S B
unfolding pure raise gets or_raise raise_if modify when branch match_some
◌>>=◌ m f s = resume f (m s)

abbrev pub ◌>>◌ : {S A B : Type 0} → Action S A → Action S B → Action S B
m >> k = m >>= λ _. k

-- A bind that succeeds has run its first part to a value.
pub >>=-eq-ok :
    {S A B : Type 0} (m : Action S A) (f : A → Action S B) (s : S) {b : B} {t : S}
    → (m >>= f) s ≡ (ok b, t)
    → (a : A) × (u : S) × (m s ≡ (ok a, u)) × (f a u ≡ (ok b, t))
unfolding ◌>>=◌
>>=-eq-ok {S} {A} {B} m f s {b} {t} h = go (m s) h
  where
    go :
        (r : Result A × S)
        → resume f r ≡ (ok b, t)
        → (a : A) × (u : S) × (r ≡ (ok a, u)) × (f a u ≡ (ok b, t))
    go (ok a, u) p = (a, u, refl, p)
    go (err e, u) p = cc

-- One step of a method whose first part is known.
pub >>=-of-ok :
    {S A B : Type 0} (m : Action S A) (f : A → Action S B) (s : S) {a : A} {t : S}
    → m s ≡ (ok a, t)
    → (m >>= f) s ≡ f a t
unfolding ◌>>=◌
>>=-of-ok m f s h = ap (resume f) h

pub >>=-of-err :
    {S A B : Type 0} (m : Action S A) (f : A → Action S B) (s : S) {e : AppException} {t : S}
    → m s ≡ (err e, t)
    → (m >>= f) s ≡ (err e, t)
unfolding ◌>>=◌
>>=-of-err m f s h = ap (resume f) h

-- A guard before the rest of a method.
pub guard_lem :
    {S A : Type 0} (b : Bool) (e : AppException) (k : Action S A) (s : S)
    → (raise_if b e >> k) s ≡ (if b then (err e, s) else k s)
unfolding ◌>>=◌
guard_lem true e k s = refl
guard_lem false e k s = refl
