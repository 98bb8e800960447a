-- ===== src/Service/Rules.antt =====
-- What a service method guarantees: from a state with the invariant `I` it ends in one, whether it
-- returns or raises, and a value that it returns has the property `Q`. One rule for each way to
-- build a method.
use econmesh_api.Prelude.{Bool, true, false, Option, none, some, ◌≡◌, refl, sym, ap}
use econmesh_api.Service.Defs.{
  AppException, Result, ok, err, Action, pure, raise, gets, or_raise, ◌>>=◌, resume, raise_if,
  modify, when, branch, match_some,
}

abbrev pub Holds : {S A : Type 0} → (S → Type 0) → (A → Type 0) → Result A × S → Type 0
Holds I Q (ok a, s) = I s × Q a
Holds I Q (err e, s) = I s

pub record Guarantees {S A : Type 0} (I : S → Type 0) (Q : A → Type 0) (m : Action S A)
    : Type 0 where
  pub run : (s : S) → I s → Holds I Q (m s)

-- no property of the value
abbrev pub Any : {A : Type 0} → A → Type 0
Any a = Unit

module _ {S A B : Type 0} where
  pub bind-Guarantees :
      {I : S → Type 0} {Q : A → Type 0} {R : B → Type 0} {m : Action S A} {f : A → Action S B}
      → Guarantees I Q m
      → ((a : A) → Q a → Guarantees I R (f a))
      → Guarantees I R (m >>= f)
  unfolding ◌>>=◌
  bind-Guarantees {I} {Q} {R} {m} {f} gm gf = record { run = λ s h. go (m s) (gm.run s h) }
    where
      go : (r : Result A × S) → Holds I Q r → Holds I R (resume f r)
      go (ok a, u) (hu, q) = (gf a q).run u hu
      go (err e, u) hu = hu

module _ {S A : Type 0} {I : S → Type 0} {Q : A → Type 0} where
  pub pure-Guarantees : (a : A) → Q a → Guarantees I Q (pure a)
  unfolding pure
  pure-Guarantees a q = record { run = λ s h. (h, q) }

  pub raise-Guarantees : (e : AppException) → Guarantees I Q (raise e)
  unfolding raise
  raise-Guarantees e = record { run = λ s h. h }

  pub gets-Guarantees : (f : S → A) → ((s : S) → I s → Q (f s)) → Guarantees I Q (gets f)
  unfolding gets
  gets-Guarantees f k = record { run = λ s h. (h, k s h) }

  pub or_raise-Guarantees :
      (o : Option A) (e : AppException)
      → ((a : A) → o ≡ some a → Q a)
      → Guarantees I Q (or_raise o e)
  unfolding or_raise
  or_raise-Guarantees none e k = raise-Guarantees e
  or_raise-Guarantees (some a) e k = pure-Guarantees a (k a refl)

  pub branch-Guarantees :
      (b : Bool) {m n : Action S A}
      → (b ≡ true → Guarantees I Q m)
      → (b ≡ false → Guarantees I Q n)
      → Guarantees I Q (branch b m n)
  unfolding branch
  branch-Guarantees true gm gn = gm refl
  branch-Guarantees false gm gn = gn refl

  pub match_some-Guarantees :
      {B : Type 0} (o : Option B) {f : B → Action S A} {n : Action S A}
      → ((b : B) → o ≡ some b → Guarantees I Q (f b))
      → (o ≡ none → Guarantees I Q n)
      → Guarantees I Q (match_some o f n)
  unfolding match_some
  match_some-Guarantees none gf gn = gn refl
  match_some-Guarantees (some b) gf gn = gf b refl

  -- the value's property may be weakened
  pub Guarantees-mono :
      {R : A → Type 0} {m : Action S A}
      → Guarantees I Q m
      → ((a : A) → Q a → R a)
      → Guarantees I R m
  Guarantees-mono {R} {m} g k = record { run = λ s h. go (m s) (g.run s h) }
    where
      go : (r : Result A × S) → Holds I Q r → Holds I R r
      go (ok a, u) (hu, q) = (hu, k a q)
      go (err e, u) hu = hu

module _ {S : Type 0} {I : S → Type 0} where
  -- past a guard its test has failed
  pub raise_if-Guarantees :
      (b : Bool) (e : AppException) → Guarantees I (λ (u : Unit {0}). b ≡ false) (raise_if b e)
  unfolding raise_if
  raise_if-Guarantees true e = record { run = λ s h. h }
  raise_if-Guarantees false e = record { run = λ s h. (h, refl) }

  pub modify-Guarantees :
      (f : S → S) → ((s : S) → I s → I (f s)) → Guarantees I (Any {A = Unit {0}}) (modify f)
  unfolding modify
  modify-Guarantees f k = record { run = λ s h. (k s h, tt) }

  pub when-Guarantees :
      {m : Action S (Unit {0})} (b : Bool)
      → Guarantees I (Any {A = Unit {0}}) m
      → Guarantees I (Any {A = Unit {0}}) (when b m)
  unfolding when
  when-Guarantees true g = g
  when-Guarantees false g = pure-Guarantees tt tt

-- What a part that succeeded was given, and the state it left.
module _ {S : Type 0} where
  pub raise_if-eq-ok :
      (b : Bool) (e : AppException) (s : S) {a : Unit {0}} {t : S}
      → raise_if b e s ≡ (ok a, t)
      → (b ≡ false) × (t ≡ s)
  unfolding raise_if
  raise_if-eq-ok true e s h = cc
  raise_if-eq-ok false e s h = (refl, ap (λ r. r.1) (sym h))

  pub or_raise-eq-ok :
      {A : Type 0} (o : Option A) (e : AppException) (s : S) {a : A} {t : S}
      → or_raise o e s ≡ (ok a, t)
      → (o ≡ some a) × (t ≡ s)
  unfolding or_raise raise pure
  or_raise-eq-ok none e s h = cc
  or_raise-eq-ok (some a) e s h = (cc, ap (λ r. r.1) (sym h))

  pub pure-eq-ok :
      {A : Type 0} (x : A) (s : S) {a : A} {t : S} → pure x s ≡ (ok a, t) → (x ≡ a) × (t ≡ s)
  unfolding pure
  pure-eq-ok x s h = (cc, ap (λ r. r.1) (sym h))

  pub gets-eq-ok :
      {A : Type 0} (f : S → A) (s : S) {a : A} {t : S} → gets f s ≡ (ok a, t) → (f s ≡ a) × (t ≡ s)
  unfolding gets
  gets-eq-ok f s h = (cc, ap (λ r. r.1) (sym h))
