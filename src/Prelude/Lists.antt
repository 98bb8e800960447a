-- ===== src/Prelude/Lists.antt =====
-- Lists as the services use them: comprehensions with a test, `any`, `all`, `len`, and the first
-- entry that passes a test.
use Prim.Native.Nat.{ℕ, zero, suc, ◌+◌, ◌≤◌}
use mathlib.Core.Path.{◌≡◌, refl, subst, ap}
use mathlib.Core.Logic.{inl, inr}
use mathlib.Core.Bool.{Bool, true, false, ◌&&◌, ◌||◌}
use mathlib.Core.Option.{Option, none, some, some-injective}
use mathlib.Core.List.{List, [], ◌∷◌, ◌++◌, map}
use native.Mathlib.Omega.{arith}
use econmesh_api.Prelude.Tests.{leb, Bool-cases, if◌then◌else◌}

module _ {ℓ} {A : Type ℓ} where
  abbrev pub length : List A → ℕ
  length [] = 0
  length (x ∷ xs) = suc (length xs)

  -- `[x for x in xs if p(x)]`
  abbrev pub filterb : (A → Bool) → List A → List A
  filterb p [] = []
  filterb p (x ∷ xs) = let rest = filterb p xs in if p x then x ∷ rest else rest

  -- `any(p(x) for x in xs)`
  abbrev pub anyb : (A → Bool) → List A → Bool
  anyb p [] = false
  anyb p (x ∷ xs) = p x || anyb p xs

  -- `all(p(x) for x in xs)`
  abbrev pub allb : (A → Bool) → List A → Bool
  allb p [] = true
  allb p (x ∷ xs) = p x && allb p xs

  -- `sum(1 for x in xs if p(x))`
  abbrev pub countb : (A → Bool) → List A → ℕ
  countb p [] = 0
  countb p (x ∷ xs) = let rest = countb p xs in if p x then suc rest else rest

  -- the first entry that passes a test
  abbrev pub findb : (A → Bool) → List A → Option A
  findb p [] = none
  findb p (x ∷ xs) = let rest = findb p xs in if p x then some x else rest

  -- change the first entry that passes a test, as an assignment to the object found does
  abbrev pub update_first : (A → Bool) → (A → A) → List A → List A
  update_first p f [] = []
  update_first p f (x ∷ xs) = let rest = update_first p f xs in if p x then f x ∷ xs else x ∷ rest

  abbrev pub take : ℕ → List A → List A
  take zero xs = []
  take (suc n) [] = []
  take (suc n) (x ∷ xs) = x ∷ take n xs

  -- `xs[n:]`
  abbrev pub drop : ℕ → List A → List A
  drop zero xs = xs
  drop (suc n) [] = []
  drop (suc n) (x ∷ xs) = drop n xs

  -- `sorted(xs, key=key)`, which keeps the order of equal keys
  abbrev pub insert_by : (A → ℕ) → A → List A → List A
  insert_by key x [] = x ∷ []
  insert_by key x (y ∷ ys) =
      let rest = insert_by key x ys in if leb (key x) (key y) then x ∷ y ∷ ys else y ∷ rest

  abbrev pub sort_by : (A → ℕ) → List A → List A
  sort_by key [] = []
  sort_by key (x ∷ xs) = insert_by key x (sort_by key xs)

  -- `if not xs`
  abbrev pub is_empty : List A → Bool
  is_empty [] = true
  is_empty (x ∷ xs) = false

  -- every entry, with the property by recursion
  abbrev pub All {κ} : (A → Type κ) → List A → Type κ
  All P [] = Unit
  All P (x ∷ xs) = P x × All P xs

  pub length-append : (xs ys : List A) → length (xs ++ ys) ≡ length xs + length ys
  length-append [] ys = omega arith
  length-append (x ∷ xs) ys = omega (arith, length-append xs ys)

  pub countb-le : (p : A → Bool) (xs : List A) → countb p xs ≤ length xs
  countb-le p [] = omega arith
  countb-le p (x ∷ xs) = ground (arith, countb-le p xs)

  pub length-filterb : (p : A → Bool) (xs : List A) → length (filterb p xs) ≡ countb p xs
  length-filterb p [] = refl
  length-filterb p (x ∷ xs) = ground (arith, length-filterb p xs)

  -- a weaker test passes no fewer entries
  pub countb_mono :
      (p q : A → Bool) (xs : List A)
      → ((x : A) → p x ≡ true → q x ≡ true)
      → countb p xs ≤ countb q xs
  countb_mono p q [] h = omega arith
  countb_mono p q (x ∷ xs) h = ground (arith, h x, countb_mono p q xs h)

  -- a count that reaches the length has passed every entry
  pub allb_of_countb : (p : A → Bool) (xs : List A) → length xs ≤ countb p xs → allb p xs ≡ true
  allb_of_countb p [] h = refl
  allb_of_countb p (x ∷ xs) h = ground (arith, allb_of_countb p xs, countb-le p xs)

  pub countb_of_allb : (p : A → Bool) (xs : List A) → allb p xs ≡ true → countb p xs ≡ length xs
  countb_of_allb p [] h = refl
  countb_of_allb p (x ∷ xs) h = ground (arith, countb_of_allb p xs)

  pub findb_sound : (p : A → Bool) (xs : List A) (a : A) → findb p xs ≡ some a → p a ≡ true
  findb_sound p [] a h = cc
  findb_sound p (x ∷ xs) a h = ground (arith, findb_sound p xs a)

module _ {ℓ} {A : Type ℓ} where
  pub anyb_append_right :
      (p : A → Bool) (xs ys : List A) → anyb p ys ≡ true → anyb p (xs ++ ys) ≡ true
  anyb_append_right p [] ys h = h
  anyb_append_right p (x ∷ xs) ys h = ground (arith, anyb_append_right p xs ys h)

  pub take-all : (n : ℕ) (xs : List A) → length xs ≤ n → take n xs ≡ xs
  take-all zero [] h = refl
  take-all zero (x ∷ xs) h = absurd (omega arith)
  take-all (suc n) [] h = refl
  take-all (suc n) (x ∷ xs) h = ap (λ ys. x ∷ ys) (take-all n xs (omega arith))

  -- the two parts of a concatenation
  pub take-append : (n : ℕ) (xs ys : List A) → length xs ≡ n → take n (xs ++ ys) ≡ xs
  take-append zero [] ys h = refl
  take-append zero (x ∷ xs) ys h = absurd (omega arith)
  take-append (suc n) [] ys h = absurd (omega arith)
  take-append (suc n) (x ∷ xs) ys h = ap (λ zs. x ∷ zs) (take-append n xs ys (omega arith))

  pub drop-append : (n : ℕ) (xs ys : List A) → length xs ≡ n → drop n (xs ++ ys) ≡ ys
  drop-append zero [] ys h = refl
  drop-append zero (x ∷ xs) ys h = absurd (omega arith)
  drop-append (suc n) [] ys h = absurd (omega arith)
  drop-append (suc n) (x ∷ xs) ys h = drop-append n xs ys (omega arith)

  pub length-map {κ} : {B : Type κ} (f : A → B) (xs : List A) → length (map f xs) ≡ length xs
  length-map f [] = refl
  length-map f (x ∷ xs) = ap suc (length-map f xs)

  pub is_empty-map {κ} : {B : Type κ} (f : A → B) (xs : List A) → is_empty (map f xs) ≡ is_empty xs
  is_empty-map f [] = refl
  is_empty-map f (x ∷ xs) = refl

  pub is_empty-append : (xs ys : List A) → is_empty (xs ++ ys) ≡ (is_empty xs && is_empty ys)
  is_empty-append [] ys = refl
  is_empty-append (x ∷ xs) ys = refl

  pub is_empty-update_first :
      (p : A → Bool) (f : A → A) (xs : List A) → is_empty (update_first p f xs) ≡ is_empty xs
  is_empty-update_first p f [] = refl
  is_empty-update_first p f (x ∷ xs) = ground arith

  pub findb-allb :
      (p q : A → Bool) (xs : List A) (a : A) → findb p xs ≡ some a → allb q xs ≡ true → q a ≡ true
  findb-allb p q [] a h all = cc
  findb-allb p q (x ∷ xs) a h all = ground (arith, findb-allb p q xs a)

  pub findb-All {κ} :
      (P : A → Type κ) (p : A → Bool) (xs : List A) (a : A) → All P xs → findb p xs ≡ some a → P a
  findb-All P p [] a all h = cc
  findb-All P p (x ∷ xs) a all h = elim (Bool-cases (p x)) [
    | inl e ↦ subst P (some-injective _ _ (rw e at h)) all.0
    | inr e ↦ findb-All P p xs a all.1 (rw e at h)
  ]

  pub All-append {κ} : (P : A → Type κ) (xs ys : List A) → All P xs → All P ys → All P (xs ++ ys)
  All-append P [] ys hx hy = hy
  All-append P (x ∷ xs) ys hx hy = (hx.0, All-append P xs ys hx.1 hy)

  pub All-filterb {κ} :
      (P : A → Type κ) (p : A → Bool) (xs : List A) → All P xs → All P (filterb p xs)
  All-filterb P p [] h = tt
  All-filterb P p (x ∷ xs) h = elim (Bool-cases (p x)) [
    | inl e ↦ rw e (h.0, All-filterb P p xs h.1)
    | inr e ↦ rw e (All-filterb P p xs h.1)
  ]

  pub All-take {κ} : (P : A → Type κ) (n : ℕ) (xs : List A) → All P xs → All P (take n xs)
  All-take P zero xs h = tt
  All-take P (suc n) [] h = tt
  All-take P (suc n) (x ∷ xs) h = (h.0, All-take P n xs h.1)
