-- ===== src/Prelude/Updates.antt =====
-- The first entry that passes a test, after it was changed, and after entries were put last.
use mathlib.Core.Path.{◌≡◌, refl, sym, subst, ap, ◌∙◌}
use mathlib.Core.Logic.{◌⊎◌, inl, inr}
use mathlib.Core.Bool.{Bool, true, false, ◌||◌}
use mathlib.Core.Option
use mathlib.Core.Option.{Option, none, some, some-injective}
use mathlib.Core.List.{List, [], ◌∷◌, ◌++◌, map}
use native.Mathlib.Omega.{arith}
use econmesh_api.Prelude.Tests.{Bool-cases}
use econmesh_api.Prelude.Lists.{findb, update_first, anyb, All}

module _ {ℓ} {A : Type ℓ} where
  pub findb-update_first :
      (p : A → Bool) (f : A → A) (xs : List A)
      → ((x : A) → p (f x) ≡ p x)
      → findb p (update_first p f xs) ≡ Option.map f (findb p xs)
  findb-update_first p f [] keep = refl
  findb-update_first p f (x ∷ xs) keep = elim (Bool-cases (p x)) [
    | inl e ↦ rw e (rw (keep x ∙ e) refl)
    | inr e ↦ rw e (rw e (findb-update_first p f xs keep))
  ]

  pub update_first-update_first :
      (p : A → Bool) (f g : A → A) (xs : List A)
      → ((x : A) → p (f x) ≡ p x)
      → update_first p g (update_first p f xs) ≡ update_first p (λ x. g (f x)) xs
  update_first-update_first p f g [] keep = refl
  update_first-update_first p f g (x ∷ xs) keep = elim (Bool-cases (p x)) [
    | inl e ↦ rw e (rw (keep x ∙ e) refl)
    | inr e ↦ rw e (rw e (ap (λ ys. x ∷ ys) (update_first-update_first p f g xs keep)))
  ]

  pub All-update_first {κ} :
      (P : A → Type κ) (p : A → Bool) (f : A → A) (xs : List A) (a : A)
      → findb p xs ≡ some a
      → P (f a)
      → All P xs
      → All P (update_first p f xs)
  All-update_first P p f [] a found h all = tt
  All-update_first P p f (x ∷ xs) a found h all = elim (Bool-cases (p x)) [
    | inl e ↦ rw e (subst (λ y. P (f y)) (sym (some-injective _ _ (rw e at found))) h, all.1)
    | inr e ↦ rw e (all.0, All-update_first P p f xs a (rw e at found) h all.1)
  ]

  pub findb-append_left :
      (p : A → Bool) (xs ys : List A) (a : A) → findb p xs ≡ some a → findb p (xs ++ ys) ≡ some a
  findb-append_left p [] ys a h = cc
  findb-append_left p (x ∷ xs) ys a h = ground (arith, findb-append_left p xs ys a)

  pub anyb-append : (p : A → Bool) (xs ys : List A) → anyb p (xs ++ ys) ≡ (anyb p xs || anyb p ys)
  anyb-append p [] ys = refl
  anyb-append p (x ∷ xs) ys = ground (arith, anyb-append p xs ys)

  -- a stronger test passes none of the entries that a test passes none of
  pub anyb-false_mono :
      (p q : A → Bool) (xs : List A)
      → ((x : A) → q x ≡ true → p x ≡ true)
      → anyb p xs ≡ false
      → anyb q xs ≡ false
  anyb-false_mono p q [] h none_p = refl
  anyb-false_mono p q (x ∷ xs) h none_p = ground (arith, h x, anyb-false_mono p q xs h)

  pub anyb-update_first :
      (p q : A → Bool) (f : A → A) (xs : List A) (a : A)
      → findb p xs ≡ some a
      → (q (f a) ≡ true → q a ≡ true)
      → anyb q xs ≡ false
      → anyb q (update_first p f xs) ≡ false
  anyb-update_first p q f [] a found h none_q = refl
  anyb-update_first p q f (x ∷ xs) a found h none_q = grind (arith, anyb-update_first p q f xs a)

  pub findb-none-anyb : (p : A → Bool) (xs : List A) → findb p xs ≡ none → anyb p xs ≡ false
  findb-none-anyb p [] h = refl
  findb-none-anyb p (x ∷ xs) h = grind (arith, findb-none-anyb p xs)

  pub anyb-|| :
      (p q : A → Bool) (xs : List A)
      → anyb p xs ≡ false
      → anyb q xs ≡ false
      → anyb (λ x. p x || q x) xs ≡ false
  anyb-|| p q [] h g = refl
  anyb-|| p q (x ∷ xs) h g = ground (arith, anyb-|| p q xs)

  pub findb-anyb-false :
      (p q : A → Bool) (xs : List A) (a : A) → findb p xs ≡ some a → anyb q xs ≡ false → q a ≡ false
  findb-anyb-false p q [] a found h = cc
  findb-anyb-false p q (x ∷ xs) a found h = grind (arith, findb-anyb-false p q xs a)

  -- the entry that another test finds stays, or is the one that was changed
  pub findb-update_first_cases :
      (p q : A → Bool) (f : A → A) (xs : List A) (a b : A)
      → findb p xs ≡ some a
      → q (f a) ≡ q a
      → findb q xs ≡ some b
      → (findb q (update_first p f xs) ≡ some b)
        ⊎ ((b ≡ a) × (findb q (update_first p f xs) ≡ some (f a)))
  findb-update_first_cases p q f [] a b found keep h = cc
  findb-update_first_cases p q f (x ∷ xs) a b found keep h =
      grind (arith, findb-update_first_cases p q f xs a b)

  -- an entry that passes is not among those that do not
  pub findb-none : (p : A → Bool) (xs : List A) → anyb p xs ≡ false → findb p xs ≡ none
  findb-none p [] h = refl
  findb-none p (x ∷ xs) h = ground (arith, findb-none p xs)

-- a view of the entries, when the test and the change are those of the view
module _ {ℓ κ} {A : Type ℓ} {B : Type κ} (v : A → B) (p : A → Bool) (q : B → Bool)
    (same : (x : A) → q (v x) ≡ p x) where
  pub map-update_first :
      (f : A → A) (g : B → B) (xs : List A)
      → ((x : A) → v (f x) ≡ g (v x))
      → map v (update_first p f xs) ≡ update_first q g (map v xs)
  map-update_first f g [] change = refl
  map-update_first f g (x ∷ xs) change = elim (Bool-cases (p x)) [
    | inl e ↦ rw e (rw (same x ∙ e) (ap (λ y. y ∷ map v xs) (change x)))
    | inr e ↦ rw e (rw (same x ∙ e) (ap (λ ys. v x ∷ ys) (map-update_first f g xs change)))
  ]

  pub findb-map : (xs : List A) → findb q (map v xs) ≡ Option.map v (findb p xs)
  findb-map [] = refl
  findb-map (x ∷ xs) = elim (Bool-cases (p x)) [
    | inl e ↦ rw e (rw (same x ∙ e) refl)
    | inr e ↦ rw e (rw (same x ∙ e) (findb-map xs))
  ]

  pub anyb-map : (xs : List A) → anyb q (map v xs) ≡ anyb p xs
  anyb-map [] = refl
  anyb-map (x ∷ xs) = rw (same x) (rw (anyb-map xs) refl)

module _ {ℓ κ} {A : Type ℓ} {B : Type κ} where
  pub map-append : (v : A → B) (xs ys : List A) → map v (xs ++ ys) ≡ map v xs ++ map v ys
  map-append v [] ys = refl
  map-append v (x ∷ xs) ys = ap (λ zs. v x ∷ zs) (map-append v xs ys)

-- a change that the view does not show
module _ {ℓ κ} {A : Type ℓ} {B : Type κ} where
  pub map-update_first-id :
      (v : A → B) (p : A → Bool) (f : A → A) (xs : List A)
      → ((x : A) → v (f x) ≡ v x)
      → map v (update_first p f xs) ≡ map v xs
  map-update_first-id v p f [] change = refl
  map-update_first-id v p f (x ∷ xs) change = elim (Bool-cases (p x)) [
    | inl e ↦ rw e (ap (λ y. y ∷ map v xs) (change x))
    | inr e ↦ rw e (ap (λ ys. v x ∷ ys) (map-update_first-id v p f xs change))
  ]
