-- ===== src/Prelude/Sorting.antt =====
-- `sorted(xs, key=key)` puts no entry behind a greater one, and keeps every entry.
use Prim.Native.Nat.{ℕ, ◌≤◌}
use mathlib.Core.Path.{◌≡◌}
use mathlib.Core.Logic.{inl, inr}
use mathlib.Core.Bool.{false}
use mathlib.Core.List.{List, [], ◌∷◌}
use native.Mathlib.Omega.{arith}
use native.Mathlib.Nat.{le_trans}
use econmesh_api.Prelude.Tests.{leb, leb→le, Bool-cases}
use econmesh_api.Prelude.Lists.{All, insert_by, sort_by}

module _ {ℓ} {A : Type ℓ} (key : A → ℕ) where
  abbrev pub IsSortedBy : List A → Type ℓ
  IsSortedBy [] = Unit
  IsSortedBy (x ∷ xs) = All (λ y. key x ≤ key y) xs × IsSortedBy xs

module _ {ℓ κ} {A : Type ℓ} (P : A → Type κ) (key : A → ℕ) where
  pub All-insert_by : (x : A) (ys : List A) → P x → All P ys → All P (insert_by key x ys)
  All-insert_by x [] px h = (px, tt)
  All-insert_by x (y ∷ ys) px h = elim (Bool-cases (leb (key x) (key y))) [
    | inl e ↦ rw e (px, (h.0, h.1))
    | inr e ↦ rw e (h.0, All-insert_by x ys px h.1)
  ]

  pub All-sort_by : (xs : List A) → All P xs → All P (sort_by key xs)
  All-sort_by [] h = tt
  All-sort_by (x ∷ xs) h = All-insert_by x (sort_by key xs) h.0 (All-sort_by xs h.1)

  All-of-insert_by : (x : A) (ys : List A) → All P (insert_by key x ys) → P x × All P ys
  All-of-insert_by x [] h = h
  All-of-insert_by x (y ∷ ys) h = elim (Bool-cases (leb (key x) (key y))) [
    | inl e ↦ let k : All P (x ∷ y ∷ ys) = rw e at h in (k.0, k.1)
    | inr e ↦
        let k : All P (y ∷ insert_by key x ys) = rw e at h in
        let r = All-of-insert_by x ys k.1 in (r.0, (k.0, r.1))
  ]

  pub All-of-sort_by : (xs : List A) → All P (sort_by key xs) → All P xs
  All-of-sort_by [] h = tt
  All-of-sort_by (x ∷ xs) h =
      let r = All-of-insert_by x (sort_by key xs) h in (r.0, All-of-sort_by xs r.1)

module _ {ℓ} {A : Type ℓ} (key : A → ℕ) where
  All-le_trans : (a b : ℕ) (ys : List A) → a ≤ b → All (λ y. b ≤ key y) ys → All (λ y. a ≤ key y) ys
  All-le_trans a b [] h all = tt
  All-le_trans a b (y ∷ ys) h all = (le_trans h all.0, All-le_trans a b ys h all.1)

  insert_by-IsSortedBy :
      (x : A) (ys : List A) → IsSortedBy key ys → IsSortedBy key (insert_by key x ys)
  insert_by-IsSortedBy x [] h = (tt, tt)
  insert_by-IsSortedBy x (y ∷ ys) h = elim (Bool-cases (leb (key x) (key y))) [
    | inl e ↦ rw e (
      (leb→le (key x) (key y) e, All-le_trans (key x) (key y) ys (leb→le (key x) (key y) e) h.0),
      (h.0, h.1),
    )
    | inr e ↦
        rw e (
          All-insert_by (λ z. key y ≤ key z) key x ys (greater e) h.0,
          insert_by-IsSortedBy x ys h.1,
        )
  ]
    where
      greater : leb (key x) (key y) ≡ false → key y ≤ key x
      greater e = ground arith

  pub sort_by-IsSortedBy : (xs : List A) → IsSortedBy key (sort_by key xs)
  sort_by-IsSortedBy [] = tt
  sort_by-IsSortedBy (x ∷ xs) = insert_by-IsSortedBy x (sort_by key xs) (sort_by-IsSortedBy xs)
