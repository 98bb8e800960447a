-- ===== src/Slugify/Shape.antt =====
-- The shape of every slug.
use econmesh_api.Prelude.{
  ℕ, zero, suc, ◌≡◌, ◌≤◌, refl, Bool, true, false, ◌||◌, [], ◌∷◌, take, length, allb, is_empty,
  ◌==◌, arith, Bool-cases, inl, inr,
}
use econmesh_api.Text.{Text, lower, strip}
use econmesh_api.Slugify.{
  dash, is_alnum, ascii_only, dashed, single_dashes, lstrip_dash, before_stripped, rstrip_dash,
  collapsed, or_post, slugify,
}

-- a character that a slug may have
abbrev pub is_slug_code : ℕ → Bool
is_slug_code c = is_alnum c || c == dash

abbrev pub starts_alnum : Text → Bool
starts_alnum [] = false
starts_alnum (c ∷ s) = is_alnum c

abbrev pub ends_dash : Text → Bool
ends_dash [] = false
ends_dash (c ∷ s) = elim s [ [] ↦ c == dash | d ∷ t ↦ ends_dash s ]

dashed-is_slug_code : (r : Bool) (s : Text) → allb is_slug_code (dashed r s) ≡ true
unfolding dashed
dashed-is_slug_code r [] = refl
dashed-is_slug_code r (c ∷ s) = elim (Bool-cases (is_alnum c)) [
  | inl e ↦ simp (e, dashed-is_slug_code false s)
  | inr e ↦ elim (Bool-cases r) [
    | inl f ↦ simp (e, f, dashed-is_slug_code true s)
    | inr f ↦ simp (e, f, dashed-is_slug_code true s)
  ]
]

single_dashes-is_slug_code :
    (r : Bool) (s : Text)
    → allb is_slug_code s ≡ true
    → allb is_slug_code (single_dashes r s) ≡ true
unfolding single_dashes
single_dashes-is_slug_code r [] h = refl
single_dashes-is_slug_code r (c ∷ s) h = ground (arith, single_dashes-is_slug_code (c == dash) s)

lstrip_dash-is_slug_code :
    (s : Text) → allb is_slug_code s ≡ true → allb is_slug_code (lstrip_dash s) ≡ true
unfolding lstrip_dash
lstrip_dash-is_slug_code [] h = refl
lstrip_dash-is_slug_code (c ∷ s) h = ground (arith, lstrip_dash-is_slug_code s)

-- what is left of a text of such characters begins with a letter or digit
lstrip_dash-starts_alnum :
    (s : Text)
    → allb is_slug_code s ≡ true
    → is_empty (lstrip_dash s) ≡ false
    → starts_alnum (lstrip_dash s) ≡ true
unfolding lstrip_dash
lstrip_dash-starts_alnum [] h ne = cc
lstrip_dash-starts_alnum (c ∷ s) h ne = elim (Bool-cases (c == dash)) [
  | inl e ↦ rw e (lstrip_dash-starts_alnum s (ground arith) (rw e at ne))
  | inr e ↦ rw e (ground arith)
]

before_stripped-is_slug_code :
    (c : ℕ) (t : Text)
    → is_slug_code c ≡ true
    → allb is_slug_code t ≡ true
    → allb is_slug_code (before_stripped c t) ≡ true
before_stripped-is_slug_code c [] own h = ground arith
before_stripped-is_slug_code c (d ∷ t) own h = ground arith

rstrip_dash-is_slug_code :
    (s : Text) → allb is_slug_code s ≡ true → allb is_slug_code (rstrip_dash s) ≡ true
unfolding rstrip_dash
rstrip_dash-is_slug_code [] h = refl
rstrip_dash-is_slug_code (c ∷ s) h =
    before_stripped-is_slug_code c (rstrip_dash s) (ground arith)
      (rstrip_dash-is_slug_code s (ground arith))

before_stripped-starts_alnum :
    (c : ℕ) (t : Text) → is_alnum c ≡ true → starts_alnum (before_stripped c t) ≡ true
before_stripped-starts_alnum c [] h = ground arith
before_stripped-starts_alnum c (d ∷ t) h = h

rstrip_dash-starts_alnum : (s : Text) → starts_alnum s ≡ true → starts_alnum (rstrip_dash s) ≡ true
unfolding rstrip_dash
rstrip_dash-starts_alnum [] h = cc
rstrip_dash-starts_alnum (c ∷ s) h = before_stripped-starts_alnum c (rstrip_dash s) h

length-before_stripped : (c : ℕ) (t : Text) → length (before_stripped c t) ≤ suc (length t)
length-before_stripped c [] = ground arith
length-before_stripped c (d ∷ t) = omega arith

length-rstrip_dash : (s : Text) → length (rstrip_dash s) ≤ length s
unfolding rstrip_dash
length-rstrip_dash [] = omega arith
length-rstrip_dash (c ∷ s) =
    omega (arith, length-before_stripped c (rstrip_dash s), length-rstrip_dash s)

ends_dash-before_stripped :
    (c : ℕ) (t : Text) → ends_dash t ≡ false → ends_dash (before_stripped c t) ≡ false
ends_dash-before_stripped c [] h = ground arith
ends_dash-before_stripped c (d ∷ t) h = h

ends_dash-rstrip_dash : (s : Text) → ends_dash (rstrip_dash s) ≡ false
unfolding rstrip_dash
ends_dash-rstrip_dash [] = refl
ends_dash-rstrip_dash (c ∷ s) =
    ends_dash-before_stripped c (rstrip_dash s) (ends_dash-rstrip_dash s)

rstrip_dash-is_empty : (s : Text) → is_empty (rstrip_dash s) ≡ false → is_empty s ≡ false
unfolding rstrip_dash
rstrip_dash-is_empty [] h = h
rstrip_dash-is_empty (c ∷ s) h = refl

take-is_slug_code :
    (n : ℕ) (s : Text) → allb is_slug_code s ≡ true → allb is_slug_code (take n s) ≡ true
take-is_slug_code zero s h = refl
take-is_slug_code (suc n) [] h = refl
take-is_slug_code (suc n) (c ∷ s) h = ground (arith, take-is_slug_code n s)

take-starts_alnum :
    (n : ℕ) (s : Text) → starts_alnum s ≡ true → starts_alnum (take (suc n) s) ≡ true
take-starts_alnum n [] h = h
take-starts_alnum n (c ∷ s) h = h

length-take : (n : ℕ) (s : Text) → length (take n s) ≤ n
length-take zero s = omega arith
length-take (suc n) [] = omega arith
length-take (suc n) (c ∷ s) = omega (arith, length-take n s)

-- what is cut comes from a text that has the shape already
collapsed-starts_alnum :
    (nfkd : Text → Text) (value : Text)
    → is_empty (collapsed nfkd value) ≡ false
    → starts_alnum (collapsed nfkd value) ≡ true
unfolding collapsed
collapsed-starts_alnum nfkd value h =
    let lowered = strip (lower (ascii_only (nfkd value))) in
    let single = single_dashes false (dashed false lowered) in
    rstrip_dash-starts_alnum (lstrip_dash single) (
      lstrip_dash-starts_alnum single
        (single_dashes-is_slug_code false (dashed false lowered)
          (dashed-is_slug_code false lowered))
        (rstrip_dash-is_empty (lstrip_dash single) h))

collapsed-is_slug_code :
    (nfkd : Text → Text) (value : Text) → allb is_slug_code (collapsed nfkd value) ≡ true
unfolding collapsed
collapsed-is_slug_code nfkd value =
    let lowered = strip (lower (ascii_only (nfkd value))) in
    let single = single_dashes false (dashed false lowered) in
    rstrip_dash-is_slug_code (lstrip_dash single) (
      lstrip_dash-is_slug_code single (
        single_dashes-is_slug_code false (dashed false lowered)
          (dashed-is_slug_code false lowered)))

or_post-starts_alnum :
    (s : Text) → (is_empty s ≡ false → starts_alnum s ≡ true) → starts_alnum (or_post s) ≡ true
or_post-starts_alnum [] h = refl
or_post-starts_alnum (c ∷ s) h = h refl

or_post-is_slug_code :
    (s : Text) → allb is_slug_code s ≡ true → allb is_slug_code (or_post s) ≡ true
or_post-is_slug_code [] h = refl
or_post-is_slug_code (c ∷ s) h = h

-- Of every value, slugify with a positive maximal length makes a slug of at most this length that has
-- only small letters, digits and dashes, begins with a letter or a digit, and does not end in a dash.
pub slugify_lem :
    (nfkd : Text → Text) (n : ℕ) (value : Text)
    → (allb is_slug_code (slugify nfkd (suc n) value) ≡ true)
      × (starts_alnum (slugify nfkd (suc n) value) ≡ true)
      × (ends_dash (slugify nfkd (suc n) value) ≡ false)
      × (length (slugify nfkd (suc n) value) ≤ suc n)
unfolding slugify
slugify_lem nfkd n value =
    let whole = or_post (collapsed nfkd value) in
    let cut = take (suc n) whole in
    (
      rstrip_dash-is_slug_code cut (
          take-is_slug_code (suc n) whole
            (or_post-is_slug_code (collapsed nfkd value) (collapsed-is_slug_code nfkd value))),
      rstrip_dash-starts_alnum cut (
          take-starts_alnum n whole
            (or_post-starts_alnum (collapsed nfkd value) (collapsed-starts_alnum nfkd value))),
      ends_dash-rstrip_dash cut,
      omega (arith, length-rstrip_dash cut, length-take (suc n) whole),
    )
