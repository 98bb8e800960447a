-- ===== src/Blog/Free.antt =====
-- With fewer posts than candidates one candidate is free.
use econmesh_api.Prelude.{
  ℕ, suc, ◌≡◌, ◌≤◌, ◌<◌, ◌⊎◌, refl, sym, ap, ◌∙◌, Bool, true, false, not, ◌&&◌, if◌then◌else◌,
  Option, none, some, List, [], ◌∷◌, ◌++◌, map, anyb, allb, filterb, length, length-map, arith,
  Bool-cases, inl, inr,
}
use mathlib.Core.Path.{subst}
use econmesh_api.Text.{Text, eq_text, eq_text_sound}
use econmesh_api.Service.{Result, ok}
use econmesh_api.Slugify.{slugify}
use econmesh_api.Blog.{
  BlogPostDocument, has_slug, slug_exists, range, number_suffix, first_free, unique_slug,
}

abbrev pub is_distinct : List Text → Bool
is_distinct [] = true
is_distinct (t ∷ ts) = not (anyb (eq_text t) ts) && is_distinct ts

abbrev without : Text → List Text → List Text
without s ts = filterb (λ t. not (eq_text s t)) ts

length-without_none :
    (s : Text) (ts : List Text) → anyb (eq_text s) ts ≡ false → length (without s ts) ≡ length ts
length-without_none s [] h = refl
length-without_none s (t ∷ ts) h = ground (arith, length-without_none s ts)

-- one entry at most goes
length-without :
    (s : Text) (ts : List Text) → is_distinct ts ≡ true → length ts ≤ suc (length (without s ts))
length-without s [] h = omega arith
length-without s (t ∷ ts) h = elim (Bool-cases (eq_text s t)) [
  | inl e ↦ rw e (
      ground (
        arith,
        length-without_none s ts
            (subst (λ u. anyb (eq_text u) ts ≡ false) (sym (eq_text_sound s t e)) (ground arith)),
      ))
  | inr e ↦ rw e (ground (arith, length-without s ts))
]

anyb-filterb :
    (p q : Text → Bool) (ts : List Text) → anyb p ts ≡ false → anyb p (filterb q ts) ≡ false
anyb-filterb p q [] h = refl
anyb-filterb p q (t ∷ ts) h = ground (arith, anyb-filterb p q ts)

is_distinct-without :
    (s : Text) (ts : List Text) → is_distinct ts ≡ true → is_distinct (without s ts) ≡ true
is_distinct-without s [] h = refl
is_distinct-without s (t ∷ ts) h =
    ground (arith, is_distinct-without s ts, anyb-filterb (eq_text t) (λ u. not (eq_text s u)) ts)

-- another slug is taken by another post
has_slug-other :
    (exclude : Option ℕ) (t : Text) (p : BlogPostDocument)
    → eq_text p.slug t ≡ false
    → has_slug exclude t p ≡ false
has_slug-other none t p h = h
has_slug-other (some id) t p h = ground arith

allb-without :
    (exclude : Option ℕ) (p : BlogPostDocument) (ps : List BlogPostDocument) (ts : List Text)
    → allb (slug_exists (p ∷ ps) exclude) ts ≡ true
    → allb (slug_exists ps exclude) (without p.slug ts) ≡ true
allb-without exclude p ps [] h = refl
allb-without exclude p ps (t ∷ ts) h =
    ground (arith, allb-without exclude p ps ts, has_slug-other exclude t p)

-- each of the texts needs a post of its own
length_taken :
    (exclude : Option ℕ) (posts : List BlogPostDocument) (ts : List Text)
    → is_distinct ts ≡ true
    → allb (slug_exists posts exclude) ts ≡ true
    → length ts ≤ length posts
length_taken exclude [] [] d h = omega arith
length_taken exclude [] (t ∷ ts) d h = cc
length_taken exclude (p ∷ ps) ts d h = omega (
  arith,
  length-without p.slug ts d,
  length_taken exclude ps (without p.slug ts) (is_distinct-without p.slug ts d)
      (allb-without exclude p ps ts h),
)

eq_text-append : (b s t : Text) → eq_text (b ++ s) (b ++ t) ≡ eq_text s t
eq_text-append [] s t = refl
eq_text-append (c ∷ b) s t = ground (arith, eq_text-append b s t)

anyb-append :
    (b s : Text) (ts : List Text)
    → anyb (eq_text (b ++ s)) (map (λ t. b ++ t) ts) ≡ anyb (eq_text s) ts
anyb-append b s [] = refl
anyb-append b s (t ∷ ts) = cc (eq_text-append b s t, anyb-append b s ts)

is_distinct-append :
    (b : Text) (ts : List Text) → is_distinct (map (λ t. b ++ t) ts) ≡ is_distinct ts
is_distinct-append b [] = refl
is_distinct-append b (t ∷ ts) = cc (anyb-append b t ts, is_distinct-append b ts)

append_nil : (b : Text) → b ++ [] ≡ b
append_nil [] = refl
append_nil (c ∷ b) = ap (λ t. c ∷ t) (append_nil b)

map-append :
    (b : Text) (f : ℕ → Text) (xs : List ℕ) → map (λ i. b ++ f i) xs ≡ map (λ t. b ++ t) (map f xs)
map-append b f [] = refl
map-append b f (x ∷ xs) = ap (λ ts. (b ++ f x) ∷ ts) (map-append b f xs)

-- everything that is tried
abbrev pub candidates : Text → List Text
candidates b = b ∷ map (λ i. b ++ number_suffix i) (range 2 198)

suffixes_distinct : is_distinct ([] ∷ map number_suffix (range 2 198)) ≡ true
suffixes_distinct = refl

candidates-is_distinct : (b : Text) → is_distinct (candidates b) ≡ true
candidates-is_distinct b =
    ap is_distinct
      (ap (λ c. c ∷ map (λ i. b ++ number_suffix i) (range 2 198)) (sym (append_nil b)))
    ∙ ap (λ ts. is_distinct ((b ++ []) ∷ ts)) (map-append b number_suffix (range 2 198))
    ∙ is_distinct-append b ([] ∷ map number_suffix (range 2 198))
    ∙ suffixes_distinct

length-candidates : (b : Text) → length (candidates b) ≡ 199
length-candidates b = ap suc (length-map (λ i. b ++ number_suffix i) (range 2 198))

-- a text that was returned, and is free
abbrev pub IsFree : (Text → Bool) → Result Text → Type 0
IsFree taken r = (s : Text) × (r ≡ ok s) × (taken s ≡ false)

first_free-IsFree :
    (taken : Text → Bool) (ts : List Text)
    → (allb taken ts ≡ true) ⊎ IsFree taken (first_free taken ts)
unfolding first_free
first_free-IsFree taken [] = inl refl
first_free-IsFree taken (t ∷ ts) = elim (Bool-cases (taken t)) [
  | inl e ↦ elim (first_free-IsFree taken ts) [
    | inl all ↦ inl (rw e all)
    | inr found ↦ inr (found.0, rw e found.1, found.2)
  ]
  | inr e ↦ inr (t, rw e refl, e)
]

-- With fewer than 199 stored posts, _unique_slug returns a slug, and no other stored post has it.
pub unique_slug-IsFree :
    (nfkd : Text → Text) (posts : List BlogPostDocument) (exclude : Option ℕ) (base : Text)
    → length posts < 199
    → IsFree (slug_exists posts exclude) (unique_slug nfkd posts exclude base)
unfolding unique_slug
unique_slug-IsFree nfkd posts exclude base few =
    let b = slugify nfkd 120 base in
    let taken = slug_exists posts exclude in
    elim (first_free-IsFree taken (candidates b)) [
      | inl all ↦ absurd (
          omega (
            arith,
            few,
            length-candidates b,
            length_taken exclude posts (candidates b) (candidates-is_distinct b) all,
          ))
      | inr found ↦ (found.0, same (taken b) b _ ∙ found.1, found.2)
    ]
  where
    same :
        (c : Bool) (b : Text) (r : Result Text)
        → (if not c then ok b else r) ≡ (if c then r else ok b)
    same true b r = refl
    same false b r = refl
