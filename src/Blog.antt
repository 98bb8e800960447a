-- ===== src/Blog.antt =====
-- The slugs of blog posts: `_unique_slug` of src/modules/blog/service.py, on the stored posts.
pub mod Free
mod Samples
use econmesh_api.Prelude.{
  ℕ, zero, suc, ◌+◌, ◌/◌, ◌%◌, ◌≡◌, Bool, true, false, not, ◌&&◌, if◌then◌else◌, Option, none, some,
  List, [], ◌∷◌, ◌++◌, map, anyb, ltb, ◌==◌,
}
use econmesh_api.Text.{Text, codes, eq_text}
use econmesh_api.Service.{Result, ok, err, conflict}
use econmesh_api.Slugify.{slugify}

-- `BlogPostDocument`, as far as the slugs go
pub record BlogPostDocument : Type 0 where
  pub id : ℕ
  pub slug : Text

-- `{"slug": slug}` and, with an `exclude_id`, `{"_id": {"$ne": exclude_id}}`
abbrev pub has_slug : Option ℕ → Text → BlogPostDocument → Bool
has_slug none slug post = eq_text post.slug slug
has_slug (some id) slug post = eq_text post.slug slug && not (post.id == id)

abbrev pub slug_exists : List BlogPostDocument → Option ℕ → Text → Bool
slug_exists posts exclude slug = anyb (has_slug exclude slug) posts

-- `str(i)` of a number of at most three digits
abbrev pub print_number : ℕ → Text
print_number i =
    if ltb i 10
    then (48 + i) ∷ []
    else if ltb i 100
    then (48 + i / 10) ∷ (48 + i % 10) ∷ []
    else (48 + i / 100) ∷ (48 + i / 10 % 10) ∷ (48 + i % 10) ∷ []

-- `range(start, start + n)`
abbrev pub range : ℕ → ℕ → List ℕ
range start zero = []
range start (suc n) = start ∷ range (start + 1) n

-- what the loop puts behind the slug, `-{i}`
abbrev pub number_suffix : ℕ → Text
number_suffix i = 45 ∷ print_number i

-- the loop
pub first_free : (taken : Text → Bool) → List Text → Result Text
first_free taken [] = err (conflict "Unable to allocate a unique slug.")
first_free taken (slug ∷ slugs) =
    let rest = first_free taken slugs in if taken slug then rest else ok slug

unfoldable pub unique_slug :
    (nfkd : Text → Text) → List BlogPostDocument → (exclude : Option ℕ) → Text → Result Text
unfolding first_free
unique_slug nfkd posts exclude base =
    let candidate = slugify nfkd 120 base in
    let numbered =
      first_free (slug_exists posts exclude)
        (map (λ i. candidate ++ number_suffix i) (range 2 198)) in
    if not (slug_exists posts exclude candidate) then ok candidate else numbered
