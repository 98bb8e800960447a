-- ===== src/ContractProposals/Titles.antt =====
-- src/modules/contract_proposals/core_sections.py: the titles of the fixed sections.
use econmesh_api.Prelude.{
  ℕ, ◌≡◌, refl, Bool, true, false, ◌||◌, Option, none, some, List, [], ◌∷◌, if◌then◌else◌,
  Bool-cases, inl, inr, All, ◌∙◌,
}
use mathlib.Core.Path.{subst}
use mathlib.Core.Option.{some-injective}
use econmesh_api.Text.{Text, codes, eq_text, lower, strip}

-- `CORE_SECTION_DEFINITIONS`: the titles with their places
abbrev pub core_section_definitions : List (Text × ℕ)
core_section_definitions =
    (codes "Das Partes", 0)
    ∷ (codes "Do Objeto", 1)
    ∷ (codes "Do Valor", 2)
    ∷ (codes "Do Prazo", 3)
    ∷ []

-- `FORO_SECTION_DEFINITION["title"]`
abbrev pub foro_title : Text
foro_title = codes "Do Foro"

-- `_CORE_TITLE_ALIASES`
abbrev core_title_aliases : List (Text × Text)
core_title_aliases =
    (codes "das partes", codes "Das Partes")
    ∷ (codes "objeto", codes "Do Objeto")
    ∷ (codes "do objeto", codes "Do Objeto")
    ∷ (codes "valor", codes "Do Valor")
    ∷ (codes "do valor", codes "Do Valor")
    ∷ (codes "prazo", codes "Do Prazo")
    ∷ (codes "do prazo", codes "Do Prazo")
    ∷ []

-- a lookup by a text
abbrev lookup_text {ℓ} : {A : Type ℓ} → Text → List (Text × A) → Option A
lookup_text key [] = none
lookup_text key ((k, v) ∷ rest) =
    let later = lookup_text key rest in if eq_text key k then some v else later

-- the loop over the definitions
abbrev by_title : Text → List (Text × ℕ) → Option Text
by_title key [] = none
by_title key ((t, n) ∷ rest) =
    let later = by_title key rest in if eq_text (lower t) key then some t else later

unfoldable pub normalize_core_title : Text → Option Text
normalize_core_title title =
    let key = lower (strip title) in
    elim (lookup_text key core_title_aliases) [
      | some t ↦ some t
      | none ↦ by_title key core_section_definitions
    ]

pub core_title_sort_order : Text → Option ℕ
core_title_sort_order title = elim (normalize_core_title title) [
  | none ↦ none
  | some t ↦ lookup_text t core_section_definitions
]

-- `_FORO_TITLE_ALIASES`, and the title itself
unfoldable pub is_foro_title : Text → Bool
is_foro_title title =
    let key = lower (strip title) in
    eq_text key (codes "foro") || eq_text key (codes "do foro") || eq_text key (lower foro_title)

unfoldable pub normalize_foro_title : Text → Option Text
normalize_foro_title title = if is_foro_title title then some foro_title else none

-- The closing section has a title of its own, and no core title is one of its names.
pub foro_title_is_foro : is_foro_title foro_title ≡ true
unfolding is_foro_title lower strip
foro_title_is_foro = refl

lookup_text-All :
    (P : Text → Type 0) (key : Text) (rows : List (Text × Text)) (t : Text)
    → All (λ r. P r.1) rows
    → lookup_text key rows ≡ some t
    → P t
lookup_text-All P key [] t h e = cc
lookup_text-All P key ((k, v) ∷ rows) t h e = elim (Bool-cases (eq_text key k)) [
  | inl m ↦ subst P (some-injective _ _ (rw m at e)) h.0
  | inr m ↦ lookup_text-All P key rows t h.1 (rw m at e)
]

by_title-All :
    (P : Text → Type 0) (key : Text) (rows : List (Text × ℕ)) (t : Text)
    → All (λ r. P r.0) rows
    → by_title key rows ≡ some t
    → P t
by_title-All P key [] t h e = cc
by_title-All P key ((k, v) ∷ rows) t h e = elim (Bool-cases (eq_text (lower k) key)) [
  | inl m ↦ subst P (some-injective _ _ (rw m at e)) h.0
  | inr m ↦ by_title-All P key rows t h.1 (rw m at e)
]

abbrev NotForo : Text → Type 0
NotForo t = is_foro_title t ≡ false

-- No title of a core section is a name of the closing section.
pub normalize_core_title-not-foro :
    (title t : Text) → normalize_core_title title ≡ some t → is_foro_title t ≡ false
unfolding normalize_core_title is_foro_title lower strip
normalize_core_title-not-foro title t e =
    go (lookup_text (lower (strip title)) core_title_aliases) refl e
  where
    go :
        (o : Option Text)
        → lookup_text (lower (strip title)) core_title_aliases ≡ o
        → (elim o as (λ _. Option Text) [
          | some v ↦ some v
          | none ↦ by_title (lower (strip title)) core_section_definitions
        ])
          ≡ some t
        → NotForo t
    go none m k =
        by_title-All NotForo (lower (strip title)) core_section_definitions t
          (refl, (refl, (refl, (refl, tt)))) k
    go (some v) m k =
        lookup_text-All NotForo (lower (strip title)) core_title_aliases t
          (refl, (refl, (refl, (refl, (refl, (refl, (refl, tt))))))) (m ∙ k)
