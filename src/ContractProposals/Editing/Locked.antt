-- ===== src/ContractProposals/Editing/Locked.antt =====
-- The answer of `_normalize_sections` has the locked sections as they were.
use econmesh_api.Prelude.{
  ℕ, ◌+◌, ◌≡◌, refl, ap, ◌∙◌, Bool, true, false, ◌&&◌, ◌||◌, Option, none, some, List, [], ◌∷◌,
  ◌==◌, ==_iff, arith, if◌then◌else◌, anyb, All, Bool-cases, inl, inr,
}
use mathlib.Core.Path.{subst}
use econmesh_api.Text.{eq_text, eq_text_refl}
use econmesh_api.Service.{AppException, Result, ok, err}
use econmesh_api.ContractProposals.Model.{ProposalSection}
use econmesh_api.ContractProposals.Editing.{
  ProposalSectionInput, section_by_id, previous, is_locked, has_section_id, is_missing_locked,
  kept_section, locked_previous, section_for, chosen, normalized, normalize_sections,
}

-- the same section with the same title and content
abbrev pub is_same_section : ProposalSection → ProposalSection → Bool
is_same_section s t =
    t.id == s.id && eq_text t.title s.title && eq_text t.content_html s.content_html

-- no two sections of one identifier
abbrev pub HasDistinctIds : List ProposalSection → Type 0
HasDistinctIds [] = Unit
HasDistinctIds (s ∷ ss) = (anyb (λ t. t.id == s.id) ss ≡ false) × HasDistinctIds ss

section_by_id-none :
    (id : ℕ) (ss : List ProposalSection)
    → anyb (λ t. t.id == id) ss ≡ false
    → section_by_id id ss ≡ none
unfolding section_by_id
section_by_id-none id [] h = refl
section_by_id-none id (s ∷ ss) h = ground (arith, section_by_id-none id ss)

Finds : List ProposalSection → ProposalSection → Type 0
Finds ss s = section_by_id s.id ss ≡ some s

Finds-weaken :
    (t : ProposalSection) (ss us : List ProposalSection)
    → All (Finds ss) us
    → All (Finds (t ∷ ss)) us
unfolding Finds section_by_id
Finds-weaken t ss [] h = tt
Finds-weaken t ss (u ∷ us) h = (rw h.0 refl, Finds-weaken t ss us h.1)

-- every section is found by its identifier
HasDistinctIds-Finds : (ss : List ProposalSection) → HasDistinctIds ss → All (Finds ss) ss
unfolding Finds section_by_id
HasDistinctIds-Finds [] h = tt
HasDistinctIds-Finds (s ∷ ss) h = (
  rw (section_by_id-none s.id ss h.0) (own s),
  Finds-weaken s ss ss (HasDistinctIds-Finds ss h.1),
)
  where
    own : (s : ProposalSection) → (if s.id == s.id then some s else none) ≡ some s
    own s = ground arith

kept_section-is_same_section :
    (s : ProposalSection) (item : ProposalSectionInput) (idx : ℕ)
    → is_same_section s (kept_section s item idx) ≡ true
unfolding kept_section
kept_section-is_same_section s item idx = elim (Bool-cases s.is_core) [
  | inl e ↦ simp (e, own s.id, eq_text_refl s.title, eq_text_refl s.content_html)
  | inr e ↦ simp (e, own s.id, eq_text_refl s.title, eq_text_refl s.content_html)
]
  where
    own : (n : ℕ) → (n == n) ≡ true
    own n = ground arith

unlock : (s : ProposalSection) → is_locked s ≡ true → locked_previous (some s) ≡ some s
unfolding locked_previous
unlock s h = ap (λ b. if b then some s else none) h

-- the round of a locked section
section_for_kept :
    (existing : List ProposalSection) (s : ProposalSection) (item : ProposalSectionInput)
    (idx fresh : ℕ)
    → item.id ≡ some s.id
    → section_by_id s.id existing ≡ some s
    → is_locked s ≡ true
    → (section_for existing item idx fresh).0 ≡ kept_section s item idx
unfolding section_for
section_for_kept existing s item idx fresh same found locked =
    ap (λ o. (chosen o (previous item.id existing) item idx fresh).0)
      (ap (λ o. locked_previous (previous o existing)) same
        ∙ ap locked_previous found
        ∙ unlock s locked)

has_section_id-some :
    (id : ℕ) (item : ProposalSectionInput) → has_section_id id item ≡ true → item.id ≡ some id
has_section_id-some id item h = go item.id h
  where
    go :
        (o : Option ℕ)
        → elim o as (λ _. Bool) [ none ↦ false | some i ↦ i == id ] ≡ true
        → o ≡ some id
    go none e = cc
    go (some i) e = ap some ((==_iff i id).0 e)

-- an edit that names a locked section has it in the answer
normalized_keeps :
    (existing : List ProposalSection) (s : ProposalSection) (idx fresh : ℕ)
    (items : List ProposalSectionInput)
    → section_by_id s.id existing ≡ some s
    → is_locked s ≡ true
    → anyb (has_section_id s.id) items ≡ true
    → anyb (is_same_section s) (normalized existing idx fresh items) ≡ true
unfolding normalized
normalized_keeps existing s idx fresh [] found locked h = cc
normalized_keeps existing s idx fresh (item ∷ items) found locked h =
    elim (Bool-cases (has_section_id s.id item)) [
      | inl e ↦ here _ (
          ap (is_same_section s) (
            section_for_kept existing s item idx fresh (has_section_id-some s.id item e) found
              locked)
          ∙ kept_section-is_same_section s item idx)
      | inr e ↦ there _ (normalized_keeps existing s (idx + 1) _ items found locked (rest e h))
    ]
  where
    here : {a : Bool} (b : Bool) → a ≡ true → (a || b) ≡ true
    here b e = cc

    there : (a : Bool) {b : Bool} → b ≡ true → (a || b) ≡ true
    there a e = ground arith

    rest : {a b : Bool} → a ≡ false → (a || b) ≡ true → b ≡ true
    rest e h = cc

-- what the guards leave: every locked section is among those of the edit
none_missing :
    (items : List ProposalSectionInput) (s : ProposalSection)
    → is_missing_locked items s ≡ false
    → is_locked s ≡ true
    → anyb (has_section_id s.id) items ≡ true
none_missing items s h locked = ground arith

locked_stay :
    (items : List ProposalSectionInput) (existing : List ProposalSection) (fresh : ℕ)
    (ss : List ProposalSection)
    → All (Finds existing) ss
    → anyb (is_missing_locked items) ss ≡ false
    → All
        (λ s.
          is_locked s ≡ true → anyb (is_same_section s) (normalized existing 0 fresh items) ≡ true)
        ss
unfolding Finds
locked_stay items existing fresh [] found h = tt
locked_stay items existing fresh (s ∷ ss) found h =
    let (own, rest) =
      both_false (is_missing_locked items s) (anyb (is_missing_locked items) ss) h in
    (
      λ locked.
          normalized_keeps existing s 0 fresh items found.0 locked
            (none_missing items s own locked),
      locked_stay items existing fresh ss found.1 rest,
    )
  where
    both_false : (a b : Bool) → (a || b) ≡ false → (a ≡ false) × (b ≡ false)
    both_false a b e = ground arith

-- When _normalize_sections succeeds, and the stored sections have distinct identifiers, its answer has
-- every locked section with its identifier, title and content: a core section, and one of the
-- administrator that the company may not edit.
pub normalize_sections_keeps_locked :
    (items : List ProposalSectionInput) (existing : List ProposalSection) (fresh : ℕ)
    (sections : List ProposalSection)
    → HasDistinctIds existing
    → normalize_sections items existing fresh ≡ ok sections
    → All (λ s. is_locked s ≡ true → anyb (is_same_section s) sections ≡ true) existing
unfolding normalize_sections
normalize_sections_keeps_locked items existing fresh sections distinct h =
    let (whole, same) = passed _ _ _ _ h in
    subst (λ ss. All (λ s. is_locked s ≡ true → anyb (is_same_section s) ss ≡ true) existing) same
      (locked_stay items existing fresh existing (HasDistinctIds-Finds existing distinct) whole)
  where
    value : Result (List ProposalSection) → List ProposalSection
    value (ok ss) = ss
    value (err e) = []

    passed :
        (a b : Bool) (e f : AppException) {ss ts : List ProposalSection}
        → (if a then err e else if b then err f else ok ss) ≡ ok ts
        → (b ≡ false) × (ss ≡ ts)
    passed true b e f h = cc
    passed false true e f h = cc
    passed false false e f h = (refl, ap value h)
