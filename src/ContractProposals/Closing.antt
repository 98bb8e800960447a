-- ===== src/ContractProposals/Closing.antt =====
-- The closing section (foro) after `add_missing_admin_sections`
-- (src/modules/contract_proposals/section_sync.py).
use econmesh_api.Prelude.{
  ℕ, suc, ◌+◌, ◌≡◌, refl, ap, ◌∙◌, Bool, true, false, not, ◌&&◌, ◌||◌, List, [], ◌∷◌, ◌++◌,
  if◌then◌else◌, length, filterb, anyb, take, is_empty, Bool-cases, inl, inr, All,
  anyb_append_right, arith, ◌==◌, ==_iff, ◌≤◌, ◌⊎◌, ◌≢◌, Option, none, some,
}
use mathlib.Core.Option.{some-injective}
use econmesh_api.Text.{Text}
use econmesh_api.ContractProposals.Model.{
  ProposalSection, ContractProposalDocument, ContractSectionTemplateDocument, is_negotiating,
}
use econmesh_api.ContractProposals.Titles.{is_foro_title, normalize_foro_title, foro_title_is_foro}
use econmesh_api.ContractProposals.Sync.{
  SectionGroups, is_closing, is_core_section, is_template_section, as_closing, place,
  group_sections, order_body, number_from, new_sections, all_unchanged, reorder_proposal_sections,
  by_template,
}
use econmesh_api.ContractProposals.Templates.{
  next_order, ensure_foro_section, sections_of, is_missing, add_missing_admin_sections,
  remove_template_section,
}
use econmesh_api.ContractProposals.Order.{
  IsNumbered, IsClosedLast, reorder_proposal_sections-IsClosedLast,
}

abbrev pub is_foro : ProposalSection → Bool
is_foro s = is_foro_title s.title

as_closing-foro : (s : ProposalSection) → is_foro (as_closing s) ≡ true
unfolding normalize_foro_title
as_closing-foro s = elim (Bool-cases (is_foro_title s.title)) [
  | inl e ↦ rw e foro_title_is_foro
  | inr e ↦ rw e foro_title_is_foro
]

-- a section with a name of the closing one is put with the closing ones
foro-closing : (s : ProposalSection) → is_foro s ≡ true → is_closing s ≡ true
unfolding normalize_foro_title
foro-closing s e = rw e refl

-- the closing group: all have the name, and it is not empty when a section had
abbrev Closes : List ProposalSection → List ProposalSection → Type 0
Closes ss fs = All (λ f. is_foro f ≡ true) fs × (anyb is_foro ss ≡ true → is_empty fs ≡ false)

place-foro :
    (s : ProposalSection) (g : SectionGroups)
    → (place s g).foro ≡ (if is_closing s then as_closing s ∷ g.foro else g.foro)
unfolding place
place-foro s g = elim (Bool-cases (is_closing s)) [
  | inl c ↦ rw c refl
  | inr c ↦ elim (Bool-cases (is_core_section s)) [
    | inl k ↦ rw (c, k) refl
    | inr k ↦ elim (Bool-cases (is_template_section s)) [
      | inl t ↦ rw (c, k, t) refl
      | inr t ↦ rw (c, k, t) refl
    ]
  ]
]

group_sections-foro : (ss : List ProposalSection) → Closes ss (group_sections ss).foro
unfolding group_sections
group_sections-foro [] = (tt, λ e. cc)
group_sections-foro (s ∷ ss) =
    let (all_foro, kept) = group_sections-foro ss in
    rw (place-foro s (group_sections ss)) (elim (Bool-cases (is_closing s)) [
      | inl c ↦ rw c ((as_closing-foro s, all_foro), λ _. refl)
      | inr c ↦ rw c (all_foro, λ e. kept (later c e))
    ])
  where
    later : is_closing s ≡ false → anyb is_foro (s ∷ ss) ≡ true → anyb is_foro ss ≡ true
    later c e = elim (Bool-cases (is_foro s)) [
      | inl f ↦ absurd (clash c (foro-closing s f))
      | inr f ↦ rw f at e
    ]
      where
        clash : {b : Bool} → b ≡ false → b ≡ true → ⊥
        clash p q = cc

first_foro :
    (fs : List ProposalSection)
    → All (λ f. is_foro f ≡ true) fs
    → is_empty fs ≡ false
    → anyb is_foro (take 1 fs) ≡ true
first_foro [] h e = cc
first_foro (f ∷ fs) h e = rw h.0 refl

number_from-foro :
    (n : ℕ) (ss : List ProposalSection) → anyb is_foro (number_from n ss) ≡ anyb is_foro ss
unfolding number_from
number_from-foro n [] = refl
number_from-foro n (s ∷ ss) = ap (λ b. is_foro s || b) (number_from-foro (suc n) ss)

-- The order of the sections keeps a closing section.
reorder-foro :
    (templates : List ContractSectionTemplateDocument) (doc : ContractProposalDocument)
    → anyb is_foro doc.sections ≡ true
    → anyb is_foro (reorder_proposal_sections templates doc).1.sections ≡ true
unfolding reorder_proposal_sections new_sections
reorder-foro templates doc h = elim (Bool-cases (is_negotiating doc.status)) [
  | inr n ↦ rw n h
  | inl n ↦ elim (Bool-cases (all_unchanged doc.sections (new_sections templates doc.sections))) [
    | inl same ↦ rw (n, same) h
    | inr other ↦
        rw (n, other)
          (number_from-foro 0 _
            ∙ anyb_append_right is_foro (order_body templates (group_sections doc.sections)) _ (
                first_foro _ (group_sections-foro doc.sections).0
                  ((group_sections-foro doc.sections).1 h)))
  ]
]

reorder-status :
    (templates : List ContractSectionTemplateDocument) (doc : ContractProposalDocument)
    → (reorder_proposal_sections templates doc).1.status ≡ doc.status
unfolding reorder_proposal_sections
reorder-status templates doc = elim (Bool-cases (is_negotiating doc.status)) [
  | inr n ↦ rw n refl
  | inl n ↦ elim (Bool-cases (all_unchanged doc.sections (new_sections templates doc.sections))) [
    | inl same ↦ rw (n, same) refl
    | inr other ↦ rw (n, other) refl
  ]
]

-- what the synchronisation promises of the sections
abbrev pub IsClosed : List ProposalSection → Type 0
IsClosed ss = IsNumbered ss 0 × IsClosedLast ss × (anyb is_foro ss ≡ true)

module _ (foro_html : ContractProposalDocument → Text) where
  -- a draft with a closing section is left as it is
  ensure-present :
      (fresh : ℕ) (doc : ContractProposalDocument)
      → anyb is_foro doc.sections ≡ true
      → ensure_foro_section foro_html fresh doc ≡ (false, doc)
  unfolding ensure_foro_section
  ensure-present fresh doc h = elim (Bool-cases (is_negotiating doc.status)) [
    | inl n ↦ rw (n, h) refl
    | inr n ↦ rw n refl
  ]

  -- another one under negotiation gets one
  ensure-absent :
      (fresh : ℕ) (doc : ContractProposalDocument)
      → is_negotiating doc.status ≡ true
      → anyb is_foro doc.sections ≡ false
      → ((ensure_foro_section foro_html fresh doc).0 ≡ true)
        × ((ensure_foro_section foro_html fresh doc).1.status ≡ doc.status)
        × (anyb is_foro (ensure_foro_section foro_html fresh doc).1.sections ≡ true)
  unfolding ensure_foro_section
  ensure-absent fresh doc n h =
      rw (n, h) (refl, refl, anyb_append_right is_foro doc.sections _ (rw foro_title_is_foro refl))

  -- the end of the synchronisation
  abbrev finish :
      ℕ → List ContractSectionTemplateDocument → ContractProposalDocument → ContractProposalDocument
  finish fresh templates doc =
      let (closed, doc') = ensure_foro_section foro_html fresh doc in
      if closed then (reorder_proposal_sections templates doc').1 else doc'

  finish-IsClosed :
      (fresh : ℕ) (templates : List ContractSectionTemplateDocument)
      (doc : ContractProposalDocument)
      → is_negotiating doc.status ≡ true
      → IsNumbered doc.sections 0
      → IsClosedLast doc.sections
      → IsClosed (finish fresh templates doc).sections
  finish-IsClosed fresh templates doc n numbered last =
      elim (Bool-cases (anyb is_foro doc.sections)) [
        | inl has ↦ rw (ensure-present fresh doc has) (numbered, last, has)
        | inr lacks ↦
            let (added, same_status, present) = ensure-absent fresh doc n lacks in
            let doc' = (ensure_foro_section foro_html fresh doc).1 in
            let (numbered', last') =
              reorder_proposal_sections-IsClosedLast templates doc'
                (ap is_negotiating same_status ∙ n) in
            rw added (numbered', last', reorder-foro templates doc' present)
      ]

  -- After the synchronisation of a draft under negotiation its sections are numbered from 0 in their
  -- order, and the last of them, and no other, has a name of the closing section.
  pub add_missing_admin_sections-IsClosed :
      (fresh : ℕ) (templates : List ContractSectionTemplateDocument)
      (doc : ContractProposalDocument)
      → is_negotiating doc.status ≡ true
      → IsClosed (add_missing_admin_sections foro_html fresh templates doc).1.sections
  unfolding add_missing_admin_sections
  add_missing_admin_sections-IsClosed fresh templates doc n =
      let added =
        sections_of fresh (next_order doc.sections) (filterb (is_missing doc.sections) templates) in
      let doc1 : ContractProposalDocument = record doc { sections = doc.sections ++ added } in
      let doc2 = (reorder_proposal_sections templates doc1).1 in
      let (numbered, last) = reorder_proposal_sections-IsClosedLast templates doc1 n in
      let done =
        finish-IsClosed (fresh + length added) templates doc2
          (ap is_negotiating (reorder-status templates doc1) ∙ n) numbered last in
      elim (Bool-cases (ensure_foro_section foro_html (fresh + length added) doc2).0) [
        | inl c ↦ rw (n, c) (rw c at done)
        | inr c ↦ rw (n, c) (rw c at done)
      ]

-- a section that an administrator manages, made from the template
abbrev pub is_of : ℕ → ProposalSection → Bool
is_of id s = s.is_admin_managed && by_template id s

-- The sections before and after the removal of those of a template: each of them is taken out, and the
-- others stay, unchanged and in their order.
pub data Taken (id : ℕ) : List ProposalSection → List ProposalSection → Type 0 where
  none_left : Taken id [] []
  takes :
      {s : ProposalSection} {before after : List ProposalSection}
      → s.is_admin_managed ≡ true
      → s.template_id ≡ some id
      → Taken id before after
      → Taken id (s ∷ before) after
  leaves :
      {s : ProposalSection} {before after : List ProposalSection}
      → (s.is_admin_managed ≡ false) ⊎ (s.template_id ≢ some id)
      → Taken id before after
      → Taken id (s ∷ before) (s ∷ after)

is_of-some : (id : ℕ) (s : ProposalSection) → by_template id s ≡ true → s.template_id ≡ some id
is_of-some id s h = go s.template_id h
  where
    go :
        (o : Option ℕ)
        → elim o as (λ _. Bool) [ none ↦ false | some t ↦ t == id ] ≡ true
        → o ≡ some id
    go none e = cc
    go (some t) e = ap some ((==_iff t id).0 e)

some-by_template :
    (id : ℕ) (s : ProposalSection) → s.template_id ≡ some id → by_template id s ≡ true
some-by_template id s h = go s.template_id h
  where
    go :
        (o : Option ℕ)
        → o ≡ some id
        → elim o as (λ _. Bool) [ none ↦ false | some t ↦ t == id ] ≡ true
    go none e = cc
    go (some t) e = (==_iff t id).1 (some-injective _ _ e)

stays_in :
    (id : ℕ) (s : ProposalSection)
    → is_of id s ≡ false
    → (s.is_admin_managed ≡ false) ⊎ (s.template_id ≢ some id)
stays_in id s h = elim (Bool-cases s.is_admin_managed) [
  | inl e ↦ inr (λ same. clash (some-by_template id s same) (rw e at h))
  | inr e ↦ inl e
]
  where
    clash : {b : Bool} → b ≡ true → b ≡ false → ⊥
    clash p q = cc

filterb-Taken :
    (id : ℕ) (ss : List ProposalSection) → Taken id ss (filterb (λ s. not (is_of id s)) ss)
filterb-Taken id [] = none_left
filterb-Taken id (s ∷ ss) = elim (Bool-cases (is_of id s)) [
  | inl e ↦ rw e (
      takes (first s.is_admin_managed _ e) (is_of-some id s (last s.is_admin_managed _ e))
        (filterb-Taken id ss))
  | inr e ↦ rw e (leaves (stays_in id s e) (filterb-Taken id ss))
]
  where
    first : (a b : Bool) → (a && b) ≡ true → a ≡ true
    first a b h = ground arith

    last : (a b : Bool) → (a && b) ≡ true → b ≡ true
    last a b h = ground arith

fewer :
    (p : ProposalSection → Bool) (ss : List ProposalSection)
    → length (filterb (λ s. not (p s)) ss) ≤ length ss
fewer p [] = omega arith
fewer p (s ∷ ss) = ground (arith, fewer p ss)

shorter :
    (p : ProposalSection → Bool) (ss : List ProposalSection)
    → not (length (filterb (λ s. not (p s)) ss) == length ss) ≡ anyb p ss
shorter p [] = refl
shorter p (s ∷ ss) = ground (arith, fewer p ss, shorter p ss)

-- After remove_template_section on a draft under negotiation, the sections of the template are gone, all
-- others are left unchanged and in their order, nothing else of the draft changed, and the answer says
-- whether there was a section of the template.
pub remove_template_section_lem :
    (id : ℕ) (doc : ContractProposalDocument)
    → is_negotiating doc.status ≡ true
    → Taken id doc.sections (remove_template_section id doc).1.sections
      × ((remove_template_section id doc).1
          ≡ record doc { sections = (remove_template_section id doc).1.sections })
      × ((remove_template_section id doc).0 ≡ anyb (is_of id) doc.sections)
unfolding remove_template_section
remove_template_section_lem id doc n =
    rw n (filterb-Taken id doc.sections, refl, shorter (is_of id) doc.sections)
