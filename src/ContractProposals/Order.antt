-- ===== src/ContractProposals/Order.antt =====
-- The order of the sections after `reorder_proposal_sections`
-- (src/modules/contract_proposals/section_sync.py): they are numbered from 0, and the closing section
-- comes last.
use econmesh_api.Prelude.{
  ℕ, zero, suc, ◌≡◌, refl, ap, ◌∙◌, Bool, true, false, ◌&&◌, Option, none, some, List, [], ◌∷◌,
  ◌++◌, ==_iff, or_else, take, sort_by, Bool-cases, ◌⊎◌, inl, inr, All, All-append, All-filterb,
  All-take, All-sort_by,
}
use econmesh_api.Text.{Text, eq_text_sound}
use econmesh_api.ContractProposals.Model.{
  ProposalSection, ContractProposalDocument, ContractSectionTemplateDocument, is_negotiating,
}
use econmesh_api.ContractProposals.Titles.{
  normalize_core_title, is_foro_title, normalize_foro_title, normalize_core_title-not-foro,
}
use econmesh_api.ContractProposals.Sync.{
  SectionGroups, is_closing, is_core_section, is_template_section, as_core, place, group_sections,
  by_template, dict_set, admin_by_id, order_admin, drop, order_body, core_key, core_section_count,
  number_from, new_sections, unchanged, all_unchanged, reorder_proposal_sections,
}

-- the places of the sections, from the first on
unfoldable pub IsNumbered : List ProposalSection → ℕ → Type 0
IsNumbered [] n = Unit
IsNumbered (s ∷ ss) n = (s.sort_order ≡ n) × IsNumbered ss (suc n)

abbrev pub NotForo : ProposalSection → Type 0
NotForo s = is_foro_title s.title ≡ false

number_from-IsNumbered : (n : ℕ) (ss : List ProposalSection) → IsNumbered (number_from n ss) n
unfolding number_from IsNumbered
number_from-IsNumbered n [] = tt
number_from-IsNumbered n (s ∷ ss) = (refl, number_from-IsNumbered (suc n) ss)

and_both : (a b : Bool) → (a && b) ≡ true → (a ≡ true) × (b ≡ true)
and_both true true h = (refl, refl)
and_both true false h = cc
and_both false b h = cc

-- sections that the loop finds unchanged have the same places and titles
unchanged_both :
    (x y : ProposalSection)
    → unchanged x y ≡ true
    → (x.sort_order ≡ y.sort_order) × (x.title ≡ y.title)
unchanged_both x y h =
    let a = (and_both _ _ (and_both _ _ (and_both _ _ (and_both _ _ h).0).0).0) in
    let b = and_both _ _ a.0 in
    ((==_iff x.sort_order y.sort_order).0 b.1, eq_text_sound x.title y.title a.1)

unchanged-IsNumbered :
    (xs ys : List ProposalSection) (n : ℕ)
    → all_unchanged xs ys ≡ true
    → IsNumbered ys n
    → IsNumbered xs n
unfolding all_unchanged IsNumbered
unchanged-IsNumbered [] ys n h p = tt
unchanged-IsNumbered (x ∷ xs) [] n h p = cc
unchanged-IsNumbered (x ∷ xs) (y ∷ ys) n h p =
    let (a, b) = and_both (unchanged x y) (all_unchanged xs ys) h in
    ((unchanged_both x y a).0 ∙ p.0, unchanged-IsNumbered xs ys (suc n) b p.1)

-- no section but the last has a name of the closing section
unfoldable pub IsClosedLast : List ProposalSection → Type 0
IsClosedLast [] = Unit
IsClosedLast (s ∷ ss) = (NotForo s ⊎ (ss ≡ [])) × IsClosedLast ss

number_from-IsClosedLast :
    (n : ℕ) (ss : List ProposalSection) → IsClosedLast ss → IsClosedLast (number_from n ss)
unfolding number_from IsClosedLast
number_from-IsClosedLast n [] h = tt
number_from-IsClosedLast n (s ∷ ss) h =
    (elim h.0 [ inl a ↦ inl a | inr e ↦ inr (rw e refl) ], number_from-IsClosedLast (suc n) ss h.1)

unchanged-IsClosedLast :
    (xs ys : List ProposalSection) → all_unchanged xs ys ≡ true → IsClosedLast ys → IsClosedLast xs
unfolding all_unchanged IsClosedLast
unchanged-IsClosedLast [] ys h p = tt
unchanged-IsClosedLast (x ∷ xs) [] h p = cc
unchanged-IsClosedLast (x ∷ xs) (y ∷ ys) h p =
    let (a, b) = and_both (unchanged x y) (all_unchanged xs ys) h in
    (
      elim p.0 [
        | inl f ↦ inl (ap is_foro_title (unchanged_both x y a).1 ∙ f)
        | inr e ↦ inr (none_left xs (rw e at b))
      ],
      unchanged-IsClosedLast xs ys b p.1,
    )
  where
    none_left : (zs : List ProposalSection) → all_unchanged zs [] ≡ true → zs ≡ []
    none_left [] k = refl
    none_left (z ∷ zs) k = cc

body-IsClosedLast :
    (ss : List ProposalSection) (fs : List ProposalSection)
    → All NotForo ss
    → IsClosedLast (ss ++ take 1 fs)
unfolding IsClosedLast
body-IsClosedLast [] [] h = tt
body-IsClosedLast [] (f ∷ fs) h = (inr refl, tt)
body-IsClosedLast (s ∷ ss) fs h = (inl h.0, body-IsClosedLast ss fs h.1)

-- a section that is not put with the closing ones has no name of theirs
not_closing : (s : ProposalSection) → is_closing s ≡ false → NotForo s
unfolding normalize_foro_title
not_closing s h = elim (Bool-cases (is_foro_title s.title)) [
  | inl f ↦ absurd (never (rw f at h))
  | inr f ↦ f
]
  where
    never : true ≡ false → ⊥
    never k = cc

as_core-NotForo : (s : ProposalSection) → NotForo s → NotForo (as_core s)
as_core-NotForo s h = go (normalize_core_title s.title) refl
  where
    go :
        (o : Option Text)
        → normalize_core_title s.title ≡ o
        → is_foro_title (or_else o s.title) ≡ false
    go none e = h
    go (some t) e = normalize_core_title-not-foro s.title t e

-- none of the other groups has a section with a name of the closing one
abbrev Separated : SectionGroups → Type 0
Separated g = All NotForo g.core × (All NotForo g.admin × All NotForo g.custom)

place-Separated : (s : ProposalSection) (g : SectionGroups) → Separated g → Separated (place s g)
unfolding place
place-Separated s g h = elim (Bool-cases (is_closing s)) [
  | inl c ↦ rw c h
  | inr c ↦ elim (Bool-cases (is_core_section s)) [
    | inl k ↦ rw (c, k) ((as_core-NotForo s (not_closing s c), h.0), h.1)
    | inr k ↦ elim (Bool-cases (is_template_section s)) [
      | inl t ↦ rw (c, k, t) (h.0, ((not_closing s c, h.1.0), h.1.1))
      | inr t ↦ rw (c, k, t) (h.0, (h.1.0, (not_closing s c, h.1.1)))
    ]
  ]
]

group_sections-Separated : (ss : List ProposalSection) → Separated (group_sections ss)
unfolding group_sections
group_sections-Separated [] = (tt, (tt, tt))
group_sections-Separated (s ∷ ss) = place-Separated s _ (group_sections-Separated ss)

module _ (P : ProposalSection → Type 0) where
  dict_set-All :
      (id : ℕ) (s : ProposalSection) (d : List ProposalSection)
      → P s
      → All P d
      → All P (dict_set id s d)
  unfolding dict_set
  dict_set-All id s [] p h = (p, tt)
  dict_set-All id s (x ∷ d) p h = elim (Bool-cases (by_template id x)) [
    | inl e ↦ rw e (p, h.1)
    | inr e ↦ rw e (h.0, dict_set-All id s d p h.1)
  ]

  admin_by_id-All : (d ss : List ProposalSection) → All P d → All P ss → All P (admin_by_id d ss)
  unfolding admin_by_id
  admin_by_id-All d [] h k = h
  admin_by_id-All d (s ∷ ss) h k =
      with_template s.template_id (admin_by_id-All d ss h k.1)
        (λ t. admin_by_id-All (dict_set t s d) ss (dict_set-All t s d k.0 h) k.1)
    where
      with_template :
          (o : Option ℕ)
          → All P (admin_by_id d ss)
          → ((t : ℕ) → All P (admin_by_id (dict_set t s d) ss))
          → All P (elim o as (λ _. List ProposalSection) [
            | none ↦ admin_by_id d ss
            | some t ↦ admin_by_id (dict_set t s d) ss
          ])
      with_template none a b = a
      with_template (some t) a b = b t

  order_admin-All :
      (tmpls : List ContractSectionTemplateDocument) (d : List ProposalSection)
      → All P d
      → All P (order_admin tmpls d)
  unfolding order_admin
  order_admin-All [] d h = All-sort_by P _ d h
  order_admin-All (t ∷ tmpls) d h =
      All-append P _ _ (All-filterb P _ d h) (order_admin-All tmpls _ (All-filterb P _ d h))

  drop-All : (n : ℕ) (ss : List ProposalSection) → All P ss → All P (drop n ss)
  drop-All zero ss h = h
  drop-All (suc n) [] h = tt
  drop-All (suc n) (s ∷ ss) h = drop-All n ss h.1

order_body-NotForo :
    (templates : List ContractSectionTemplateDocument) (g : SectionGroups)
    → Separated g
    → All NotForo (order_body templates g)
unfolding order_body
order_body-NotForo templates g h =
    let core = sort_by core_key g.core in
    let middle = order_admin templates (admin_by_id [] g.admin) in
    let custom = sort_by (λ s. s.sort_order) g.custom in
    let all_core : All NotForo core = All-sort_by NotForo core_key g.core h.0 in
    let top = take core_section_count core in
    All-append NotForo (top ++ middle ++ custom) (drop core_section_count core)
      (All-append NotForo (top ++ middle) custom
        (All-append NotForo top middle (All-take NotForo core_section_count core all_core) (
          order_admin-All NotForo templates (admin_by_id [] g.admin)
            (admin_by_id-All NotForo [] g.admin tt h.1.0)))
        (All-sort_by NotForo (λ s. s.sort_order) g.custom h.1.1))
      (drop-All NotForo core_section_count core all_core)

ordered-IsClosedLast :
    (templates : List ContractSectionTemplateDocument) (ss : List ProposalSection)
    → IsNumbered (new_sections templates ss) 0 × IsClosedLast (new_sections templates ss)
unfolding new_sections
ordered-IsClosedLast templates ss =
    let g = group_sections ss in
    (
      number_from-IsNumbered 0 _,
      number_from-IsClosedLast 0 _ (
          body-IsClosedLast (order_body templates g) g.foro
            (order_body-NotForo templates g (group_sections-Separated ss))),
    )

-- After the sections of a draft under negotiation were put in order, they are numbered from 0 in
-- their order, and none but the last has a name of the closing section.
pub reorder_proposal_sections-IsClosedLast :
    (templates : List ContractSectionTemplateDocument) (doc : ContractProposalDocument)
    → is_negotiating doc.status ≡ true
    → IsNumbered (reorder_proposal_sections templates doc).1.sections 0
      × IsClosedLast (reorder_proposal_sections templates doc).1.sections
unfolding reorder_proposal_sections
reorder_proposal_sections-IsClosedLast templates doc negotiating =
    let (numbered, closed) = ordered-IsClosedLast templates doc.sections in
    elim (Bool-cases (all_unchanged doc.sections (new_sections templates doc.sections))) [
      | inl same ↦
          rw (negotiating, same)
            (
              unchanged-IsNumbered doc.sections _ 0 same numbered,
              unchanged-IsClosedLast doc.sections _ same closed,
            )
      | inr other ↦ rw (negotiating, other) (numbered, closed)
    ]
