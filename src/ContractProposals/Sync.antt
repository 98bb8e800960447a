-- ===== src/ContractProposals/Sync.antt =====
-- src/modules/contract_proposals/section_sync.py: `reorder_proposal_sections`, which puts the sections of
-- a draft contract under negotiation in order. It answers whether it changed the draft, with the draft.
use econmesh_api.Prelude.{
  ℕ, zero, suc, ◌+◌, Bool, true, false, not, ◌&&◌, ◌||◌, none, some, List, [], ◌∷◌, ◌++◌, ◌==◌,
  if◌then◌else◌, is_some, or_else, length, filterb, take, sort_by,
}
use econmesh_api.Text.{eq_text}
use econmesh_api.ContractProposals.Model.{
  ProposalSection, ContractProposalDocument, ContractSectionTemplateDocument, is_negotiating,
}
use econmesh_api.ContractProposals.Titles.{
  foro_title, core_section_definitions, normalize_core_title, core_title_sort_order, is_foro_title,
  normalize_foro_title,
}

-- the four lists that the loop of `reorder_proposal_sections` fills
pub record SectionGroups : Type 0 where
  pub core : List ProposalSection
  pub foro : List ProposalSection
  pub admin : List ProposalSection
  pub custom : List ProposalSection

abbrev pub is_closing : ProposalSection → Bool
is_closing s = is_some (normalize_foro_title s.title) || s.is_core && is_foro_title s.title

abbrev pub is_core_section : ProposalSection → Bool
is_core_section s = s.is_core || is_some (normalize_core_title s.title)

abbrev pub is_template_section : ProposalSection → Bool
is_template_section s = s.is_admin_managed && is_some s.template_id

abbrev pub as_closing : ProposalSection → ProposalSection
as_closing s = record s {
  is_core = true;
  is_editable = false;
  is_admin_managed = false;
  template_id = none;
  title = or_else (normalize_foro_title s.title) foro_title;
}

abbrev pub as_core : ProposalSection → ProposalSection
as_core s = record s { is_core = true; title = or_else (normalize_core_title s.title) s.title }

-- one round of the loop, in front of what the later rounds fill
unfoldable pub place : ProposalSection → SectionGroups → SectionGroups
place s g =
    if is_closing s
    then record g { foro = as_closing s ∷ g.foro }
    else if is_core_section s
    then record g { core = as_core s ∷ g.core }
    else if is_template_section s
    then record g { admin = s ∷ g.admin }
    else record g { custom = s ∷ g.custom }

unfoldable pub group_sections : List ProposalSection → SectionGroups
group_sections [] = record { core = []; foro = []; admin = []; custom = [] }
group_sections (s ∷ ss) = place s (group_sections ss)

-- the key of `core.sort`
abbrev pub core_key : ProposalSection → ℕ
core_key s = or_else (core_title_sort_order s.title) (999 + s.sort_order)

-- `d[k] = v` on a dictionary by template, in the order of the first insertion
abbrev pub by_template : ℕ → ProposalSection → Bool
by_template id s = elim s.template_id [ none ↦ false | some t ↦ t == id ]

unfoldable pub dict_set : ℕ → ProposalSection → List ProposalSection → List ProposalSection
dict_set id s [] = s ∷ []
dict_set id s (x ∷ xs) =
    let later = dict_set id s xs in if by_template id x then s ∷ xs else x ∷ later

-- `{s.template_id: s for s in admin if s.template_id is not None}`
unfoldable pub admin_by_id : List ProposalSection → List ProposalSection → List ProposalSection
admin_by_id d [] = d
admin_by_id d (s ∷ ss) = elim s.template_id [
  | none ↦ admin_by_id d ss
  | some t ↦ admin_by_id (dict_set t s d) ss
]

-- the loop over the templates, then the sections that no template claimed
unfoldable pub order_admin :
    List ContractSectionTemplateDocument → List ProposalSection → List ProposalSection
order_admin [] d = sort_by (λ s. s.sort_order) d
order_admin (tmpl ∷ tmpls) d =
    filterb (by_template tmpl.id) d
    ++ order_admin tmpls (filterb (λ s. not (by_template tmpl.id s)) d)

-- `xs[n:]`
abbrev pub drop : ℕ → List ProposalSection → List ProposalSection
drop zero xs = xs
drop (suc n) [] = []
drop (suc n) (x ∷ xs) = drop n xs

-- `CORE_SECTION_COUNT`
abbrev pub core_section_count : ℕ
core_section_count = length core_section_definitions

-- the sections before the closing one
unfoldable pub order_body :
    List ContractSectionTemplateDocument → SectionGroups → List ProposalSection
order_body templates g =
    let core = sort_by core_key g.core in
    take core_section_count core
    ++ order_admin templates (admin_by_id [] g.admin)
    ++ sort_by (λ s. s.sort_order) g.custom
    ++ drop core_section_count core

-- `for index, section in enumerate(ordered)`
unfoldable pub number_from : ℕ → List ProposalSection → List ProposalSection
number_from n [] = []
number_from n (s ∷ ss) = record s { sort_order = n } ∷ number_from (suc n) ss

unfoldable pub new_sections :
    List ContractSectionTemplateDocument → List ProposalSection → List ProposalSection
new_sections templates ss =
    let g = group_sections ss in number_from 0 (order_body templates g ++ take 1 g.foro)

abbrev pub same_bool : Bool → Bool → Bool
same_bool true b = b
same_bool false b = not b

-- the test of the loop over `zip(doc.sections, new_sections)`, negated
abbrev pub unchanged : ProposalSection → ProposalSection → Bool
unchanged before after =
    before.id == after.id
    && before.sort_order == after.sort_order
    && eq_text before.title after.title
    && same_bool before.is_core after.is_core
    && eq_text before.content_html after.content_html
    && same_bool before.is_editable after.is_editable

-- no section changed, and there are as many
unfoldable pub all_unchanged : List ProposalSection → List ProposalSection → Bool
all_unchanged [] [] = true
all_unchanged (x ∷ xs) [] = false
all_unchanged [] (y ∷ ys) = false
all_unchanged (x ∷ xs) (y ∷ ys) = unchanged x y && all_unchanged xs ys

unfoldable pub reorder_proposal_sections :
    List ContractSectionTemplateDocument
    → ContractProposalDocument
    → Bool × ContractProposalDocument
reorder_proposal_sections templates doc =
    let ordered = new_sections templates doc.sections in
    if not (is_negotiating doc.status)
    then (false, doc)
    else if all_unchanged doc.sections ordered
    then (false, doc)
    else (true, record doc { sections = ordered })
