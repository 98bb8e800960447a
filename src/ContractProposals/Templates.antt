-- ===== src/ContractProposals/Templates.antt =====
-- src/modules/contract_proposals/section_sync.py: the sections that the administrators' templates and the
-- closing section add to a draft contract, and their removal. Each function answers whether it changed
-- the draft, with the draft. `foro_html` stands for `build_foro_html`, which prints the closing section
-- with today's date; `fresh` is the identifier of the next new section.
use econmesh_api.Prelude.{
  ℕ, suc, ◌+◌, max, Bool, true, false, not, ◌&&◌, ◌||◌, Option, none, some, List, [], ◌∷◌, ◌++◌,
  ◌==◌, if◌then◌else◌, is_some, or_else, length, filterb, anyb, is_empty, findb, update_first,
}
use econmesh_api.Text.{Text, eq_text}
use econmesh_api.ContractProposals.Model.{
  ProposalSection, ContractProposalDocument, ContractSectionTemplateDocument, is_negotiating,
  proposal_matches_template,
}
use econmesh_api.ContractProposals.Titles.{foro_title, is_foro_title}
use econmesh_api.ContractProposals.Sync.{by_template, same_bool, reorder_proposal_sections}

-- `section_from_template`
pub section_from_template : ℕ → ContractSectionTemplateDocument → ℕ → ProposalSection
section_from_template id tmpl sort_order = record {
  id = id;
  title = tmpl.title;
  content_html = tmpl.content_html;
  sort_order = sort_order;
  is_core = false;
  is_admin_managed = true;
  is_editable = tmpl.is_company_editable;
  template_id = some tmpl.id;
}

-- `max((s.sort_order for s in doc.sections), default=-1) + 1`
unfoldable pub next_order : List ProposalSection → ℕ
next_order [] = 0
next_order (s ∷ ss) = max (s.sort_order + 1) (next_order ss)

-- the loop over the missing templates: the sections to append, and whether there are any
unfoldable pub sections_of : ℕ → ℕ → List ContractSectionTemplateDocument → List ProposalSection
sections_of fresh order [] = []
sections_of fresh order (tmpl ∷ tmpls) =
    if is_foro_title tmpl.title
    then sections_of fresh order tmpls
    else section_from_template fresh tmpl order ∷ sections_of (suc fresh) (suc order) tmpls

-- `t.id not in present and t.is_active`
abbrev pub is_missing : List ProposalSection → ContractSectionTemplateDocument → Bool
is_missing ss tmpl =
    not (anyb (λ s. s.is_admin_managed && by_template tmpl.id s) ss) && tmpl.is_active

module _ (foro_html : ContractProposalDocument → Text) where
  unfoldable pub ensure_foro_section :
      ℕ → ContractProposalDocument → Bool × ContractProposalDocument
  ensure_foro_section fresh doc =
      if not (is_negotiating doc.status)
      then (false, doc)
      else if anyb (λ s. is_foro_title s.title) doc.sections
      then (false, doc)
      else (
        true,
        record doc {
          sections =
              doc.sections
              ++ record {
                id = fresh;
                title = foro_title;
                content_html = foro_html doc;
                sort_order = next_order doc.sections;
                is_core = true;
                is_admin_managed = false;
                is_editable = false;
                template_id = none;
              }
                ∷ [];
        },
      )

  -- the identifiers from `fresh` on go to the templates' sections, and the next to the closing one
  unfoldable pub add_missing_admin_sections :
      ℕ
      → List ContractSectionTemplateDocument
      → ContractProposalDocument
      → Bool × ContractProposalDocument
  add_missing_admin_sections fresh templates doc =
      let missing = filterb (is_missing doc.sections) templates in
      let added = sections_of fresh (next_order doc.sections) missing in
      let doc1 = record doc { sections = doc.sections ++ added } in
      let (reordered, doc2) = reorder_proposal_sections templates doc1 in
      let (closed, doc3) = ensure_foro_section (fresh + length added) doc2 in
      let (again, doc4) = reorder_proposal_sections templates doc3 in
      if not (is_negotiating doc.status)
      then (false, doc)
      else if closed
      then (true, doc4)
      else (not (is_empty added) || reordered, doc3)

-- `remove_template_section`
unfoldable pub remove_template_section :
    ℕ → ContractProposalDocument → Bool × ContractProposalDocument
remove_template_section template_id doc =
    let kept = filterb (λ s. not (s.is_admin_managed && by_template template_id s)) doc.sections in
    if not (is_negotiating doc.status)
    then (false, doc)
    else (not (length kept == length doc.sections), record doc { sections = kept })

-- `apply_template_to_section`
abbrev pub apply_template : ContractSectionTemplateDocument → ProposalSection → ProposalSection
apply_template tmpl s = record s {
  title = tmpl.title;
  content_html = tmpl.content_html;
  is_editable = tmpl.is_company_editable;
  is_admin_managed = true;
  template_id = some tmpl.id;
}

abbrev pub is_section_of : ContractSectionTemplateDocument → ProposalSection → Bool
is_section_of tmpl s = s.is_admin_managed && by_template tmpl.id s

-- `updated != section`, of the attributes that the template sets; the two others are as tested
abbrev pub differs : ContractSectionTemplateDocument → ProposalSection → Bool
differs tmpl s =
    not (eq_text s.title tmpl.title)
    || not (eq_text s.content_html tmpl.content_html)
    || not (same_bool s.is_editable tmpl.is_company_editable)

-- the removal of an unsuited template's section, and the order after it
unfoldable pub drop_template :
    Option (List ContractSectionTemplateDocument)
    → ℕ
    → ContractProposalDocument
    → Bool × ContractProposalDocument
drop_template all_templates id doc =
    let (removed, doc1) = remove_template_section id doc in
    if removed && is_some all_templates
    then (removed, (reorder_proposal_sections (or_else all_templates []) doc1).1)
    else (removed, doc1)

unfoldable pub upsert_template_section :
    ℕ
    → Option (List ContractSectionTemplateDocument)
    → ContractSectionTemplateDocument
    → ContractProposalDocument
    → Bool × ContractProposalDocument
upsert_template_section fresh all_templates tmpl doc =
    let found = findb (is_section_of tmpl) doc.sections in
    let updated = elim found as (λ _. List ProposalSection) [
      | some s ↦ update_first (is_section_of tmpl) (apply_template tmpl) doc.sections
      | none ↦ doc.sections ++ section_from_template fresh tmpl (next_order doc.sections) ∷ []
    ] in
    let changed = elim found as (λ _. Bool) [ some s ↦ differs tmpl s | none ↦ true ] in
    let doc1 = record doc { sections = updated } in
    let (reordered, doc2) = reorder_proposal_sections (or_else all_templates (tmpl ∷ [])) doc1 in
    if not (is_negotiating doc.status)
    then (false, doc)
    else if is_foro_title tmpl.title || not (tmpl.is_active && proposal_matches_template doc tmpl)
    then drop_template all_templates tmpl.id doc
    else (changed || reordered, doc2)
