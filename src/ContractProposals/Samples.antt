-- ===== src/ContractProposals/Samples.antt =====
-- The synchronisation of a small draft contract.
use econmesh_api.Prelude.{ℕ, ◌≡◌, refl, true, false, Option, none, some, List, [], ◌∷◌, anyb, All}
use econmesh_api.Text.{Text, codes}
use econmesh_api.ContractProposals.Model.{
  ContractProposalStatus, ContractType, SectionAppliesTo, ProposalSection, ContractProposalDocument,
  ContractSectionTemplateDocument,
}
use econmesh_api.ContractProposals.Sync.{reorder_proposal_sections}
use econmesh_api.ContractProposals.Templates.{add_missing_admin_sections, remove_template_section}
use econmesh_api.ContractProposals.Order.{
  IsNumbered, IsClosedLast, reorder_proposal_sections-IsClosedLast,
}
use econmesh_api.Service.{ok}
use econmesh_api.ContractProposals.Editing.{ProposalSectionInput, is_locked, normalize_sections}
use econmesh_api.ContractProposals.Editing.Locked.{is_same_section, normalize_sections_keeps_locked}
use econmesh_api.ContractProposals.Closing.{
  IsClosed, Taken, is_of, add_missing_admin_sections-IsClosed, remove_template_section_lem,
}

abbrev clause : ℕ → Text → ℕ → ProposalSection
clause id title place = record {
  id = id;
  title = title;
  content_html = codes "<p></p>";
  sort_order = place;
  is_core = false;
  is_admin_managed = false;
  is_editable = true;
  template_id = none;
}

abbrev minuta : ContractProposalDocument
minuta = record {
  id = 1;
  contract_type = ContractType.servico;
  status = ContractProposalStatus.draft;
  opportunity_type = none;
  contractor_legal_name = codes "A";
  contracted_legal_name = codes "B";
  sections =
      clause 2 (codes "Multa") 0
      ∷ clause 3 (codes " OBJETO ") 4
      ∷ clause 4 (codes "Das Partes") 7
      ∷ [];
  foro_city = none;
  foro_state = none;
}

abbrev secrecy : ContractSectionTemplateDocument
secrecy = record {
  id = 9;
  title = codes "Sigilo";
  content_html = codes "<p></p>";
  contract_type = SectionAppliesTo.todos;
  opportunity_types = [];
  sort_order = 0;
  is_active = true;
  is_company_editable = false;
}

reorder_proposal_sections-IsClosedLast_example :
    IsNumbered (reorder_proposal_sections (secrecy ∷ []) minuta).1.sections 0
    × IsClosedLast (reorder_proposal_sections (secrecy ∷ []) minuta).1.sections
reorder_proposal_sections-IsClosedLast_example =
    reorder_proposal_sections-IsClosedLast (secrecy ∷ []) minuta refl

add_missing_admin_sections-IsClosed_example :
    IsClosed (add_missing_admin_sections (λ d. codes "foro") 100 (secrecy ∷ []) minuta).1.sections
add_missing_admin_sections-IsClosed_example =
    add_missing_admin_sections-IsClosed (λ d. codes "foro") 100 (secrecy ∷ []) minuta refl

remove_template_section_lem_example :
    Taken 9 minuta.sections (remove_template_section 9 minuta).1.sections
    × ((remove_template_section 9 minuta).1
        ≡ record minuta { sections = (remove_template_section 9 minuta).1.sections })
    × ((remove_template_section 9 minuta).0 ≡ anyb (is_of 9) minuta.sections)
remove_template_section_lem_example = remove_template_section_lem 9 minuta refl

abbrev incoming : Option ℕ → Text → ProposalSectionInput
incoming id title = record {
  id = id;
  title = title;
  content_html = codes "<p>outro</p>";
  sort_order = 0;
  is_core = false;
  is_admin_managed = false;
  is_editable = true;
  template_id = none;
}

-- the object, which is locked, and a clause of the company's own
abbrev stored : List ProposalSection
stored =
    record (clause 3 (codes "Objeto") 0) { is_core = true; is_editable = false }
    ∷ clause 2 (codes "Multa") 1
    ∷ []

-- the company changes the text of the object, drops its clause and adds another
abbrev edit : List ProposalSectionInput
edit = incoming (some 3) (codes "Outro objeto") ∷ incoming none (codes "Prazo") ∷ []

abbrev edited : List ProposalSection
edited =
    record (clause 3 (codes "Objeto") 0) { is_core = true; is_editable = false }
    ∷ record (clause 100 (codes "Prazo") 1) { content_html = codes "<p>outro</p>" }
    ∷ []

edit_run : normalize_sections edit stored 100 ≡ ok edited
unfolding normalize_sections
edit_run = refl

normalize_sections_keeps_locked_example :
    All (λ s. is_locked s ≡ true → anyb (is_same_section s) edited ≡ true) stored
normalize_sections_keeps_locked_example =
    normalize_sections_keeps_locked edit stored 100 edited (refl, (refl, tt)) edit_run
