-- ===== src/ContractProposals/Model.antt =====
-- src/modules/contract_proposals/model.py and src/modules/contract_sections/{model,matching}.py: the draft
-- contract with its sections, the templates, and which template applies to which draft. Of the
-- snapshots of the parties and of the opportunity only what the section code reads is kept; the
-- opportunity's type, a string there, is one of the three types or absent.
use econmesh_api.Prelude.{
  ℕ, Bool, true, false, Option, none, some, List, anyb, is_empty, if◌then◌else◌,
}
use econmesh_api.Text.{Text}

pub data ContractProposalStatus : Type 0 where
  draft pending_approval changes_requested approved rejected sent_to_agreements :
      ContractProposalStatus

pub data OpportunityType : Type 0 where
  comercializacao simbiose_industrial compartilhamento : OpportunityType

pub data ContractType : Type 0 where
  servico fornecimento parceria outro : ContractType

pub data SectionAppliesTo : Type 0 where
  servico fornecimento parceria outro oportunidades todos : SectionAppliesTo

pub record ProposalSection : Type 0 where
  pub id : ℕ
  pub title : Text
  pub content_html : Text
  pub sort_order : ℕ
  pub is_core : Bool
  pub is_admin_managed : Bool
  pub is_editable : Bool
  pub template_id : Option ℕ

pub record ContractProposalDocument : Type 0 where
  pub id : ℕ
  pub contract_type : ContractType
  pub status : ContractProposalStatus
  pub opportunity_type : Option OpportunityType
  pub contractor_legal_name : Text
  pub contracted_legal_name : Text
  pub sections : List ProposalSection
  pub foro_city : Option Text
  pub foro_state : Option Text

pub record ContractSectionTemplateDocument : Type 0 where
  pub id : ℕ
  pub title : Text
  pub content_html : Text
  pub contract_type : SectionAppliesTo
  pub opportunity_types : List OpportunityType
  pub sort_order : ℕ
  pub is_active : Bool
  pub is_company_editable : Bool

-- `NEGOTIATING_STATUSES`
abbrev pub is_negotiating : ContractProposalStatus → Bool
is_negotiating ContractProposalStatus.draft = true
is_negotiating ContractProposalStatus.pending_approval = true
is_negotiating ContractProposalStatus.changes_requested = true
is_negotiating _ = false

abbrev pub same_type : OpportunityType → OpportunityType → Bool
same_type OpportunityType.comercializacao OpportunityType.comercializacao = true
same_type OpportunityType.simbiose_industrial OpportunityType.simbiose_industrial = true
same_type OpportunityType.compartilhamento OpportunityType.compartilhamento = true
same_type _ _ = false

-- `template_applies_to_opportunity_type`
unfoldable pub template_applies : List OpportunityType → OpportunityType → Bool
template_applies types t = if is_empty types then true else anyb (λ item. same_type item t) types

-- `opportunity_type_from_contract_type`
pub opportunity_type_from_contract_type : ContractType → Option OpportunityType
opportunity_type_from_contract_type ContractType.fornecimento = some OpportunityType.comercializacao
opportunity_type_from_contract_type ContractType.parceria = some OpportunityType.simbiose_industrial
opportunity_type_from_contract_type ContractType.servico = some OpportunityType.compartilhamento
opportunity_type_from_contract_type ContractType.outro = none

pub proposal_opportunity_type : ContractProposalDocument → Option OpportunityType
proposal_opportunity_type doc = elim doc.opportunity_type [
  | some t ↦ some t
  | none ↦ opportunity_type_from_contract_type doc.contract_type
]

-- `proposal_type.value == applies_to.value`, or a scope that takes every draft
pub proposal_matches_applies_to : ContractType → SectionAppliesTo → Bool
proposal_matches_applies_to t SectionAppliesTo.todos = true
proposal_matches_applies_to t SectionAppliesTo.oportunidades = true
proposal_matches_applies_to ContractType.servico SectionAppliesTo.servico = true
proposal_matches_applies_to ContractType.fornecimento SectionAppliesTo.fornecimento = true
proposal_matches_applies_to ContractType.parceria SectionAppliesTo.parceria = true
proposal_matches_applies_to ContractType.outro SectionAppliesTo.outro = true
proposal_matches_applies_to _ _ = false

pub proposal_matches_template : ContractProposalDocument → ContractSectionTemplateDocument → Bool
unfolding proposal_opportunity_type
proposal_matches_template doc tmpl = elim (proposal_opportunity_type doc) [
  | some t ↦ template_applies tmpl.opportunity_types t
  | none ↦ proposal_matches_applies_to doc.contract_type tmpl.contract_type
]
