-- ===== src/Agreements/Handover.antt =====
-- `create_from_contract_proposal` of src/modules/agreements/service.py: the agreement that an approved
-- draft contract (minuta) hands over.
use econmesh_api.Prelude.{ℕ, not, ◌||◌, Option, none, some, [], ◌∷◌}
use econmesh_api.Text.{Text, codes, lower, nonempty, or_text}
use econmesh_api.Service.{
  Action, pure, gets, or_raise, raise_if, when, ◌>>=◌, ◌>>◌, not_found, validation,
}
use econmesh_api.Accounts.{UserDocument, CompanyDocument, user_by_id, company_by_id}
use econmesh_api.Agreements.Model.{
  AgreementStatus, ParticipantKind, ParticipantRole, AgreementEventType, AgreementFile,
  AgreementParticipant, AgreementDocument,
}
use econmesh_api.Agreements.World.{World, Deps, new_uuid, create_agreement, verification_code}
use econmesh_api.Agreements.Access.{append_full_event, display_name}
use econmesh_api.Agreements.Drafting.{new_agreement}
use econmesh_api.Agreements.Notices.{notify_minuta_approved}
use econmesh_api.Agreements.Parties.{new_participant}

-- one party of a minuta: its company and the user that negotiates for it
minuta_party : ℕ → ℕ → CompanyDocument → UserDocument → Text → Text → Text → AgreementParticipant
minuta_party id order_index company user company_name name email =
    new_participant id ParticipantKind.company (some user.id) (some company.id) (some company_name)
      name (lower email) ParticipantRole.sign order_index

-- What `approve` of the minuta hands over.
pub record MinutaHandover : Type 0 where
  pub title : Text
  pub description : Option Text
  pub owner_user_id : ℕ
  pub offerer_company_id : ℕ
  pub interested_company_id : ℕ
  pub offerer_user_id : ℕ
  pub interested_user_id : ℕ
  pub pdf_file : AgreementFile
  pub opportunity_id : ℕ
  pub conversation_id : ℕ
  pub contract_proposal_id : ℕ

unfoldable pub create_from_contract_proposal :
    Deps → MinutaHandover → Action World AgreementDocument
unfolding minuta_party
create_from_contract_proposal x m = do
  found_offerer ← gets (λ w. company_by_id m.offerer_company_id w.companies)
  found_interested ← gets (λ w. company_by_id m.interested_company_id w.companies)
  offerer_company ← or_raise found_offerer (not_found "Empresa vinculada à minuta não encontrada.")
  interested_company ←
      or_raise found_interested (not_found "Empresa vinculada à minuta não encontrada.")
  found_offerer_user ← gets (λ w. user_by_id m.offerer_user_id w.users)
  found_interested_user ← gets (λ w. user_by_id m.interested_user_id w.users)
  offerer_user ←
      or_raise found_offerer_user (not_found "Usuário vinculado à minuta não encontrado.")
  interested_user ←
      or_raise found_interested_user (not_found "Usuário vinculado à minuta não encontrado.")
  let offerer_email = or_text offerer_company.email (or_text offerer_user.email [])
  let interested_email = or_text interested_company.email (or_text interested_user.email [])
  raise_if (not (nonempty offerer_email) || not (nonempty interested_email))
      (validation "E-mail das partes é obrigatório para criar o acordo a partir da minuta.")
  let company_name = display_name offerer_company
  first_id ← new_uuid
  second_id ← new_uuid
  let first =
      minuta_party first_id 0 offerer_company offerer_user company_name
        (or_text offerer_company.legal_representative (or_text offerer_user.name company_name))
        offerer_email
  let second =
      minuta_party second_id 1 interested_company interested_user (display_name interested_company)
        (or_text interested_company.legal_representative
          (or_text interested_user.name interested_company.legal_name))
        interested_email
  code ← verification_code x
  id ← new_uuid
  now ← gets (λ w. w.now)
  let blank =
      new_agreement id m.title m.offerer_company_id company_name m.owner_user_id code
        AgreementStatus.awaiting_send now
  let doc = record blank {
    description = m.description;
    original_file = some m.pdf_file;
    participants = first ∷ second ∷ [];
    opportunity_id = some m.opportunity_id;
    conversation_id = some m.conversation_id;
    contract_proposal_id = some m.contract_proposal_id;
  }
  create_agreement doc
  append_full_event (record {
    agreement_id = id;
    event_type = AgreementEventType.created;
    actor_user_id = some m.owner_user_id;
    actor_name = offerer_user.name;
    actor_company_id = some m.offerer_company_id;
    actor_company_name = some company_name;
    ip = none;
    user_agent = none;
    metadata =
        (codes "source", codes "contract_proposal")
        ∷ (codes "contract_proposal_id", x.id_text m.contract_proposal_id)
        ∷ [];
    created_at = 0;
  })
  when x.has_notifications (notify_minuta_approved doc m.offerer_user_id m.interested_user_id)
  pure doc
