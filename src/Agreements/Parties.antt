-- ===== src/Agreements/Parties.antt =====
-- The operations of `AgreementsService` (src/modules/agreements/service.py) that set the participants
-- and the fields of a draft, and the one that makes an agreement of an approved minuta.
use econmesh_api.Prelude.{
  ℕ, Bool, not, ◌&&◌, Option, none, some, List, [], ◌∷◌, ◌==◌, if◌then◌else◌, is_some, or_else,
  length, filterb, anyb, is_empty,
}
use econmesh_api.Text.{Text, codes, lower, nonempty, truthy, or_text}
use econmesh_api.Service.{
  Action, pure, gets, or_raise, raise_if, when, branch, match_some, ◌>>=◌, ◌>>◌, not_found,
  validation,
}
use econmesh_api.Accounts.{UserProfileDocument, user_by_email, profile_by_user, company_by_id}
use econmesh_api.Agreements.Model.{
  AgreementStatus, SigningMode, ParticipantKind, ParticipantRole, ParticipantStatus, FieldType,
  AgreementEventType, AgreementParticipant, AgreementField, AgreementDocument, is_editable,
  is_company,
}
use econmesh_api.Agreements.World.{World, Deps, new_uuid, replace_agreement}
use econmesh_api.Agreements.Access.{append_full_event, display_name}
use econmesh_api.Agreements.Drafting.{load_owned}
use econmesh_api.Agreements.Notices.{notify_added}

pub record ParticipantInput : Type 0 where
  pub kind : ParticipantKind
  pub company_id : Option ℕ
  pub company_name : Option Text
  pub name : Text
  pub email : Text
  pub cpf : Option Text
  pub job_title : Option Text
  pub role : ParticipantRole
  pub order_index : ℕ

-- `AgreementParticipant(...)` with the defaults of its model
abbrev pub new_participant :
    ℕ
    → ParticipantKind
    → Option ℕ
    → Option ℕ
    → Option Text
    → Text
    → Text
    → ParticipantRole
    → ℕ
    → AgreementParticipant
new_participant id kind user_id company_id company_name name email role order_index = record {
  id = id;
  kind = kind;
  user_id = user_id;
  company_id = company_id;
  company_name = company_name;
  name = name;
  email = email;
  cpf = none;
  job_title = none;
  role = role;
  order_index = order_index;
  status = ParticipantStatus.pending;
  completed_at = none;
  rejected_at = none;
  rejection_reason = none;
  signature_hash = none;
  ip = none;
  user_agent = none;
}

-- `a` if it is a non-empty text, else `b` if it is one: `if not a and b: a = b`
abbrev keep_or : Option Text → Option Text → Option Text
keep_or a b = if truthy a then a else if truthy b then b else a

abbrev keep_or_text : Text → Option Text → Text
keep_or_text a b = if nonempty a then a else or_text b a

abbrev profile_cpf : Option UserProfileDocument → Option Text
profile_cpf none = none
profile_cpf (some p) = p.cpf

abbrev profile_job_title : Option UserProfileDocument → Option Text
profile_job_title none = none
profile_job_title (some p) = p.job_title

-- what a linked company gives a participant: its id and its names
company_part : ParticipantInput → Action World (Option ℕ × Option Text × Text)
company_part item =
    branch (is_company item.kind && is_some item.company_id)
      (do
        found ← gets (λ w. company_by_id (or_else item.company_id 0) w.companies)
        company ← or_raise found (not_found "Empresa não encontrada")
        raise_if (not company.is_active) (not_found "Empresa não encontrada")
        pure (
          some company.id,
          some (display_name company),
          keep_or_text item.name company.legal_representative,
        ))
      (pure (item.company_id, item.company_name, item.name))

-- one round of the loop over `payload.participants`
unfoldable pub make_participant : ParticipantInput → Action World AgreementParticipant
unfolding company_part
make_participant item = do
  linked ← gets (λ w. user_by_email (lower item.email) w.users)
  (company_id, company_name, name) ← company_part item
  profile ← gets (λ w. elim linked [ none ↦ none | some u ↦ profile_by_user u.id w.profiles ])
  id ← new_uuid
  let user_id = elim linked as (λ _. Option ℕ) [ none ↦ none | some u ↦ some u.id ]
  let user_name = elim linked as (λ _. Option Text) [ none ↦ none | some u ↦ u.name ]
  let p =
      new_participant id item.kind user_id company_id company_name (keep_or_text name user_name)
        (lower item.email) item.role item.order_index
  pure (record p {
    cpf = keep_or item.cpf (profile_cpf profile);
    job_title = keep_or item.job_title (profile_job_title profile);
  })

unfoldable pub make_participants : List ParticipantInput → Action World (List AgreementParticipant)
make_participants [] = pure []
make_participants (item ∷ items) = do
  p ← make_participant item
  ps ← make_participants items
  pure (p ∷ ps)

-- `f.participant_id in valid_ids`
abbrev pub belongs_to : List AgreementParticipant → AgreementField → Bool
belongs_to ps f = anyb (λ p. p.id == f.participant_id) ps

-- the new participants with what follows from them: the fields kept, and the status
unfoldable pub set_participants :
    Option SigningMode → List AgreementParticipant → AgreementDocument → AgreementDocument
set_participants mode ps doc = record doc {
  signing_mode = or_else mode doc.signing_mode;
  participants = ps;
  fields = filterb (belongs_to ps) doc.fields;
  status =
      (if is_some doc.original_file && not (is_empty ps)
        then AgreementStatus.awaiting_send
        else if is_empty ps
        then AgreementStatus.draft
        else doc.status);
}

unfoldable pub update_participants :
    Deps → ℕ → Option SigningMode → List ParticipantInput → Text → Action World AgreementDocument
update_participants x agreement_id mode items uid = do
  (user, doc) ← load_owned uid agreement_id "Apenas o criador pode definir participantes."
  raise_if (not (is_editable doc.status))
      (validation "Participantes só podem ser alterados no rascunho.")
  ps ← make_participants items
  doc' ← replace_agreement (set_participants mode ps doc)
  append_full_event (record {
    agreement_id = doc.id;
    event_type = AgreementEventType.participants_updated;
    actor_user_id = some user.id;
    actor_name = user.name;
    actor_company_id = none;
    actor_company_name = none;
    ip = none;
    user_agent = none;
    metadata = (codes "count", x.number_text (length ps)) ∷ [];
    created_at = 0;
  })
  when x.has_notifications (notify_added doc.id ps)
  pure doc'

pub record FieldInput : Type 0 where
  pub id : Option ℕ
  pub participant_id : ℕ
  pub field_type : FieldType
  pub page : ℕ
  pub box : ℕ
  pub value : Option Text

-- `item.id or new_uuid()`
field_id : Option ℕ → Action World ℕ
field_id o = match_some o pure new_uuid

-- the loop over `payload.fields`
unfoldable pub make_fields :
    List AgreementParticipant → List FieldInput → Action World (List AgreementField)
unfolding field_id
make_fields ps [] = pure []
make_fields ps (item ∷ items) = do
  raise_if (not (anyb (λ p. p.id == item.participant_id) ps))
      (validation "Campo vinculado a participante inexistente.")
  id ← field_id item.id
  let field : AgreementField = record {
    id = id;
    participant_id = item.participant_id;
    field_type = item.field_type;
    page = item.page;
    box = item.box;
    value = item.value;
  }
  fields ← make_fields ps items
  pure (field ∷ fields)

unfoldable pub update_fields : Deps → ℕ → List FieldInput → Text → Action World AgreementDocument
update_fields x agreement_id items uid = do
  (user, doc) ← load_owned uid agreement_id "Apenas o criador pode posicionar campos."
  raise_if (not (is_editable doc.status)) (validation "Campos só podem ser alterados no rascunho.")
  fields ← make_fields doc.participants items
  doc' ← replace_agreement (record doc { fields = fields })
  append_full_event (record {
    agreement_id = doc.id;
    event_type = AgreementEventType.fields_updated;
    actor_user_id = some user.id;
    actor_name = user.name;
    actor_company_id = none;
    actor_company_name = none;
    ip = none;
    user_agent = none;
    metadata = (codes "count", x.number_text (length fields)) ∷ [];
    created_at = 0;
  })
  pure doc'
