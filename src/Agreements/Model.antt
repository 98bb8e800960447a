-- ===== src/Agreements/Model.antt =====
-- src/modules/agreements/model.py: the agreement, its participants and fields, and the audit events.
-- A field's position on the page (`x`, `y`, `width`, `height`) is checked by the request schema and
-- read by the PDF stamp alone, so it is one opaque value here.
use econmesh_api.Prelude.{ℕ, Bool, true, false, Option, List}
use econmesh_api.Text.{Text}

pub data AgreementStatus : Type 0 where
  draft awaiting_send awaiting_signatures partially_signed signed rejected cancelled expired :
      AgreementStatus

pub data SigningMode : Type 0 where
  unordered ordered : SigningMode

pub data ParticipantKind : Type 0 where
  company external : ParticipantKind

pub data ParticipantRole : Type 0 where
  sign approve witness acknowledge receipt : ParticipantRole

pub data ParticipantStatus : Type 0 where
  pending viewed completed rejected : ParticipantStatus

pub data FieldType : Type 0 where
  signature date name cpf job_title company initials text checkbox : FieldType

pub data AgreementEventType : Type 0 where
  created participant_added participants_updated fields_updated sent viewed opened signed approved
        witnessed acknowledged receipt_confirmed rejected completed downloaded cancelled expired
        updated :
      AgreementEventType

pub record AgreementFile : Type 0 where
  pub storage_key : Text
  pub url : Text
  pub sha256 : Text
  pub filename : Text
  pub page_count : ℕ
  pub size_bytes : ℕ

pub record AgreementParticipant : Type 0 where
  pub id : ℕ
  pub kind : ParticipantKind
  pub user_id : Option ℕ
  pub company_id : Option ℕ
  pub company_name : Option Text
  pub name : Text
  pub email : Text
  pub cpf : Option Text
  pub job_title : Option Text
  pub role : ParticipantRole
  pub order_index : ℕ
  pub status : ParticipantStatus
  pub completed_at : Option ℕ
  pub rejected_at : Option ℕ
  pub rejection_reason : Option Text
  pub signature_hash : Option Text
  pub ip : Option Text
  pub user_agent : Option Text

pub record AgreementField : Type 0 where
  pub id : ℕ
  pub participant_id : ℕ
  pub field_type : FieldType
  pub page : ℕ
  pub box : ℕ
  pub value : Option Text

pub record AgreementDocument : Type 0 where
  pub id : ℕ
  pub title : Text
  pub description : Option Text
  pub deadline : Option ℕ
  pub status : AgreementStatus
  pub company_id : ℕ
  pub company_name : Text
  pub owner_user_id : ℕ
  pub signing_mode : SigningMode
  pub original_file : Option AgreementFile
  pub signed_file : Option AgreementFile
  pub audit_report_file : Option AgreementFile
  pub certificate_file : Option AgreementFile
  pub chat_audit_report_file : Option AgreementFile
  pub opportunity_audit_report_file : Option AgreementFile
  pub participants : List AgreementParticipant
  pub fields : List AgreementField
  pub verification_code : Text
  pub is_active : Bool
  pub opportunity_id : Option ℕ
  pub conversation_id : Option ℕ
  pub contract_proposal_id : Option ℕ
  pub created_at : ℕ
  pub updated_at : ℕ

pub record AgreementEventDocument : Type 0 where
  pub agreement_id : ℕ
  pub event_type : AgreementEventType
  pub actor_user_id : Option ℕ
  pub actor_name : Option Text
  pub actor_company_id : Option ℕ
  pub actor_company_name : Option Text
  pub ip : Option Text
  pub user_agent : Option Text
  pub metadata : List (Text × Text)
  pub created_at : ℕ

-- The tests `doc.status in {...}` of the service.
abbrev pub is_open : AgreementStatus → Bool
is_open awaiting_signatures = true
is_open partially_signed = true
is_open _ = false

abbrev pub is_editable : AgreementStatus → Bool
is_editable draft = true
is_editable awaiting_send = true
is_editable _ = false

abbrev pub is_uncancellable : AgreementStatus → Bool
is_uncancellable signed = true
is_uncancellable cancelled = true
is_uncancellable expired = true
is_uncancellable _ = false

abbrev pub is_signed : AgreementStatus → Bool
is_signed signed = true
is_signed _ = false

abbrev pub is_ordered : SigningMode → Bool
is_ordered ordered = true
is_ordered unordered = false

abbrev pub is_company : ParticipantKind → Bool
is_company company = true
is_company external = false

-- The tests of a participant's status.
abbrev pub is_pending : ParticipantStatus → Bool
is_pending ParticipantStatus.pending = true
is_pending _ = false

abbrev pub is_viewed : ParticipantStatus → Bool
is_viewed ParticipantStatus.viewed = true
is_viewed _ = false

abbrev pub is_completed : ParticipantStatus → Bool
is_completed ParticipantStatus.completed = true
is_completed _ = false

abbrev pub is_rejected : ParticipantStatus → Bool
is_rejected ParticipantStatus.rejected = true
is_rejected _ = false

-- `status in {PENDING, VIEWED}`
abbrev pub is_waiting : ParticipantStatus → Bool
is_waiting ParticipantStatus.pending = true
is_waiting ParticipantStatus.viewed = true
is_waiting _ = false
