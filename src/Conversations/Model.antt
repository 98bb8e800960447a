-- ===== src/Conversations/Model.antt =====
-- src/modules/conversations/model.py, with src/modules/opportunities/model.py as far as a
-- conversation reads it. `created_at` and `updated_at` are those of src/shared/schemas/base.py.
use econmesh_api.Prelude.{ℕ, Bool, true, false, Option, ◌==◌, ◌||◌}
use econmesh_api.Text.{Text}

pub data ConversationStatus : Type 0 where
  «open» closed : ConversationStatus

pub data ConversationAuthorRole : Type 0 where
  offerer interested admin system : ConversationAuthorRole

pub data ConversationMessageType : Type 0 where
  participant_message internal_note system_event : ConversationMessageType

pub data ConversationSystemEventKind : Type 0 where
  contact_closed reopen_requested reopen_rejected contact_reopened new_contact_requested :
      ConversationSystemEventKind
  new_contact_accepted new_contact_rejected agreement_proposed agreement_submitted :
      ConversationSystemEventKind
  agreement_changes_requested agreement_rejected agreement_approved : ConversationSystemEventKind

pub record OpportunityConversationDocument : Type 0 where
  pub id : ℕ
  pub created_at : ℕ
  pub updated_at : ℕ
  pub opportunity_id : ℕ
  pub opportunity_title : Text
  pub offerer_company_id : ℕ
  pub offerer_company_name : Text
  pub offerer_user_id : ℕ
  pub interested_company_id : ℕ
  pub interested_company_name : Text
  pub interested_user_id : ℕ
  pub created_by_user_id : ℕ
  pub status : ConversationStatus
  pub last_message_at : Option ℕ
  pub closed_by_user_id : Option ℕ
  pub closed_at : Option ℕ
  pub close_reason : Option Text
  pub reopen_requested_by_user_id : Option ℕ
  pub reopen_requested_at : Option ℕ
  pub reopen_request_message : Option Text
  pub new_contact_requested_by_user_id : Option ℕ
  pub new_contact_requested_at : Option ℕ
  pub new_contact_request_message : Option Text
  pub is_active : Bool
  pub replaced_by_conversation_id : Option ℕ
  pub supersedes_conversation_id : Option ℕ

pub record OpportunityConversationMessageDocument : Type 0 where
  pub id : ℕ
  pub created_at : ℕ
  pub conversation_id : ℕ
  pub author_id : ℕ
  pub author_company_id : Option ℕ
  pub author_role : ConversationAuthorRole
  pub message_type : ConversationMessageType
  pub body : Text
  pub read_at : Option ℕ
  pub event_kind : Option ConversationSystemEventKind
  pub event_actor_user_id : Option ℕ
  pub event_actor_name : Option Text
  pub event_reason : Option Text

pub record OpportunityDocument : Type 0 where
  pub id : ℕ
  pub title : Text
  pub company_id : ℕ
  pub company_name : Text
  pub owner_user_id : ℕ
  pub is_active : Bool

-- `status == ConversationStatus.CLOSED`
abbrev pub is_closed : ConversationStatus → Bool
is_closed ConversationStatus.«open» = false
is_closed ConversationStatus.closed = true

-- `user_id in {conversation.offerer_user_id, conversation.interested_user_id}`
abbrev pub is_participant : OpportunityConversationDocument → ℕ → Bool
is_participant c id = id == c.offerer_user_id || id == c.interested_user_id

abbrev pub is_participant_message : ConversationMessageType → Bool
is_participant_message ConversationMessageType.participant_message = true
is_participant_message _ = false

-- `_USER_VISIBLE_TYPES` of the repository
abbrev pub is_user_visible : ConversationMessageType → Bool
is_user_visible ConversationMessageType.internal_note = false
is_user_visible _ = true

abbrev pub is_system_event : ConversationMessageType → Bool
is_system_event ConversationMessageType.system_event = true
is_system_event _ = false
