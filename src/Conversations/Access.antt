-- ===== src/Conversations/Access.antt =====
-- Who takes part in a conversation, and the system event that a change of it leaves
-- (src/modules/conversations/service.py).
use econmesh_api.Prelude.{
  ℕ, false, not, Option, none, some, List, [], ◌∷◌, ◌++◌, ◌==◌, if◌then◌else◌, map,
}
use econmesh_api.Text.{Text, strip}
use econmesh_api.Service.{
  Action, AppException, pure, gets, or_raise, raise_if, ◌>>=◌, ◌>>◌, forbidden, not_found,
}
use econmesh_api.Accounts.{UserDocument, user_by_firebase_uid}
use econmesh_api.Conversations.Model.{
  ConversationAuthorRole, ConversationMessageType, ConversationSystemEventKind,
  OpportunityConversationDocument, OpportunityConversationMessageDocument, is_participant,
}
use econmesh_api.Conversations.Wording.{system_body, user_name}
use econmesh_api.Conversations.World.{
  ConversationWorld, Collaborators, MessageResponse, Channel, to_user, to_admins, to_thread,
  message_created, conversation_updated, new_uuid, conversation_by_id, update_conversation,
  create_message, publish,
}
use econmesh_api.Conversations.Notices.{is_admin}
use econmesh_api.Conversations.Responses.{message_to_response}

-- `_resolve_user`
unfoldable pub resolve_user : Text → Action ConversationWorld UserDocument
resolve_user firebase_uid = do
  found ← gets (λ w. user_by_firebase_uid firebase_uid w.users)
  or_raise found (not_found "User not found.")

-- `_resolve_admin`
unfoldable pub resolve_admin : Text → Action ConversationWorld UserDocument
resolve_admin firebase_uid = do
  user ← resolve_user firebase_uid
  raise_if (not (is_admin user.role)) (forbidden "Admin access required.")
  pure user

-- a conversation that has to be there
unfoldable pub get_conversation : ℕ → Action ConversationWorld OpportunityConversationDocument
get_conversation id = do
  found ← gets (λ w. conversation_by_id id w.conversations)
  or_raise found (not_found "Conversation not found.")

abbrev pub no_access : AppException
no_access = forbidden "You do not have access to this conversation."

-- `_ensure_participant`
unfoldable pub ensure_participant : ℕ → ℕ → Action ConversationWorld OpportunityConversationDocument
ensure_participant id user_id = do
  conversation ← get_conversation id
  raise_if (not (is_participant conversation user_id)) no_access
  pure conversation

-- the first two lines of every operation of a participant
unfoldable pub load :
    ℕ → Text → Action ConversationWorld (UserDocument × OpportunityConversationDocument)
load id firebase_uid = do
  user ← resolve_user firebase_uid
  conversation ← ensure_participant id user.id
  pure (user, conversation)

-- `_author_role_for_user`, where `none` is the raise
unfoldable pub author_role_for_user :
    OpportunityConversationDocument → ℕ → Option ConversationAuthorRole
author_role_for_user c user_id =
    if user_id == c.offerer_user_id
    then some ConversationAuthorRole.offerer
    else if user_id == c.interested_user_id
    then some ConversationAuthorRole.interested
    else none

-- `_company_id_for_user`
unfoldable pub company_id_for_user : OpportunityConversationDocument → ℕ → ℕ
company_id_for_user c user_id =
    if user_id == c.offerer_user_id then c.offerer_company_id else c.interested_company_id

-- `_participant_ids`; the order of a set is not defined, and here the offerer comes first
unfoldable pub participant_ids : OpportunityConversationDocument → List ℕ
participant_ids c =
    if c.offerer_user_id == c.interested_user_id
    then c.offerer_user_id ∷ []
    else c.offerer_user_id ∷ c.interested_user_id ∷ []

-- the channels of `_publish` for a conversation: its people, the administrators and its thread
unfoldable pub everyone : OpportunityConversationDocument → List Channel
everyone c = map to_user (participant_ids c) ++ to_admins ∷ to_thread c.id ∷ []

-- the user on the other side
unfoldable pub counterpart_id : OpportunityConversationDocument → ℕ → ℕ
counterpart_id c user_id =
    if user_id == c.interested_user_id then c.offerer_user_id else c.interested_user_id

-- A message that is not a system event. A document strips its texts.
abbrev pub plain_message :
    (id now conversation_id : ℕ)
    → (author_id : ℕ) → (author_company_id : Option ℕ) → ConversationAuthorRole
    → ConversationMessageType
    → Text
    → OpportunityConversationMessageDocument
plain_message id now conversation_id author_id author_company_id role type body = record {
  id = id;
  created_at = now;
  conversation_id = conversation_id;
  author_id = author_id;
  author_company_id = author_company_id;
  author_role = role;
  message_type = type;
  body = strip body;
  read_at = none;
  event_kind = none;
  event_actor_user_id = none;
  event_actor_name = none;
  event_reason = none;
}

-- the message of `_append_system_event`; `stripped` of a reason of blanks is no reason
abbrev pub reason_of : Option Text → Option Text
reason_of none = none
reason_of (some r) = elim (strip r) [ [] ↦ none | c ∷ s ↦ some (c ∷ s) ]

abbrev pub event_message :
    Collaborators
    → OpportunityConversationDocument
    → UserDocument
    → ConversationSystemEventKind
    → Option Text
    → ConversationAuthorRole
    → (id now : ℕ) → OpportunityConversationMessageDocument
event_message x c actor kind reason role id now =
    record (plain_message id now c.id actor.id (some (company_id_for_user c actor.id)) role
      ConversationMessageType.system_event
      (system_body kind (user_name actor) reason false (x.clock now))) {
        event_kind = some kind;
        event_actor_user_id = some actor.id;
        event_actor_name = some (strip (user_name actor));
        event_reason = reason_of reason;
      }

abbrev pub last_message_at : ℕ → OpportunityConversationDocument → OpportunityConversationDocument
last_message_at now c = record c { last_message_at = some now }

-- `_append_system_event`
unfoldable pub append_system_event :
    Collaborators
    → OpportunityConversationDocument
    → UserDocument
    → ConversationSystemEventKind
    → Option Text
    → Action ConversationWorld MessageResponse
append_system_event x c actor kind reason = do
  now ← gets (λ w. w.now)
  role ← or_raise (author_role_for_user c actor.id) no_access
  id ← new_uuid
  let message = event_message x c actor kind reason role id now
  create_message message
  update_conversation c.id (last_message_at now)
  let response = message_to_response message (some (user_name actor))
  publish x (everyone c) (message_created c.id c.opportunity_id response (some c.status))
  publish x (everyone c) (conversation_updated c.id c.status c.closed_by_user_id)
  pure response
