-- ===== src/Conversations/Contact.antt =====
-- The life of a contact (src/modules/conversations/service.py): closing it, opening it again, and
-- the requests of the other side. Each operation is its guards, which only read, and its change.
use econmesh_api.Prelude.{ℕ, Bool, true, false, not, ◌||◌, Option, none, some, is_some}
use econmesh_api.Text.{Text}
use econmesh_api.Service.{
  Action, pure, gets, or_raise, raise_if, branch, match_some, ◌>>=◌, ◌>>◌, forbidden, not_found,
  validation, unhandled,
}
use econmesh_api.Accounts.{UserDocument, user_by_id}
use econmesh_api.Conversations.Model.{
  ConversationStatus, ConversationSystemEventKind, OpportunityConversationDocument, is_closed,
}
use econmesh_api.Conversations.Wording.{user_name, stripped}
use econmesh_api.Conversations.World.{
  ConversationWorld, Collaborators, new_uuid, conversation_by_id, update_conversation,
  create_conversation,
}
use econmesh_api.Conversations.Notices.{
  notify_contact_closed, notify_reopen_requested, notify_new_contact_requested,
}
use econmesh_api.Conversations.Responses.{ConversationResponse, conversation_response, closed_by}
use econmesh_api.Conversations.Access.{load, counterpart_id, append_system_event}

-- a user and the conversation that the user takes part in
abbrev pub Entry : Type 0
Entry = UserDocument × OpportunityConversationDocument

-- `refreshed`, with its `assert`
unfoldable pub refresh : ℕ → Action ConversationWorld OpportunityConversationDocument
refresh id = do
  found ← gets (λ w. conversation_by_id id w.conversations)
  or_raise found (unhandled "AssertionError")

-- `x: await notify(x)` for a user that is there
unfoldable pub tell :
    ℕ → (UserDocument → Action ConversationWorld (Unit {0})) → Action ConversationWorld (Unit {0})
tell id notify = do found ← gets (λ w. user_by_id id w.users); match_some found notify (pure tt)

-- what every operation does after its guards: the update, its system event, and the answer
unfoldable pub change :
    Collaborators
    → Entry
    → (ℕ → OpportunityConversationDocument → OpportunityConversationDocument)
    → ConversationSystemEventKind
    → Option Text
    → (OpportunityConversationDocument → Action ConversationWorld (Unit {0}))
    → Action ConversationWorld ConversationResponse
change x (user, conversation) fields kind reason notify = do
  now ← gets (λ w. w.now)
  found ← update_conversation conversation.id (fields now)
  updated ← or_raise found (not_found "Conversation not found.")
  append_system_event x updated user kind reason
  refreshed ← refresh conversation.id
  notify refreshed
  pure (conversation_response refreshed user.id)

-- no request is pending
abbrev pub without_reopen_request :
    OpportunityConversationDocument → OpportunityConversationDocument
without_reopen_request c = record c {
  reopen_requested_by_user_id = none;
  reopen_requested_at = none;
  reopen_request_message = none;
}

abbrev pub without_new_contact_request :
    OpportunityConversationDocument → OpportunityConversationDocument
without_new_contact_request c = record c {
  new_contact_requested_by_user_id = none;
  new_contact_requested_at = none;
  new_contact_request_message = none;
}

-- the guards of `close_conversation`
unfoldable pub closable : ℕ → Text → Action ConversationWorld Entry
closable id firebase_uid = do
  (user, conversation) ← load id firebase_uid
  raise_if (is_closed conversation.status) (validation "This conversation is already closed.")
  raise_if (not conversation.is_active) (validation "This conversation is no longer active.")
  pure (user, conversation)

-- the fields that `close_conversation` writes
abbrev pub closed_fields :
    ℕ → Option Text → ℕ → OpportunityConversationDocument → OpportunityConversationDocument
closed_fields user_id reason now c =
    record (without_new_contact_request (without_reopen_request c)) {
      status = ConversationStatus.closed;
      closed_by_user_id = some user_id;
      closed_at = some now;
      close_reason = reason;
    }

unfoldable pub close_conversation :
    Collaborators
    → ℕ
    → (reason : Option Text) → Text
    → Action ConversationWorld ConversationResponse
close_conversation x id given firebase_uid = do
  (user, conversation) ← closable id firebase_uid
  let reason = stripped given
  change x (user, conversation) (closed_fields user.id reason)
      ConversationSystemEventKind.contact_closed reason
      λ refreshed.
        tell (counterpart_id refreshed user.id)
          (notify_contact_closed x refreshed (user_name user) reason)

-- the guards of `reopen_conversation`
unfoldable pub reopenable : ℕ → Text → Action ConversationWorld Entry
reopenable id firebase_uid = do
  (user, conversation) ← load id firebase_uid
  raise_if (not (is_closed conversation.status)) (validation "This conversation is not closed.")
  raise_if (not (closed_by conversation user.id))
      (forbidden "Only the user who closed the contact can reopen it.")
  raise_if (not conversation.is_active)
      (validation "This conversation was replaced by a new contact.")
  pure (user, conversation)

abbrev pub open_fields : ℕ → OpportunityConversationDocument → OpportunityConversationDocument
open_fields now c = record (without_new_contact_request (without_reopen_request c)) {
  status = ConversationStatus.«open»;
  closed_by_user_id = none;
  closed_at = none;
  close_reason = none;
}

unfoldable pub reopen_conversation :
    Collaborators → ℕ → Text → Action ConversationWorld ConversationResponse
reopen_conversation x id firebase_uid = do
  entry ← reopenable id firebase_uid
  change x entry open_fields ConversationSystemEventKind.contact_reopened none λ _. pure tt

-- `conversation.status != CLOSED or not conversation.is_active`
abbrev pub is_no_closed_contact : OpportunityConversationDocument → Bool
is_no_closed_contact c = not (is_closed c.status) || not c.is_active

-- the guards of `request_reopen`
unfoldable pub reopen_requestable : ℕ → Text → Action ConversationWorld Entry
reopen_requestable id firebase_uid = do
  (user, conversation) ← load id firebase_uid
  raise_if (is_no_closed_contact conversation)
      (validation "Only closed contacts can request reopen.")
  raise_if (closed_by conversation user.id)
      (validation "You closed this contact. Reopen it directly.")
  raise_if (is_some conversation.reopen_requested_by_user_id)
      (validation "A reopen request is already pending.")
  pure (user, conversation)

abbrev pub reopen_request_fields :
    ℕ → Option Text → ℕ → OpportunityConversationDocument → OpportunityConversationDocument
reopen_request_fields user_id message now c = record c {
  reopen_requested_by_user_id = some user_id;
  reopen_requested_at = some now;
  reopen_request_message = message;
}

-- the closer is told, when there is one
unfoldable pub tell_closer :
    (OpportunityConversationDocument → UserDocument → Action ConversationWorld (Unit {0}))
    → OpportunityConversationDocument
    → Action ConversationWorld (Unit {0})
tell_closer notify c = match_some c.closed_by_user_id (λ closer. tell closer (notify c)) (pure tt)

unfoldable pub request_reopen :
    Collaborators
    → ℕ
    → (message : Option Text) → Text
    → Action ConversationWorld ConversationResponse
request_reopen x id given firebase_uid = do
  (user, conversation) ← reopen_requestable id firebase_uid
  let message = stripped given
  change x (user, conversation) (reopen_request_fields user.id message)
      ConversationSystemEventKind.reopen_requested message
      (tell_closer λ refreshed. notify_reopen_requested x refreshed (user_name user) message)

-- the guards of `respond_reopen`
unfoldable pub reopen_answerable : ℕ → Text → Action ConversationWorld Entry
reopen_answerable id firebase_uid = do
  (user, conversation) ← load id firebase_uid
  raise_if (is_no_closed_contact conversation)
      (validation "This conversation is not awaiting a reopen decision.")
  raise_if (not (closed_by conversation user.id))
      (forbidden "Only the user who closed the contact can respond.")
  raise_if (not (is_some conversation.reopen_requested_by_user_id))
      (validation "There is no pending reopen request.")
  pure (user, conversation)

unfoldable pub respond_reopen :
    Collaborators
    → ℕ
    → (accept : Bool) → (message : Option Text) → Text
    → Action ConversationWorld ConversationResponse
respond_reopen x id accept message firebase_uid = do
  entry ← reopen_answerable id firebase_uid
  branch accept (reopen_conversation x id firebase_uid) (
      change x entry (λ now. without_reopen_request) ConversationSystemEventKind.reopen_rejected
        (stripped message) λ _. pure tt)

-- the guards of `request_new_contact`
unfoldable pub new_contact_requestable : ℕ → Text → Action ConversationWorld Entry
new_contact_requestable id firebase_uid = do
  (user, conversation) ← load id firebase_uid
  raise_if (is_no_closed_contact conversation)
      (validation "Only closed contacts can request a new contact.")
  raise_if (closed_by conversation user.id)
      (validation "You closed this contact. Reopen it or wait for a new request.")
  raise_if (is_some conversation.new_contact_requested_by_user_id)
      (validation "A new-contact request is already pending.")
  pure (user, conversation)

abbrev pub new_contact_request_fields :
    ℕ → Option Text → ℕ → OpportunityConversationDocument → OpportunityConversationDocument
new_contact_request_fields user_id message now c = record c {
  new_contact_requested_by_user_id = some user_id;
  new_contact_requested_at = some now;
  new_contact_request_message = message;
}

unfoldable pub request_new_contact :
    Collaborators
    → ℕ
    → (message : Option Text) → Text
    → Action ConversationWorld ConversationResponse
request_new_contact x id given firebase_uid = do
  (user, conversation) ← new_contact_requestable id firebase_uid
  let message = stripped given
  change x (user, conversation) (new_contact_request_fields user.id message)
      ConversationSystemEventKind.new_contact_requested message
      (tell_closer λ refreshed. notify_new_contact_requested x refreshed (user_name user) message)

-- the guards of `respond_new_contact`
unfoldable pub new_contact_answerable : ℕ → Text → Action ConversationWorld Entry
new_contact_answerable id firebase_uid = do
  (user, conversation) ← load id firebase_uid
  raise_if (is_no_closed_contact conversation)
      (validation "This conversation cannot accept a new contact.")
  raise_if (not (closed_by conversation user.id))
      (forbidden "Only the user who closed the contact can respond.")
  raise_if (not (is_some conversation.new_contact_requested_by_user_id))
      (validation "There is no pending new-contact request.")
  pure (user, conversation)

-- A conversation with the defaults of its model.
abbrev pub fresh_conversation :
    (id now : ℕ)
    → (opportunity_id : ℕ) → (opportunity_title : Text) → (offerer_company_id : ℕ)
    → (offerer_company_name : Text) → (offerer_user_id interested_company_id : ℕ)
    → (interested_company_name : Text) → (interested_user_id created_by_user_id : ℕ)
    → (last_message_at supersedes : Option ℕ) → OpportunityConversationDocument
fresh_conversation id now opp title oc ocn ou ic icn iu by last supersedes = record {
  id = id;
  created_at = now;
  updated_at = now;
  opportunity_id = opp;
  opportunity_title = title;
  offerer_company_id = oc;
  offerer_company_name = ocn;
  offerer_user_id = ou;
  interested_company_id = ic;
  interested_company_name = icn;
  interested_user_id = iu;
  created_by_user_id = by;
  status = ConversationStatus.«open»;
  last_message_at = last;
  closed_by_user_id = none;
  closed_at = none;
  close_reason = none;
  reopen_requested_by_user_id = none;
  reopen_requested_at = none;
  reopen_request_message = none;
  new_contact_requested_by_user_id = none;
  new_contact_requested_at = none;
  new_contact_request_message = none;
  is_active = true;
  replaced_by_conversation_id = none;
  supersedes_conversation_id = supersedes;
}

-- the conversation that an accepted request makes
abbrev pub renewed : OpportunityConversationDocument → ℕ → ℕ → ℕ → OpportunityConversationDocument
renewed c id now user_id =
    fresh_conversation id now c.opportunity_id c.opportunity_title c.offerer_company_id
      c.offerer_company_name c.offerer_user_id c.interested_company_id c.interested_company_name
      c.interested_user_id user_id (some now) (some c.id)

abbrev pub retired : OpportunityConversationDocument → OpportunityConversationDocument
retired c = record (without_new_contact_request c) { is_active = false }

abbrev pub replaced_by : ℕ → OpportunityConversationDocument → OpportunityConversationDocument
replaced_by id c = record c { replaced_by_conversation_id = some id }

-- the accepting branch of `respond_new_contact`
unfoldable pub start_new_contact :
    Collaborators → Entry → Option Text → Action ConversationWorld ConversationResponse
start_new_contact x (user, conversation) note = do
  now ← gets (λ w. w.now)
  id ← new_uuid
  let new_conversation = renewed conversation id now user.id
  update_conversation conversation.id retired
  create_conversation new_conversation
  update_conversation conversation.id (replaced_by id)
  old ← refresh conversation.id
  append_system_event x old user ConversationSystemEventKind.new_contact_accepted note
  append_system_event x new_conversation user ConversationSystemEventKind.new_contact_accepted note
  pure (conversation_response new_conversation user.id)

unfoldable pub respond_new_contact :
    Collaborators
    → ℕ
    → (accept : Bool) → (message : Option Text) → Text
    → Action ConversationWorld ConversationResponse
respond_new_contact x id accept message firebase_uid = do
  entry ← new_contact_answerable id firebase_uid
  branch accept (start_new_contact x entry (stripped message)) (
      change x entry (λ now. without_new_contact_request)
        ConversationSystemEventKind.new_contact_rejected (stripped message) λ _. pure tt)
