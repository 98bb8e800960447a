-- ===== src/Conversations/Threads.antt =====
-- Starting a conversation, its messages, and what its people and the administrators read
-- (src/modules/conversations/service.py).
use econmesh_api.Prelude.{
  ℕ, Bool, true, false, not, Option, none, some, List, [], ◌∷◌, ◌==◌, if◌then◌else◌, map, is_empty,
  findb,
}
use mathlib.Core.Option
use econmesh_api.Text.{Text, truthy, or_text}
use econmesh_api.Service.{
  unhandled, Action, pure, gets, or_raise, raise_if, when, branch, match_some, ◌>>=◌, ◌>>◌,
  forbidden, not_found, validation,
}
use econmesh_api.Accounts.{UserDocument, user_by_id, company_by_id}
use econmesh_api.Conversations.Model.{
  ConversationAuthorRole, ConversationMessageType, OpportunityConversationDocument,
  OpportunityDocument, is_closed,
}
use econmesh_api.Conversations.Wording.{user_name, company_display_name}
use econmesh_api.Conversations.World.{
  ConversationWorld, Collaborators, MessageResponse, conversation_created, message_created,
  messages_read, to_admins, to_thread, new_uuid, update_conversation, create_conversation,
  create_message, active_between, publish, mark_read, list_by_conversation,
}
use econmesh_api.Conversations.Notices.{
  notify_new_conversation, notify_admins_new_conversation, notify_new_message,
}
use econmesh_api.Conversations.Responses.{
  ConversationResponse, conversation_response, plain_response, message_to_response,
  personalized_message,
}
use econmesh_api.Conversations.Access.{
  load, resolve_user, resolve_admin, get_conversation, everyone, counterpart_id,
  author_role_for_user, company_id_for_user, no_access, plain_message, last_message_at,
}
use econmesh_api.Conversations.Contact.{Entry, tell, fresh_conversation, replaced_by}

-- `OpportunitiesRepository.get`
abbrev pub opportunity_by_id : ℕ → List OpportunityDocument → Option OpportunityDocument
opportunity_by_id id = findb (λ o. o.id == id)

abbrev pub Start : Type 0
Start = UserDocument × OpportunityDocument × Text × ℕ

-- the guards of `create_or_get`: the user, the opportunity, and the company's name and identifier
unfoldable pub startable : (opportunity_id company_id : ℕ) → Text → Action ConversationWorld Start
startable opportunity_id company_id firebase_uid = do
  user ← resolve_user firebase_uid
  a ← gets (λ w. opportunity_by_id opportunity_id w.opportunities)
  opportunity ← or_raise a (not_found "Opportunity not found.")
  raise_if (not opportunity.is_active) (not_found "Opportunity not found.")
  b ← gets (λ w. company_by_id company_id w.companies)
  company ← or_raise b (not_found "Company not found.")
  raise_if (not company.is_active) (not_found "Company not found.")
  raise_if (not (company.owner_user_id == user.id)) (forbidden "You do not own this company.")
  raise_if (company.id == opportunity.company_id)
      (validation "You cannot start a conversation on your own opportunity.")
  pure (user, opportunity, company_display_name company.legal_name company.trade_name, company.id)

abbrev pub deactivated : OpportunityConversationDocument → OpportunityConversationDocument
deactivated c = record c { is_active = false }

-- the document that `create_or_get` makes
abbrev pub started :
    Start
    → (id now : ℕ) → (has_message : Bool) → (supersedes : Option ℕ)
    → OpportunityConversationDocument
started (user, opp, company_name, company_id) id now has_message supersedes =
    fresh_conversation id now opp.id opp.title opp.company_id opp.company_name opp.owner_user_id
      company_id company_name user.id user.id (if has_message then some now else none) supersedes

-- the first message, when there is one
unfoldable pub first_message :
    Start
    → OpportunityConversationDocument
    → Option Text
    → Action ConversationWorld (Option MessageResponse)
first_message (user, opp, company_name, company_id) c text =
    branch (truthy text)
      (do
        id ← new_uuid
        now ← gets (λ w. w.now)
        let message =
            plain_message id now c.id user.id (some company_id) ConversationAuthorRole.interested
              ConversationMessageType.participant_message (or_text text [])
        create_message message
        pure (some (message_to_response message (some (user_name user)))))
      (pure none)

-- The conversation found is set aside before the new one is stored, since the index allows one
-- active conversation, and is linked to it afterwards.
unfoldable pub set_aside :
    Option OpportunityConversationDocument
    → (OpportunityConversationDocument → OpportunityConversationDocument)
    → Action ConversationWorld (Unit {0})
set_aside found f = match_some found (λ c. do update_conversation c.id f; pure tt) (pure tt)

-- the rest of `create_or_get` when no open conversation is found
unfoldable pub start :
    Collaborators
    → Start
    → Option OpportunityConversationDocument
    → Option Text
    → Action ConversationWorld ConversationResponse
start x (user, opp, company_name, company_id) existing text = do
  set_aside existing deactivated
  now ← gets (λ w. w.now)
  id ← new_uuid
  let c =
      started (user, opp, company_name, company_id) id now (truthy text)
        (Option.map (λ e. e.id) existing)
  create_conversation c
  set_aside existing (replaced_by id)
  message ← first_message (user, opp, company_name, company_id) c text
  publish x (everyone c) (conversation_created c.id c.opportunity_id c.opportunity_title message)
  tell c.offerer_user_id (notify_new_conversation x c (user_name user))
  notify_admins_new_conversation x c (user_name user)
  pure (conversation_response c user.id)

-- `existing is not None and existing.status == ConversationStatus.OPEN`
abbrev pub if_open : Option OpportunityConversationDocument → Option OpportunityConversationDocument
if_open none = none
if_open (some c) = if is_closed c.status then none else some c

unfoldable pub create_or_get :
    Collaborators
    → (opportunity_id company_id : ℕ) → (message : Option Text) → Text
    → Action ConversationWorld ConversationResponse
create_or_get x opportunity_id company_id text firebase_uid = do
  (user, opp, company_name, found_id) ← startable opportunity_id company_id firebase_uid
  existing ← gets (λ w. active_between opp.id found_id w.conversations)
  match_some (if_open existing) (λ c. pure (conversation_response c user.id))
      (start x (user, opp, company_name, found_id) existing text)

unfoldable pub get_user_conversation : ℕ → Text → Action ConversationWorld ConversationResponse
get_user_conversation id firebase_uid = do
  (user, conversation) ← load id firebase_uid
  pure (conversation_response conversation user.id)

abbrev name_or_email : UserDocument → Option Text
name_or_email u = if truthy u.name then u.name else u.email

-- `name_map.get(m.author_id)`: the map holds the name or address of every author that is active, as
-- `AuthRepository.get_by_ids` finds them
abbrev pub author_name : List UserDocument → ℕ → Option Text
author_name users id = elim (user_by_id id users) [
  | none ↦ none
  | some u ↦ if u.is_active then name_or_email u else none
]

-- `_user_name`, also of a user that is not active
abbrev pub stored_user_name : List UserDocument → ℕ → Option Text
stored_user_name users id = elim (user_by_id id users) [ none ↦ none | some u ↦ name_or_email u ]

unfoldable pub list_user_messages :
    Collaborators → ℕ → Text → Action ConversationWorld (List MessageResponse)
list_user_messages x id firebase_uid = do
  (user, conversation) ← load id firebase_uid
  w ← gets (λ w. w)
  pure (
      map (λ m. personalized_message x m user.id (author_name w.users m.author_id))
        (list_by_conversation id true w.messages))

-- the guards of `add_user_message`
unfoldable pub writable : ℕ → Text → Action ConversationWorld Entry
writable id firebase_uid = do
  (user, conversation) ← load id firebase_uid
  raise_if (is_closed conversation.status) (validation "This conversation is closed.")
  pure (user, conversation)

-- the rest of `add_user_message`
unfoldable pub post_message :
    Collaborators → Entry → Text → Action ConversationWorld MessageResponse
post_message x (user, c) body = do
  role ← or_raise (author_role_for_user c user.id) no_access
  id ← new_uuid
  now ← gets (λ w. w.now)
  let message =
      plain_message id now c.id user.id (some (company_id_for_user c user.id)) role
        ConversationMessageType.participant_message body
  create_message message
  update_conversation c.id (last_message_at now)
  let response = message_to_response message (some (user_name user))
  publish x (everyone c) (message_created c.id c.opportunity_id response none)
  tell (counterpart_id c user.id) (notify_new_message x c (user_name user) body)
  pure response

unfoldable pub add_user_message :
    Collaborators → ℕ → (body : Text) → Text → Action ConversationWorld MessageResponse
add_user_message x id body firebase_uid = do
  entry ← writable id firebase_uid
  post_message x entry body

unfoldable pub mark_user_messages_read :
    Collaborators → ℕ → Text → Action ConversationWorld (List MessageResponse)
mark_user_messages_read x id firebase_uid = do
  (user, c) ← load id firebase_uid
  read_ids ← mark_read c.id user.id
  when (not (is_empty read_ids)) (publish x (everyone c) (messages_read c.id read_ids user.id))
  list_user_messages x c.id firebase_uid

unfoldable pub get_admin_conversation :
    Collaborators
    → ℕ
    → Action ConversationWorld (ConversationResponse × Option Text × Option Text × Bool × Bool)
get_admin_conversation x id = do
  c ← get_conversation id
  w ← gets (λ w. w)
  offerer_online ← or_raise (x.is_online c.offerer_user_id) (unhandled "RedisError")
  interested_online ← or_raise (x.is_online c.interested_user_id) (unhandled "RedisError")
  pure (
    plain_response c,
    stored_user_name w.users c.offerer_user_id,
    stored_user_name w.users c.interested_user_id,
    offerer_online,
    interested_online,
  )

unfoldable pub list_admin_messages : ℕ → Action ConversationWorld (List MessageResponse)
list_admin_messages id = do
  get_conversation id
  w ← gets (λ w. w)
  pure (
      map (λ m. message_to_response m (author_name w.users m.author_id))
        (list_by_conversation id false w.messages))

-- the rest of `add_internal_note`
unfoldable pub post_note :
    Collaborators
    → UserDocument
    → OpportunityConversationDocument
    → Text
    → Action ConversationWorld MessageResponse
post_note x admin c body = do
  id ← new_uuid
  now ← gets (λ w. w.now)
  let message =
      plain_message id now c.id admin.id none ConversationAuthorRole.admin
        ConversationMessageType.internal_note body
  create_message message
  let response = message_to_response message (if truthy admin.name then admin.name else admin.email)
  publish x (to_admins ∷ to_thread c.id ∷ []) (message_created c.id c.opportunity_id response none)
  pure response

unfoldable pub add_internal_note :
    Collaborators → ℕ → (body : Text) → Text → Action ConversationWorld MessageResponse
add_internal_note x id body firebase_uid = do
  admin ← resolve_admin firebase_uid
  c ← get_conversation id
  post_note x admin c body
