-- ===== src/Conversations/Responses.antt =====
-- The answers of the conversations service (src/modules/conversations/service.py and schema.py).
-- An answer holds the document, whose fields it copies, and what depends on the viewer.
use econmesh_api.Prelude.{
  ℕ, Bool, false, not, ◌&&◌, Option, none, some, ◌==◌, if◌then◌else◌, is_some,
}
use econmesh_api.Text.{Text, codes, or_text}
use econmesh_api.Conversations.Model.{
  ConversationAuthorRole, OpportunityConversationDocument, OpportunityConversationMessageDocument,
  is_closed, is_system_event,
}
use econmesh_api.Conversations.Wording.{system_body}
use econmesh_api.Conversations.World.{MessageResponse, Collaborators}

-- `_message_to_response`
unfoldable pub message_to_response :
    OpportunityConversationMessageDocument → (author_name : Option Text) → MessageResponse
message_to_response m author_name = record {
  id = m.id;
  conversation_id = m.conversation_id;
  author_id = m.author_id;
  author_company_id = m.author_company_id;
  author_role = m.author_role;
  author_name = author_name;
  message_type = m.message_type;
  body = m.body;
  read_at = m.read_at;
  created_at = m.created_at;
  event_kind = m.event_kind;
  event_actor_user_id = m.event_actor_user_id;
  event_actor_name = m.event_actor_name;
  event_reason = m.event_reason;
}

-- `doc.event_actor_name or author_name or "Usuário"`
abbrev actor_or : Option Text → Option Text → Text
actor_or event_actor_name author_name =
    or_text event_actor_name (or_text author_name (codes "Usuário"))

-- `_personalized_message`
unfoldable pub personalized_message :
    Collaborators
    → OpportunityConversationMessageDocument
    → (viewer_user_id : ℕ) → (author_name : Option Text) → MessageResponse
personalized_message x m viewer author_name =
    let response = message_to_response m author_name in
    if is_system_event m.message_type
    then elim m.event_kind [
      | none ↦ response
      | some kind ↦ elim m.event_actor_user_id [
        | none ↦ response
        | some actor ↦ record response {
          body =
              system_body kind (actor_or m.event_actor_name author_name) m.event_reason
                (actor == viewer) (x.clock m.created_at);
        }
      ]
    ]
    else response

pub record ConversationResponse : Type 0 where
  pub conversation : OpportunityConversationDocument
  pub counterpart_company_name : Option Text
  pub my_role : Option ConversationAuthorRole
  pub i_closed : Bool
  pub can_reopen : Bool
  pub can_request_reopen : Bool
  pub can_respond_reopen : Bool
  pub can_request_new_contact : Bool
  pub can_respond_new_contact : Bool

abbrev pub closed_by : OpportunityConversationDocument → ℕ → Bool
closed_by c id = elim c.closed_by_user_id [ none ↦ false | some u ↦ u == id ]

-- `_conversation_response` without a viewer
abbrev pub plain_response : OpportunityConversationDocument → ConversationResponse
plain_response c = record {
  conversation = c;
  counterpart_company_name = none;
  my_role = none;
  i_closed = false;
  can_reopen = false;
  can_request_reopen = false;
  can_respond_reopen = false;
  can_request_new_contact = false;
  can_respond_new_contact = false;
}

-- the side of the viewer, and the company on the other side
abbrev my_side : OpportunityConversationDocument → ℕ → Option ConversationAuthorRole × Option Text
my_side c viewer =
    if viewer == c.offerer_user_id
    then (some ConversationAuthorRole.offerer, some c.interested_company_name)
    else if viewer == c.interested_user_id
    then (some ConversationAuthorRole.interested, some c.offerer_company_name)
    else (none, none)

-- `_conversation_response` for a viewer
unfoldable pub conversation_response :
    OpportunityConversationDocument → (viewer_user_id : ℕ) → ConversationResponse
conversation_response c viewer =
    let (role, counterpart) = my_side c viewer in
    let base = record (plain_response c) {
      my_role = role;
      counterpart_company_name = counterpart;
    } in
    let mine = closed_by c viewer in
    if is_closed c.status && c.is_active
    then record base {
      i_closed = mine;
      can_reopen = mine;
      can_request_reopen = not mine && not (is_some c.reopen_requested_by_user_id);
      can_respond_reopen = mine && is_some c.reopen_requested_by_user_id;
      can_request_new_contact = not mine && not (is_some c.new_contact_requested_by_user_id);
      can_respond_new_contact = mine && is_some c.new_contact_requested_by_user_id;
    }
    else base
