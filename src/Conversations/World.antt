-- ===== src/Conversations/World.antt =====
-- The state that the conversations service reads and writes, with the operations of
-- src/modules/conversations/repository.py and the messages that
-- src/infrastructure/realtime/conversation_pubsub.py is given. One request reads the clock once.
use econmesh_api.Prelude.{
  ℕ, ◌+◌, ◌≡◌, Bool, true, false, not, ◌&&◌, ◌||◌, Option, none, some, List, [], ◌∷◌, ◌++◌, map,
  ◌==◌, if◌then◌else◌, findb, filterb, anyb, update_first,
}
use mathlib.Core.Option
use econmesh_api.Text.{Text}
use econmesh_api.Service.{
  Action, pure, raise, raise_if, when, gets, modify, ◌>>=◌, ◌>>◌, branch, unhandled,
}
use econmesh_api.Accounts.{UserDocument, CompanyDocument}
use econmesh_api.Conversations.Model.{
  ConversationStatus, ConversationAuthorRole, ConversationMessageType, ConversationSystemEventKind,
  OpportunityConversationDocument, OpportunityConversationMessageDocument, OpportunityDocument,
  is_participant_message, is_user_visible,
}

-- `ConversationMessageResponse`
pub record MessageResponse : Type 0 where
  pub id : ℕ
  pub conversation_id : ℕ
  pub author_id : ℕ
  pub author_company_id : Option ℕ
  pub author_role : ConversationAuthorRole
  pub author_name : Option Text
  pub message_type : ConversationMessageType
  pub body : Text
  pub read_at : Option ℕ
  pub created_at : ℕ
  pub event_kind : Option ConversationSystemEventKind
  pub event_actor_user_id : Option ℕ
  pub event_actor_name : Option Text
  pub event_reason : Option Text

-- A realtime event with its data; `_message_event_payload` prints the fields of the message.
pub data RealtimeEvent : Type 0 where
  conversation_created :
      (conversation_id opportunity_id : ℕ) (title : Text) (message : Option MessageResponse)
      → RealtimeEvent
  message_created :
      (conversation_id opportunity_id : ℕ) (message : MessageResponse)
      (status : Option ConversationStatus)
      → RealtimeEvent
  conversation_updated :
      (conversation_id : ℕ) (status : ConversationStatus) (closed_by_user_id : Option ℕ)
      → RealtimeEvent
  messages_read : (conversation_id : ℕ) (message_ids : List ℕ) (reader_id : ℕ) → RealtimeEvent

pub data Channel : Type 0 where
  to_user to_thread : ℕ → Channel
  to_admins : Channel

-- `UserNotificationDocument`, of the kind `conversation`
pub record UserNotification : Type 0 where
  pub id : ℕ
  pub user_id : ℕ
  pub title : Text
  pub body : Text
  pub conversation_id : ℕ
  pub opportunity_id : ℕ
  pub event : Text

-- a stored notification, its realtime copy, or an e-mail that was tried
pub data Delivery : Type 0 where
  in_app pushed : UserNotification → Delivery
  email : (address subject body action_url : Text) → Delivery

pub record ConversationWorld : Type 0 where
  pub users : List UserDocument
  pub companies : List CompanyDocument
  pub opportunities : List OpportunityDocument
  pub conversations : List OpportunityConversationDocument
  pub messages : List OpportunityConversationMessageDocument
  pub published : List (Channel × RealtimeEvent)
  pub deliveries : List Delivery
  pub fresh : ℕ
  pub now : ℕ

-- The collaborators outside the database: the optional publishers, what Redis answers when it is asked
-- who is online (src/infrastructure/realtime/presence.py; `none` is a raise) and whether it takes a
-- realtime event or the copy of a notification (it raises where it does not), the clock as `strftime`
-- prints it, how an identifier prints, and the settings with the two front ends' addresses.
pub record Collaborators : Type 0 where
  pub has_realtime : Bool
  pub has_notification_realtime : Bool
  pub is_online : ℕ → Option Bool
  pub delivers : Channel → RealtimeEvent → Bool
  pub pushes : UserNotification → Bool
  pub clock : ℕ → Text
  pub id_text : ℕ → Text
  pub frontend_app_url : Text
  pub frontend_admin_url : Text

-- `new_uuid()`: an identifier that was not given out before
unfoldable pub new_uuid : Action ConversationWorld ℕ
new_uuid w = pure w.fresh (record w { fresh = w.fresh + 1 })

abbrev pub has_id : ℕ → OpportunityConversationDocument → Bool
has_id id c = c.id == id

-- `ConversationsRepository.get_by_id`
abbrev pub conversation_by_id :
    ℕ → List OpportunityConversationDocument → Option OpportunityConversationDocument
conversation_by_id id = findb (has_id id)

-- the key of the unique index on active conversations
abbrev pub is_active_between : ℕ → ℕ → OpportunityConversationDocument → Bool
is_active_between opportunity_id company_id c =
    c.opportunity_id == opportunity_id && c.interested_company_id == company_id && c.is_active

-- `ConversationsRepository.get_by_opportunity_and_company`
abbrev pub active_between :
    ℕ → ℕ → List OpportunityConversationDocument → Option OpportunityConversationDocument
active_between opportunity_id company_id = findb (is_active_between opportunity_id company_id)

-- the unique indexes: the identifier, and the partial one of `ensure_indexes`
abbrev pub clashes : OpportunityConversationDocument → OpportunityConversationDocument → Bool
clashes doc c =
    has_id doc.id c
    || (doc.is_active && is_active_between doc.opportunity_id doc.interested_company_id c)

-- `ConversationsRepository.create`
unfoldable pub create_conversation :
    OpportunityConversationDocument → Action ConversationWorld (Unit {0})
create_conversation doc w =
    if anyb (clashes doc) w.conversations
    then raise (unhandled "DuplicateKeyError") w
    else pure tt (record w { conversations = w.conversations ++ doc ∷ [] })

-- the fields of an update, with `updated_at`
abbrev pub touched :
    (OpportunityConversationDocument → OpportunityConversationDocument)
    → ℕ
    → OpportunityConversationDocument
    → OpportunityConversationDocument
touched f now c = record (f c) { updated_at = now }

-- `ConversationsRepository.update`, which answers the document after the update
unfoldable pub update_conversation :
    ℕ
    → (OpportunityConversationDocument → OpportunityConversationDocument)
    → Action ConversationWorld (Option OpportunityConversationDocument)
update_conversation id f w =
    pure (Option.map (touched f w.now) (conversation_by_id id w.conversations))
      (record w { conversations = update_first (has_id id) (touched f w.now) w.conversations })

-- `ConversationMessagesRepository.create`
unfoldable pub create_message :
    OpportunityConversationMessageDocument → Action ConversationWorld (Unit {0})
create_message m = modify λ w. record w { messages = w.messages ++ m ∷ [] }

-- `ConversationMessagesRepository.list_by_conversation`: the messages are kept in the order of
-- `created_at`
abbrev pub is_listed : ℕ → Bool → OpportunityConversationMessageDocument → Bool
is_listed id user_visible_only m =
    m.conversation_id == id && (not user_visible_only || is_user_visible m.message_type)

abbrev pub list_by_conversation :
    ℕ
    → Bool
    → List OpportunityConversationMessageDocument
    → List OpportunityConversationMessageDocument
list_by_conversation id user_visible_only = filterb (is_listed id user_visible_only)

-- the query of `mark_read` with `only_unread`, for messages of participants
abbrev pub is_unread_for : ℕ → ℕ → OpportunityConversationMessageDocument → Bool
is_unread_for id reader m =
    m.conversation_id == id
    && not (m.author_id == reader)
    && is_participant_message m.message_type
    && elim m.read_at [ none ↦ true | some t ↦ false ]

abbrev pub read_if :
    List ℕ → ℕ → OpportunityConversationMessageDocument → OpportunityConversationMessageDocument
read_if ids now m = if anyb (λ id. id == m.id) ids then record m { read_at = some now } else m

-- `ConversationMessagesRepository.mark_read`
unfoldable pub mark_read : ℕ → (exclude_author_id : ℕ) → Action ConversationWorld (List ℕ)
mark_read id reader = do
  w ← gets (λ w. w)
  let ids = map (λ m. m.id) (filterb (is_unread_for id reader) w.messages)
  branch (elim ids as (λ _. Bool) [ [] ↦ true | i ∷ is ↦ false ]) (pure [])
      (do modify λ v. record v { messages = map (read_if ids w.now) v.messages }; pure ids)

-- the calls of the publisher one after the other, until Redis raises
unfoldable pub publish_each :
    Collaborators → List Channel → RealtimeEvent → Action ConversationWorld (Unit {0})
publish_each x [] e = pure tt
publish_each x (c ∷ cs) e = do
  raise_if (not (x.delivers c e)) (unhandled "RedisError")
  modify λ w. record w { published = w.published ++ (c, e) ∷ [] }
  publish_each x cs e

-- `_publish`, which does nothing without a publisher
unfoldable pub publish :
    Collaborators → List Channel → RealtimeEvent → Action ConversationWorld (Unit {0})
unfolding publish_each
publish x channels e = when x.has_realtime (publish_each x channels e)

-- Redis answers and takes what it is given
pub record IsUp (x : Collaborators) : Type 0 where
  pub all_delivered : (c : Channel) (e : RealtimeEvent) → x.delivers c e ≡ true
  pub all_pushed : (n : UserNotification) → x.pushes n ≡ true
  pub all_known : (u : ℕ) → (b : Bool) × (x.is_online u ≡ some b)
