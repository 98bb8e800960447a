-- ===== src/Conversations/Samples.antt =====
-- Two companies that talk: one contact that was closed and is asked for again, and an open one.
use econmesh_api.Prelude.{
  length, ℕ, ◌≡◌, ◌≢◌, refl, true, false, none, some, List, [], ◌∷◌, ◌⊎◌, inl, inr, anyb, All,
  arith,
}
use mathlib.Core.Path.{subst}
use mathlib.Core.Option.{some-injective}
use econmesh_api.Text.{Text, codes}
use econmesh_api.Service.{unhandled, Result, ok, err, validation, forbidden, ◌>>=◌}
use econmesh_api.Accounts.{UserDocument, CompanyDocument, Role}
use econmesh_api.Conversations.Model.{
  ConversationStatus, ConversationAuthorRole, ConversationMessageType,
  OpportunityConversationDocument, OpportunityConversationMessageDocument, OpportunityDocument,
}
use econmesh_api.Conversations.World.{
  ConversationWorld, Collaborators, IsUp, MessageResponse, is_unread_for, new_uuid,
  update_conversation, create_conversation, create_message, publish, mark_read,
}
use econmesh_api.Conversations.Wording.{company_display_name}
use econmesh_api.Conversations.Notices.{
  deliver_in_app, send_email, notify, app_url, admin_url, notify_new_conversation, notify_each,
  notify_admins_new_conversation, notify_contact_closed,
}
use econmesh_api.Conversations.Responses.{ConversationResponse, conversation_response}
use econmesh_api.Conversations.Access.{
  resolve_user, get_conversation, ensure_participant, load, author_role_for_user,
  company_id_for_user, participant_ids, everyone, counterpart_id, append_system_event,
}
use econmesh_api.Conversations.Contact.{
  refresh, tell, change, closable, close_conversation, reopenable, reopen_conversation,
  fresh_conversation,
}
use econmesh_api.Conversations.Threads.{
  writable, post_message, add_user_message, startable, first_message, set_aside, start,
  create_or_get, list_user_messages, mark_user_messages_read, add_user_message,
}
use econmesh_api.Conversations.Requests.{Request, perform}
use econmesh_api.Conversations.Life.{contact, IsSide}
use econmesh_api.Conversations.Life.Soundness.{IsCoherent, IsSound}
use econmesh_api.Conversations.Life.Paths.{Stayed, Moved}
use econmesh_api.Conversations.Changes.{contacts}
use econmesh_api.Conversations.Story.{perform-Moved, run_requests, run_requests-IsSound}
use econmesh_api.Conversations.Atomicity.{perform_atomic}
use econmesh_api.Conversations.Flags.{Honours, conversation_response-Honours}
use econmesh_api.Conversations.Reading.{IsReadable, mark_user_messages_read_lem}
use econmesh_api.Conversations.Silence.{IsAnswer, close-add_user_message, create_or_get-IsAnswer}

abbrev talker : ℕ → Text → UserDocument
talker id name = record {
  id = id;
  firebase_uid = name;
  email = none;
  name = some name;
  phone = none;
  role = Role.viewer;
  email_verified = true;
  is_verified = true;
  is_active = true;
}

abbrev foundry : CompanyDocument
foundry = record {
  id = 4;
  owner_user_id = 2;
  legal_name = codes "Fundir SA";
  trade_name = none;
  tax_id = codes "2";
  email = none;
  phone = none;
  legal_representative = none;
  address = none;
  operating_license = none;
  mtr_document = none;
  signature_authorization = none;
  is_active = true;
  created_at = 0;
  updated_at = 0;
}

abbrev scrap : OpportunityDocument
scrap = record {
  id = 5;
  title = codes "Sucata";
  company_id = 3;
  company_name = codes "Aparas";
  owner_user_id = 1;
  is_active = true;
}

abbrev talk : ℕ → ℕ → OpportunityConversationDocument
talk id opportunity =
    fresh_conversation id 9 opportunity (codes "Sucata") 3 (codes "Aparas") 1 4 (codes "Fundir SA")
      2 2 none none

-- closed by the first user, and asked for by the second
abbrev ended : OpportunityConversationDocument
ended = record (talk 7 5) {
  status = ConversationStatus.closed;
  closed_by_user_id = some 1;
  closed_at = some 9;
  new_contact_requested_by_user_id = some 2;
  new_contact_requested_at = some 9;
}

abbrev greeting : OpportunityConversationMessageDocument
greeting = record {
  id = 20;
  created_at = 9;
  conversation_id = 8;
  author_id = 1;
  author_company_id = some 3;
  author_role = ConversationAuthorRole.offerer;
  message_type = ConversationMessageType.participant_message;
  body = codes "Olá";
  read_at = none;
  event_kind = none;
  event_actor_user_id = none;
  event_actor_name = none;
  event_reason = none;
}

abbrev desk : ConversationWorld
desk = record {
  users = talker 1 (codes "ana") ∷ talker 2 (codes "bia") ∷ [];
  companies = foundry ∷ [];
  opportunities = scrap ∷ [];
  conversations = ended ∷ talk 8 6 ∷ [];
  messages = greeting ∷ [];
  published = [];
  deliveries = [];
  fresh = 30;
  now = 10;
}

abbrev line : Collaborators
line = record {
  has_realtime = true;
  has_notification_realtime = false;
  is_online = λ n. some false;
  delivers = λ c e. true;
  pushes = λ n. true;
  clock = λ n. codes "10:00";
  id_text = λ n. codes "x";
  frontend_app_url = codes "app/";
  frontend_admin_url = codes "adm";
}

line-IsUp : IsUp line
line-IsUp = record {
  all_delivered = λ c e. refl;
  all_pushed = λ n. refl;
  all_known = λ u. (false, refl);
}

ended-IsCoherent : IsCoherent (contact ended)
ended-IsCoherent = record {
  open_active = λ h. cc;
  open_not_closed = λ h. cc;
  open_not_reopened = λ h. cc;
  open_not_renewed = λ h. cc;
  closed_by_side = λ h. (1, refl, inl refl);
  reopen_by_other = λ u h. cc;
  new_contact_by_other = λ u h.
      subst (λ n. IsSide (contact ended) n × (some 1 ≢ some n)) (some-injective _ _ h)
        (inr refl, λ e. ground (arith, some-injective _ _ e));
}

talk-IsCoherent : IsCoherent (contact (talk 8 6))
talk-IsCoherent = record {
  open_active = λ h. refl;
  open_not_closed = λ h. refl;
  open_not_reopened = λ h. refl;
  open_not_renewed = λ h. refl;
  closed_by_side = λ h. cc;
  reopen_by_other = λ u h. cc;
  new_contact_by_other = λ u h. cc;
}

desk-IsSound : IsSound (contacts desk)
desk-IsSound = record {
  coherent = (ended-IsCoherent, (talk-IsCoherent, tt));
  distinct = (refl, (refl, tt));
}

perform-Moved_example :
    Stayed 7
      (contact ended)
      (contacts (perform line (Request.respond_contact 7 true none) (codes "ana") desk).1)
    ⊎ Moved desk.companies 1 7
        (contact ended)
        (contacts (perform line (Request.respond_contact 7 true none) (codes "ana") desk).1)
perform-Moved_example =
    perform-Moved line (Request.respond_contact 7 true none) (codes "ana") desk
      (talker 1 (codes "ana")) 7 (contact ended) refl desk-IsSound refl

abbrev exchange : List (Text × Request)
exchange =
    (codes "ana", Request.respond_contact 7 true none)
    ∷ (codes "bia", Request.close_contact 8 none)
    ∷ (codes "ana", Request.request_reopening 8 (some (codes "por favor")))
    ∷ (codes "bia", Request.respond_reopening 8 true none)
    ∷ (codes "bia", Request.start_contact 5 4 none)
    ∷ []

run_requests-IsSound_example : IsSound (contacts (run_requests line exchange desk))
run_requests-IsSound_example = run_requests-IsSound line exchange desk desk-IsSound

-- only the closer may open the contact again
refused :
    perform line (Request.reopen_contact 7) (codes "bia") desk
    ≡ (err (forbidden "Only the user who closed the contact can reopen it."), desk)
unfolding perform reopen_conversation reopenable load resolve_user ensure_participant
    get_conversation ◌>>=◌
refused = refl

perform_atomic_example : desk ≡ desk
perform_atomic_example =
    perform_atomic line (Request.reopen_contact 7) (codes "bia") desk desk
      (forbidden "Only the user who closed the contact can reopen it.") line-IsUp desk-IsSound refl
      refused

conversation_response-Honours_example : Honours line desk 7 (codes "ana") 1 ended
conversation_response-Honours_example =
    conversation_response-Honours line desk 7 (codes "ana") (talker 1 (codes "ana")) ended refl refl
      refl line-IsUp desk-IsSound refl

-- Redis does not take the event after the message was written
abbrev broken : Collaborators
broken = record line { delivers = λ c e. false }

broken_run :
    ((perform broken (Request.send_message 8 (codes "oi")) (codes "bia") desk).0
      ≡ err (unhandled "RedisError"))
    × (length (perform broken (Request.send_message 8 (codes "oi")) (codes "bia") desk).1.messages
        ≡ 2)
unfolding perform add_user_message writable post_message load resolve_user ensure_participant
    get_conversation author_role_for_user company_id_for_user new_uuid create_message
    update_conversation publish everyone participant_ids ◌>>=◌
broken_run = (refl, refl)

abbrev list_or : {A : Type 0} → A → Result A → A
list_or d (ok a) = a
list_or d (err e) = d

abbrev reading : Result (List MessageResponse) × ConversationWorld
reading = mark_user_messages_read line 8 (codes "bia") desk

reading_returns : reading ≡ (ok (list_or [] reading.0), reading.1)
unfolding mark_user_messages_read load resolve_user ensure_participant get_conversation mark_read
    publish everyone participant_ids list_user_messages ◌>>=◌
reading_returns = refl

mark_user_messages_read_lem_example :
    (anyb (is_unread_for 8 2) reading.1.messages ≡ false)
    × All (IsReadable 8) (list_or [] reading.0)
mark_user_messages_read_lem_example =
    mark_user_messages_read_lem line 8 (codes "bia") desk reading.1 (talker 2 (codes "bia"))
      (list_or [] reading.0) refl reading_returns

abbrev answer_of : OpportunityConversationDocument → ConversationResponse
answer_of c = conversation_response c 2

abbrev closing : Result ConversationResponse × ConversationWorld
closing = close_conversation line 8 (some (codes "fim")) (codes "bia") desk

closing_returns : closing ≡ (ok (list_or (answer_of ended) closing.0), closing.1)
unfolding close_conversation closable load resolve_user ensure_participant get_conversation change
    update_conversation append_system_event author_role_for_user company_id_for_user new_uuid
    create_message publish everyone participant_ids refresh tell counterpart_id
    notify_contact_closed notify deliver_in_app send_email app_url conversation_response ◌>>=◌
closing_returns = refl

closing_keeps_users : closing.1.users ≡ desk.users
unfolding close_conversation closable load resolve_user ensure_participant get_conversation change
    update_conversation append_system_event author_role_for_user company_id_for_user new_uuid
    create_message publish everyone participant_ids refresh tell counterpart_id
    notify_contact_closed notify deliver_in_app send_email app_url conversation_response ◌>>=◌
closing_keeps_users = refl

close-add_user_message_example :
    add_user_message line 8 (codes "oi") (codes "ana") closing.1
    ≡ (err (validation "This conversation is closed."), closing.1)
close-add_user_message_example =
    close-add_user_message line 8 (some (codes "fim")) (codes "bia") (codes "ana") (codes "oi") desk
      closing.1 (list_or (answer_of ended) closing.0) (talk 8 6) (talker 1 (codes "ana"))
      closing_returns refl (rw closing_keeps_users refl) refl

abbrev starting : Result ConversationResponse × ConversationWorld
starting = create_or_get line 5 4 (some (codes "Bom dia")) (codes "bia") desk

starting_returns : starting ≡ (ok (list_or (answer_of ended) starting.0), starting.1)
unfolding create_or_get startable resolve_user start set_aside update_conversation new_uuid
    create_conversation first_message create_message publish everyone participant_ids tell
    notify_new_conversation notify_admins_new_conversation notify_each notify deliver_in_app
    send_email app_url admin_url company_display_name conversation_response ◌>>=◌
starting_returns = refl

create_or_get-IsAnswer_example :
    IsAnswer 5 4 (contact (list_or (answer_of ended) starting.0).conversation)
create_or_get-IsAnswer_example =
    create_or_get-IsAnswer line 5 4 (some (codes "Bom dia")) (codes "bia") desk starting.1
      (list_or (answer_of ended) starting.0) desk-IsSound starting_returns
