-- ===== src/Conversations/Requests.antt =====
-- The requests that change conversations, as the routes of src/modules/conversations/routes.py call
-- the service.
use econmesh_api.Prelude.{ℕ, Bool, Option}
use econmesh_api.Text.{Text}
use econmesh_api.Service.{Action, pure, ◌>>◌}
use econmesh_api.Conversations.World.{ConversationWorld, Collaborators}
use econmesh_api.Conversations.Contact.{
  close_conversation, reopen_conversation, request_reopen, respond_reopen, request_new_contact,
  respond_new_contact,
}
use econmesh_api.Conversations.Threads.{
  create_or_get, add_user_message, mark_user_messages_read, add_internal_note,
}

pub data Request : Type 0 where
  start_contact : (opportunity_id company_id : ℕ) (message : Option Text) → Request
  close_contact : (id : ℕ) (reason : Option Text) → Request
  reopen_contact : (id : ℕ) → Request
  request_reopening : (id : ℕ) (message : Option Text) → Request
  respond_reopening : (id : ℕ) (accept : Bool) (message : Option Text) → Request
  request_contact : (id : ℕ) (message : Option Text) → Request
  respond_contact : (id : ℕ) (accept : Bool) (message : Option Text) → Request
  send_message : (id : ℕ) (body : Text) → Request
  mark_messages_read : (id : ℕ) → Request
  add_note : (id : ℕ) (body : Text) → Request

-- a request of the user with this Firebase identifier; the answer is left out
unfoldable pub perform : Collaborators → Request → Text → Action ConversationWorld (Unit {0})
perform x (Request.start_contact opp company message) uid =
    create_or_get x opp company message uid >> pure tt
perform x (Request.close_contact id reason) uid = close_conversation x id reason uid >> pure tt
perform x (Request.reopen_contact id) uid = reopen_conversation x id uid >> pure tt
perform x (Request.request_reopening id message) uid = request_reopen x id message uid >> pure tt
perform x (Request.respond_reopening id accept message) uid =
    respond_reopen x id accept message uid >> pure tt
perform x (Request.request_contact id message) uid = request_new_contact x id message uid >> pure tt
perform x (Request.respond_contact id accept message) uid =
    respond_new_contact x id accept message uid >> pure tt
perform x (Request.send_message id body) uid = add_user_message x id body uid >> pure tt
perform x (Request.mark_messages_read id) uid = mark_user_messages_read x id uid >> pure tt
perform x (Request.add_note id body) uid = add_internal_note x id body uid >> pure tt
