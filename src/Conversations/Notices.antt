-- ===== src/Conversations/Notices.antt =====
-- src/modules/conversations/notification_service.py: a notification in the application for each
-- person concerned, and an e-mail to those who are not online. An e-mail that the provider refuses
-- is logged and changes nothing, so each attempt is one delivery.
use econmesh_api.Prelude.{
  Bool, true, false, not, ◌&&◌, Option, List, [], ◌∷◌, ◌++◌, String, ◌==◌, if◌then◌else◌, take,
  filterb,
}
use econmesh_api.Text.{Text, codes, truthy, or_text}
use econmesh_api.Service.{
  raise_if, or_raise, unhandled, Action, pure, gets, modify, when, ◌>>=◌, ◌>>◌,
}
use econmesh_api.Accounts.{UserDocument, Role}
use econmesh_api.Conversations.Model.{OpportunityConversationDocument}
use econmesh_api.Conversations.World.{
  ConversationWorld, Collaborators, Delivery, UserNotification, in_app, pushed, email, new_uuid,
}

abbrev pub deliver : Delivery → Action ConversationWorld (Unit {0})
deliver d = modify λ w. record w { deliveries = w.deliveries ++ d ∷ [] }

-- `_deliver_in_app`
unfoldable pub deliver_in_app :
    Collaborators
    → UserDocument
    → (title body : Text) → OpportunityConversationDocument
    → (event : String) → Action ConversationWorld (Unit {0})
deliver_in_app x user title body c event = do
  id ← new_uuid
  let n : UserNotification = record {
    id = id;
    user_id = user.id;
    title = title;
    body = body;
    conversation_id = c.id;
    opportunity_id = c.opportunity_id;
    event = codes event;
  }
  deliver (in_app n)
  when x.has_notification_realtime
      (do raise_if (not (x.pushes n)) (unhandled "RedisError"); deliver (pushed n))

-- `_send_email`
unfoldable pub send_email :
    UserDocument → (subject body action_url : Text) → Action ConversationWorld (Unit {0})
send_email user subject body action_url =
    when (truthy user.email) (deliver (email (or_text user.email []) subject body action_url))

-- `_notify`
unfoldable pub notify :
    Collaborators
    → UserDocument
    → (title body : Text) → OpportunityConversationDocument
    → (event : String) → (action_url : Text) → Action ConversationWorld (Unit {0})
notify x user title body c event action_url = do
  deliver_in_app x user title body c event
  online ← or_raise (x.is_online user.id) (unhandled "RedisError")
  when (not online) (send_email user title body action_url)

-- `url.rstrip('/')`
rstrip_slash : Text → Text
rstrip_slash [] = []
rstrip_slash (c ∷ s) = elim (rstrip_slash s) [
  | [] ↦ if c == b'/' then [] else c ∷ []
  | d ∷ t ↦ c ∷ d ∷ t
]

-- `_app_url` and `_admin_url`
abbrev pub thread_url : Collaborators → Text → OpportunityConversationDocument → Text
thread_url x base c = base ++ codes "/dashboard/conversas/" ++ x.id_text c.id

unfoldable pub app_url : Collaborators → OpportunityConversationDocument → Text
unfolding rstrip_slash
app_url x = thread_url x (rstrip_slash x.frontend_app_url)

unfoldable pub admin_url : Collaborators → OpportunityConversationDocument → Text
unfolding rstrip_slash
admin_url x = thread_url x (rstrip_slash x.frontend_admin_url)

abbrev about : OpportunityConversationDocument → Text
about c = codes "“" ++ c.opportunity_title ++ codes "”"

abbrev with_note : Text → String → Option Text → Text
with_note body label note =
    if truthy note then body ++ codes " " ++ codes label ++ codes ": " ++ or_text note [] else body

-- the filter of `AuthRepository.list_admins`
abbrev pub is_admin : Role → Bool
is_admin Role.admin = true
is_admin _ = false

abbrev pub list_admins : List UserDocument → List UserDocument
list_admins = filterb (λ u. is_admin u.role && u.is_active)

module _ (x : Collaborators) (c : OpportunityConversationDocument) where
  unfoldable pub notify_new_conversation : Text → UserDocument → Action ConversationWorld (Unit {0})
  notify_new_conversation starter_name recipient =
      notify x recipient (codes "Nova conversa sobre oportunidade")
        (starter_name ++ codes " iniciou uma conversa sobre " ++ about c ++ codes ".") c
        "conversation_created" (app_url x c)

  unfoldable pub notify_new_message :
      Text → Text → UserDocument → Action ConversationWorld (Unit {0})
  notify_new_message sender_name preview recipient =
      notify x recipient (codes "Nova mensagem: " ++ c.opportunity_title)
        (sender_name ++ codes ": " ++ take 200 preview) c "message_created" (app_url x c)

  -- the loop over the administrators
  unfoldable pub notify_each :
      Text → Text → Text → List UserDocument → Action ConversationWorld (Unit {0})
  notify_each title body url [] = pure tt
  notify_each title body url (admin ∷ admins) = do
    notify x admin title body c "conversation_created" url
    notify_each title body url admins

  unfoldable pub notify_admins_new_conversation : Text → Action ConversationWorld (Unit {0})
  notify_admins_new_conversation starter_name = do
    admins ← gets (λ w. list_admins w.users)
    let body =
        starter_name
        ++ codes " iniciou conversa sobre "
        ++ about c
        ++ codes " ("
        ++ c.offerer_company_name
        ++ codes " × "
        ++ c.interested_company_name
        ++ codes ")."
    notify_each (codes "Nova conversa entre empresas") body (admin_url x c) admins

  unfoldable pub notify_contact_closed :
      Text → Option Text → UserDocument → Action ConversationWorld (Unit {0})
  notify_contact_closed actor_name reason recipient =
      notify x recipient (codes "Contato encerrado")
        (with_note (actor_name ++ codes " encerrou o contato sobre " ++ about c ++ codes ".")
          "Motivo" reason)
        c "contact_closed" (app_url x c)

  unfoldable pub notify_reopen_requested :
      Text → Option Text → UserDocument → Action ConversationWorld (Unit {0})
  notify_reopen_requested actor_name message recipient =
      notify x recipient (codes "Solicitação de reabertura")
        (with_note
          (actor_name ++ codes " solicitou a reabertura do contato sobre " ++ about c ++ codes ".")
          "Mensagem" message)
        c "reopen_requested" (app_url x c)

  unfoldable pub notify_new_contact_requested :
      Text → Option Text → UserDocument → Action ConversationWorld (Unit {0})
  notify_new_contact_requested actor_name message recipient =
      notify x recipient (codes "Solicitação de novo contato")
        (with_note (actor_name ++ codes " solicitou um novo contato sobre " ++ about c ++ codes ".")
          "Mensagem" message)
        c "new_contact_requested" (app_url x c)
