-- ===== src/Agreements/Notices.antt =====
-- src/modules/agreements/notification_service.py: who is told of a step of an agreement. A delivery
-- records the recipient, the event and the agreement; the wording is left out. An e-mail that the
-- provider refuses is logged and changes nothing, so each attempt is one delivery. Redis is taken to
-- accept the realtime copies.
use econmesh_api.Prelude.{
  ℕ, none, some, List, [], ◌∷◌, ◌++◌, map, String, ◌==◌, if◌then◌else◌, anyb,
}
use econmesh_api.Text.{Text, truthy, or_text, lower}
use econmesh_api.Service.{Action, pure, modify, ◌>>◌}
use econmesh_api.Accounts.{UserDocument, user_by_id, user_by_email}
use econmesh_api.Agreements.Model.{AgreementParticipant, AgreementDocument}
use econmesh_api.Agreements.World.{World, Delivery, Recipient, in_app, email_to}

abbrev delivery : Recipient → String → ℕ → Delivery
delivery r event id = record { recipient = r; event = event; agreement_id = id }

-- `_deliver`
deliver : UserDocument → ℕ → String → List Delivery
deliver user id event =
    delivery (in_app user.id) event id
    ∷ (if truthy user.email then delivery (email_to (or_text user.email [])) event id ∷ [] else [])

-- the loop of `notify_user_ids`; `seen` is the set of the identifiers met so far
user_ids_deliveries : List UserDocument → ℕ → String → List ℕ → List ℕ → List Delivery
unfolding deliver
user_ids_deliveries users id event seen [] = []
user_ids_deliveries users id event seen (uid ∷ uids) =
    (if anyb (λ s. s == uid) seen then [] else elim (user_by_id uid users) [
      | none ↦ []
      | some user ↦ if user.is_active then deliver user id event else []
    ])
    ++ user_ids_deliveries users id event (uid ∷ seen) uids

-- the loop of `notify_by_emails`
emails_deliveries : List UserDocument → ℕ → String → List Text → List Delivery
unfolding deliver
emails_deliveries users id event [] = []
emails_deliveries users id event (email ∷ emails) =
    elim (user_by_email (lower email) users) [
      | none ↦ delivery (email_to email) event id ∷ []
      | some user ↦ deliver user id event
    ]
    ++ emails_deliveries users id event emails

abbrev pub post : List Delivery → Action World (Unit {0})
post ds = modify λ w. record w { deliveries = w.deliveries ++ ds }

unfoldable pub notify_user_ids : List ℕ → ℕ → String → Action World (Unit {0})
unfolding user_ids_deliveries
notify_user_ids uids id event w = post (user_ids_deliveries w.users id event [] uids) w

unfoldable pub notify_by_emails : List Text → ℕ → String → Action World (Unit {0})
unfolding emails_deliveries
notify_by_emails emails id event w = post (emails_deliveries w.users id event emails) w

abbrev linked_users : List AgreementParticipant → List ℕ
linked_users [] = []
linked_users (p ∷ ps) = elim p.user_id [ none ↦ linked_users ps | some u ↦ u ∷ linked_users ps ]

unfoldable pub notify_minuta_approved : AgreementDocument → ℕ → ℕ → Action World (Unit {0})
notify_minuta_approved doc offerer interested = do
  notify_user_ids (offerer ∷ []) doc.id "minuta_approved"
  notify_user_ids (interested ∷ []) doc.id "agreement_started"

unfoldable pub notify_sent : AgreementDocument → Action World (Unit {0})
notify_sent doc = notify_by_emails (map (λ p. p.email) doc.participants) doc.id "sent"

unfoldable pub notify_signed : AgreementDocument → Action World (Unit {0})
notify_signed doc =
    notify_user_ids (doc.owner_user_id ∷ linked_users doc.participants) doc.id "signed"

unfoldable pub notify_rejected : AgreementDocument → Action World (Unit {0})
notify_rejected doc = notify_user_ids (doc.owner_user_id ∷ []) doc.id "rejected"

unfoldable pub notify_completed : AgreementDocument → Action World (Unit {0})
notify_completed doc =
    notify_user_ids (doc.owner_user_id ∷ linked_users doc.participants) doc.id "completed"

-- the loop over the new participants in `update_participants`
unfoldable pub notify_added : ℕ → List AgreementParticipant → Action World (Unit {0})
notify_added id [] = pure tt
notify_added id (p ∷ ps) = do
  notify_by_emails (p.email ∷ []) id "participant_added"
  notify_added id ps
