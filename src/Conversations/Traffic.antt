-- ===== src/Conversations/Traffic.antt =====
-- Every request, the messages and notes included, and the contacts it leaves.
use econmesh_api.Prelude.{
  ℕ, true, false, not, ◌≡◌, refl, sym, ap, ◌∙◌, ◌⊎◌, inl, inr, some, map, is_some,
}
use mathlib.Core.Path.{subst}
use econmesh_api.Text.{Text}
use econmesh_api.Service.{
  Action, pure, ◌>>=◌, Runs, bind-Runs, pure-Runs, gets-Runs, or_raise-Runs, Runs-mono, given-Runs,
  after-Reads, when-Runs, modify-Runs, branch-Runs, raise_if-Runs, Reads, bind-Reads,
  raise_if-Reads, pure-Reads,
}
use econmesh_api.Accounts.{UserDocument, user_by_firebase_uid}
use econmesh_api.Conversations.Model.{OpportunityConversationDocument, is_participant, is_closed}
use econmesh_api.Conversations.World.{
  ConversationWorld, Collaborators, mark_read, IsUp, conversation_by_id,
}
use econmesh_api.Conversations.Contact.{Entry}
use econmesh_api.Conversations.Access.{
  resolve_admin, load, resolve_user, ensure_participant, get_conversation,
}
use econmesh_api.Conversations.Threads.{
  Start, writable, post_message, add_user_message, mark_user_messages_read, list_user_messages,
  add_internal_note, post_note,
}
use econmesh_api.Conversations.Requests.{Request, perform}
use econmesh_api.Conversations.Life.{contact, IsOwner}
use econmesh_api.Conversations.Life.Soundness.{IsSound}
use econmesh_api.Conversations.Guards.{
  IsEntry, IsCloser, load-Reads, resolve_user-Reads, get_conversation-Reads,
}
use econmesh_api.Conversations.Quiet.{
  Quiet, author_role_for_user-some, new_uuid-Quiet, update_conversation-Quiet, create_message-Quiet,
  Fits, publish-Runs, publish-Quiet, tell-Quiet, bind-Quiet, pure-Quiet, gets-Quiet,
  notify_new_message-Quiet,
}
use econmesh_api.Conversations.Changes.{contacts, stored-id}
use econmesh_api.Conversations.Refinement.{
  Followed, Follows, unchanged-Followed, close-Follows, reopen-Follows, request_reopen-Follows,
  respond_reopen-Follows, request_new_contact-Follows,
}
use econmesh_api.Conversations.Renewal.{
  Refused, retired-Grown, one_move-Followed, respond_new_contact-Follows,
}
use econmesh_api.Conversations.Starting.{
  IsStart, start-IsOwner, Clash, without-Followed, create_or_get-Follows,
}

-- the guards of `add_user_message`
pub writable-Reads :
    (s : ConversationWorld) (id : ℕ) (uid : Text)
    → Reads s (writable id uid) (λ e. IsEntry s id uid e × (is_closed e.1.status ≡ false))
unfolding writable
writable-Reads s id uid = bind-Reads s (load-Reads s id uid) λ (user, c) entry.
    bind-Reads s (raise_if-Reads s _ _) λ _ is_open. pure-Reads s (user, c) (entry, is_open)

post_message-Quiet :
    (x : Collaborators) (e : Entry) (body : Text)
    → is_participant e.1 e.0.id ≡ true
    → Quiet x (post_message x e body)
unfolding post_message
post_message-Quiet x (user, c) body side =
    bind-Quiet
      (record {
        keeps = λ C E _.
            or_raise-Runs _ _
              (λ s h. let (r, known) = author_role_for_user-some c user.id side in (r, known, h));
      })
      λ role. bind-Quiet new_uuid-Quiet λ id. bind-Quiet (gets-Quiet _) λ now.
        bind-Quiet (create_message-Quiet _) λ _.
          bind-Quiet (update_conversation-Quiet _ _ (λ d. refl)) λ _.
            bind-Quiet (publish-Quiet _ _ _)
              λ _. bind-Quiet (tell-Quiet _ (notify_new_message-Quiet x c _ _)) λ _. pure-Quiet _

post_note-Quiet :
    (x : Collaborators) (admin : UserDocument) (c : OpportunityConversationDocument) (body : Text)
    → Quiet x (post_note x admin c body)
unfolding post_note
post_note-Quiet x admin c body = bind-Quiet new_uuid-Quiet λ id. bind-Quiet (gets-Quiet _) λ now.
    bind-Quiet (create_message-Quiet _) λ _. bind-Quiet (publish-Quiet _ _ _) λ _. pure-Quiet _

resolve_admin-Reads :
    (s : ConversationWorld) (uid : Text)
    → Reads s (resolve_admin uid) (λ u. user_by_firebase_uid uid s.users ≡ some u)
unfolding resolve_admin
resolve_admin-Reads s uid =
    bind-Reads s (resolve_user-Reads s 0 uid)
      λ u known. bind-Reads s (raise_if-Reads s _ _) λ _ _. pure-Reads s u known

-- marking messages as read leaves the users and the conversations
abbrev Beside : ConversationWorld → ConversationWorld → Type 0
Beside s0 s = (s.users ≡ s0.users) × (s.conversations ≡ s0.conversations)

list_user_messages-Runs :
    {E : ConversationWorld → Type 0} (x : Collaborators) (s0 : ConversationWorld) (id : ℕ)
    (uid : Text) (e : Entry)
    → IsEntry s0 id uid e
    → Runs (Beside s0) (list_user_messages x id uid) (λ _. Beside s0) E
unfolding list_user_messages load resolve_user ensure_participant get_conversation
list_user_messages-Runs x s0 id uid (user, c) entry =
    bind-Runs {Q = λ p. Beside s0}
      (bind-Runs {Q = λ a s. Beside s0 s × (a ≡ user)}
        (bind-Runs {Q = λ found s. Beside s0 s × (found ≡ some user)}
          (gets-Runs _ (λ s h. (h, ap (user_by_firebase_uid uid) h.0 ∙ entry.known)))
          λ found. or_raise-Runs found _ λ s (h, e). (user, e, (h, refl)))
        λ a. given-Runs λ s (beside, same).
          bind-Runs {Q = λ p. Beside s0}
            (bind-Runs {Q = λ d s. Beside s0 s × (d ≡ c)}
              (bind-Runs {Q = λ found s. Beside s0 s × (found ≡ some c)}
                (gets-Runs _ (λ t h.
                  let b : Beside s0 t = rw h beside in
                  (b, ap (conversation_by_id id) b.1 ∙ entry.stored)))
                λ found. or_raise-Runs found _ λ t (h, e). (c, e, (h, refl)))
              λ d.
                bind-Runs {Q = λ p. Beside s0}
                  (raise_if-Runs _ _ λ t (h, e). (
                    ap not (
                        ap (λ v. is_participant d v.id) same
                        ∙ ap (λ k. is_participant k user.id) e
                        ∙ entry.takes_part),
                    h,
                  ))
                  λ p. pure-Runs d (λ t h. h))
            λ d. pure-Runs _ (λ t h. h))
      λ p. bind-Runs {Q = λ w. Beside s0} (gets-Runs _ (λ s h. h)) λ w. pure-Runs _ (λ s h. h)

mark_read-Runs :
    {E : ConversationWorld → Type 0} (s0 : ConversationWorld) (id reader : ℕ)
    → Runs (λ s. s ≡ s0) (mark_read id reader) (λ _. Beside s0) E
unfolding mark_read
mark_read-Runs s0 id reader =
    bind-Runs {Q = λ w. Beside s0}
      (gets-Runs _ (λ s h. (ap (λ t. t.users) h, ap (λ t. t.conversations) h)))
      λ w.
        branch-Runs _ (λ _. pure-Runs _ (λ s h. h))
          (λ _.
            bind-Runs {Q = λ p. Beside s0} (modify-Runs _ (λ s h. h)) λ p. pure-Runs _ (λ s h. h))

module _ (x : Collaborators) (s0 : ConversationWorld) (u id : ℕ) (uid : Text)
    {E : ConversationWorld → Type 0} (unchanged : E s0)
    (fits : Fits x (Followed s0.companies u (contacts s0)) E) where
  Quiet-Follows :
      {A : Type 0} {m : Action ConversationWorld A}
      → Quiet x m
      → Runs (λ s. s ≡ s0) m (λ r. Follows u s0) E
  Quiet-Follows g =
      Runs-mono (g.keeps (Followed s0.companies u (contacts s0)) E fits)
        (λ s h. rw h unchanged-Followed) (λ a s h. h) (λ s h. h)

  add_user_message-Follows :
      (body : Text) → Runs (λ s. s ≡ s0) (add_user_message x id body uid) (λ r. Follows u s0) E
  unfolding add_user_message
  add_user_message-Follows body =
      after-Reads s0 (writable-Reads s0 id uid) (λ _ _ _. unchanged)
        λ e (entry, _). Quiet-Follows (post_message-Quiet x e body entry.takes_part)

  add_internal_note-Follows :
      (body : Text) → Runs (λ s. s ≡ s0) (add_internal_note x id body uid) (λ r. Follows u s0) E
  unfolding add_internal_note
  add_internal_note-Follows body =
      after-Reads s0 (resolve_admin-Reads s0 uid) (λ _ _ _. unchanged)
        λ admin _.
          after-Reads s0 (get_conversation-Reads s0 id uid) (λ _ _ _. unchanged)
            λ c _. Quiet-Follows (post_note-Quiet x admin c body)

  Beside-Fits : IsUp x ⊎ ((s : ConversationWorld) → Beside s0 s → E s)
  Beside-Fits = elim fits [
    | inl up ↦ inl up
    | inr f ↦ inr (λ s h. f s (
        subst (λ cs. Followed s0.companies u (contacts s0) (map contact cs)) (sym h.1)
          unchanged-Followed))
  ]

  mark_read-Follows : Runs (λ s. s ≡ s0) (mark_user_messages_read x id uid) (λ r. Follows u s0) E
  unfolding mark_user_messages_read
  mark_read-Follows =
      after-Reads s0 (load-Reads s0 id uid) (λ _ _ _. unchanged)
        λ (user, c) entry. bind-Runs (mark_read-Runs s0 c.id user.id) λ ids.
          bind-Runs {Q = λ p. Beside s0}
            (when-Runs _ (λ _. publish-Runs x (λ s l h. h) Beside-Fits _ _) (λ s h. h))
            λ p.
              Runs-mono
                (list_user_messages-Runs {E = E} x s0 c.id uid (user, c) (renamed user c entry))
                (λ s h. h)
                (λ r s h.
                  subst (λ cs. Followed s0.companies u (contacts s0) (map contact cs)) (sym h.1)
                    unchanged-Followed)
                (λ s h. h)
    where
      renamed :
          (user : UserDocument) (c : OpportunityConversationDocument)
          → IsEntry s0 id uid (user, c)
          → IsEntry s0 c.id uid (user, c)
      renamed user c entry = record {
        known = entry.known;
        stored =
            ap (λ n. conversation_by_id n s0.conversations)
              (stored-id id s0.conversations c entry.stored)
            ∙ entry.stored;
        takes_part = entry.takes_part;
      }

-- where the unique indexes refuse a conversation that a request makes
pub data Blocked (s0 : ConversationWorld) (uid : Text) (s : ConversationWorld) : Type 0 where
  starting :
      (opportunity_id company_id : ℕ) (e : Start)
      → IsStart s0 opportunity_id company_id uid e
      → Clash s0 e s
      → Blocked s0 uid s
  renewing :
      (id : ℕ) (e : Entry)
      → IsEntry s0 id uid e
      → IsCloser e
      → is_some e.1.new_contact_requested_by_user_id ≡ true
      → Refused s0 e s
      → Blocked s0 uid s

-- Every request moves one contact at most, by a move that its user may make. It raises in the state
-- that it found, or where the unique indexes refuse a conversation.
pub perform-Runs :
    (x : Collaborators) (r : Request) (uid : Text) (s0 : ConversationWorld) (u : ℕ)
    {E : ConversationWorld → Type 0}
    → ((a : UserDocument) → user_by_firebase_uid uid s0.users ≡ some a → a.id ≡ u)
    → IsSound (contacts s0)
    → E s0
    → ((s : ConversationWorld) → Blocked s0 uid s → E s)
    → Fits x (Followed s0.companies u (contacts s0)) E
    → Runs (λ s. s ≡ s0) (perform x r uid) (λ _. Follows u s0) E
unfolding perform
perform-Runs x r uid s0 u {E} acts sound unchanged blocked fits = go r
  where
    done :
        {A : Type 0} {m : Action ConversationWorld A}
        → Runs (λ s. s ≡ s0) m (λ r. Follows u s0) E
        → Runs (λ s. s ≡ s0) (m >>= λ _. pure tt) (λ _. Follows u s0) E
    done g = bind-Runs g (λ _. pure-Runs tt (λ s h. h))

    go : (r : Request) → Runs (λ s. s ≡ s0) (perform x r uid) (λ _. Follows u s0) E
    go (Request.start_contact opp company message) = done (
        create_or_get-Follows x s0 uid u acts unchanged fits opp company message sound
          (λ e h s c. blocked s (starting opp company e h c)))
    go (Request.close_contact id reason) =
        done (close-Follows x s0 id uid u acts fits reason (λ _ _ _. unchanged))
    go (Request.reopen_contact id) =
        done (reopen-Follows x s0 id uid u acts fits (λ _ _ _. unchanged))
    go (Request.request_reopening id message) =
        done (request_reopen-Follows x s0 id uid u acts fits message (λ _ _ _. unchanged))
    go (Request.respond_reopening id accept message) = done (
        respond_reopen-Follows x s0 id uid u acts fits accept message (λ _ _ _. unchanged)
          (λ _ _ _. unchanged))
    go (Request.request_contact id message) =
        done (request_new_contact-Follows x s0 id uid u acts fits message (λ _ _ _. unchanged))
    go (Request.respond_contact id accept message) = done (
        respond_new_contact-Follows x s0 id uid u acts fits accept message
          (λ e entry closer asked s h. blocked s (renewing id e entry closer asked h))
          (λ _ _ _. unchanged))
    go (Request.send_message id body) =
        done (add_user_message-Follows x s0 u id uid unchanged fits body)
    go (Request.mark_messages_read id) = done (mark_read-Follows x s0 u id uid unchanged fits)
    go (Request.add_note id body) =
        done (add_internal_note-Follows x s0 u id uid unchanged fits body)

-- also where it is refused at most one contact was moved
blocked-Followed :
    (uid : Text) (s0 s : ConversationWorld) (u : ℕ)
    → ((a : UserDocument) → user_by_firebase_uid uid s0.users ≡ some a → a.id ≡ u)
    → IsSound (contacts s0)
    → Blocked s0 uid s
    → Follows u s0 s
blocked-Followed uid s0 s u acts sound (starting opp company e h (shut, left, clash)) =
    subst (Followed s0.companies u (contacts s0)) (sym left) (
      without-Followed s0 u e.1.id e.3 _ sound.distinct refl shut (
        subst (λ n. IsOwner s0.companies n e.3) (acts e.0 h.known)
          (start-IsOwner s0 opp company uid e h)))
blocked-Followed uid s0 s u acts sound (renewing id e entry closer asked (left, clash)) =
    subst (Followed s0.companies u (contacts s0)) (sym left)
      (one_move-Followed (retired-Grown s0 id uid u acts e entry closer asked).0)

pub perform-Follows :
    (x : Collaborators) (r : Request) (uid : Text) (s0 : ConversationWorld) (u : ℕ)
    → ((a : UserDocument) → user_by_firebase_uid uid s0.users ≡ some a → a.id ≡ u)
    → IsSound (contacts s0)
    → Runs (λ s. s ≡ s0) (perform x r uid) (λ _. Follows u s0) (Follows u s0)
perform-Follows x r uid s0 u acts sound =
    perform-Runs x r uid s0 u acts sound unchanged-Followed
      (λ s h. blocked-Followed uid s0 s u acts sound h) (inr (λ s h. h))
