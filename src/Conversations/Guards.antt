-- ===== src/Conversations/Guards.antt =====
-- What the guards of an operation on a contact let through. They read the state and leave it.
use econmesh_api.Prelude.{ℕ, true, false, ◌≡◌, ◌∙◌, some, arith, not-false, is_some}
use econmesh_api.Text.{Text}
use econmesh_api.Service.{
  Reads, bind-Reads, Reads-mono, pure-Reads, gets-Reads, or_raise-Reads, raise_if-Reads,
}
use econmesh_api.Accounts.{user_by_firebase_uid}
use econmesh_api.Conversations.Model.{OpportunityConversationDocument, is_closed, is_participant}
use econmesh_api.Conversations.World.{ConversationWorld, conversation_by_id}
use econmesh_api.Conversations.Responses.{closed_by}
use econmesh_api.Conversations.Access.{resolve_user, get_conversation, ensure_participant, load}
use econmesh_api.Conversations.Contact.{
  Entry, closable, reopenable, is_no_closed_contact, reopen_requestable, reopen_answerable,
  new_contact_requestable, new_contact_answerable,
}

-- a known user takes part in a stored conversation
pub record IsEntry (s : ConversationWorld) (id : ℕ) (uid : Text) (e : Entry) : Type 0 where
  pub known : user_by_firebase_uid uid s.users ≡ some e.0
  pub stored : conversation_by_id id s.conversations ≡ some e.1
  pub takes_part : is_participant e.1 e.0.id ≡ true

-- the contact is closed and not replaced, and the user closed it, or did not
abbrev pub IsCloser : Entry → Type 0
IsCloser (user, c) =
    (is_closed c.status ≡ true) × (c.is_active ≡ true) × (closed_by c user.id ≡ true)

abbrev pub IsOther : Entry → Type 0
IsOther (user, c) =
    (is_closed c.status ≡ true) × (c.is_active ≡ true) × (closed_by c user.id ≡ false)

is_no_closed_contact-false :
    (c : OpportunityConversationDocument)
    → is_no_closed_contact c ≡ false
    → (is_closed c.status ≡ true) × (c.is_active ≡ true)
is_no_closed_contact-false c h = ground arith

module _ (s : ConversationWorld) (id : ℕ) (uid : Text) where
  pub resolve_user-Reads :
      Reads s (resolve_user uid) (λ u. user_by_firebase_uid uid s.users ≡ some u)
  unfolding resolve_user
  resolve_user-Reads =
      bind-Reads s (gets-Reads s _) λ found e. Reads-mono (or_raise-Reads s found _) λ u h. e ∙ h

  pub get_conversation-Reads :
      Reads s (get_conversation id) (λ c. conversation_by_id id s.conversations ≡ some c)
  unfolding get_conversation
  get_conversation-Reads =
      bind-Reads s (gets-Reads s _) λ found e. Reads-mono (or_raise-Reads s found _) λ c h. e ∙ h

  pub load-Reads : Reads s (load id uid) (IsEntry s id uid)
  unfolding load ensure_participant
  load-Reads = bind-Reads s resolve_user-Reads λ user known.
      bind-Reads s
        (bind-Reads s get_conversation-Reads λ c stored.
          bind-Reads s (raise_if-Reads s _ _) λ _ side.
            pure-Reads s {F = λ c. IsEntry s id uid (user, c)} c
              (record { known = known; stored = stored; takes_part = not-false side }))
        λ c entry. pure-Reads s (user, c) entry

  -- the guards of `close_conversation`
  pub closable-Reads :
      Reads s
        (closable id uid)
        (λ e. IsEntry s id uid e × (is_closed e.1.status ≡ false) × (e.1.is_active ≡ true))
  unfolding closable
  closable-Reads = bind-Reads s load-Reads λ (user, c) entry.
      bind-Reads s (raise_if-Reads s _ _) λ _ is_open.
        bind-Reads s (raise_if-Reads s _ _)
          λ _ active. pure-Reads s (user, c) (entry, is_open, not-false active)

  -- the guards of `reopen_conversation`
  pub reopenable-Reads : Reads s (reopenable id uid) (λ e. IsEntry s id uid e × IsCloser e)
  unfolding reopenable
  reopenable-Reads = bind-Reads s load-Reads λ (user, c) entry.
      bind-Reads s (raise_if-Reads s _ _) λ _ shut. bind-Reads s (raise_if-Reads s _ _) λ _ mine.
        bind-Reads s (raise_if-Reads s _ _) λ _ active.
          pure-Reads s (user, c) (entry, (not-false shut, not-false active, not-false mine))

  -- the guards of `request_reopen`
  pub reopen_requestable-Reads :
      Reads s
        (reopen_requestable id uid)
        (λ e. IsEntry s id uid e × IsOther e × (is_some e.1.reopen_requested_by_user_id ≡ false))
  unfolding reopen_requestable
  reopen_requestable-Reads = bind-Reads s load-Reads λ (user, c) entry.
      bind-Reads s (raise_if-Reads s _ _) λ _ waits. bind-Reads s (raise_if-Reads s _ _) λ _ mine.
        bind-Reads s (raise_if-Reads s _ _) λ _ asked.
          let (shut, active) = is_no_closed_contact-false c waits in
          pure-Reads s (user, c) (entry, (shut, active, mine), asked)

  -- the guards of `respond_reopen`
  pub reopen_answerable-Reads :
      Reads s
        (reopen_answerable id uid)
        (λ e. IsEntry s id uid e × IsCloser e × (is_some e.1.reopen_requested_by_user_id ≡ true))
  unfolding reopen_answerable
  reopen_answerable-Reads = bind-Reads s load-Reads λ (user, c) entry.
      bind-Reads s (raise_if-Reads s _ _) λ _ waits. bind-Reads s (raise_if-Reads s _ _) λ _ mine.
        bind-Reads s (raise_if-Reads s _ _) λ _ asked.
          let (shut, active) = is_no_closed_contact-false c waits in
          pure-Reads s (user, c) (entry, (shut, active, not-false mine), not-false asked)

  -- the guards of `request_new_contact`
  pub new_contact_requestable-Reads :
      Reads s (new_contact_requestable id uid) (λ e.
        IsEntry s id uid e × IsOther e × (is_some e.1.new_contact_requested_by_user_id ≡ false))
  unfolding new_contact_requestable
  new_contact_requestable-Reads = bind-Reads s load-Reads λ (user, c) entry.
      bind-Reads s (raise_if-Reads s _ _) λ _ waits. bind-Reads s (raise_if-Reads s _ _) λ _ mine.
        bind-Reads s (raise_if-Reads s _ _) λ _ asked.
          let (shut, active) = is_no_closed_contact-false c waits in
          pure-Reads s (user, c) (entry, (shut, active, mine), asked)

  -- the guards of `respond_new_contact`
  pub new_contact_answerable-Reads :
      Reads s (new_contact_answerable id uid) (λ e.
        IsEntry s id uid e × IsCloser e × (is_some e.1.new_contact_requested_by_user_id ≡ true))
  unfolding new_contact_answerable
  new_contact_answerable-Reads = bind-Reads s load-Reads λ (user, c) entry.
      bind-Reads s (raise_if-Reads s _ _) λ _ waits. bind-Reads s (raise_if-Reads s _ _) λ _ mine.
        bind-Reads s (raise_if-Reads s _ _) λ _ asked.
          let (shut, active) = is_no_closed_contact-false c waits in
          pure-Reads s (user, c) (entry, (shut, active, not-false mine), not-false asked)
