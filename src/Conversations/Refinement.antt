-- ===== src/Conversations/Refinement.antt =====
-- The service follows the life of a contact: every request moves at most one contact, by a move that
-- its user may make, whether the request returns or raises.
use econmesh_api.Prelude.{
  update_first, ℕ, ◌≤◌, Bool, true, false, ◌≡◌, ◌≢◌, refl, sym, ap, ◌∙◌, Option, none, some, List,
  arith, ◌==◌, ==_iff, is_some,
}
use mathlib.Core.Path.{subst}
use mathlib.Core.Option.{some-injective}
use econmesh_api.Text.{Text}
use econmesh_api.Service.{
  Action, AppException, err, pure, Runs, Runs-mono, after-Reads, branch-Runs,
}
use econmesh_api.Accounts.{CompanyDocument, UserDocument, user_by_firebase_uid}
use econmesh_api.Conversations.Model.{
  ConversationStatus, ConversationSystemEventKind, OpportunityConversationDocument, is_participant,
  is_closed,
}
use econmesh_api.Conversations.World.{ConversationWorld, Collaborators, conversation_by_id}
use econmesh_api.Conversations.Contact.{
  Entry, closable, reopenable, reopen_requestable, reopen_answerable, new_contact_requestable,
  change, without_new_contact_request, close_conversation, reopen_conversation, request_reopen,
  respond_reopen, request_new_contact,
}
use econmesh_api.Conversations.Life.{
  named, Contact, closed_contact, opened_contact, with_reopening, with_renewing, contact, IsSide,
  IsWaiting, Move, close, reopen, ask_reopen, refuse_reopen, ask_new_contact, refuse_new_contact,
  Evolves, stays, moves,
}
use econmesh_api.Conversations.Guards.{
  IsEntry, IsCloser, closable-Reads, reopenable-Reads, reopen_requestable-Reads,
  reopen_answerable-Reads, new_contact_requestable-Reads,
}
use econmesh_api.Conversations.Quiet.{
  Quiet, Fits, Fits-mono, pure-Quiet, tell-Quiet, tell_closer-Quiet, notify_contact_closed-Quiet,
  notify_reopen_requested-Quiet, notify_new_contact_requested-Quiet,
}
use econmesh_api.Conversations.Changes.{contacts, stored-id, contact-found, IsChange, change-Runs}

-- the contacts after a request of `u`
pub record Followed (cos : List CompanyDocument) (u : ℕ) (before after : List Contact)
    : Type 0 where
  pub count : ℕ
  pub at_most_one : count ≤ 1
  pub path : Evolves cos u before count after

abbrev pub Follows : ℕ → ConversationWorld → ConversationWorld → Type 0
Follows u s t = Followed s.companies u (contacts s) (contacts t)

pub unchanged-Followed :
    {cos : List CompanyDocument} {u : ℕ} {ks : List Contact} → Followed cos u ks ks
unchanged-Followed = record { count = 0; at_most_one = omega arith; path = stays }

-- the status and the side as a move names them
status_closed : (st : ConversationStatus) → is_closed st ≡ true → st ≡ ConversationStatus.closed
status_closed ConversationStatus.«open» h = cc
status_closed ConversationStatus.closed h = refl

status_open : (st : ConversationStatus) → is_closed st ≡ false → st ≡ ConversationStatus.«open»
status_open ConversationStatus.«open» h = refl
status_open ConversationStatus.closed h = cc

participant-IsSide :
    (c : OpportunityConversationDocument) (u : ℕ) → is_participant c u ≡ true → IsSide (contact c) u
participant-IsSide c u h = ground arith

pub closer-some :
    (o : Option ℕ) (u : ℕ) → elim o [ none ↦ false | some v ↦ v == u ] ≡ true → o ≡ some u
closer-some none u h = cc
closer-some (some v) u h = ap some ((==_iff v u).0 h)

closer-other :
    (o : Option ℕ) (u : ℕ) → elim o [ none ↦ false | some v ↦ v == u ] ≡ false → o ≢ some u
closer-other none u h e = cc
closer-other (some v) u h e = ground (arith, some-injective _ _ e)

is_none : (o : Option ℕ) → is_some o ≡ false → o ≡ none
is_none none h = refl
is_none (some n) h = cc

pub not_none : (o : Option ℕ) → is_some o ≡ true → o ≢ none
not_none none h e = cc
not_none (some n) h e = cc

-- a closed contact that was not replaced, as the guards find it
pub waiting :
    (c : OpportunityConversationDocument)
    → is_closed c.status ≡ true
    → c.is_active ≡ true
    → IsWaiting (contact c)
waiting c shut active = (status_closed c.status shut, active)

pub closed_contact-IsChange : (u : ℕ) (k : Contact) → IsChange (closed_contact u) k
closed_contact-IsChange u k = record { same_id = refl; same_offerer = refl; same_interested = refl }

opened_contact-IsChange : (k : Contact) → IsChange opened_contact k
opened_contact-IsChange k = record { same_id = refl; same_offerer = refl; same_interested = refl }

with_reopening-IsChange : (o : Option ℕ) (k : Contact) → IsChange (with_reopening o) k
with_reopening-IsChange o k = record { same_id = refl; same_offerer = refl; same_interested = refl }

with_renewing-IsChange : (o : Option ℕ) (k : Contact) → IsChange (with_renewing o) k
with_renewing-IsChange o k = record { same_id = refl; same_offerer = refl; same_interested = refl }

-- what has to hold where the guards raise
abbrev pub Raised :
    ConversationWorld → Action ConversationWorld Entry → (ConversationWorld → Type 0) → Type 0
Raised s0 guards E = (e : AppException) (t : ConversationWorld) → guards s0 ≡ (err e, t) → E s0

-- one change, after the guards let the entry through
module _ (x : Collaborators) (s0 : ConversationWorld) (id : ℕ) (uid : Text) (u : ℕ)
    (acts : (a : UserDocument) → user_by_firebase_uid uid s0.users ≡ some a → a.id ≡ u)
    {E : ConversationWorld → Type 0} (fits : Fits x (Followed s0.companies u (contacts s0)) E) where
  moved :
      (e : Entry) (fields : ℕ → OpportunityConversationDocument → OpportunityConversationDocument)
      (g : Contact → Contact) (kind : ConversationSystemEventKind) (reason : Option Text)
      (notify : OpportunityConversationDocument → Action ConversationWorld (Unit {0}))
      → IsEntry s0 id uid e
      → ((now : ℕ) (d : OpportunityConversationDocument) → contact (fields now d) ≡ g (contact d))
      → ((k : Contact) → IsChange g k)
      → Move s0.companies e.0.id (contact e.1) (g (contact e.1))
      → ((d : OpportunityConversationDocument) → Quiet x (notify d))
      → Runs (λ s. s ≡ s0) (change x e fields kind reason notify) (λ r. Follows u s0) E
  moved (actor, c) fields g kind reason notify entry shown keeps move quiet =
      let named_c = stored-id id s0.conversations c entry.stored in
      let stored : conversation_by_id c.id s0.conversations ≡ some c =
        ap (λ n. conversation_by_id n s0.conversations) named_c ∙ entry.stored in
      let once : Followed s0.companies u (contacts s0) (update_first (named c.id) g (contacts s0)) =
        record {
          count = 1;
          at_most_one = omega arith;
          path = moves stays g (contact c) (contact-found c.id s0.conversations c stored) (
              subst (λ n. Move s0.companies n (contact c) (g (contact c))) (acts actor entry.known)
                move);
        } in
      let after_it : (ks : List Contact)
          → ks ≡ update_first (named c.id) g (contacts s0)
          → Followed s0.companies u (contacts s0) ks =
        λ ks same. subst (Followed s0.companies u (contacts s0)) (sym same) once in
      Runs-mono
        (change-Runs x s0 actor c fields g shown keeps stored entry.takes_part {E = E} kind reason
          notify (Fits-mono fits (λ ks. ks ≡ update_first (named c.id) g (contacts s0)) after_it)
          quiet)
        (λ s h. h) (λ r s h. after_it (contacts s) h.0) (λ s h. h)

  -- each change, with the move that it makes
  pub close-Follows :
      (reason : Option Text)
      → Raised s0 (closable id uid) E
      → Runs (λ s. s ≡ s0) (close_conversation x id reason uid) (λ r. Follows u s0) E
  unfolding close_conversation
  close-Follows reason raised =
      after-Reads s0 (closable-Reads s0 id uid) raised λ (actor, c) (entry, is_open, active).
        moved (actor, c) _ (closed_contact actor.id) _ _ _ entry (λ now d. refl)
          (closed_contact-IsChange actor.id)
          (close (participant-IsSide c actor.id entry.takes_part) (status_open c.status is_open)
            active)
          (λ d. tell-Quiet _ (notify_contact_closed-Quiet x d _ _))

  pub reopen-Follows :
      Raised s0 (reopenable id uid) E
      → Runs (λ s. s ≡ s0) (reopen_conversation x id uid) (λ r. Follows u s0) E
  unfolding reopen_conversation
  reopen-Follows raised =
      after-Reads s0 (reopenable-Reads s0 id uid) raised λ (actor, c) (entry, closer).
        moved (actor, c) _ opened_contact _ _ _ entry (λ now d. refl) opened_contact-IsChange
          (reopen (waiting c closer.0 closer.1) (closer-some c.closed_by_user_id actor.id closer.2))
          (λ d. pure-Quiet tt)

  pub request_reopen-Follows :
      (message : Option Text)
      → Raised s0 (reopen_requestable id uid) E
      → Runs (λ s. s ≡ s0) (request_reopen x id message uid) (λ r. Follows u s0) E
  unfolding request_reopen
  request_reopen-Follows message raised =
      after-Reads s0 (reopen_requestable-Reads s0 id uid) raised λ (actor, c) (entry, other, free).
        moved (actor, c) _ (with_reopening (some actor.id)) _ _ _ entry (λ now d. refl)
          (with_reopening-IsChange (some actor.id))
          (ask_reopen (participant-IsSide c actor.id entry.takes_part) (waiting c other.0 other.1)
            (closer-other c.closed_by_user_id actor.id other.2)
            (is_none c.reopen_requested_by_user_id free))
          (tell_closer-Quiet λ d u. notify_reopen_requested-Quiet x d _ _ u)

  pub respond_reopen-Follows :
      (accept : Bool) (message : Option Text)
      → Raised s0 (reopen_answerable id uid) E
      → Raised s0 (reopenable id uid) E
      → Runs (λ s. s ≡ s0) (respond_reopen x id accept message uid) (λ r. Follows u s0) E
  unfolding respond_reopen
  respond_reopen-Follows accept message raised again =
      after-Reads s0 (reopen_answerable-Reads s0 id uid) raised λ (actor, c) (entry, closer, asked).
        branch-Runs accept (λ _. reopen-Follows again)
          λ _.
            moved (actor, c) _ (with_reopening none) _ _ _ entry (λ now d. refl)
              (with_reopening-IsChange none)
              (refuse_reopen (waiting c closer.0 closer.1)
                (closer-some c.closed_by_user_id actor.id closer.2)
                (not_none c.reopen_requested_by_user_id asked))
              (λ d. pure-Quiet tt)

  pub request_new_contact-Follows :
      (message : Option Text)
      → Raised s0 (new_contact_requestable id uid) E
      → Runs (λ s. s ≡ s0) (request_new_contact x id message uid) (λ r. Follows u s0) E
  unfolding request_new_contact
  request_new_contact-Follows message raised =
      after-Reads s0 (new_contact_requestable-Reads s0 id uid) raised
        λ (actor, c) (entry, other, free).
          moved (actor, c) _ (with_renewing (some actor.id)) _ _ _ entry (λ now d. refl)
            (with_renewing-IsChange (some actor.id))
            (ask_new_contact (participant-IsSide c actor.id entry.takes_part)
              (waiting c other.0 other.1) (closer-other c.closed_by_user_id actor.id other.2)
              (is_none c.new_contact_requested_by_user_id free))
            (tell_closer-Quiet λ d u. notify_new_contact_requested-Quiet x d _ _ u)

  pub refuse_contact-Follows :
      (e : Entry) (said : Option Text)
      → IsEntry s0 id uid e
      → IsCloser e
      → is_some e.1.new_contact_requested_by_user_id ≡ true
      → Runs
          (λ s. s ≡ s0)
          (change x e
            (λ now. without_new_contact_request)
            ConversationSystemEventKind.new_contact_rejected
            said
            (λ d. pure tt))
          (λ r. Follows u s0)
          E
  refuse_contact-Follows (actor, c) said entry closer asked =
      moved (actor, c) _ (with_renewing none) _ _ _ entry (λ now d. refl)
        (with_renewing-IsChange none)
        (refuse_new_contact (waiting c closer.0 closer.1)
          (closer-some c.closed_by_user_id actor.id closer.2)
          (not_none c.new_contact_requested_by_user_id asked))
        (λ d. pure-Quiet tt)
