-- ===== src/Conversations/Flags.antt =====
-- What an answer says the viewer may do is what the service then lets the viewer do.
use econmesh_api.Prelude.{
  ℕ, Bool, true, false, not, ◌&&◌, ◌||◌, ◌≡◌, refl, sym, ap, ◌∙◌, Option, some, arith, is_some, inl,
  inr, Bool-cases,
}
use mathlib.Core.Option.{some-injective}
use econmesh_api.Text.{Text}
use econmesh_api.Conversations.Life.Soundness.{IsSound}
use econmesh_api.Conversations.Changes.{contacts}
use econmesh_api.Conversations.Refinement.{
  Follows, Raised, reopen-Follows, request_reopen-Follows, respond_reopen-Follows,
  request_new_contact-Follows,
}
use econmesh_api.Conversations.Renewal.{respond_new_contact-Follows}
use econmesh_api.Conversations.Traffic.{renewing}
use econmesh_api.Conversations.Atomicity.{IsUnused, not_blocked}
use econmesh_api.Service.{
  AppException, raise_if, pure, ◌>>◌, Result, ok, err, Action, ◌>>=◌, Ends, resume,
}
use econmesh_api.Accounts.{UserDocument, user_by_firebase_uid}
use econmesh_api.Conversations.Model.{OpportunityConversationDocument, is_participant, is_closed}
use econmesh_api.Conversations.World.{ConversationWorld, Collaborators, IsUp, conversation_by_id}
use econmesh_api.Conversations.Responses.{conversation_response, closed_by}
use econmesh_api.Conversations.Access.{load, resolve_user, ensure_participant, get_conversation}
use econmesh_api.Conversations.Contact.{
  Entry, reopenable, reopen_requestable, reopen_answerable, new_contact_requestable,
  new_contact_answerable, reopen_conversation, request_reopen, respond_reopen, request_new_contact,
  respond_new_contact,
}

abbrev pub is_ok : {A : Type 0} → Result A × ConversationWorld → Bool
is_ok (ok a, t) = true
is_ok (err e, t) = false

-- three guards in a row
three-guards :
    {A : Type 0} (a b d : Bool) (e f g : AppException) (v : A) (s : ConversationWorld)
    → is_ok ((raise_if a e >> (raise_if b f >> (raise_if d g >> pure v))) s)
      ≡ (not a && not b && not d)
unfolding ◌>>=◌
three-guards true b d e f g v s = refl
three-guards false true d e f g v s = refl
three-guards false false true e f g v s = refl
three-guards false false false e f g v s = refl

-- what the flags of an answer are
abbrev shut : OpportunityConversationDocument → Bool
shut c = is_closed c.status && c.is_active

module _ (c : OpportunityConversationDocument) (viewer : ℕ) where
  can_reopen_lem : (conversation_response c viewer).can_reopen ≡ (shut c && closed_by c viewer)
  unfolding conversation_response
  can_reopen_lem = elim (Bool-cases (shut c)) [ inl e ↦ rw e refl | inr e ↦ rw e refl ]

  can_request_reopen_lem :
      (conversation_response c viewer).can_request_reopen
      ≡ (shut c && (not (closed_by c viewer) && not (is_some c.reopen_requested_by_user_id)))
  unfolding conversation_response
  can_request_reopen_lem = elim (Bool-cases (shut c)) [ inl e ↦ rw e refl | inr e ↦ rw e refl ]

  can_respond_reopen_lem :
      (conversation_response c viewer).can_respond_reopen
      ≡ (shut c && (closed_by c viewer && is_some c.reopen_requested_by_user_id))
  unfolding conversation_response
  can_respond_reopen_lem = elim (Bool-cases (shut c)) [ inl e ↦ rw e refl | inr e ↦ rw e refl ]

  can_request_new_contact_lem :
      (conversation_response c viewer).can_request_new_contact
      ≡ (shut c && (not (closed_by c viewer) && not (is_some c.new_contact_requested_by_user_id)))
  unfolding conversation_response
  can_request_new_contact_lem = elim (Bool-cases (shut c)) [ inl e ↦ rw e refl | inr e ↦ rw e refl ]

  can_respond_new_contact_lem :
      (conversation_response c viewer).can_respond_new_contact
      ≡ (shut c && (closed_by c viewer && is_some c.new_contact_requested_by_user_id))
  unfolding conversation_response
  can_respond_new_contact_lem = elim (Bool-cases (shut c)) [ inl e ↦ rw e refl | inr e ↦ rw e refl ]

reopen_bools : (a m b : Bool) → (not (not a) && not (not m) && not (not b)) ≡ (a && b && m)
reopen_bools a m b = ground arith

ask_bools :
    (a b m r : Bool) → (not (not a || not b) && not m && not r) ≡ ((a && b) && (not m && not r))
ask_bools a b m r = ground arith

answer_bools :
    (a b m r : Bool) → (not (not a || not b) && not (not m) && not (not r)) ≡ ((a && b) && (m && r))
answer_bools a b m r = ground arith

module _ (s : ConversationWorld) (id : ℕ) (uid : Text) (user : UserDocument)
    (c : OpportunityConversationDocument) (known : user_by_firebase_uid uid s.users ≡ some user)
    (stored : conversation_by_id id s.conversations ≡ some c)
    (side : is_participant c user.id ≡ true) where
  pub load-eq : load id uid s ≡ (ok (user, c), s)
  unfolding load resolve_user ensure_participant get_conversation ◌>>=◌
  load-eq = rw known (rw stored (rw side refl))

  reopenable-flag : is_ok (reopenable id uid s) ≡ (conversation_response c user.id).can_reopen
  unfolding reopenable ◌>>=◌
  reopenable-flag =
      rw load-eq (
        three-guards (not (is_closed c.status)) (not (closed_by c user.id)) (not c.is_active) _ _ _
          (user, c) s)
      ∙ reopen_bools (is_closed c.status) (closed_by c user.id) c.is_active
      ∙ sym (can_reopen_lem c user.id)

  reopen_requestable-flag :
      is_ok (reopen_requestable id uid s) ≡ (conversation_response c user.id).can_request_reopen
  unfolding reopen_requestable ◌>>=◌
  reopen_requestable-flag =
      rw load-eq (
        three-guards (not (is_closed c.status) || not c.is_active) (closed_by c user.id)
          (is_some c.reopen_requested_by_user_id) _ _ _ (user, c) s)
      ∙ ask_bools (is_closed c.status) c.is_active (closed_by c user.id)
          (is_some c.reopen_requested_by_user_id)
      ∙ sym (can_request_reopen_lem c user.id)

  reopen_answerable-flag :
      is_ok (reopen_answerable id uid s) ≡ (conversation_response c user.id).can_respond_reopen
  unfolding reopen_answerable ◌>>=◌
  reopen_answerable-flag =
      rw load-eq (
        three-guards (not (is_closed c.status) || not c.is_active) (not (closed_by c user.id))
          (not (is_some c.reopen_requested_by_user_id)) _ _ _ (user, c) s)
      ∙ answer_bools (is_closed c.status) c.is_active (closed_by c user.id)
          (is_some c.reopen_requested_by_user_id)
      ∙ sym (can_respond_reopen_lem c user.id)

  new_contact_requestable-flag :
      is_ok (new_contact_requestable id uid s)
      ≡ (conversation_response c user.id).can_request_new_contact
  unfolding new_contact_requestable ◌>>=◌
  new_contact_requestable-flag =
      rw load-eq (
        three-guards (not (is_closed c.status) || not c.is_active) (closed_by c user.id)
          (is_some c.new_contact_requested_by_user_id) _ _ _ (user, c) s)
      ∙ ask_bools (is_closed c.status) c.is_active (closed_by c user.id)
          (is_some c.new_contact_requested_by_user_id)
      ∙ sym (can_request_new_contact_lem c user.id)

  new_contact_answerable-flag :
      is_ok (new_contact_answerable id uid s)
      ≡ (conversation_response c user.id).can_respond_new_contact
  unfolding new_contact_answerable ◌>>=◌
  new_contact_answerable-flag =
      rw load-eq (
        three-guards (not (is_closed c.status) || not c.is_active) (not (closed_by c user.id))
          (not (is_some c.new_contact_requested_by_user_id)) _ _ _ (user, c) s)
      ∙ answer_bools (is_closed c.status) c.is_active (closed_by c user.id)
          (is_some c.new_contact_requested_by_user_id)
      ∙ sym (can_respond_new_contact_lem c user.id)

  -- the operation returns when its guards do
  abbrev Refuses : Action ConversationWorld Entry → ConversationWorld → Type 0
  Refuses guards t = is_ok (guards s) ≡ false

  raised : (guards : Action ConversationWorld Entry) → Raised s guards (Refuses guards)
  raised guards e t h = ap is_ok h

  same_ok :
      {A : Type 0} (guards : Action ConversationWorld Entry)
      (k : Entry → Action ConversationWorld A)
      → Ends (λ a. Follows user.id s) (Refuses guards) ((guards >>= k) s)
      → is_ok ((guards >>= k) s) ≡ is_ok (guards s)
  unfolding ◌>>=◌
  same_ok {A} guards k h = go (guards s) h
    where
      ends :
          (r : Result A × ConversationWorld)
          → Ends (λ a. Follows user.id s) (λ t. true ≡ false) r
          → is_ok r ≡ true
      ends (ok a, t) q = refl
      ends (err e, t) q = sym q

      go :
          (g : Result Entry × ConversationWorld)
          → Ends (λ a. Follows user.id s) (λ t. is_ok g ≡ false) (resume k g)
          → is_ok (resume k g) ≡ is_ok g
      go (ok e, t) q = ends (k e t) q
      go (err e, t) q = refl

  acts : (a : UserDocument) → user_by_firebase_uid uid s.users ≡ some a → a.id ≡ user.id
  acts a also = ap (λ v. v.id) (some-injective _ _ (sym also ∙ known))

  -- an answer is due only from the side that may open the contact again
  unanswerable :
      (conversation_response c user.id).can_reopen ≡ false
      → (conversation_response c user.id).can_respond_reopen ≡ false
  unanswerable h =
      can_respond_reopen_lem c user.id
      ∙ weaker (shut c) (closed_by c user.id) (is_some c.reopen_requested_by_user_id)
          (sym (can_reopen_lem c user.id) ∙ h)
    where
      weaker : (a m r : Bool) → (a && m) ≡ false → (a && (m && r)) ≡ false
      weaker a m r h = ground arith

-- Whether the five operations on a closed contact succeed, and what the answer said.
pub record Honours (x : Collaborators) (s : ConversationWorld) (id : ℕ) (uid : Text) (viewer : ℕ)
    (c : OpportunityConversationDocument) : Type 0 where
  pub reopen : is_ok (reopen_conversation x id uid s) ≡ (conversation_response c viewer).can_reopen
  pub request :
      (message : Option Text)
      → is_ok (request_reopen x id message uid s)
        ≡ (conversation_response c viewer).can_request_reopen
  pub respond :
      (accept : Bool) (message : Option Text)
      → is_ok (respond_reopen x id accept message uid s)
        ≡ (conversation_response c viewer).can_respond_reopen
  pub request_contact :
      (message : Option Text)
      → is_ok (request_new_contact x id message uid s)
        ≡ (conversation_response c viewer).can_request_new_contact
  pub respond_contact :
      (accept : Bool) (message : Option Text)
      → is_ok (respond_new_contact x id accept message uid s)
        ≡ (conversation_response c viewer).can_respond_new_contact

-- While Redis answers and takes what it is given, in a sound state whose next identifier is unused,
-- the flags in the answer about a conversation say exactly which of the five operations on a closed
-- contact succeed when the viewer calls them next.
pub conversation_response-Honours :
    (x : Collaborators) (s : ConversationWorld) (id : ℕ) (uid : Text) (user : UserDocument)
    (c : OpportunityConversationDocument)
    → user_by_firebase_uid uid s.users ≡ some user
    → conversation_by_id id s.conversations ≡ some c
    → is_participant c user.id ≡ true
    → IsUp x
    → IsSound (contacts s)
    → IsUnused s
    → Honours x s id uid user.id c
unfolding reopen_conversation request_reopen respond_reopen request_new_contact respond_new_contact
conversation_response-Honours x s id uid user c known stored side up sound unused = record {
  reopen =
      same_ok s id uid user c known stored side (reopenable id uid) _
        ((reopen-Follows x s id uid user.id who (inl up) (λ e t h. ap is_ok h)).run s refl)
      ∙ reopenable-flag s id uid user c known stored side;
  request = λ message.
      same_ok s id uid user c known stored side (reopen_requestable id uid) _ (
        (request_reopen-Follows x s id uid user.id who (inl up) message (λ e t h. ap is_ok h)).run s
          refl)
      ∙ reopen_requestable-flag s id uid user c known stored side;
  respond = λ accept message.
      same_ok s id uid user c known stored side (reopen_answerable id uid) _ (
        (respond_reopen-Follows x s id uid user.id who (inl up) accept message (λ e t h. ap is_ok h)
            (λ e t h.
              reopen_answerable-flag s id uid user c known stored side
              ∙ unanswerable s id uid user c known stored side
                  (sym (reopenable-flag s id uid user c known stored side) ∙ ap is_ok h))).run
          s refl)
      ∙ reopen_answerable-flag s id uid user c known stored side;
  request_contact = λ message.
      same_ok s id uid user c known stored side (new_contact_requestable id uid) _ (
        (request_new_contact-Follows x s id uid user.id who (inl up) message
            (λ e t h. ap is_ok h)).run
          s refl)
      ∙ new_contact_requestable-flag s id uid user c known stored side;
  respond_contact = λ accept message.
      same_ok s id uid user c known stored side (new_contact_answerable id uid) _ (
        (respond_new_contact-Follows x s id uid user.id who (inl up) accept message
            (λ e entry closer asked t h.
              absurd (not_blocked s sound unused uid t (renewing id e entry closer asked h)))
            (λ e t h. ap is_ok h)).run
          s refl)
      ∙ new_contact_answerable-flag s id uid user c known stored side;
}
  where
    who : (a : UserDocument) → user_by_firebase_uid uid s.users ≡ some a → a.id ≡ user.id
    who = acts s id uid user c known stored side
