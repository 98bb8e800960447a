-- ===== src/Conversations/Silence.antt =====
-- A closed conversation, and an open one that is started again.
use econmesh_api.Prelude.{
  ℕ, Bool, true, false, ◌≡◌, refl, sym, ap, ◌∙◌, Option, none, some, ◌==◌, findb_sound, ==_iff,
  arith, ◌&&◌, Bool-cases, inl, inr,
}
use mathlib.Core.Path.{subst}
use mathlib.Core.Option.{some-injective}
use econmesh_api.Text.{Text}
use econmesh_api.Service.{
  ok, err, ◌>>=◌, >>=-of-err, validation, Runs, Runs-ok, after-Reads, Runs-mono, bind-Runs,
  gets-Runs, match_some-Runs, pure-Runs, given-Runs,
}
use econmesh_api.Accounts.{UserDocument, user_by_firebase_uid}
use econmesh_api.Conversations.Model.{
  OpportunityConversationDocument, ConversationStatus, is_closed, is_participant,
}
use econmesh_api.Conversations.World.{
  ConversationWorld, Collaborators, conversation_by_id, active_between, is_active_between,
}
use econmesh_api.Conversations.Responses.{ConversationResponse}
use econmesh_api.Conversations.Contact.{close_conversation, closed_fields}
use econmesh_api.Conversations.Wording.{stripped}
use econmesh_api.Conversations.Threads.{writable, add_user_message, Start, create_or_get, if_open}
use econmesh_api.Conversations.Life.{contact, Contact, closed_contact}
use econmesh_api.Conversations.Life.Soundness.{IsSound}
use econmesh_api.Conversations.Guards.{closable-Reads}
use econmesh_api.Conversations.Quiet.{tell-Quiet, notify_contact_closed-Quiet}
use econmesh_api.Conversations.Changes.{
  contacts, stored-id, change-Runs, After-found, conversation-found, is_side, participant-of,
  response-conversation,
}
use econmesh_api.Conversations.Refinement.{closed_contact-IsChange}
use econmesh_api.Conversations.Starting.{
  IsStart, start-IsOwner, startable-Reads, without-Followed, start-Runs,
}
use econmesh_api.Conversations.Flags.{load-eq}

-- the conversation after it was closed
record IsShut (s : ConversationWorld) (id : ℕ) (t : ConversationWorld) : Type 0 where
  before : OpportunityConversationDocument
  was_stored : conversation_by_id id s.conversations ≡ some before
  after : OpportunityConversationDocument
  is_stored : conversation_by_id id t.conversations ≡ some after
  closer : ℕ
  closed : contact after ≡ closed_contact closer (contact before)

close-IsShut :
    (x : Collaborators) (s : ConversationWorld) (id : ℕ) (uid : Text) (reason : Option Text)
    → Runs (λ v. v ≡ s) (close_conversation x id reason uid) (λ r. IsShut s id) (λ v. Unit {0})
unfolding close_conversation
close-IsShut x s id uid reason =
    after-Reads s (closable-Reads s id uid) (λ _ _ _. tt)
      λ (actor, c) (entry, _, _).
        let named_c : c.id ≡ id = stored-id id s.conversations c entry.stored in
        let stored : conversation_by_id c.id s.conversations ≡ some c =
          ap (λ n. conversation_by_id n s.conversations) named_c ∙ entry.stored in
        Runs-mono
          (change-Runs x s actor c _ (closed_contact actor.id) (λ now d. refl)
            (closed_contact-IsChange actor.id) stored entry.takes_part {E = λ v. Unit {0}} _ _ _
            (inr (λ v h. tt)) (λ d. tell-Quiet _ (notify_contact_closed-Quiet x d _ _)))
          (λ v h. h)
          (λ r v (left, _).
            let (d, found, shown) =
              conversation-found c.id v.conversations (closed_contact actor.id (contact c)) (
                After-found x s actor c (closed_fields actor.id (stripped reason))
                  (closed_contact actor.id) (λ now d. refl) (closed_contact-IsChange actor.id)
                  stored entry.takes_part (contacts v) left) in
            record {
              before = c;
              was_stored = entry.stored;
              after = d;
              is_stored = ap (λ n. conversation_by_id n v.conversations) (sym named_c) ∙ found;
              closer = actor.id;
              closed = shown;
            })
          (λ v h. h)

-- the guard against messages to a closed conversation
writable_shut :
    (t : ConversationWorld) (id : ℕ) (writer : Text) (user : UserDocument)
    (d : OpportunityConversationDocument)
    → user_by_firebase_uid writer t.users ≡ some user
    → conversation_by_id id t.conversations ≡ some d
    → is_participant d user.id ≡ true
    → is_closed d.status ≡ true
    → writable id writer t ≡ (err (validation "This conversation is closed."), t)
unfolding writable ◌>>=◌
writable_shut t id writer user d known there part shut =
    rw (load-eq t id writer user d known there part) (rw shut refl)

-- After a user closed a conversation, a message of either participant to it is refused, and the refusal
-- changes nothing.
pub close-add_user_message :
    (x : Collaborators) (id : ℕ) (reason : Option Text) (uid writer : Text) (body : Text)
    (s t : ConversationWorld) (answer : ConversationResponse) (c : OpportunityConversationDocument)
    (user : UserDocument)
    → close_conversation x id reason uid s ≡ (ok answer, t)
    → conversation_by_id id s.conversations ≡ some c
    → user_by_firebase_uid writer t.users ≡ some user
    → is_participant c user.id ≡ true
    → add_user_message x id body writer t ≡ (err (validation "This conversation is closed."), t)
unfolding add_user_message
close-add_user_message x id reason uid writer body s t answer c user h stored known side =
    let shut = Runs-ok s (close-IsShut x s id uid reason) refl h in
    let same : shut.before ≡ c = some-injective _ _ (sym shut.was_stored ∙ stored) in
    let k = closed_contact shut.closer (contact shut.before) in
    >>=-of-err (writable id writer) _ t (
      writable_shut t id writer user shut.after known shut.is_stored
        (participant-of shut.after k user.id shut.closed
          (ap (λ d. is_side (contact d) user.id) same ∙ side))
        (ap (λ j. is_closed j.status) shut.closed))

-- what `create_or_get` answers: an open and active conversation between the two sides
abbrev pub IsAnswer : ℕ → ℕ → Contact → Type 0
IsAnswer opp company k =
    (k.status ≡ ConversationStatus.«open»)
    × (k.is_active ≡ true)
    × (k.opportunity_id ≡ opp)
    × (k.company_id ≡ company)

open_status : (st : ConversationStatus) → is_closed st ≡ false → st ≡ ConversationStatus.«open»
open_status ConversationStatus.«open» h = refl
open_status ConversationStatus.closed h = cc

if_open-some :
    (o : Option OpportunityConversationDocument) (c : OpportunityConversationDocument)
    → if_open o ≡ some c
    → (o ≡ some c) × (is_closed c.status ≡ false)
if_open-some none c h = cc
if_open-some (some d) c h = elim (Bool-cases (is_closed d.status)) [
  | inl e ↦ absurd (none-some (rw e at h))
  | inr e ↦
      let same : d ≡ c = some-injective _ _ (rw e at h) in
      (ap some same, subst (λ v. is_closed v.status ≡ false) same e)
]
  where
    none-some : {c : OpportunityConversationDocument} → none ≡ some c → ⊥
    none-some h = cc

found-IsAnswer :
    (opp company : ℕ) (s : ConversationWorld) (c : OpportunityConversationDocument)
    → active_between opp company s.conversations ≡ some c
    → is_closed c.status ≡ false
    → IsAnswer opp company (contact c)
found-IsAnswer opp company s c found is_open =
    let (same_opp, same_company, active) =
      between_bools (c.opportunity_id == opp) (c.interested_company_id == company) c.is_active
        (findb_sound (is_active_between opp company) s.conversations c found) in
    (
      open_status c.status is_open,
      active,
      (==_iff c.opportunity_id opp).0 same_opp,
      (==_iff c.interested_company_id company).0 same_company,
    )
  where
    between_bools : (a b d : Bool) → (a && b && d) ≡ true → (a ≡ true) × (b ≡ true) × (d ≡ true)
    between_bools a b d h = ground arith

-- the opportunity and the company that the guards found are those that were asked for
IsStart-ids :
    (s : ConversationWorld) (opportunity_id company_id : ℕ) (uid : Text) (e : Start)
    → IsStart s opportunity_id company_id uid e
    → (e.1.id ≡ opportunity_id) × (e.3 ≡ company_id)
IsStart-ids s opportunity_id company_id uid e h = (
  (==_iff e.1.id opportunity_id).0
      (findb_sound (λ o. o.id == opportunity_id) s.opportunities e.1 h.offered),
  h.same_company
      ∙ (==_iff h.company.id company_id).0
          (findb_sound (λ d. d.id == company_id) s.companies h.company h.found),
)

-- When `create_or_get` succeeds in a sound state, the answer is an open and active conversation between
-- the opportunity and the company that were asked for, also when the one between them was closed.
pub create_or_get-IsAnswer :
    (x : Collaborators) (opportunity_id company_id : ℕ) (text : Option Text) (uid : Text)
    (s t : ConversationWorld) (answer : ConversationResponse)
    → IsSound (contacts s)
    → create_or_get x opportunity_id company_id text uid s ≡ (ok answer, t)
    → IsAnswer opportunity_id company_id (contact answer.conversation)
unfolding create_or_get
create_or_get-IsAnswer x opportunity_id company_id text uid s t answer sound h =
    Runs-ok s answers refl h
  where
    answers :
        Runs
          (λ v. v ≡ s)
          (create_or_get x opportunity_id company_id text uid)
          (λ r v. IsAnswer opportunity_id company_id (contact r.conversation))
          (λ v. Unit {0})
    answers =
        after-Reads s (startable-Reads s opportunity_id company_id uid) (λ _ _ _. tt)
          λ (actor, opp, name, company) e.
            let (same_opp, same_company) =
              IsStart-ids s opportunity_id company_id uid (actor, opp, name, company) e in
            bind-Runs
              {Q = λ found v. (v ≡ s) × (active_between opp.id company s.conversations ≡ found)}
              (gets-Runs _
                (λ v h. (h, ap (λ t. active_between opp.id company t.conversations) (sym h))))
              λ existing.
                match_some-Runs (if_open existing)
                  (λ c there. pure-Runs _ (λ v found.
                    let (is_c, is_open) = if_open-some existing c there in
                    subst (IsAnswer opportunity_id company_id)
                      (sym (ap contact (response-conversation c actor.id)))
                      (rw (sym same_opp) (
                        rw (sym same_company)
                          (found-IsAnswer opp.id company s c (found.1 ∙ is_c) is_open)))))
                  (λ shut. given-Runs λ v (same, found).
                    Runs-mono
                      (start-Runs {E = λ u. Unit {0}} x s (actor, opp, name, company) existing text
                        (inr (λ s h. tt))
                        (without-Followed s actor.id opp.id company existing sound.distinct found
                          shut
                          (start-IsOwner s opportunity_id company_id uid (actor, opp, name, company)
                            e))
                        (λ u h clash. tt))
                      (λ u h. h ∙ same)
                      (λ r u q.
                        subst (IsAnswer opportunity_id company_id) (sym q.1)
                          (refl, refl, same_opp, same_company))
                      (λ u q. q))
