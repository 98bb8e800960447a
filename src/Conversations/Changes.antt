-- ===== src/Conversations/Changes.antt =====
-- A change of a contact moves it in the state, and leaves every other contact as it was.
use econmesh_api.Prelude.{
  ℕ, Bool, true, ◌&&◌, ◌||◌, ◌≡◌, refl, sym, ap, ◌∙◌, Option, none, some, List, inl, inr, arith,
  map, findb, findb_sound, findb-map, findb-update_first, update_first, map-update_first, ◌==◌,
  ==_iff, Bool-cases,
}
use mathlib.Core.Option
use mathlib.Core.Option.{some-injective}
use econmesh_api.Text.{Text}
use econmesh_api.Service.{
  Action, pure, Runs, bind-Runs, pure-Runs, gets-Runs, or_raise-Runs, given-Runs,
}
use econmesh_api.Accounts.{UserDocument}
use econmesh_api.Conversations.Model.{
  ConversationSystemEventKind, OpportunityConversationDocument, is_participant, is_closed,
}
use econmesh_api.Conversations.World.{
  ConversationWorld, Collaborators, has_id, conversation_by_id, update_conversation, touched,
}
use econmesh_api.Conversations.Responses.{conversation_response}
use econmesh_api.Conversations.Contact.{refresh, change}
use econmesh_api.Conversations.Life.{Contact, contact, named}
use econmesh_api.Conversations.Quiet.{Quiet, Fits, Shows, after-Quiet, append_system_event-Quiet}

abbrev pub contacts : ConversationWorld → List Contact
contacts s = map contact s.conversations

-- a stored conversation has its own identifier, and its contact is found by it
pub stored-id :
    (id : ℕ) (cs : List OpportunityConversationDocument) (c : OpportunityConversationDocument)
    → conversation_by_id id cs ≡ some c
    → c.id ≡ id
stored-id id cs c h = (==_iff c.id id).0 (findb_sound (has_id id) cs c h)

pub contact-found :
    (id : ℕ) (cs : List OpportunityConversationDocument) (c : OpportunityConversationDocument)
    → conversation_by_id id cs ≡ some c
    → findb (named id) (map contact cs) ≡ some (contact c)
contact-found id cs c h =
    findb-map contact (has_id id) (named id) (λ d. refl) cs ∙ ap (Option.map contact) h

-- and the other way round
map-some :
    {A B : Type 0} (f : A → B) (o : Option A) (b : B)
    → Option.map f o ≡ some b
    → (a : A) × (o ≡ some a) × (f a ≡ b)
map-some f none b h = cc
map-some f (some a) b h = (a, refl, some-injective _ _ h)

pub conversation-found :
    (id : ℕ) (cs : List OpportunityConversationDocument) (k : Contact)
    → findb (named id) (map contact cs) ≡ some k
    → (c : OpportunityConversationDocument) × (conversation_by_id id cs ≡ some c) × (contact c ≡ k)
conversation-found id cs k h =
    map-some contact (conversation_by_id id cs) k
      (sym (findb-map contact (has_id id) (named id) (λ d. refl) cs) ∙ h)

-- an update whose fields show as a change of the contact
pub update-Runs :
    {E : ConversationWorld → Type 0} (s0 : ConversationWorld) (id : ℕ)
    (f : OpportunityConversationDocument → OpportunityConversationDocument) (g : Contact → Contact)
    → ((d : OpportunityConversationDocument) → contact (f d) ≡ g (contact d))
    → Runs
        (λ s. s ≡ s0)
        (update_conversation id f)
        (λ found s.
          (found ≡ Option.map (touched f s0.now) (conversation_by_id id s0.conversations))
          × (contacts s ≡ update_first (named id) g (contacts s0))
          × (s.fresh ≡ s0.fresh))
        E
unfolding update_conversation pure
update-Runs {E} s0 id f g shown = record {
  run = λ s same. rw same (
    refl,
    map-update_first contact (has_id id) (named id) (λ d. refl) (touched f s0.now) g
        s0.conversations shown,
    refl,
  );
}

-- an answer holds the document
pub response-conversation :
    (d : OpportunityConversationDocument) (viewer : ℕ)
    → (conversation_response d viewer).conversation ≡ d
unfolding conversation_response
response-conversation d viewer = elim (Bool-cases (is_closed d.status && d.is_active)) [
  | inl e ↦ rw e refl
  | inr e ↦ rw e refl
]

-- a change of the contact that keeps its name and its sides
pub record IsChange (g : Contact → Contact) (k : Contact) : Type 0 where
  pub same_id : (g k).id ≡ k.id
  pub same_offerer : (g k).offerer ≡ k.offerer
  pub same_interested : (g k).interested ≡ k.interested

named_refl : (id : ℕ) → (id == id) ≡ true
named_refl id = ground arith

-- the people of a contact, as `is_participant` reads them from the document
abbrev pub is_side : Contact → ℕ → Bool
is_side k u = u == k.offerer || u == k.interested

pub participant-of :
    (d : OpportunityConversationDocument) (k : Contact) (u : ℕ)
    → contact d ≡ k
    → is_side k u ≡ true
    → is_participant d u ≡ true
participant-of d k u same h = ap (λ j. is_side j u) same ∙ h

pub refresh-Runs :
    {E : ConversationWorld → Type 0} (C : List Contact → Type 0) (id : ℕ) (k : Contact)
    → ((ks : List Contact) → C ks → findb (named id) ks ≡ some k)
    → Runs (Shows C) (refresh id) (λ d s. Shows C s × (contact d ≡ k)) E
unfolding refresh
refresh-Runs C id k there =
    bind-Runs {Q = λ found s. Shows C s × (found ≡ conversation_by_id id s.conversations)}
      (gets-Runs _ (λ s h. (h, refl)))
      λ found. or_raise-Runs found _ λ s (h, same).
        let (d, is_found, shows) = conversation-found id s.conversations k (there (contacts s) h) in
        (d, same ∙ is_found, (h, shows))

module _ (x : Collaborators) (s0 : ConversationWorld) (user : UserDocument)
    (c : OpportunityConversationDocument)
    (fields : ℕ → OpportunityConversationDocument → OpportunityConversationDocument)
    (g : Contact → Contact)
    (shown : (now : ℕ) (d : OpportunityConversationDocument)
      → contact (fields now d) ≡ g (contact d))
    (keeps : (k : Contact) → IsChange g k)
    (stored : conversation_by_id c.id s0.conversations ≡ some c)
    (side : is_participant c user.id ≡ true) where
  -- the contacts after the change
  abbrev After : List Contact → Type 0
  After ks = ks ≡ update_first (named c.id) g (contacts s0)

  pub After-found : (ks : List Contact) → After ks → findb (named c.id) ks ≡ some (g (contact c))
  After-found ks h =
      ap (findb (named c.id)) h
      ∙ findb-update_first (named c.id) g (contacts s0) (λ k. ap (λ n. n == c.id) (keeps k).same_id)
      ∙ ap (Option.map g) (contact-found c.id s0.conversations c stored)

  changed-side : is_side (g (contact c)) user.id ≡ true
  changed-side = rw (keeps (contact c)).same_offerer (rw (keeps (contact c)).same_interested side)

  pub change-Runs :
      {E : ConversationWorld → Type 0} (kind : ConversationSystemEventKind) (reason : Option Text)
      (notify : OpportunityConversationDocument → Action ConversationWorld (Unit {0}))
      → Fits x After E
      → ((d : OpportunityConversationDocument) → Quiet x (notify d))
      → Runs
          (λ s. s ≡ s0)
          (change x (user, c) fields kind reason notify)
          (λ r s. After (contacts s) × (contact r.conversation ≡ g (contact c)))
          E
  unfolding change
  change-Runs {E} kind reason notify fits quiet =
      bind-Runs {Q = λ now s. s ≡ s0} (gets-Runs _ (λ s h. h)) λ now.
        bind-Runs (update-Runs s0 c.id (fields now) g (shown now)) λ found.
          bind-Runs {Q = λ d s. After (contacts s) × (contact d ≡ g (contact c))}
            (or_raise-Runs found _ λ s (is_found, after, _). (
              touched (fields now) s0.now c,
              is_found ∙ ap (Option.map (touched (fields now) s0.now)) stored,
              (after, shown now c),
            ))
            λ updated. given-Runs λ s (after, shows).
              after-Quiet After fits
                (append_system_event-Quiet x updated user kind reason
                  (participant-of updated (g (contact c)) user.id shows changed-side))
                (λ t same. rw same after)
                λ _. bind-Runs (refresh-Runs After c.id (g (contact c)) After-found) λ refreshed.
                  given-Runs λ t (late, same).
                    after-Quiet After fits (quiet refreshed) (λ v e. rw e late)
                      λ _. pure-Runs _ λ v last.
                        (last, ap contact (response-conversation refreshed user.id) ∙ same)
