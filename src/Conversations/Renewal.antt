-- ===== src/Conversations/Renewal.antt =====
-- A new contact takes the place of a closed one: by an accepted request, or when the interested
-- company starts again.
use econmesh_api.Prelude.{
  ℕ, Bool, true, false, ◌≡◌, refl, sym, ap, ◌∙◌, Option, some, List, [], ◌∷◌, ◌++◌, inl, inr, arith,
  findb, findb-append_left, anyb, anyb-map, update_first, findb-update_first, map-append, ◌==◌,
  Bool-cases, is_some,
}
use mathlib.Core.Path.{subst}
use mathlib.Core.Option
use mathlib.Core.Option.{some-injective}
use econmesh_api.Text.{Text}
use econmesh_api.Service.{
  pure, Runs, bind-Runs, pure-Runs, gets-Runs, Runs-mono, given-Runs, after-Reads, branch-Runs,
  raise,
}
use econmesh_api.Accounts.{CompanyDocument, UserDocument, user_by_firebase_uid}
use econmesh_api.Conversations.Model.{OpportunityConversationDocument}
use econmesh_api.Conversations.World.{
  ConversationWorld, Collaborators, create_conversation, clashes,
}
use econmesh_api.Conversations.Contact.{
  Entry, renewed, retired, start_new_contact, new_contact_answerable, respond_new_contact,
}
use econmesh_api.Conversations.Life.{
  Contact, renewed_contact, contact, IsNew, collides, Move, accept_new_contact, named, Evolves,
  stays, moves, begins,
}
use econmesh_api.Conversations.Guards.{IsEntry, IsCloser, new_contact_answerable-Reads}
use econmesh_api.Conversations.Quiet.{
  Shows, Fits, Fits-mono, after-Quiet, new_uuid-Runs, update_conversation-Quiet,
  append_system_event-Quiet,
}
use econmesh_api.Conversations.Changes.{
  contacts, stored-id, contact-found, update-Runs, refresh-Runs, participant-of,
}
use econmesh_api.Conversations.Refinement.{
  Raised, Followed, Follows, waiting, closer-some, not_none, refuse_contact-Follows,
}

-- a stored document begins a contact, or the unique indexes refuse it
pub create-Runs :
    {E : ConversationWorld → Type 0} (C D : List Contact → Type 0)
    (doc : OpportunityConversationDocument)
    → ((ks : List Contact)
        → C ks
        → anyb (collides (contact doc)) ks ≡ false
        → D (ks ++ contact doc ∷ []))
    → ((s : ConversationWorld)
        → Shows C s
        → anyb (collides (contact doc)) (contacts s) ≡ true
        → E s)
    → Runs (Shows C) (create_conversation doc) (λ _. Shows D) E
unfolding create_conversation pure raise
create-Runs {E} C D doc free taken = record {
  run = λ s h. elim (Bool-cases (anyb (clashes doc) s.conversations)) [
    | inl e ↦ rw e (taken s h (same s ∙ e))
    | inr e ↦ rw e (
        subst D (sym (map-append contact s.conversations (doc ∷ [])))
          (free (contacts s) h (same s ∙ e)))
  ];
}
  where
    same :
        (s : ConversationWorld)
        → anyb (collides (contact doc)) (contacts s) ≡ anyb (clashes doc) s.conversations
    same s = anyb-map contact (clashes doc) (collides (contact doc)) (λ d. refl) s.conversations

-- the new document is a new contact
renewed-IsNew :
    (c : OpportunityConversationDocument) (id now u : ℕ) → IsNew (contact (renewed c id now u))
renewed-IsNew c id now u = record {
  is_open = refl;
  active = refl;
  not_closed = refl;
  not_reopened = refl;
  not_renewed = refl;
}

-- an evolution of one move at most, with a contact that has to be there
abbrev pub Grown : List CompanyDocument → ℕ → List Contact → ℕ → Contact → List Contact → Type 0
Grown cos u before id k ks = Evolves cos u before 1 ks × (findb (named id) ks ≡ some k)

module _ (cos : List CompanyDocument) (u : ℕ) (before : List Contact) (id : ℕ) (k : Contact) where
  pub Grown-begins :
      (new : Contact)
      → IsNew new
      → (ks : List Contact) → Grown cos u before id k ks
      → anyb (collides new) ks ≡ false
      → Grown cos u before id k (ks ++ new ∷ [])
  Grown-begins new fresh ks h free =
      (begins h.0 new fresh free, findb-append_left (named id) ks (new ∷ []) k h.1)

  -- the first move, of a contact that is there
  pub Grown-moves :
      (j : Contact) (g : Contact → Contact)
      → ((i : Contact) → (g i).id ≡ i.id)
      → j.id ≡ id
      → g j ≡ k
      → findb (named id) before ≡ some j
      → Move cos u j (g j)
      → Grown cos u before id k (update_first (named id) g before)
  Grown-moves j g keeps same changed found move = (
    subst (λ n. Evolves cos u before 1 (update_first (named n) g before)) same
        (moves stays g j (ap (λ n. findb (named n) before) same ∙ found) move),
    findb-update_first (named id) g before (λ i. ap (λ n. n == id) (keeps i))
        ∙ ap (Option.map g) found
        ∙ ap some changed,
  )

-- the contact that an accepted request begins
abbrev pub again : OpportunityConversationDocument → ℕ → Contact
again c id = contact (renewed c id 0 0)

-- where the unique indexes refuse it
abbrev pub Refused : ConversationWorld → Entry → ConversationWorld → Type 0
Refused s0 (user, c) s =
    (contacts s ≡ update_first (named c.id) renewed_contact (contacts s0))
    × (anyb (collides (again c s0.fresh)) (contacts s) ≡ true)

pub one_move-Followed :
    {cos : List CompanyDocument} {u : ℕ} {ks js : List Contact}
    → Evolves cos u ks 1 js
    → Followed cos u ks js
one_move-Followed path = record { count = 1; at_most_one = omega arith; path = path }

module _ (s0 : ConversationWorld) (id : ℕ) (uid : Text) (u : ℕ)
    (acts : (a : UserDocument) → user_by_firebase_uid uid s0.users ≡ some a → a.id ≡ u) where
  -- the contact that was asked for again is set aside
  pub retired-Grown :
      (e : Entry)
      → IsEntry s0 id uid e
      → IsCloser e
      → is_some e.1.new_contact_requested_by_user_id ≡ true
      → Grown s0.companies u
          (contacts s0)
          e.1.id
          (renewed_contact (contact e.1))
          (update_first (named e.1.id) renewed_contact (contacts s0))
  retired-Grown (actor, c) entry closer asked =
      let named_c = stored-id id s0.conversations c entry.stored in
      let found =
        ap (λ n. findb (named n) (contacts s0)) named_c
        ∙ contact-found id s0.conversations c entry.stored in
      let move =
        accept_new_contact (waiting c closer.0 closer.1)
          (closer-some c.closed_by_user_id actor.id closer.2)
          (not_none c.new_contact_requested_by_user_id asked) in
      Grown-moves s0.companies u (contacts s0) c.id (renewed_contact (contact c)) (contact c)
        renewed_contact (λ i. refl) refl refl found
        (subst (λ n. Move s0.companies n (contact c) (renewed_contact (contact c)))
          (acts actor entry.known) move)

module _ (x : Collaborators) (s0 : ConversationWorld) (id : ℕ) (uid : Text) (u : ℕ)
    (acts : (a : UserDocument) → user_by_firebase_uid uid s0.users ≡ some a → a.id ≡ u)
    {E : ConversationWorld → Type 0} (fits : Fits x (Followed s0.companies u (contacts s0)) E) where
  -- `respond_new_contact` that accepts
  start_new_contact-Follows :
      (e : Entry) (said : Option Text)
      → IsEntry s0 id uid e
      → IsCloser e
      → is_some e.1.new_contact_requested_by_user_id ≡ true
      → ((s : ConversationWorld) → Refused s0 e s → E s)
      → Runs (λ s. s ≡ s0) (start_new_contact x e said) (λ r. Follows u s0) E
  unfolding start_new_contact
  start_new_contact-Follows (actor, c) said entry closer asked taken =
      let k = renewed_contact (contact c) in
      let safe =
        Fits-mono fits (Grown s0.companies u (contacts s0) c.id k)
          (λ ks h. one_move-Followed h.0) in
      let first = retired-Grown s0 id uid u acts (actor, c) entry closer asked in
      bind-Runs {Q = λ now s. s ≡ s0} (gets-Runs _ (λ s h. h)) λ now.
        bind-Runs
          (Runs-mono (new_uuid-Runs (λ ks. ks ≡ contacts s0) s0.fresh)
            (λ s h. (ap contacts h, ap (λ t. t.fresh) h)) (λ a s h. h) (λ s h. h))
          λ new_id. given-Runs λ s1 (still, is_fresh).
            bind-Runs (update-Runs s1 c.id retired renewed_contact (λ d. refl)) λ _.
              bind-Runs {Q = λ _. Shows (Grown s0.companies u (contacts s0) c.id k)}
                (Runs-mono
                  (create-Runs (λ ks. ks ≡ update_first (named c.id) renewed_contact (contacts s0))
                    (Grown s0.companies u (contacts s0) c.id k) (renewed c new_id now actor.id)
                    (λ ks h.
                      Grown-begins s0.companies u (contacts s0) c.id k _
                        (renewed-IsNew c new_id now actor.id) ks
                        (subst (Grown s0.companies u (contacts s0) c.id k) (sym h) first))
                    (λ s h clash. taken s (
                      h,
                      ap (λ n. anyb (collides (again c n)) (contacts s)) (sym is_fresh) ∙ clash,
                    )))
                  (λ s h. h.1 ∙ ap (update_first (named c.id) renewed_contact) still) (λ _ s h. h)
                  (λ s h. h))
                λ _.
                  after-Quiet (Grown s0.companies u (contacts s0) c.id k) safe
                    (update_conversation-Quiet _ _ (λ d. refl)) (λ s h. h)
                    λ _.
                      bind-Runs
                        (refresh-Runs (Grown s0.companies u (contacts s0) c.id k) c.id k
                          (λ ks h. h.1))
                        λ old. given-Runs λ t (h, shown).
                          after-Quiet (Grown s0.companies u (contacts s0) c.id k) safe
                            (append_system_event-Quiet x old actor _ said
                              (participant-of old k actor.id shown entry.takes_part))
                            (λ v e. rw e h)
                            λ _.
                              after-Quiet (Grown s0.companies u (contacts s0) c.id k) safe
                                (append_system_event-Quiet x (renewed c new_id now actor.id) actor _
                                  said entry.takes_part)
                                (λ v e. e) λ _. pure-Runs _ λ v h. one_move-Followed h.0

  pub respond_new_contact-Follows :
      (accept : Bool) (message : Option Text)
      → ((e : Entry)
          → IsEntry s0 id uid e
          → IsCloser e
          → is_some e.1.new_contact_requested_by_user_id ≡ true
          → (s : ConversationWorld) → Refused s0 e s
          → E s)
      → Raised s0 (new_contact_answerable id uid) E
      → Runs (λ s. s ≡ s0) (respond_new_contact x id accept message uid) (λ r. Follows u s0) E
  unfolding respond_new_contact
  respond_new_contact-Follows accept message taken raised =
      after-Reads s0 (new_contact_answerable-Reads s0 id uid) raised λ e (entry, closer, asked).
        branch-Runs accept
          (λ _. start_new_contact-Follows e _ entry closer asked (taken e entry closer asked))
          (λ _. refuse_contact-Follows x s0 id uid u acts fits e _ entry closer asked)
