-- ===== src/Conversations/Starting.antt =====
-- Starting a conversation, and the requests that leave every contact as it is.
use econmesh_api.Prelude.{
  ℕ, Bool, true, false, ◌&&◌, ◌≡◌, refl, sym, ap, ◌∙◌, Option, none, some, List, [], ◌∷◌, ◌++◌,
  arith, findb, findb_sound, findb-map, anyb, update_first, ◌==◌, ==_iff, not-false,
}
use mathlib.Core.Path.{subst}
use mathlib.Core.Option
use mathlib.Core.Option.{some-injective}
use econmesh_api.Text.{Text, truthy}
use econmesh_api.Service.{
  Action, ◌>>=◌, Runs, bind-Runs, pure-Runs, gets-Runs, Runs-mono, given-Runs, after-Reads,
  match_some-Runs, Reads, bind-Reads, gets-Reads, or_raise-Reads, raise_if-Reads, pure-Reads,
}
use econmesh_api.Accounts.{UserDocument, CompanyDocument, user_by_firebase_uid, company_by_id}
use econmesh_api.Conversations.Model.{
  ConversationStatus, OpportunityConversationDocument, is_closed,
}
use econmesh_api.Conversations.Wording.{company_display_name}
use econmesh_api.Conversations.World.{
  ConversationWorld, Collaborators, active_between, is_active_between,
}
use econmesh_api.Conversations.Threads.{
  Start, startable, opportunity_by_id, started, set_aside, deactivated, start, first_message,
  if_open, create_or_get,
}
use econmesh_api.Conversations.Life.{
  IsOwner, Contact, replaced_contact, contact, IsNew, collides, replace, named, stays, moves,
  begins,
}
use econmesh_api.Conversations.Life.Keys.{is_between, distinct-found}
use econmesh_api.Conversations.Life.Soundness.{IsDistinct, IsSound}
use econmesh_api.Conversations.Guards.{resolve_user-Reads}
use econmesh_api.Conversations.Quiet.{
  Quiet, Fits, Shows, after-Quiet, new_uuid-Quiet, new_uuid-Runs, update_conversation-Quiet,
  create_message-Quiet, publish-Quiet, tell-Quiet, bind-Quiet, pure-Quiet, gets-Quiet, branch-Quiet,
  match_some-Quiet, notify_new_conversation-Quiet, notify_admins-Quiet,
}
use econmesh_api.Conversations.Changes.{contacts, response-conversation, update-Runs}
use econmesh_api.Conversations.Refinement.{Followed, Follows, unchanged-Followed, waiting}
use econmesh_api.Conversations.Renewal.{create-Runs}

-- what the guards of `create_or_get` let through
pub record IsStart (s : ConversationWorld) (opportunity_id company_id : ℕ) (uid : Text) (e : Start)
    : Type 0 where
  pub known : user_by_firebase_uid uid s.users ≡ some e.0
  pub offered : opportunity_by_id opportunity_id s.opportunities ≡ some e.1
  pub offer_active : e.1.is_active ≡ true
  pub company : CompanyDocument
  pub found : company_by_id company_id s.companies ≡ some company
  pub company_active : company.is_active ≡ true
  pub owned : (company.owner_user_id == e.0.id) ≡ true
  pub not_own : (company.id == e.1.company_id) ≡ false
  pub display_name : e.2 ≡ company_display_name company.legal_name company.trade_name
  pub same_company : e.3 ≡ company.id

pub startable-Reads :
    (s : ConversationWorld) (opportunity_id company_id : ℕ) (uid : Text)
    → Reads s (startable opportunity_id company_id uid) (IsStart s opportunity_id company_id uid)
unfolding startable
startable-Reads s opportunity_id company_id uid =
    bind-Reads s (resolve_user-Reads s 0 uid) λ user known. bind-Reads s (gets-Reads s _) λ a is_a.
      bind-Reads s (or_raise-Reads s a _) λ opp offered.
        bind-Reads s (raise_if-Reads s _ _) λ _ active. bind-Reads s (gets-Reads s _) λ b is_b.
          bind-Reads s (or_raise-Reads s b _) λ company found.
            bind-Reads s (raise_if-Reads s _ _) λ _ company_active.
              bind-Reads s (raise_if-Reads s _ _) λ _ owned.
                bind-Reads s (raise_if-Reads s _ _) λ _ not_own. pure-Reads s _ (record {
                  known = known;
                  offered = is_a ∙ offered;
                  offer_active = not-false active;
                  company = company;
                  found = is_b ∙ found;
                  company_active = not-false company_active;
                  owned = not-false owned;
                  not_own = not_own;
                  display_name = refl;
                  same_company = refl;
                })

and-last : (a b c : Bool) → (a && b && c) ≡ true → c ≡ true
and-last a b c h = ground arith

pub existing-found :
    (s : ConversationWorld) (opp company : ℕ) (c : OpportunityConversationDocument)
    → IsDistinct (contacts s)
    → active_between opp company s.conversations ≡ some c
    → (findb (named c.id) (contacts s) ≡ some (contact c)) × (c.is_active ≡ true)
existing-found s opp company c distinct found = (
  distinct-found (is_between opp company) (contacts s) (contact c) distinct (
      findb-map contact (is_active_between opp company) (is_between opp company) (λ d. refl)
        s.conversations
      ∙ ap (Option.map contact) found),
  and-last (c.opportunity_id == opp) (c.interested_company_id == company) c.is_active
      (findb_sound (is_active_between opp company) s.conversations c found),
)

-- The contacts after the one found was set aside.
abbrev pub without : Option OpportunityConversationDocument → List Contact → List Contact
without none ks = ks
without (some c) ks = update_first (named c.id) replaced_contact ks

set_aside-Runs :
    {E : ConversationWorld → Type 0} (s0 : ConversationWorld)
    (found : Option OpportunityConversationDocument)
    → Runs
        (λ s. s ≡ s0)
        (set_aside found deactivated)
        (λ _ s. (contacts s ≡ without found (contacts s0)) × (s.fresh ≡ s0.fresh))
        E
unfolding set_aside
set_aside-Runs s0 none =
    match_some-Runs none (λ c e. cc)
      (λ _. pure-Runs tt (λ s h. (ap contacts h, ap (λ t. t.fresh) h)))
set_aside-Runs s0 (some c) =
    match_some-Runs (some c)
      (λ d e. rw (sym (some-injective _ _ e)) (
        bind-Runs (update-Runs s0 c.id deactivated replaced_contact (λ i. refl))
          λ _. pure-Runs tt (λ s h. (h.1, h.2))))
      (λ e. cc)

-- only a closed conversation is set aside
if_open-none :
    (c : OpportunityConversationDocument) → if_open (some c) ≡ none → is_closed c.status ≡ true
if_open-none c h = ground arith

between-company :
    (opp company : ℕ) (cs : List OpportunityConversationDocument)
    (c : OpportunityConversationDocument)
    → active_between opp company cs ≡ some c
    → c.interested_company_id ≡ company
between-company opp company cs c h =
    go (c.opportunity_id == opp) c.is_active (findb_sound (is_active_between opp company) cs c h)
  where
    go :
        (a b : Bool)
        → (a && (c.interested_company_id == company) && b) ≡ true
        → c.interested_company_id ≡ company
    go a b e = ground arith

-- who may start owns the company
pub start-IsOwner :
    (s : ConversationWorld) (opportunity_id company_id : ℕ) (uid : Text) (e : Start)
    → IsStart s opportunity_id company_id uid e
    → IsOwner s.companies e.0.id e.3
start-IsOwner s opportunity_id company_id uid e h =
    let named_so : h.company.id ≡ company_id =
      (==_iff h.company.id company_id).0
        (findb_sound (λ c. c.id == company_id) s.companies h.company h.found) in
    (
      h.company,
      ap (λ n. company_by_id n s.companies) (h.same_company ∙ named_so) ∙ h.found,
      h.company_active,
      (==_iff h.company.owner_user_id e.0.id).0 h.owned,
    )

pub without-Followed :
    (s0 : ConversationWorld) (u opp company : ℕ) (found : Option OpportunityConversationDocument)
    → IsDistinct (contacts s0)
    → active_between opp company s0.conversations ≡ found
    → if_open found ≡ none
    → IsOwner s0.companies u company
    → Followed s0.companies u (contacts s0) (without found (contacts s0))
without-Followed s0 u opp company none distinct is_found shut own = unchanged-Followed
without-Followed s0 u opp company (some c) distinct is_found shut own =
    let (there, active) = existing-found s0 opp company c distinct is_found in
    record {
      count = 1;
      at_most_one = omega arith;
      path = moves stays replaced_contact (contact c) there (
          replace (waiting c (if_open-none c shut) active) (
            subst (IsOwner s0.companies u)
              (sym (between-company opp company s0.conversations c is_found)) own));
    }

set_aside-Quiet :
    {x : Collaborators} (found : Option OpportunityConversationDocument)
    (f : OpportunityConversationDocument → OpportunityConversationDocument)
    → ((c : OpportunityConversationDocument) → contact (f c) ≡ contact c)
    → Quiet x (set_aside found f)
unfolding set_aside
set_aside-Quiet found f same =
    match_some-Quiet found
      (λ c. bind-Quiet (update_conversation-Quiet c.id f same) (λ _. pure-Quiet tt)) (pure-Quiet tt)

first_message-Quiet :
    {x : Collaborators} (e : Start) (c : OpportunityConversationDocument) (text : Option Text)
    → Quiet x (first_message e c text)
unfolding first_message
first_message-Quiet e c text =
    branch-Quiet _
      (bind-Quiet new_uuid-Quiet λ id.
        bind-Quiet (gets-Quiet _) λ now. bind-Quiet (create_message-Quiet _) λ _. pure-Quiet _)
      (pure-Quiet _)

-- the contact that `create_or_get` begins
abbrev pub begun : Start → ℕ → Contact
begun (user, opp, company_name, company_id) id = record {
  id = id;
  opportunity_id = opp.id;
  company_id = company_id;
  offerer = opp.owner_user_id;
  interested = user.id;
  status = ConversationStatus.«open»;
  is_active = true;
  closer = none;
  reopen_requester = none;
  new_contact_requester = none;
}

begun-IsNew : (e : Start) (id : ℕ) → IsNew (begun e id)
begun-IsNew e id = record {
  is_open = refl;
  active = refl;
  not_closed = refl;
  not_reopened = refl;
  not_renewed = refl;
}

Followed-begins :
    {cos : List CompanyDocument} {u : ℕ} {ks js : List Contact} (k : Contact)
    → IsNew k
    → Followed cos u ks js
    → anyb (collides k) js ≡ false
    → Followed cos u ks (js ++ k ∷ [])
Followed-begins k fresh h free = record {
  count = h.count;
  at_most_one = h.at_most_one;
  path = begins h.path k fresh free;
}

-- the rest of `create_or_get`, with what a refusal by the unique indexes leaves
pub start-Runs :
    {E : ConversationWorld → Type 0} (x : Collaborators) (s0 : ConversationWorld) (e : Start)
    (found : Option OpportunityConversationDocument) (text : Option Text)
    → Fits x (Followed s0.companies e.0.id (contacts s0)) E
    → Followed s0.companies e.0.id (contacts s0) (without found (contacts s0))
    → ((s : ConversationWorld)
        → contacts s ≡ without found (contacts s0)
        → anyb (collides (begun e s0.fresh)) (contacts s) ≡ true
        → E s)
    → Runs
        (λ s. s ≡ s0)
        (start x e found text)
        (λ r s. Follows e.0.id s0 s × (contact r.conversation ≡ begun e s0.fresh))
        E
unfolding start
start-Runs {E} x s0 (user, opp, company_name, company_id) found text fits path taken =
    bind-Runs (set_aside-Runs s0 found) λ _.
      bind-Runs {Q = λ now s. (contacts s ≡ without found (contacts s0)) × (s.fresh ≡ s0.fresh)}
        (gets-Runs _ (λ s h. h))
        λ now. bind-Runs (new_uuid-Runs (λ ks. ks ≡ without found (contacts s0)) s0.fresh) λ id.
          given-Runs λ s1 (still, same).
            bind-Runs {Q = λ _. Shows (Followed s0.companies user.id (contacts s0))}
              (Runs-mono
                (create-Runs (λ ks. ks ≡ without found (contacts s0))
                  (Followed s0.companies user.id (contacts s0))
                  (started (user, opp, company_name, company_id) id now (truthy text)
                    (Option.map (λ d. d.id) found))
                  (λ ks h free.
                    Followed-begins (begun (user, opp, company_name, company_id) id)
                      (begun-IsNew (user, opp, company_name, company_id) id)
                      (subst (Followed s0.companies user.id (contacts s0)) (sym h) path) free)
                  (λ t h clash. taken t h (
                    ap
                      (λ n.
                        anyb (collides (begun (user, opp, company_name, company_id) n))
                          (contacts t))
                      (sym same)
                    ∙ clash)))
                (λ t e. ap contacts e ∙ still) (λ _ t h. h) (λ t h. h))
              λ _. told user.id fits (set_aside-Quiet found _ (λ d. refl)) λ _.
                told user.id fits (first_message-Quiet (user, opp, company_name, company_id) _ text)
                  λ message. told user.id fits (publish-Quiet x _ _) λ _.
                    told user.id fits (tell-Quiet _ (notify_new_conversation-Quiet x _ _)) λ _.
                      told user.id fits (notify_admins-Quiet x _ _) λ _. pure-Runs _ λ t h. (
                        h,
                        ap contact (response-conversation _ user.id)
                            ∙ ap (begun (user, opp, company_name, company_id)) same,
                      )
  where
    told :
        {A B : Type 0} {R : B → ConversationWorld → Type 0} {m : Action ConversationWorld A}
        {f : A → Action ConversationWorld B} (u : ℕ)
        → Fits x (Followed s0.companies u (contacts s0)) E
        → Quiet x m
        → ((a : A) → Runs (Shows (Followed s0.companies u (contacts s0))) (f a) R E)
        → Runs (Shows (Followed s0.companies u (contacts s0))) (m >>= f) R E
    told u safe quiet k =
        after-Quiet (Followed s0.companies u (contacts s0)) safe quiet (λ s h. h) k

-- where the unique indexes refuse the conversation that `create_or_get` makes
abbrev pub Clash : ConversationWorld → Start → ConversationWorld → Type 0
Clash s0 e s =
    (if_open (active_between e.1.id e.3 s0.conversations) ≡ none)
    × (contacts s ≡ without (active_between e.1.id e.3 s0.conversations) (contacts s0))
    × (anyb (collides (begun e s0.fresh)) (contacts s) ≡ true)

module _ (x : Collaborators) (s0 : ConversationWorld) (uid : Text) (u : ℕ)
    (acts : (a : UserDocument) → user_by_firebase_uid uid s0.users ≡ some a → a.id ≡ u)
    {E : ConversationWorld → Type 0} (unchanged : E s0)
    (fits : Fits x (Followed s0.companies u (contacts s0)) E) where
  pub create_or_get-Follows :
      (opportunity_id company_id : ℕ) (text : Option Text)
      → IsSound (contacts s0)
      → ((e : Start)
          → IsStart s0 opportunity_id company_id uid e
          → (s : ConversationWorld) → Clash s0 e s
          → E s)
      → Runs
          (λ s. s ≡ s0)
          (create_or_get x opportunity_id company_id text uid)
          (λ r. Follows u s0)
          E
  unfolding create_or_get
  create_or_get-Follows opportunity_id company_id text sound taken =
      after-Reads s0 (startable-Reads s0 opportunity_id company_id uid) (λ _ _ _. unchanged)
        λ (actor, opp, name, company) e.
          bind-Runs
            {Q = λ found s. (s ≡ s0) × (active_between opp.id company s0.conversations ≡ found)}
            (gets-Runs _
              (λ s h. (h, ap (λ t. active_between opp.id company t.conversations) (sym h))))
            λ existing.
              match_some-Runs (if_open existing)
                (λ c _. pure-Runs _ (λ s h. rw h.0 unchanged-Followed))
                (λ shut. given-Runs λ s (same, found).
                  let actor_known : actor.id ≡ u = acts actor e.known in
                  let path =
                    without-Followed s0 actor.id opp.id company existing sound.distinct found shut (
                      start-IsOwner s0 opportunity_id company_id uid (actor, opp, name, company)
                        e) in
                  Runs-mono
                    (start-Runs {E = E} x s0 (actor, opp, name, company) existing text
                      (subst (λ n. Fits x (Followed s0.companies n (contacts s0)) E)
                        (sym actor_known) fits)
                      path
                      (λ t h clash.
                        taken (actor, opp, name, company) e t
                          (
                            ap if_open found ∙ shut,
                            subst (λ f. contacts t ≡ without f (contacts s0)) (sym found) h,
                            clash,
                          )))
                    (λ t h. h ∙ same) (λ r t h. subst (λ n. Follows n s0 t) actor_known h.0)
                    (λ t h. h))
