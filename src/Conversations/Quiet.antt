-- ===== src/Conversations/Quiet.antt =====
-- The parts of the conversations service that leave every contact as it is: notifications, realtime
-- events, messages and times.
use econmesh_api.Prelude.{
  ℕ, Bool, true, false, not, ap, ◌⊎◌, none, ◌≡◌, refl, sym, Option, some, List, [], ◌∷◌, map,
  String, Bool-cases, inl, inr, map-update_first-id, ◌==◌,
}
use mathlib.Core.Path.{subst}
use econmesh_api.Text.{Text}
use econmesh_api.Service.{
  AppException, Action, raise_if, raise_if-Runs, or_raise, raise, pure, gets, modify, when, branch,
  match_some, ◌>>=◌, Runs, bind-Runs, pure-Runs, gets-Runs, modify-Runs, when-Runs, branch-Runs,
  match_some-Runs, or_raise-Runs, Runs-mono,
}
use econmesh_api.Accounts.{UserDocument}
use econmesh_api.Conversations.Model.{
  ConversationSystemEventKind, OpportunityConversationDocument,
  OpportunityConversationMessageDocument, is_participant, ConversationAuthorRole,
}
use econmesh_api.Conversations.World.{
  ConversationWorld, Collaborators, Channel, RealtimeEvent, new_uuid, create_message,
  update_conversation, publish, publish_each, IsUp, mark_read, touched, has_id,
}
use econmesh_api.Conversations.Notices.{
  deliver_in_app, send_email, notify, notify_new_conversation, notify_new_message, notify_each,
  notify_admins_new_conversation, notify_contact_closed, notify_reopen_requested,
  notify_new_contact_requested,
}
use econmesh_api.Conversations.Access.{append_system_event, author_role_for_user}
use econmesh_api.Conversations.Contact.{tell, tell_closer}
use econmesh_api.Conversations.Life.{Contact, contact}

-- a state whose contacts have a property
abbrev pub Shows : (List Contact → Type 0) → ConversationWorld → Type 0
Shows C s = C (map contact s.conversations)

-- Redis is up, or what holds of the contacts is enough where it raises.
abbrev pub Fits : Collaborators → (List Contact → Type 0) → (ConversationWorld → Type 0) → Type 0
Fits x C E = IsUp x ⊎ ((s : ConversationWorld) → Shows C s → E s)

pub Fits-mono :
    {x : Collaborators} {C : List Contact → Type 0} {E : ConversationWorld → Type 0}
    → Fits x C E
    → (D : List Contact → Type 0) → ((ks : List Contact) → D ks → C ks)
    → Fits x D E
Fits-mono (inl up) D k = inl up
Fits-mono (inr f) D k = inr (λ s h. f s (k (map contact s.conversations) h))

-- A part that keeps whatever holds of the contacts, and raises only where Redis does.
pub record Quiet {A : Type 0} (x : Collaborators) (m : Action ConversationWorld A) : Type 1 where
  pub keeps :
      (C : List Contact → Type 0) (E : ConversationWorld → Type 0)
      → Fits x C E
      → Runs (Shows C) m (λ a. Shows C) E

module _ {x : Collaborators} {A B : Type 0} where
  pub bind-Quiet :
      {m : Action ConversationWorld A} {f : A → Action ConversationWorld B}
      → Quiet x m
      → ((a : A) → Quiet x (f a))
      → Quiet x (m >>= f)
  bind-Quiet gm gf = record {
    keeps = λ C E f. bind-Runs (gm.keeps C E f) (λ a. (gf a).keeps C E f);
  }

module _ {x : Collaborators} {A : Type 0} where
  pub pure-Quiet : (a : A) → Quiet x (pure a)
  pure-Quiet a = record { keeps = λ C E f. pure-Runs a (λ s h. h) }

  pub gets-Quiet : (f : ConversationWorld → A) → Quiet x (gets f)
  gets-Quiet f = record { keeps = λ C E _. gets-Runs f (λ s h. h) }

  pub branch-Quiet :
      (b : Bool) {m n : Action ConversationWorld A} → Quiet x m → Quiet x n → Quiet x (branch b m n)
  branch-Quiet b gm gn = record {
    keeps = λ C E f. branch-Runs b (λ _. gm.keeps C E f) (λ _. gn.keeps C E f);
  }

  pub match_some-Quiet :
      {B : Type 0} (o : Option B) {f : B → Action ConversationWorld A}
      {n : Action ConversationWorld A}
      → ((b : B) → Quiet x (f b))
      → Quiet x n
      → Quiet x (match_some o f n)
  match_some-Quiet o gf gn = record {
    keeps = λ C E f. match_some-Runs o (λ b _. (gf b).keeps C E f) (λ _. gn.keeps C E f);
  }

-- a change elsewhere in the state
abbrev pub Aside : (ConversationWorld → ConversationWorld) → Type 0
Aside f = (s : ConversationWorld) → map contact s.conversations ≡ map contact (f s).conversations

pub modify-Quiet :
    {x : Collaborators} (f : ConversationWorld → ConversationWorld) → Aside f → Quiet x (modify f)
modify-Quiet f aside = record { keeps = λ C E _. modify-Runs f (λ s h. subst C (aside s) h) }

pub when-Quiet :
    {x : Collaborators} (b : Bool) {m : Action ConversationWorld (Unit {0})}
    → Quiet x m
    → Quiet x (when b m)
when-Quiet b g = record { keeps = λ C E f. when-Runs b (λ _. g.keeps C E f) (λ s h. h) }

pub new_uuid-Quiet : {x : Collaborators} → Quiet x new_uuid
unfolding new_uuid pure
new_uuid-Quiet = record { keeps = λ C E f. record { run = λ s h. h } }

-- the identifier given out is the next one
pub new_uuid-Runs :
    {E : ConversationWorld → Type 0} (C : List Contact → Type 0) (n : ℕ)
    → Runs (λ s. Shows C s × (s.fresh ≡ n)) new_uuid (λ id s. Shows C s × (id ≡ n)) E
unfolding new_uuid pure
new_uuid-Runs C n = record { run = λ s h. h }

pub create_message-Quiet :
    {x : Collaborators} (m : OpportunityConversationMessageDocument) → Quiet x (create_message m)
unfolding create_message
create_message-Quiet m = modify-Quiet _ (λ s. refl)

-- a test that is passed while Redis is up, and a lookup that finds
pub raise_if-Up :
    {x : Collaborators} {P E : ConversationWorld → Type 0} (b : Bool) (e : AppException)
    → (IsUp x → b ≡ false)
    → IsUp x ⊎ ((s : ConversationWorld) → P s → E s)
    → Runs P (raise_if b e) (λ _. P) E
unfolding raise_if
raise_if-Up b e passes (inl up) = raise_if-Runs b e (λ s h. (passes up, h))
raise_if-Up true e passes (inr f) = record { run = λ s h. f s h }
raise_if-Up false e passes (inr f) = record { run = λ s h. h }

pub or_raise-Quiet :
    {x : Collaborators} {A : Type 0} (o : Option A) (e : AppException)
    → (IsUp x → (a : A) × (o ≡ some a))
    → Quiet x (or_raise o e)
unfolding or_raise raise pure
or_raise-Quiet (some a) e finds = record { keeps = λ C E f. record { run = λ s h. h } }
or_raise-Quiet none e finds = record {
  keeps = λ C E f. elim f [
    | inl up ↦ or_raise-Runs none e (λ s h. ((finds up).0, (finds up).1, h))
    | inr k ↦ record { run = λ s h. k s h }
  ];
}

-- a part of the state that the realtime events leave
module _ (x : Collaborators) {P E : ConversationWorld → Type 0}
    (aside : (s : ConversationWorld) (l : List (Channel × RealtimeEvent))
      → P s
      → P (record s { published = l }))
    (fits : IsUp x ⊎ ((s : ConversationWorld) → P s → E s)) where
  publish_each-Runs :
      (cs : List Channel) (e : RealtimeEvent) → Runs P (publish_each x cs e) (λ _. P) E
  unfolding publish_each
  publish_each-Runs [] e = pure-Runs tt (λ s h. h)
  publish_each-Runs (c ∷ cs) e =
      bind-Runs {Q = λ _. P}
        (raise_if-Up (not (x.delivers c e)) _ (λ up. ap not (up.all_delivered c e)) fits)
        λ _. bind-Runs {Q = λ _. P} (modify-Runs _ (λ s h. aside s _ h)) λ _. publish_each-Runs cs e

  pub publish-Runs : (cs : List Channel) (e : RealtimeEvent) → Runs P (publish x cs e) (λ _. P) E
  unfolding publish
  publish-Runs cs e = when-Runs x.has_realtime (λ _. publish_each-Runs cs e) (λ s h. h)

pub publish-Quiet :
    (x : Collaborators) (cs : List Channel) (e : RealtimeEvent) → Quiet x (publish x cs e)
publish-Quiet x cs e = record { keeps = λ C E f. publish-Runs x (λ s l h. h) f cs e }

-- an update of fields that a contact does not show
pub update_conversation-Quiet :
    {x : Collaborators} (id : ℕ)
    (f : OpportunityConversationDocument → OpportunityConversationDocument)
    → ((c : OpportunityConversationDocument) → contact (f c) ≡ contact c)
    → Quiet x (update_conversation id f)
unfolding update_conversation pure
update_conversation-Quiet id f same = record {
  keeps = λ C E _. record {
    run = λ s h.
        subst C
          (sym (map-update_first-id contact (has_id id) (touched f s.now) s.conversations same)) h;
  };
}

pub mark_read-Quiet : {x : Collaborators} (id reader : ℕ) → Quiet x (mark_read id reader)
unfolding mark_read
mark_read-Quiet id reader =
    bind-Quiet (gets-Quiet _) λ w.
      branch-Quiet _ (pure-Quiet _) (bind-Quiet (modify-Quiet _ (λ s. refl)) (λ u. pure-Quiet _))

module _ (x : Collaborators) (user : UserDocument) (title body : Text)
    (c : OpportunityConversationDocument) (event : String) where
  deliver_in_app-Quiet : Quiet x (deliver_in_app x user title body c event)
  unfolding deliver_in_app
  deliver_in_app-Quiet = bind-Quiet new_uuid-Quiet λ id.
      bind-Quiet (modify-Quiet _ (λ s. refl)) λ u. when-Quiet _ (
        bind-Quiet
          (record {
            keeps = λ C E f. raise_if-Up (not (x.pushes _)) _ (λ up. ap not (up.all_pushed _)) f;
          })
          λ u. modify-Quiet _ (λ s. refl))

  notify-Quiet : (url : Text) → Quiet x (notify x user title body c event url)
  unfolding notify send_email
  notify-Quiet url = bind-Quiet deliver_in_app-Quiet λ u.
      bind-Quiet (or_raise-Quiet (x.is_online user.id) _ (λ up. up.all_known user.id))
        λ online. when-Quiet _ (when-Quiet _ (modify-Quiet _ (λ s. refl)))

module _ (x : Collaborators) (c : OpportunityConversationDocument) where
  pub notify_new_conversation-Quiet :
      (name : Text) (u : UserDocument) → Quiet x (notify_new_conversation x c name u)
  unfolding notify_new_conversation
  notify_new_conversation-Quiet name u = notify-Quiet x u _ _ c _ _

  pub notify_new_message-Quiet :
      (name preview : Text) (u : UserDocument) → Quiet x (notify_new_message x c name preview u)
  unfolding notify_new_message
  notify_new_message-Quiet name preview u = notify-Quiet x u _ _ c _ _

  notify_each-Quiet :
      (title body url : Text) (us : List UserDocument) → Quiet x (notify_each x c title body url us)
  unfolding notify_each
  notify_each-Quiet title body url [] = pure-Quiet _
  notify_each-Quiet title body url (u ∷ us) =
      bind-Quiet (notify-Quiet x u title body c _ url) (λ _. notify_each-Quiet title body url us)

  pub notify_admins-Quiet : (name : Text) → Quiet x (notify_admins_new_conversation x c name)
  unfolding notify_admins_new_conversation
  notify_admins-Quiet name = bind-Quiet (gets-Quiet _) λ admins. notify_each-Quiet _ _ _ admins

  pub notify_contact_closed-Quiet :
      (name : Text) (reason : Option Text) (u : UserDocument)
      → Quiet x (notify_contact_closed x c name reason u)
  unfolding notify_contact_closed
  notify_contact_closed-Quiet name reason u = notify-Quiet x u _ _ c _ _

  pub notify_reopen_requested-Quiet :
      (name : Text) (message : Option Text) (u : UserDocument)
      → Quiet x (notify_reopen_requested x c name message u)
  unfolding notify_reopen_requested
  notify_reopen_requested-Quiet name message u = notify-Quiet x u _ _ c _ _

  pub notify_new_contact_requested-Quiet :
      (name : Text) (message : Option Text) (u : UserDocument)
      → Quiet x (notify_new_contact_requested x c name message u)
  unfolding notify_new_contact_requested
  notify_new_contact_requested-Quiet name message u = notify-Quiet x u _ _ c _ _

pub tell-Quiet :
    {x : Collaborators} (id : ℕ) {notify : UserDocument → Action ConversationWorld (Unit {0})}
    → ((u : UserDocument) → Quiet x (notify u))
    → Quiet x (tell id notify)
unfolding tell
tell-Quiet id g = bind-Quiet (gets-Quiet _) λ found. match_some-Quiet found g (pure-Quiet tt)

pub tell_closer-Quiet :
    {x : Collaborators}
    {notify : OpportunityConversationDocument → UserDocument → Action ConversationWorld (Unit {0})}
    → ((c : OpportunityConversationDocument) (u : UserDocument) → Quiet x (notify c u))
    → (c : OpportunityConversationDocument) → Quiet x (tell_closer notify c)
unfolding tell_closer
tell_closer-Quiet g c =
    match_some-Quiet c.closed_by_user_id (λ u. tell-Quiet u (g c)) (pure-Quiet tt)

-- the role of a participant is defined
pub author_role_for_user-some :
    (c : OpportunityConversationDocument) (user_id : ℕ)
    → is_participant c user_id ≡ true
    → (r : ConversationAuthorRole) × (author_role_for_user c user_id ≡ some r)
unfolding author_role_for_user
author_role_for_user-some c user_id h = elim (Bool-cases (user_id == c.offerer_user_id)) [
  | inl e ↦ (ConversationAuthorRole.offerer, rw e refl)
  | inr e ↦ (ConversationAuthorRole.interested, rw e (rw (rw e at h) refl))
]

-- a system event of a participant
pub append_system_event-Quiet :
    (x : Collaborators) (c : OpportunityConversationDocument) (actor : UserDocument)
    (kind : ConversationSystemEventKind) (reason : Option Text)
    → is_participant c actor.id ≡ true
    → Quiet x (append_system_event x c actor kind reason)
unfolding append_system_event
append_system_event-Quiet x c actor kind reason side = bind-Quiet (gets-Quiet _) λ now.
    bind-Quiet
      (record {
        keeps = λ C E f.
            or_raise-Runs _ _
              (λ s h. let (r, known) = author_role_for_user-some c actor.id side in (r, known, h));
      })
      λ role. bind-Quiet new_uuid-Quiet λ id. bind-Quiet (create_message-Quiet _) λ _.
        bind-Quiet (update_conversation-Quiet _ _ (λ d. refl)) λ _.
          bind-Quiet (publish-Quiet _ _ _) λ _. bind-Quiet (publish-Quiet _ _ _) λ _. pure-Quiet _

-- what holds of the contacts still holds after a quiet part
pub after-Quiet :
    {A B : Type 0} {P E : ConversationWorld → Type 0} {R : B → ConversationWorld → Type 0}
    {m : Action ConversationWorld A} {f : A → Action ConversationWorld B} {x : Collaborators}
    (C : List Contact → Type 0)
    → Fits x C E
    → Quiet x m
    → ((s : ConversationWorld) → P s → Shows C s)
    → ((a : A) → Runs (Shows C) (f a) R E)
    → Runs P (m >>= f) R E
after-Quiet {E = E} C fits g before gf =
    bind-Runs (Runs-mono (g.keeps C E fits) before (λ a s h. h) (λ s h. h)) gf
