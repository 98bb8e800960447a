-- ===== src/Agreements/Renewal.antt =====
-- `update_participants` (src/modules/agreements/service.py): the new participants get identifiers that
-- were never given out, so no field placed before belongs to one of them.
use econmesh_api.Prelude.{
  ℕ, String, ◌≡◌, ◌≤◌, ◌<◌, ◌+◌, refl, sym, ap, ◌∙◌, Bool, false, Option, none, some, List, [], ◌∷◌,
  arith, ◌==◌, or_else, inl, inr, Bool-cases, All, findb-All, filterb,
}
use econmesh_api.Text.{Text}
use econmesh_api.Service.{
  gets, ◌>>=◌, Guarantees, Any, Holds, bind-Guarantees, pure-Guarantees, gets-Guarantees,
  or_raise-Guarantees, raise_if-Guarantees, modify-Guarantees, when-Guarantees, branch-Guarantees,
  Result, ok, err,
}
use econmesh_api.Accounts.{UserDocument, user_by_firebase_uid}
use econmesh_api.Agreements.Model.{
  SigningMode, AgreementDocument, AgreementField, AgreementParticipant, AgreementEventType,
  AgreementEventDocument,
}
use econmesh_api.Agreements.World.{
  World, Deps, get_agreement, replace_agreement, replace_in, create_event, new_uuid,
}
use econmesh_api.Agreements.Access.{
  resolve_user, maybe_expire, get_accessible, append_event, append_full_event,
}
use econmesh_api.Agreements.Drafting.{load_owned}
use econmesh_api.Agreements.Parties.{
  ParticipantInput, make_participant, make_participants, belongs_to, set_participants,
  update_participants,
}
use econmesh_api.Agreements.Notices.{notify_added, notify_by_emails}

-- every field is for a participant with an identifier below a bound
abbrev pub FieldsBelow : ℕ → AgreementDocument → Type 0
FieldsBelow n d = All (λ f. f.participant_id < n) d.fields

-- Identifiers from the bound on are still to be given out, and no stored field uses one.
pub record IsAhead (n : ℕ) (w : World) : Type 0 where
  pub ahead : n ≤ w.fresh
  pub below : All (FieldsBelow n) w.agreements

abbrev From : ℕ → List AgreementParticipant → Type 0
From n ps = All (λ p. n ≤ p.id) ps

no_owner :
    (n : ℕ) (ps : List AgreementParticipant) (f : AgreementField)
    → f.participant_id < n
    → From n ps
    → belongs_to ps f ≡ false
no_owner n [] f h k = refl
no_owner n (p ∷ ps) f h k = rw (other, no_owner n ps f h k.1) refl
  where
    other : (p.id == f.participant_id) ≡ false
    other = let q : n ≤ p.id = k.0 in ground arith

no_field :
    (n : ℕ) (ps : List AgreementParticipant) (fs : List AgreementField)
    → All (λ f. f.participant_id < n) fs
    → From n ps
    → filterb (belongs_to ps) fs ≡ []
no_field n ps [] h k = refl
no_field n ps (f ∷ fs) h k = rw (no_owner n ps f h.0 k, no_field n ps fs h.1 k) refl

below-replace_in :
    (n : ℕ) (d : AgreementDocument) (ds : List AgreementDocument)
    → FieldsBelow n d
    → All (FieldsBelow n) ds
    → All (FieldsBelow n) (replace_in d ds)
below-replace_in n d [] h k = tt
below-replace_in n d (e ∷ ds) h k = elim (Bool-cases (e.id == d.id)) [
  | inl m ↦ rw m (h, k.1)
  | inr m ↦ rw m (k.0, below-replace_in n d ds h k.1)
]

module _ (n : ℕ) where
  same-IsAhead :
      (w v : World) → v.agreements ≡ w.agreements → v.fresh ≡ w.fresh → IsAhead n w → IsAhead n v
  same-IsAhead w v ea ef h = record { ahead = rw ef h.ahead; below = rw ea h.below }

  find-IsAhead :
      (id : ℕ)
      → Guarantees
          (IsAhead n)
          (λ o. (d : AgreementDocument) → o ≡ some d → FieldsBelow n d)
          (gets (get_agreement id))
  unfolding get_agreement
  find-IsAhead id =
      gets-Guarantees _ (λ w h d e. findb-All (FieldsBelow n) _ w.agreements d h.below e)

  replace-IsAhead :
      (d : AgreementDocument)
      → FieldsBelow n d
      → Guarantees (IsAhead n) (λ d'. d'.fields ≡ d.fields) (replace_agreement d)
  unfolding replace_agreement ◌>>=◌
  replace-IsAhead d h = record {
    run = λ w v. (
      record {
        ahead = v.ahead;
        below = below-replace_in n (record d { updated_at = w.now }) w.agreements h v.below;
      },
      refl,
    );
  }

  event-IsAhead :
      (e : AgreementEventDocument)
      → Guarantees (IsAhead n) (Any {A = Unit {0}}) (append_full_event e)
  unfolding append_full_event create_event ◌>>=◌
  event-IsAhead e = record { run = λ w v. (same-IsAhead w _ refl refl v, tt) }

  append-IsAhead :
      (id : ℕ) (t : AgreementEventType) (a : Option ℕ) (s : Option Text)
      → Guarantees (IsAhead n) (Any {A = Unit {0}}) (append_event id t a s)
  unfolding append_event create_event ◌>>=◌
  append-IsAhead id t a s = record { run = λ w v. (same-IsAhead w _ refl refl v, tt) }

  fresh-IsAhead : Guarantees (IsAhead n) (λ id. n ≤ id) new_uuid
  unfolding new_uuid ◌>>=◌
  fresh-IsAhead = record {
    run = λ w v. (record { ahead = more w.fresh v.ahead; below = v.below }, v.ahead);
  }
    where
      more : (f : ℕ) → n ≤ f → n ≤ f + 1
      more f h = omega arith

  or_else-FieldsBelow :
      (o : Option AgreementDocument) (d : AgreementDocument)
      → ((e : AgreementDocument) → o ≡ some e → FieldsBelow n e)
      → FieldsBelow n d
      → FieldsBelow n (or_else o d)
  or_else-FieldsBelow none d h k = k
  or_else-FieldsBelow (some e) d h k = h e refl

  expire-IsAhead :
      (d : AgreementDocument)
      → FieldsBelow n d
      → Guarantees (IsAhead n) (FieldsBelow n) (maybe_expire d)
  unfolding maybe_expire
  expire-IsAhead d h = bind-Guarantees (gets-Guarantees {Q = Any} _ (λ _ _. tt)) λ now _.
      branch-Guarantees _
        (λ _.
          bind-Guarantees (replace-IsAhead _ h) λ d' same.
            bind-Guarantees (append-IsAhead _ _ _ _) λ _ _. pure-Guarantees _ (rw same h))
        (λ _. pure-Guarantees _ h)

  accessible-IsAhead :
      (id user_id : ℕ) (email : Option Text) (is_admin : Bool)
      → Guarantees (IsAhead n) (FieldsBelow n) (get_accessible id user_id email is_admin)
  unfolding get_accessible
  accessible-IsAhead id user_id email is_admin = bind-Guarantees (find-IsAhead id) λ found below.
      bind-Guarantees (or_raise-Guarantees found _ below) λ d h.
        bind-Guarantees (raise_if-Guarantees _ _) λ _ _.
          bind-Guarantees (raise_if-Guarantees _ _) λ _ _.
            bind-Guarantees (expire-IsAhead d h) λ d' h'.
              bind-Guarantees (find-IsAhead id)
                λ refreshed again. pure-Guarantees _ (or_else-FieldsBelow refreshed d' again h')

  resolve-IsAhead :
      (uid : Text) → Guarantees (IsAhead n) (Any {A = UserDocument}) (resolve_user uid)
  unfolding resolve_user
  resolve-IsAhead uid = record {
    run = λ w v. (or_raise-Guarantees (user_by_firebase_uid uid w.users) _ (λ _ _. tt)).run w v;
  }

  owned-IsAhead :
      (uid : Text) (id : ℕ) (refusal : String)
      → Guarantees (IsAhead n) (λ r. FieldsBelow n r.1) (load_owned uid id refusal)
  unfolding load_owned
  owned-IsAhead uid id refusal = bind-Guarantees (resolve-IsAhead uid) λ user _.
      bind-Guarantees (accessible-IsAhead _ _ _ _)
        λ d h. bind-Guarantees (raise_if-Guarantees _ _) λ _ _. pure-Guarantees _ h

  make_participant-IsAhead :
      (item : ParticipantInput) → Guarantees (IsAhead n) (λ p. n ≤ p.id) (make_participant item)
  unfolding make_participant
  make_participant-IsAhead item =
      bind-Guarantees (gets-Guarantees {Q = Any} _ (λ _ _. tt)) λ linked _.
        bind-Guarantees
          (branch-Guarantees {Q = Any} _
            (λ _. bind-Guarantees (gets-Guarantees {Q = Any} _ (λ _ _. tt)) λ found _.
              bind-Guarantees (or_raise-Guarantees {Q = Any} found _ (λ _ _. tt))
                λ company _. bind-Guarantees (raise_if-Guarantees _ _) λ _ _. pure-Guarantees _ tt)
            (λ _. pure-Guarantees _ tt))
          λ part _.
            bind-Guarantees (gets-Guarantees {Q = Any} _ (λ _ _. tt))
              λ profile _. bind-Guarantees fresh-IsAhead λ id h. pure-Guarantees _ h

  make_participants-IsAhead :
      (items : List ParticipantInput) → Guarantees (IsAhead n) (From n) (make_participants items)
  unfolding make_participants
  make_participants-IsAhead [] = pure-Guarantees _ tt
  make_participants-IsAhead (item ∷ items) =
      bind-Guarantees (make_participant-IsAhead item)
        λ p h. bind-Guarantees (make_participants-IsAhead items) λ ps k. pure-Guarantees _ (h, k)

  notify-IsAhead :
      (id : ℕ) (ps : List AgreementParticipant)
      → Guarantees (IsAhead n) (Any {A = Unit {0}}) (notify_added id ps)
  unfolding notify_added notify_by_emails
  notify-IsAhead id [] = pure-Guarantees _ tt
  notify-IsAhead id (p ∷ ps) =
      bind-Guarantees
        (record {
          run = λ w v. (modify-Guarantees _ (λ z k. same-IsAhead z _ refl refl k)).run w v;
        })
        λ _ _. notify-IsAhead id ps

  update_participants-IsAhead :
      (x : Deps) (id : ℕ) (mode : Option SigningMode) (items : List ParticipantInput) (uid : Text)
      → Guarantees (IsAhead n) (λ d. d.fields ≡ []) (update_participants x id mode items uid)
  unfolding update_participants set_participants
  update_participants-IsAhead x id mode items uid = bind-Guarantees (owned-IsAhead uid id _) λ r h.
      bind-Guarantees (raise_if-Guarantees _ _) λ _ _.
        bind-Guarantees (make_participants-IsAhead items) λ ps k.
          bind-Guarantees (replace-IsAhead _ (none_below r.1 ps h k)) λ d same.
            bind-Guarantees (event-IsAhead _) λ _ _.
              bind-Guarantees (when-Guarantees _ (notify-IsAhead _ ps))
                λ _ _. pure-Guarantees _ (same ∙ no_field n ps r.1.fields h k)
    where
      none_below :
          (d : AgreementDocument) (ps : List AgreementParticipant)
          → FieldsBelow n d
          → From n ps
          → FieldsBelow n (set_participants mode ps d)
      none_below d ps h k = rw (no_field n ps d.fields h k) tt

-- Setting the participants of an agreement removes all of its fields, also those of a participant
-- who is named again; where the identifiers that the stored fields name are not given out again.
pub update_participants-drops_fields :
    (x : Deps) (id : ℕ) (mode : Option SigningMode) (items : List ParticipantInput) (uid : Text)
    (w u : World) (d : AgreementDocument)
    → IsAhead w.fresh w
    → update_participants x id mode items uid w ≡ (ok d, u)
    → d.fields ≡ []
update_participants-drops_fields x id mode items uid w u d ahead h =
    answer (update_participants x id mode items uid w) h
      ((update_participants-IsAhead w.fresh x id mode items uid).run w ahead)
  where
    answer :
        (r : Result AgreementDocument × World)
        → r ≡ (ok d, u)
        → Holds (IsAhead w.fresh) (λ e. e.fields ≡ []) r
        → d.fields ≡ []
    answer (ok e, v) same k = let s : e ≡ d = cc in ap (λ z. z.fields) (sym s) ∙ k.1
    answer (err e, v) same k = cc
