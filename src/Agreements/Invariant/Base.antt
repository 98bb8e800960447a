-- ===== src/Agreements/Invariant/Base.antt =====
-- The invariant of the stored agreements, with the audit log that only grows, and its rules for
-- the repository's operations and the shared helpers.
use econmesh_api.Prelude.{
  ℕ, ◌≡◌, refl, ◌∙◌, ap, Bool, true, false, Option, none, some, List, [], ◌∷◌, ◌++◌, ◌==◌, is_some,
  or_else, inl, inr, Bool-cases, All, allb, anyb, findb-All, All-append, is_empty,
}
use mathlib.Core.List.{append_assoc}
use econmesh_api.Text.{Text}
use econmesh_api.Service.{
  gets, ◌>>=◌, Guarantees, Any, Holds, bind-Guarantees, pure-Guarantees, gets-Guarantees,
  or_raise-Guarantees, raise_if-Guarantees, modify-Guarantees, branch-Guarantees,
  match_some-Guarantees,
}
use econmesh_api.Accounts.{UserDocument, PlatformSettingsDocument, user_by_firebase_uid}
use econmesh_api.Agreements.Model.{
  AgreementStatus, awaiting_send, awaiting_signatures, partially_signed, signed, expired,
  AgreementDocument, AgreementEventType, AgreementEventDocument, is_signed, is_completed,
}
use econmesh_api.Agreements.World.{
  World, Deps, get_agreement, create_agreement, replace_agreement, replace_in, create_event,
  same_code, get_or_create_settings, new_uuid, verification_code,
}
use econmesh_api.Agreements.Access.{
  resolve_user, maybe_expire, get_accessible, append_event, append_full_event,
  require_signature_authorization,
}

-- the statuses of an agreement that has been prepared for its parties
abbrev pub is_prepared : AgreementStatus → Bool
is_prepared awaiting_send = true
is_prepared awaiting_signatures = true
is_prepared partially_signed = true
is_prepared signed = true
is_prepared _ = false

-- the statuses of an agreement that was sent and is neither closed nor refused
abbrev pub is_sent : AgreementStatus → Bool
is_sent awaiting_signatures = true
is_sent partially_signed = true
is_sent signed = true
is_sent _ = false

pub record IsSound (d : AgreementDocument) : Type 0 where
  pub signed_completed :
      is_signed d.status ≡ true → allb (λ p. is_completed p.status) d.participants ≡ true
  pub prepared_file : is_prepared d.status ≡ true → is_some d.original_file ≡ true
  pub prepared_parties : is_prepared d.status ≡ true → is_empty d.participants ≡ false
  pub sent_fields : is_sent d.status ≡ true → is_empty d.fields ≡ false

-- Every stored agreement is sound, and the log has `log` for its beginning.
pub record Inv (log : List AgreementEventDocument) (w : World) : Type 0 where
  pub sound : All IsSound w.agreements
  pub grown : (ys : List AgreementEventDocument) × (w.events ≡ log ++ ys)

-- An agreement that is only looked up by `or_raise` is one that is stored.
abbrev pub SoundIfSome : Option AgreementDocument → Type 0
SoundIfSome o = (d : AgreementDocument) → o ≡ some d → IsSound d

All-replace_in :
    (doc : AgreementDocument) (ds : List AgreementDocument)
    → IsSound doc
    → All IsSound ds
    → All IsSound (replace_in doc ds)
All-replace_in doc [] h all = tt
All-replace_in doc (d ∷ ds) h all = elim (Bool-cases (d.id == doc.id)) [
  | inl e ↦ rw e (h, all.1)
  | inr e ↦ rw e (all.0, All-replace_in doc ds h all.1)
]

-- An expired agreement promises nothing.
pub expired-IsSound : (doc : AgreementDocument) → IsSound (record doc { status = expired })
expired-IsSound doc = record {
  signed_completed = λ e. cc;
  prepared_file = λ e. cc;
  prepared_parties = λ e. cc;
  sent_fields = λ e. cc;
}

pub or_else-IsSound :
    (o : Option AgreementDocument) (d : AgreementDocument)
    → SoundIfSome o
    → IsSound d
    → IsSound (or_else o d)
or_else-IsSound none d ho hd = hd
or_else-IsSound (some a) d ho hd = ho a refl

module _ (log : List AgreementEventDocument) where
  -- a change of the world that leaves the agreements and the log alone
  pub same-Inv :
      (w : World) (v : World)
      → v.agreements ≡ w.agreements
      → v.events ≡ w.events
      → Inv log w
      → Inv log v
  same-Inv w v ea ee h = record { sound = rw ea h.sound; grown = (h.grown.0, ee ∙ h.grown.1) }

  pub find-Inv : (id : ℕ) → Guarantees (Inv log) SoundIfSome (gets (get_agreement id))
  unfolding get_agreement
  find-Inv id = gets-Guarantees _ (λ w h d e. findb-All IsSound _ w.agreements d h.sound e)

  pub replace-Inv :
      (doc : AgreementDocument) → IsSound doc → Guarantees (Inv log) IsSound (replace_agreement doc)
  unfolding replace_agreement ◌>>=◌
  replace-Inv doc h = record {
    run = λ w v. (
      record {
        sound =
            All-replace_in (record doc { updated_at = w.now }) w.agreements (touch w.now) v.sound;
        grown = v.grown;
      },
      touch w.now,
    );
  }
    where
      touch : (now : ℕ) → IsSound (record doc { updated_at = now })
      touch now = record {
        signed_completed = h.signed_completed;
        prepared_file = h.prepared_file;
        prepared_parties = h.prepared_parties;
        sent_fields = h.sent_fields;
      }

  pub create-Inv :
      (doc : AgreementDocument)
      → IsSound doc
      → Guarantees (Inv log) (Any {A = Unit {0}}) (create_agreement doc)
  unfolding create_agreement ◌>>=◌
  create-Inv doc h = record { run = λ w v. go w v }
    where
      added : (w : World) → Inv log w → Inv log (record w { agreements = w.agreements ++ doc ∷ [] })
      added w v = record {
        sound = All-append IsSound w.agreements _ v.sound (h, tt);
        grown = v.grown;
      }

      go : (w : World) → Inv log w → Holds (Inv log) Any (create_agreement doc w)
      go w v = elim (Bool-cases (anyb (same_code doc) w.agreements)) [
        | inl e ↦ rw e v
        | inr e ↦ rw e (added w v, tt)
      ]

  pub event-Inv :
      (e : AgreementEventDocument) → Guarantees (Inv log) (Any {A = Unit {0}}) (create_event e)
  unfolding create_event
  event-Inv e = modify-Guarantees _ (λ w v. record {
    sound = v.sound;
    grown = (
      v.grown.0 ++ e ∷ [],
      ap (λ l. l ++ e ∷ []) v.grown.1 ∙ append_assoc log v.grown.0 (e ∷ []),
    );
  })

  pub append-Inv :
      (id : ℕ) (type : AgreementEventType) (actor : Option ℕ) (name : Option Text)
      → Guarantees (Inv log) (Any {A = Unit {0}}) (append_event id type actor name)
  unfolding append_event
  append-Inv id type actor name = record { run = λ w v. (event-Inv _).run w v }

  pub append_full-Inv :
      (e : AgreementEventDocument) → Guarantees (Inv log) (Any {A = Unit {0}}) (append_full_event e)
  unfolding append_full_event
  append_full-Inv e = record { run = λ w v. (event-Inv _).run w v }

  pub resolve-Inv : (uid : Text) → Guarantees (Inv log) (Any {A = UserDocument}) (resolve_user uid)
  unfolding resolve_user
  resolve-Inv uid = record {
    run = λ w v. (or_raise-Guarantees (user_by_firebase_uid uid w.users) _ (λ _ _. tt)).run w v;
  }

  pub fresh-Inv : Guarantees (Inv log) (Any {A = ℕ}) new_uuid
  unfolding new_uuid ◌>>=◌
  fresh-Inv = record { run = λ w v. (same-Inv w _ refl refl v, tt) }

  pub code-Inv : (x : Deps) → Guarantees (Inv log) (Any {A = Text}) (verification_code x)
  unfolding verification_code ◌>>=◌
  code-Inv x = record { run = λ w v. (same-Inv w _ refl refl v, tt) }

  get_settings-Inv :
      Guarantees (Inv log) (Any {A = PlatformSettingsDocument}) get_or_create_settings
  unfolding get_or_create_settings
  get_settings-Inv = bind-Guarantees (gets-Guarantees {Q = Any} _ (λ _ _. tt)) λ found _.
      match_some-Guarantees found (λ s _. pure-Guarantees _ tt)
        (λ _.
          bind-Guarantees (modify-Guarantees _ (λ w v. same-Inv w _ refl refl v))
            λ _ _. pure-Guarantees _ tt)

  pub settings-Inv :
      (x : Deps) → Guarantees (Inv log) (Any {A = Bool}) (require_signature_authorization x)
  unfolding require_signature_authorization
  settings-Inv x =
      branch-Guarantees _ (λ _. bind-Guarantees get_settings-Inv λ settings _. pure-Guarantees _ tt)
        (λ _. pure-Guarantees _ tt)

  pub expire-Inv :
      (doc : AgreementDocument) → IsSound doc → Guarantees (Inv log) IsSound (maybe_expire doc)
  unfolding maybe_expire
  expire-Inv doc h = bind-Guarantees (gets-Guarantees {Q = Any} _ (λ _ _. tt)) λ now _.
      branch-Guarantees _
        (λ _.
          bind-Guarantees (replace-Inv _ (expired-IsSound doc))
            λ doc' h'. bind-Guarantees (append-Inv _ _ _ _) λ _ _. pure-Guarantees _ h')
        (λ _. pure-Guarantees _ h)

  pub accessible-Inv :
      (id user_id : ℕ) (email : Option Text) (is_admin : Bool)
      → Guarantees (Inv log) IsSound (get_accessible id user_id email is_admin)
  unfolding get_accessible
  accessible-Inv id user_id email is_admin = bind-Guarantees (find-Inv id) λ found sound.
      bind-Guarantees (or_raise-Guarantees found _ sound) λ doc h.
        bind-Guarantees (raise_if-Guarantees _ _) λ _ _.
          bind-Guarantees (raise_if-Guarantees _ _) λ _ _.
            bind-Guarantees (expire-Inv doc h) λ doc' h'.
              bind-Guarantees (find-Inv id)
                λ refreshed again. pure-Guarantees _ (or_else-IsSound refreshed doc' again h')
