-- ===== src/Agreements/Invariant/Signing.antt =====
-- Viewing, signing and rejecting keep the invariant: a status is set to signed only when every
-- participant has completed.
use econmesh_api.Prelude.{
  ℕ, ◌≡◌, refl, ◌∙◌, Bool, true, false, Option, none, some, List, arith, leb, leb→le, is_some,
  is_empty, Bool-cases, inl, inr, not-false, countb, length, findb, allb_of_countb, is_empty-map,
  is_empty-update_first, findb-allb,
}
use econmesh_api.Text.{Text}
use econmesh_api.Service.{
  Guarantees, Any, Guarantees-mono, bind-Guarantees, pure-Guarantees, gets-Guarantees,
  or_raise-Guarantees, raise_if-Guarantees, when-Guarantees, branch-Guarantees,
  match_some-Guarantees,
}
use econmesh_api.Accounts.{UserDocument, UserProfileDocument}
use econmesh_api.Agreements.Model.{
  AgreementStatus, AgreementDocument, AgreementEventDocument, AgreementParticipant,
  ParticipantStatus, AgreementField, AgreementFile, is_open, is_completed, is_pending, is_signed,
}
use econmesh_api.Agreements.World.{Deps, VisualArtifact, VisualSignatureKind, signature, initials}
use econmesh_api.Agreements.Access.{is_caller, find_participant}
use econmesh_api.Agreements.Notices.{notify_signed, notify_rejected, notify_completed}
use econmesh_api.Agreements.Steps.{
  SignRequest, set_participant, view, load_artifact, load_visual_artifacts, mark_fields, complete,
  settle, signer, company_check, is_signature, is_initials,
}
use econmesh_api.Agreements.Signing.{mark_viewed, filled, sign_as, sign, reject}
use econmesh_api.Agreements.Closing.{finalize, finalize_from, report_file}
use econmesh_api.Agreements.Invariant.Base.{
  Inv, IsSound, replace-Inv, append-Inv, append_full-Inv, resolve-Inv, settings-Inv, accessible-Inv,
  find-Inv, or_else-IsSound,
}
use econmesh_api.Agreements.Invariant.Owner.{notify_ids-Inv, upload-Inv}

-- What an agreement open for signature carries into the next steps.
record IsOpenReady (d : AgreementDocument) : Type 0 where
  has_file : is_some d.original_file ≡ true
  has_parties : is_empty d.participants ≡ false
  has_fields : is_empty d.fields ≡ false

open-IsOpenReady : (d : AgreementDocument) → IsSound d → is_open d.status ≡ true → IsOpenReady d
open-IsOpenReady d h e = ground arith

-- The settled status says signed only when all have completed.
settle-IsSound : (d : AgreementDocument) → IsOpenReady d → IsSound (settle d)
unfolding settle
settle-IsSound d h =
    let done = λ (p : AgreementParticipant). is_completed p.status in
    elim (Bool-cases (leb (length d.participants) (countb done d.participants))) [
      | inl all ↦ rw all (record {
        signed_completed = λ _. allb_of_countb done d.participants (leb→le _ _ all);
        prepared_file = λ _. h.has_file;
        prepared_parties = λ _. h.has_parties;
        sent_fields = λ _. h.has_fields;
      })
      | inr some_left ↦ rw some_left (record {
        signed_completed = λ e. cc;
        prepared_file = λ _. h.has_file;
        prepared_parties = λ _. h.has_parties;
        sent_fields = λ _. h.has_fields;
      })
    ]

set_participant-IsOpenReady :
    (user_id : ℕ) (email : Option Text) (f : AgreementParticipant → AgreementParticipant)
    (d : AgreementDocument)
    → IsOpenReady d
    → IsOpenReady (set_participant user_id email f d)
set_participant-IsOpenReady user_id email f d h = record {
  has_file = h.has_file;
  has_parties = is_empty-update_first _ f d.participants ∙ h.has_parties;
  has_fields = h.has_fields;
}

-- Replacing the fields one for one leaves the agreement ready.
fields-IsOpenReady :
    (fs : List AgreementField) (d : AgreementDocument)
    → is_empty fs ≡ is_empty d.fields
    → IsOpenReady d
    → IsOpenReady (record d { fields = fs })
fields-IsOpenReady fs d e h = record {
  has_file = h.has_file;
  has_parties = h.has_parties;
  has_fields = e ∙ h.has_fields;
}

is_empty-mark_fields :
    (x : Deps) (id : ℕ) (k : _) (o : Option VisualArtifact) (fs : List AgreementField)
    → is_empty (mark_fields x id k o fs) ≡ is_empty fs
unfolding mark_fields
is_empty-mark_fields x id k none fs = refl
is_empty-mark_fields x id k (some a) fs = is_empty-map _ fs

-- Whom the caller is shown to be has not completed in an agreement that is signed.
viewed-IsSound :
    (user_id : ℕ) (email : Option Text) (d : AgreementDocument)
    → IsSound d
    → (elim (findb (is_caller user_id email) d.participants) as (λ _. Bool) [
      | none ↦ false
      | some p ↦ is_pending p.status
    ])
      ≡ true
    → IsSound (set_participant user_id email (view user_id) d)
viewed-IsSound user_id email d h e = record {
  signed_completed =
      λ s. absurd (not_all s (findb (is_caller user_id email) d.participants) refl e);
  prepared_file = h.prepared_file;
  prepared_parties = λ s.
      is_empty-update_first (is_caller user_id email) (view user_id) d.participants
      ∙ h.prepared_parties s;
  sent_fields = h.sent_fields;
}
  where
    pending_not : (s : ParticipantStatus) → is_completed s ≡ true → is_pending s ≡ true → ⊥
    pending_not s p q = ground arith

    not_all :
        is_signed d.status ≡ true
        → (o : Option AgreementParticipant) → findb (is_caller user_id email) d.participants ≡ o
        → (elim o as (λ _. Bool) [ none ↦ false | some p ↦ is_pending p.status ]) ≡ true
        → ⊥
    not_all s none f q = cc
    not_all s (some p) f q =
        pending_not p.status
          (findb-allb (is_caller user_id email) (λ r. is_completed r.status) d.participants p f
            (h.signed_completed s))
          q

rejected-IsSound : (d : AgreementDocument) → d.status ≡ AgreementStatus.rejected → IsSound d
rejected-IsSound d e = ground arith

-- The files and the parties of a finished agreement are set beside its status.
abbrev SameCore : AgreementDocument → AgreementDocument → Type 0
SameCore d e =
    (e.status ≡ d.status)
    × (e.participants ≡ d.participants)
    × (e.original_file ≡ d.original_file)
    × (e.fields ≡ d.fields)

core-IsSound : (d e : AgreementDocument) → SameCore d e → IsSound d → IsSound e
core-IsSound d e (s, p, o, f) h = record {
  signed_completed = rw (s, p) h.signed_completed;
  prepared_file = rw (s, o) h.prepared_file;
  prepared_parties = rw (s, p) h.prepared_parties;
  sent_fields = rw (s, f) h.sent_fields;
}

module _ (log : List AgreementEventDocument) where
  pub mark_viewed-keeps :
      (id : ℕ) (uid : Text) (ip agent : Option Text)
      → Guarantees (Inv log) IsSound (mark_viewed id uid ip agent)
  unfolding mark_viewed find_participant
  mark_viewed-keeps id uid ip agent = bind-Guarantees (resolve-Inv log uid) λ user _.
      bind-Guarantees (accessible-Inv log id _ _ _) λ doc h.
        bind-Guarantees (append_full-Inv log _) λ _ _.
          branch-Guarantees _ (λ e. replace-Inv log _ (viewed-IsSound user.id user.email doc h e))
            (λ _. pure-Guarantees _ h)

  artifact-Inv :
      (x : Deps) (user_id : ℕ) (kind : VisualSignatureKind) (needed : Bool)
      → Guarantees (Inv log) (Any {A = Option VisualArtifact}) (load_artifact x user_id kind needed)
  unfolding load_artifact
  artifact-Inv x user_id kind needed =
      branch-Guarantees _
        (λ _.
          bind-Guarantees (or_raise-Guarantees {Q = Any} _ _ (λ _ _. tt))
            λ art _. pure-Guarantees _ tt)
        (λ _. pure-Guarantees _ tt)

  artifacts-Inv :
      (x : Deps) (user_id : ℕ) (fields : List AgreementField)
      → Guarantees
          (Inv log)
          (Any {A = Option VisualArtifact × Option VisualArtifact})
          (load_visual_artifacts x user_id fields)
  unfolding load_visual_artifacts
  artifacts-Inv x user_id fields = bind-Guarantees (raise_if-Guarantees _ _) λ _ _.
      bind-Guarantees (artifact-Inv x user_id signature _)
        λ s _. bind-Guarantees (artifact-Inv x user_id initials _) λ i _. pure-Guarantees _ tt

  company_check-Inv :
      (x : Deps) (p : AgreementParticipant)
      → Guarantees (Inv log) (Any {A = Unit {0}}) (company_check x p)
  unfolding company_check
  company_check-Inv x p =
      branch-Guarantees _
        (λ _.
          match_some-Guarantees p.company_id
            (λ c _. bind-Guarantees (gets-Guarantees {Q = Any} _ (λ _ _. tt)) λ found _.
              match_some-Guarantees found
                (λ company _.
                  bind-Guarantees (settings-Inv log x)
                    λ auth _. Guarantees-mono (raise_if-Guarantees _ _) (λ _ _. tt))
                (λ _. pure-Guarantees _ tt))
            (λ _. pure-Guarantees _ tt))
        (λ _. pure-Guarantees _ tt)

  signer-Inv :
      (user_id : ℕ) (email : Option Text) (d : AgreementDocument)
      → Guarantees
          (Inv log)
          (λ (p : AgreementParticipant). is_open d.status ≡ true)
          (signer user_id email d)
  unfolding signer
  signer-Inv user_id email d = bind-Guarantees (raise_if-Guarantees _ _) λ _ e.
      bind-Guarantees (or_raise-Guarantees {Q = Any} _ _ (λ _ _. tt)) λ p _.
        bind-Guarantees (raise_if-Guarantees _ _) λ _ _.
          bind-Guarantees (raise_if-Guarantees _ _)
            λ _ _. bind-Guarantees (raise_if-Guarantees _ _) λ _ _. pure-Guarantees _ (not-false e)

  report-Inv :
      (x : Deps) (owner : ℕ) (report : Option Text) (filename : Text)
      → Guarantees (Inv log) (Any {A = Option AgreementFile}) (report_file x owner report filename)
  unfolding report_file
  report-Inv x owner report filename =
      match_some-Guarantees report
        (λ body _. bind-Guarantees (upload-Inv log x _ _ _) λ file _. pure-Guarantees _ tt)
        (λ _. pure-Guarantees _ tt)

  finalize_from-Inv :
      (x : Deps) (d : AgreementDocument) (source : AgreementFile)
      → IsSound d
      → Guarantees (Inv log) IsSound (finalize_from x d source)
  unfolding finalize_from
  finalize_from-Inv x d source h =
      bind-Guarantees (gets-Guarantees {Q = Any} _ (λ _ _. tt)) λ events _.
        bind-Guarantees (or_raise-Guarantees {Q = Any} _ _ (λ _ _. tt)) λ body _.
          bind-Guarantees (upload-Inv log x _ _ _) λ audit _.
            bind-Guarantees (upload-Inv log x _ _ _) λ cert _.
              bind-Guarantees (gets-Guarantees {Q = Any} _ (λ _ _. tt)) λ now _.
                bind-Guarantees (gets-Guarantees {Q = Any} _ (λ _ _. tt)) λ chat_report _.
                  bind-Guarantees (report-Inv x _ chat_report _) λ chat _.
                    bind-Guarantees (gets-Guarantees {Q = Any} _ (λ _ _. tt)) λ opp_report _.
                      bind-Guarantees (report-Inv x _ opp_report _) λ opp _.
                        bind-Guarantees
                          (replace-Inv log _ (core-IsSound d _ (refl, refl, refl, refl) h))
                          λ e h'.
                            bind-Guarantees (append-Inv log _ _ _ _) λ _ _. pure-Guarantees _ h'

  finalize-Inv :
      (x : Deps) (d : AgreementDocument) → IsSound d → Guarantees (Inv log) IsSound (finalize x d)
  unfolding finalize
  finalize-Inv x d h =
      match_some-Guarantees _ (λ f _. finalize_from-Inv x d f h)
        (λ _. match_some-Guarantees _ (λ f _. finalize_from-Inv x d f h) (λ _. pure-Guarantees _ h))

  sign_as-keeps :
      (x : Deps) (payload : SignRequest) (user : UserDocument)
      (profile : Option UserProfileDocument) (ip agent : Option Text) (d : AgreementDocument)
      (p : AgreementParticipant)
      → IsOpenReady d
      → Guarantees (Inv log) IsSound (sign_as x payload user profile ip agent d p)
  unfolding sign_as filled notify_signed notify_completed
  sign_as-keeps x payload user profile ip agent d p h =
      bind-Guarantees (gets-Guarantees {Q = Any} _ (λ _ _. tt)) λ now _.
        bind-Guarantees (artifacts-Inv x user.id _) λ arts _.
          bind-Guarantees (or_raise-Guarantees {Q = Any} _ _ (λ _ _. tt)) λ original _.
            bind-Guarantees (or_raise-Guarantees {Q = Any} _ _ (λ _ _. tt)) λ body _.
              bind-Guarantees (upload-Inv log x _ _ _) λ file _.
                bind-Guarantees (replace-Inv log _ (settle-IsSound _ (ready now arts file _)))
                  λ d5 h5. bind-Guarantees (append_full-Inv log _) λ _ _.
                    bind-Guarantees (when-Guarantees _ (notify_ids-Inv log _ _ _)) λ _ _.
                      bind-Guarantees
                        (branch-Guarantees {Q = IsSound} _
                          (λ _. bind-Guarantees (finalize-Inv x d5 h5) λ final hf.
                            bind-Guarantees (when-Guarantees _ (notify_ids-Inv log _ _ _))
                              λ _ _. pure-Guarantees _ hf)
                          (λ _. pure-Guarantees _ h5))
                        λ d6 h6. bind-Guarantees (find-Inv log d.id) λ refreshed again.
                          pure-Guarantees _ (or_else-IsSound refreshed d6 again h6)
    where
      ready :
          (now : ℕ) (arts : Option VisualArtifact × Option VisualArtifact) (file : AgreementFile)
          (hash : Text)
          → IsOpenReady (
              set_participant user.id user.email
                (complete user.id now ip agent hash profile)
                (record (filled x payload now p d) {
                  fields =
                      mark_fields x p.id is_initials arts.1
                        (mark_fields x p.id is_signature arts.0 (filled x payload now p d).fields);
                  signed_file = some file;
                }))
      ready now arts file hash = set_participant-IsOpenReady user.id user.email _ _ (record {
        has_file = h.has_file;
        has_parties = h.has_parties;
        has_fields =
            is_empty-mark_fields x p.id is_initials arts.1 _
            ∙ is_empty-mark_fields x p.id is_signature arts.0 _
            ∙ is_empty-map _ d.fields
            ∙ h.has_fields;
      })

  pub sign-keeps :
      (x : Deps) (id : ℕ) (payload : SignRequest) (uid : Text) (ip agent : Option Text)
      → Guarantees (Inv log) IsSound (sign x id payload uid ip agent)
  unfolding sign
  sign-keeps x id payload uid ip agent = bind-Guarantees (resolve-Inv log uid) λ user _.
      bind-Guarantees (gets-Guarantees {Q = Any} _ (λ _ _. tt)) λ profile _.
        bind-Guarantees (raise_if-Guarantees _ _) λ _ _.
          bind-Guarantees (accessible-Inv log id _ _ _) λ doc h.
            bind-Guarantees (signer-Inv user.id user.email doc) λ p e.
              bind-Guarantees (company_check-Inv x p) λ _ _.
                sign_as-keeps x payload user profile ip agent doc p (open-IsOpenReady doc h e)

  pub reject-keeps :
      (x : Deps) (id : ℕ) (reason uid : Text) (ip agent : Option Text)
      → Guarantees (Inv log) IsSound (reject x id reason uid ip agent)
  unfolding reject notify_rejected
  reject-keeps x id reason uid ip agent = bind-Guarantees (resolve-Inv log uid) λ user _.
      bind-Guarantees (accessible-Inv log id _ _ _) λ doc h.
        bind-Guarantees (raise_if-Guarantees _ _) λ _ _.
          bind-Guarantees (or_raise-Guarantees {Q = Any} _ _ (λ _ _. tt)) λ p _.
            bind-Guarantees (gets-Guarantees {Q = Any} _ (λ _ _. tt)) λ now _.
              bind-Guarantees (replace-Inv log _ (rejected-IsSound _ refl)) λ d2 h2.
                bind-Guarantees (append_full-Inv log _) λ _ _.
                  bind-Guarantees (when-Guarantees _ (notify_ids-Inv log _ _ _))
                    λ _ _. pure-Guarantees _ h2
