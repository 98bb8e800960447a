-- ===== src/Agreements/Invariant/Sweep.antt =====
-- The answers of the service and the sweep of overdue agreements keep the invariant.
use econmesh_api.Prelude.{
  ℕ, ◌≡◌, refl, ◌∙◌, ap, Bool, Option, List, [], ◌∷◌, String, is_empty, Bool-cases, inl, inr, allb,
  ◌&&◌,
}
use econmesh_api.Text.{Text}
use econmesh_api.Service.{
  Guarantees, Any, bind-Guarantees, pure-Guarantees, gets-Guarantees, or_raise-Guarantees,
  raise_if-Guarantees, branch-Guarantees, match_some-Guarantees,
}
use econmesh_api.Accounts.{Role}
use econmesh_api.Agreements.Model.{
  AgreementDocument, AgreementEventDocument, AgreementParticipant, is_completed,
}
use econmesh_api.Agreements.World.{Deps}
use econmesh_api.Agreements.Queries.{
  is_unlinked_match, link_participants, get, timeline, progress, ProgressResponse, download_url,
  download_file_bytes, check_eligibility, expire_all, expire_due,
}
use econmesh_api.Agreements.Invariant.Base.{
  Inv, IsSound, replace-Inv, append-Inv, append_full-Inv, resolve-Inv, settings-Inv, accessible-Inv,
  expired-IsSound,
}

allb-link_participants :
    (id : ℕ) (email : Option Text) (ps : List AgreementParticipant)
    → allb (λ p. is_completed p.status) (link_participants id email ps)
      ≡ allb (λ p. is_completed p.status) ps
unfolding link_participants
allb-link_participants id email [] = refl
allb-link_participants id email (p ∷ ps) = elim (Bool-cases (is_unlinked_match email p)) [
  | inl e ↦ rw e (ap (λ b. is_completed p.status && b) (allb-link_participants id email ps))
  | inr e ↦ rw e (ap (λ b. is_completed p.status && b) (allb-link_participants id email ps))
]

is_empty-link_participants :
    (id : ℕ) (email : Option Text) (ps : List AgreementParticipant)
    → is_empty (link_participants id email ps) ≡ is_empty ps
unfolding link_participants
is_empty-link_participants id email [] = refl
is_empty-link_participants id email (p ∷ ps) = refl

linked-IsSound :
    (id : ℕ) (email : Option Text) (d : AgreementDocument)
    → IsSound d
    → IsSound (record d { participants = link_participants id email d.participants })
linked-IsSound id email d h = record {
  signed_completed = λ s. allb-link_participants id email d.participants ∙ h.signed_completed s;
  prepared_file = h.prepared_file;
  prepared_parties = λ s. is_empty-link_participants id email d.participants ∙ h.prepared_parties s;
  sent_fields = h.sent_fields;
}

module _ (log : List AgreementEventDocument) where
  pub get-keeps :
      (id : ℕ) (uid : Text) (role : Role) → Guarantees (Inv log) IsSound (get id uid role)
  unfolding get
  get-keeps id uid role = bind-Guarantees (resolve-Inv log uid) λ user _.
      bind-Guarantees (accessible-Inv log id _ _ _) λ doc h.
        branch-Guarantees _ (λ _. replace-Inv log _ (linked-IsSound user.id user.email doc h))
          (λ _. pure-Guarantees _ h)

  pub timeline-keeps :
      (id : ℕ) (uid : Text) (role : Role)
      → Guarantees (Inv log) (Any {A = List AgreementEventDocument}) (timeline id uid role)
  unfolding timeline
  timeline-keeps id uid role =
      bind-Guarantees (resolve-Inv log uid) λ user _.
        bind-Guarantees (accessible-Inv log id _ _ _) λ doc h. gets-Guarantees _ (λ _ _. tt)

  pub progress-keeps :
      (id : ℕ) (uid : Text) (role : Role)
      → Guarantees (Inv log) (Any {A = ProgressResponse}) (progress id uid role)
  unfolding progress
  progress-keeps id uid role =
      bind-Guarantees (resolve-Inv log uid)
        λ user _. bind-Guarantees (accessible-Inv log id _ _ _) λ doc h. pure-Guarantees _ tt

  pub download_url-keeps :
      (id : ℕ) (artifact uid : Text) (role : Role) (ip agent : Option Text)
      → Guarantees (Inv log) (Any {A = Text}) (download_url id artifact uid role ip agent)
  unfolding download_url
  download_url-keeps id artifact uid role ip agent = bind-Guarantees (resolve-Inv log uid) λ user _.
      bind-Guarantees (accessible-Inv log id _ _ _) λ doc h.
        bind-Guarantees (or_raise-Guarantees {Q = Any} _ _ (λ _ _. tt))
          λ file _. bind-Guarantees (append_full-Inv log _) λ _ _. pure-Guarantees _ tt

  pub download_file_bytes-keeps :
      (x : Deps) (id : ℕ) (artifact uid : Text) (role : Role)
      → Guarantees (Inv log) (Any {A = Text × Text}) (download_file_bytes x id artifact uid role)
  unfolding download_file_bytes
  download_file_bytes-keeps x id artifact uid role = bind-Guarantees (resolve-Inv log uid) λ user _.
      bind-Guarantees (accessible-Inv log id _ _ _) λ doc h.
        bind-Guarantees (or_raise-Guarantees {Q = Any} _ _ (λ _ _. tt)) λ file _.
          bind-Guarantees (or_raise-Guarantees {Q = Any} _ _ (λ _ _. tt))
            λ body _. pure-Guarantees _ tt

  pub check_eligibility-keeps :
      (x : Deps) (uid : Text) (company_id : Option ℕ)
      → Guarantees (Inv log) (Any {A = Bool × List String}) (check_eligibility x uid company_id)
  unfolding check_eligibility
  check_eligibility-keeps x uid company_id = bind-Guarantees (resolve-Inv log uid) λ user _.
      bind-Guarantees (gets-Guarantees {Q = Any} _ (λ _ _. tt)) λ profile _.
        bind-Guarantees
          (match_some-Guarantees {Q = Any} company_id
            (λ id _. bind-Guarantees (gets-Guarantees {Q = Any} _ (λ _ _. tt)) λ found _.
              bind-Guarantees (or_raise-Guarantees {Q = Any} found _ (λ _ _. tt)) λ company _.
                bind-Guarantees (raise_if-Guarantees _ _)
                  λ _ _. bind-Guarantees (settings-Inv log x) λ auth _. pure-Guarantees _ tt)
            (λ _. pure-Guarantees _ tt))
          λ missing _. pure-Guarantees _ tt

  expire_all-keeps :
      (docs : List AgreementDocument) → Guarantees (Inv log) (Any {A = ℕ}) (expire_all docs)
  unfolding expire_all
  expire_all-keeps [] = pure-Guarantees _ tt
  expire_all-keeps (doc ∷ docs) = bind-Guarantees (replace-Inv log _ (expired-IsSound doc)) λ _ _.
      bind-Guarantees (append-Inv log _ _ _ _)
        λ _ _. bind-Guarantees (expire_all-keeps docs) λ count _. pure-Guarantees _ tt

  pub expire_due-keeps : Guarantees (Inv log) (Any {A = ℕ}) expire_due
  unfolding expire_due
  expire_due-keeps =
      bind-Guarantees (gets-Guarantees {Q = Any} _ (λ _ _. tt)) λ docs _. expire_all-keeps docs
