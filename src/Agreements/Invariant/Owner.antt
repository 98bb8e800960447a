-- ===== src/Agreements/Invariant/Owner.antt =====
-- The owner's operations keep the invariant, and what they answer is sound.
use econmesh_api.Prelude.{
  ℕ, ◌≡◌, refl, true, false, not, List, [], ◌∷◌, String, arith, is_some, is_empty, not-false,
}
use econmesh_api.Text.{Text}
use econmesh_api.Service.{
  ◌>>=◌, Guarantees, Any, bind-Guarantees, pure-Guarantees, gets-Guarantees, or_raise-Guarantees,
  raise_if-Guarantees, when-Guarantees,
}
use econmesh_api.Accounts.{UserDocument}
use econmesh_api.Agreements.Model.{
  AgreementStatus, AgreementDocument, AgreementEventDocument, AgreementFile, is_editable,
}
use econmesh_api.Agreements.World.{Deps}
use econmesh_api.Agreements.Access.{ensure_creator_eligible}
use econmesh_api.Agreements.Notices.{notify_user_ids, notify_by_emails, notify_sent}
use econmesh_api.Agreements.Drafting.{
  AgreementCreate, create, load_owned, AgreementUpdate, set_title, set_description, set_deadline,
  set_signing_mode, apply_update, update, cancel, send, UploadFile, upload_file, set_original,
  upload_pdf,
}
use econmesh_api.Agreements.Invariant.Base.{
  Inv, IsSound, same-Inv, replace-Inv, create-Inv, append-Inv, append_full-Inv, resolve-Inv,
  fresh-Inv, code-Inv, settings-Inv, accessible-Inv,
}

apply_update-IsSound :
    (us : List AgreementUpdate) (d : AgreementDocument) → IsSound d → IsSound (apply_update us d)
unfolding apply_update
apply_update-IsSound [] d h = h
apply_update-IsSound (set_title t ∷ us) d h = apply_update-IsSound us _ (ground arith)
apply_update-IsSound (set_description t ∷ us) d h = apply_update-IsSound us _ (ground arith)
apply_update-IsSound (set_deadline t ∷ us) d h = apply_update-IsSound us _ (ground arith)
apply_update-IsSound (set_signing_mode t ∷ us) d h = apply_update-IsSound us _ (ground arith)

set_original-IsSound :
    (file : AgreementFile) (d : AgreementDocument)
    → is_editable d.status ≡ true
    → IsSound d
    → IsSound (set_original file d)
unfolding set_original
set_original-IsSound file d e h = ground arith

sent-IsSound :
    (d : AgreementDocument)
    → not (is_some d.original_file) ≡ false
    → is_empty d.participants ≡ false
    → is_empty d.fields ≡ false
    → IsSound (record d { status = AgreementStatus.awaiting_signatures })
sent-IsSound d f p q = ground arith

cancelled-IsSound :
    (d : AgreementDocument) → IsSound (record d { status = AgreementStatus.cancelled })
cancelled-IsSound d = ground arith

module _ (log : List AgreementEventDocument) where
  pub notify_ids-Inv :
      (ids : List ℕ) (id : ℕ) (event : String)
      → Guarantees (Inv log) (Any {A = Unit {0}}) (notify_user_ids ids id event)
  unfolding notify_user_ids ◌>>=◌
  notify_ids-Inv ids id event = record { run = λ w v. (same-Inv log w _ refl refl v, tt) }

  pub notify_emails-Inv :
      (emails : List Text) (id : ℕ) (event : String)
      → Guarantees (Inv log) (Any {A = Unit {0}}) (notify_by_emails emails id event)
  unfolding notify_by_emails ◌>>=◌
  notify_emails-Inv emails id event = record { run = λ w v. (same-Inv log w _ refl refl v, tt) }

  eligible-Inv :
      (x : Deps) (user : UserDocument) (company_id : ℕ)
      → Guarantees (Inv log) (Any {A = Text}) (ensure_creator_eligible x user company_id)
  unfolding ensure_creator_eligible
  eligible-Inv x user company_id =
      bind-Guarantees (gets-Guarantees {Q = Any} _ (λ _ _. tt)) λ profile _.
        bind-Guarantees (gets-Guarantees {Q = Any} _ (λ _ _. tt)) λ found _.
          bind-Guarantees (or_raise-Guarantees {Q = Any} found _ (λ _ _. tt)) λ company _.
            bind-Guarantees (raise_if-Guarantees _ _) λ _ _.
              bind-Guarantees (raise_if-Guarantees _ _) λ _ _.
                bind-Guarantees (settings-Inv log x)
                  λ auth _. bind-Guarantees (raise_if-Guarantees _ _) λ _ _. pure-Guarantees _ tt

  pub upload-Inv :
      (x : Deps) (body : Text) (owner : ℕ) (filename : Text)
      → Guarantees (Inv log) (Any {A = AgreementFile}) (upload_file x body owner filename)
  unfolding upload_file
  upload-Inv x body owner filename = bind-Guarantees (fresh-Inv log) λ id _.
      bind-Guarantees (or_raise-Guarantees {Q = Any} _ _ (λ _ _. tt)) λ url _. pure-Guarantees _ tt

  pub create-keeps :
      (x : Deps) (payload : AgreementCreate) (uid : Text)
      → Guarantees (Inv log) IsSound (create x payload uid)
  unfolding create
  create-keeps x payload uid = bind-Guarantees (resolve-Inv log uid) λ user _.
      bind-Guarantees (eligible-Inv x user _) λ name _. bind-Guarantees (code-Inv log x) λ code _.
        bind-Guarantees (fresh-Inv log) λ id _.
          bind-Guarantees (gets-Guarantees {Q = Any} _ (λ _ _. tt)) λ now _.
            bind-Guarantees (create-Inv log _ (ground arith)) λ _ _.
              bind-Guarantees (append-Inv log _ _ _ _) λ _ _. pure-Guarantees _ (ground arith)

  pub owned-keeps :
      (uid : Text) (id : ℕ) (refusal : String)
      → Guarantees
          (Inv log)
          (λ (r : UserDocument × AgreementDocument). IsSound r.1)
          (load_owned uid id refusal)
  unfolding load_owned
  owned-keeps uid id refusal = bind-Guarantees (resolve-Inv log uid) λ user _.
      bind-Guarantees (accessible-Inv log id _ _ _)
        λ doc h. bind-Guarantees (raise_if-Guarantees _ _) λ _ _. pure-Guarantees _ h

  pub update-keeps :
      (id : ℕ) (payload : List AgreementUpdate) (uid : Text)
      → Guarantees (Inv log) IsSound (update id payload uid)
  unfolding update
  update-keeps id payload uid = bind-Guarantees (owned-keeps uid id _) λ r h.
      bind-Guarantees (raise_if-Guarantees _ _) λ _ e.
        bind-Guarantees (replace-Inv log _ (apply_update-IsSound payload r.1 h))
          λ doc' h'. bind-Guarantees (append-Inv log _ _ _ _) λ _ _. pure-Guarantees _ h'

  pub cancel-keeps : (id : ℕ) (uid : Text) → Guarantees (Inv log) IsSound (cancel id uid)
  unfolding cancel
  cancel-keeps id uid = bind-Guarantees (owned-keeps uid id _) λ r h.
      bind-Guarantees (raise_if-Guarantees _ _) λ _ e.
        bind-Guarantees (replace-Inv log _ (cancelled-IsSound r.1))
          λ doc' h'. bind-Guarantees (append-Inv log _ _ _ _) λ _ _. pure-Guarantees _ h'

  pub send-keeps : (x : Deps) (id : ℕ) (uid : Text) → Guarantees (Inv log) IsSound (send x id uid)
  unfolding send notify_sent
  send-keeps x id uid = bind-Guarantees (resolve-Inv log uid) λ user _.
      bind-Guarantees (accessible-Inv log id _ _ _) λ seen _.
        bind-Guarantees (eligible-Inv x user _) λ name _.
          bind-Guarantees (accessible-Inv log id _ _ _) λ doc h.
            bind-Guarantees (raise_if-Guarantees _ _) λ _ _.
              bind-Guarantees (raise_if-Guarantees _ _) λ _ f.
                bind-Guarantees (raise_if-Guarantees _ _) λ _ p.
                  bind-Guarantees (raise_if-Guarantees _ _) λ _ q.
                    bind-Guarantees (replace-Inv log _ (sent-IsSound doc f p q)) λ doc' h'.
                      bind-Guarantees (append_full-Inv log _) λ _ _.
                        bind-Guarantees (when-Guarantees _ (notify_emails-Inv _ _ _))
                          λ _ _. pure-Guarantees _ h'

  pub upload_pdf-keeps :
      (x : Deps) (id : ℕ) (file : UploadFile) (uid : Text)
      → Guarantees (Inv log) IsSound (upload_pdf x id file uid)
  unfolding upload_pdf
  upload_pdf-keeps x id file uid = bind-Guarantees (owned-keeps uid id _) λ r h.
      bind-Guarantees (raise_if-Guarantees _ _) λ _ e.
        bind-Guarantees (raise_if-Guarantees _ _) λ _ _.
          bind-Guarantees (raise_if-Guarantees _ _) λ _ _.
            bind-Guarantees (upload-Inv x _ _ _)
              λ uploaded _. replace-Inv log _ (set_original-IsSound uploaded r.1 (not-false e) h)
