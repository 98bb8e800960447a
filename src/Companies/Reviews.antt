-- ===== src/Companies/Reviews.antt =====
-- What a review of a compliance document requires and leaves behind
-- (src/modules/companies/compliance_review.py).
use econmesh_api.Prelude.{
  ℕ, ◌≡◌, refl, sym, ap, ◌∙◌, true, false, not, Option, some, List, [], ◌∷◌, ◌==◌, Bool-cases, inl,
  inr, not-false,
}
use mathlib.Core.Option
use mathlib.Core.Option.{some-injective}
use mathlib.Core.Path.{subst}
use econmesh_api.Text.{Text, nonempty}
use econmesh_api.Service.{
  Action, ok, err, modify, ◌>>=◌, >>=-eq-ok, >>=-of-err, raise_if-eq-ok, or_raise-eq-ok, pure-eq-ok,
  gets-eq-ok, validation, raise_if-Guarantees, or_raise-Guarantees, Guarantees, Any, Holds,
  bind-Guarantees, pure-Guarantees, gets-Guarantees, modify-Guarantees, when-Guarantees,
  branch-Guarantees, match_some-Guarantees,
}
use econmesh_api.Accounts.{
  CompanyDocument, CompanyComplianceFile, ComplianceDocumentStatus, company_by_id,
}
use econmesh_api.Companies.Compliance.{
  DocumentField, document_field, file_of, set_file, is_pending, ReviewWorld, Collaborators, publish,
  update_ticket, update_file, with_file, notify_owner, maybe_close_ticket, with_review, review,
  reviewable, store_review,
}

-- the document is replaced, and the rest of the company stays
set_file-id :
    (k : DocumentField) (f : CompanyComplianceFile) (c : CompanyDocument)
    → (set_file k f c).id ≡ c.id
set_file-id DocumentField.operating_license f c = refl
set_file-id DocumentField.mtr_document f c = refl
set_file-id DocumentField.signature_authorization f c = refl

set_file-is_active :
    (k : DocumentField) (f : CompanyComplianceFile) (c : CompanyDocument)
    → (set_file k f c).is_active ≡ c.is_active
set_file-is_active DocumentField.operating_license f c = refl
set_file-is_active DocumentField.mtr_document f c = refl
set_file-is_active DocumentField.signature_authorization f c = refl

file_of-with_file :
    (now : ℕ) (k : DocumentField) (f : CompanyComplianceFile) (c : CompanyDocument)
    → file_of k (with_file now k f c) ≡ some f
file_of-with_file now DocumentField.operating_license f c = refl
file_of-with_file now DocumentField.mtr_document f c = refl
file_of-with_file now DocumentField.signature_authorization f c = refl

-- the company as it is found after the update
company_by_id-update_file :
    (now id : ℕ) (k : DocumentField) (f : CompanyComplianceFile) (cs : List CompanyDocument)
    → company_by_id id (update_file now id k f cs)
      ≡ Option.map (with_file now k f) (company_by_id id cs)
company_by_id-update_file now id k f [] = refl
company_by_id-update_file now id k f (c ∷ cs) = elim (Bool-cases (c.id == id)) [
  | inl e ↦ rw e (rw (ap (λ n. n == id) (set_file-id k f c) ∙ e) refl)
  | inr e ↦ rw e (rw e (company_by_id-update_file now id k f cs))
]

module _ (cs : List CompanyDocument) where
  abbrev Same : ReviewWorld → Type 0
  Same w = w.companies ≡ cs

  owner-Same :
      (x : Collaborators) (c : CompanyDocument) (k : DocumentField) (s : ComplianceDocumentStatus)
      → Guarantees Same (Any {A = Unit {0}}) (notify_owner x c k s)
  unfolding notify_owner
  owner-Same x c k s = bind-Guarantees (gets-Guarantees {Q = Any} _ (λ _ _. tt)) λ found _.
      match_some-Guarantees found
        (λ owner _. bind-Guarantees (modify-Guarantees _ (λ w v. v)) λ _ _.
          bind-Guarantees (raise_if-Guarantees _ _) λ _ _.
            bind-Guarantees (or_raise-Guarantees {Q = Any} _ _ (λ _ _. tt))
              λ online _. when-Guarantees _ (modify-Guarantees _ (λ w v. v)))
        (λ _. pure-Guarantees _ tt)

  ticket-Same :
      (x : Collaborators) (c : CompanyDocument)
      → Guarantees Same (Any {A = Unit {0}}) (maybe_close_ticket x c)
  unfolding maybe_close_ticket update_ticket publish
  ticket-Same x c = bind-Guarantees (gets-Guarantees {Q = Any} _ (λ _ _. tt)) λ found _.
      bind-Guarantees (gets-Guarantees {Q = Any} _ (λ _ _. tt)) λ now _.
        branch-Guarantees _ (λ _. pure-Guarantees _ tt)
          (λ _.
            match_some-Guarantees found
              (λ t _. bind-Guarantees (modify-Guarantees _ (λ w v. v)) λ _ _.
                when-Guarantees _
                  (bind-Guarantees (raise_if-Guarantees _ _) λ _ _. modify-Guarantees _ (λ w v. v)))
              (λ _. pure-Guarantees _ tt))

-- the companies after a part that leaves them
kept :
    {m : Action ReviewWorld (Unit {0})} (w u : ReviewWorld) {a : Unit {0}}
    → Guarantees (λ v. v.companies ≡ w.companies) Any m
    → m w ≡ (ok a, u)
    → u.companies ≡ w.companies
kept {m} w u {a} g h = (subst (Holds (λ v. v.companies ≡ w.companies) Any) h (g.run w refl)).0

-- what the guards let through
abbrev Reviewable :
    ℕ → Text → ReviewWorld → DocumentField × CompanyDocument × CompanyComplianceFile → Type 0
Reviewable id kind w (field, company, current) =
    (document_field kind ≡ some field)
    × (company_by_id id w.companies ≡ some company)
    × (company.is_active ≡ true)
    × (file_of field company ≡ some current)
    × (nonempty current.storage_key ≡ true)
    × (is_pending current.status ≡ true)

reviewable-eq-ok :
    (id : ℕ) (kind : Text) (w v : ReviewWorld)
    (z : DocumentField × CompanyDocument × CompanyComplianceFile)
    → reviewable id kind w ≡ (ok z, v)
    → (v ≡ w) × Reviewable id kind w z
unfolding reviewable
reviewable-eq-ok id kind w v z h =
    let (field, w1, r1, h1) = >>=-eq-ok _ _ w h in
    let (is_field, s1) = or_raise-eq-ok (document_field kind) _ w r1 in
    let (found, w2, r2, h2) = >>=-eq-ok _ _ w1 h1 in
    let (got, s2) = gets-eq-ok (λ s. company_by_id id s.companies) w1 r2 in
    let (company, w3, r3, h3) = >>=-eq-ok _ _ w2 h2 in
    let (is_company, s3) = or_raise-eq-ok found _ w2 r3 in
    let (_, w4, r4, h4) = >>=-eq-ok _ _ w3 h3 in
    let (active, s4) = raise_if-eq-ok (not company.is_active) _ w3 r4 in
    let (current, w5, r5, h5) = >>=-eq-ok _ _ w4 h4 in
    let (is_current, s5) = or_raise-eq-ok (file_of field company) _ w4 r5 in
    let (_, w6, r6, h6) = >>=-eq-ok _ _ w5 h5 in
    let (uploaded, s6) = raise_if-eq-ok (not (nonempty current.storage_key)) _ w5 r6 in
    let (_, w7, r7, h7) = >>=-eq-ok _ _ w6 h6 in
    let (waited, s7) = raise_if-eq-ok (not (is_pending current.status)) _ w6 r7 in
    let (same, s8) = pure-eq-ok (field, company, current) w7 h7 in
    (
      s8 ∙ s7 ∙ s6 ∙ s5 ∙ s4 ∙ s3 ∙ s2 ∙ s1,
      subst (Reviewable id kind w) same (
        is_field,
        ap (λ s. company_by_id id s.companies) (sym s1) ∙ got ∙ is_company,
        not-false active,
        is_current,
        not-false uploaded,
        not-false waited,
      ),
    )

modified :
    (f : ReviewWorld → ReviewWorld) (w u : ReviewWorld) {a : Unit {0}}
    → modify f w ≡ (ok a, u)
    → u ≡ f w
unfolding modify
modified f w u h = ap (λ r. r.1) (sym h)

-- what the rest answers and leaves
store_review-eq-ok :
    (x : Collaborators) (id : ℕ) (field : DocumentField) (f : CompanyComplianceFile)
    (status : ComplianceDocumentStatus) (w u : ReviewWorld) (answer : CompanyDocument)
    → store_review x id field f status w ≡ (ok answer, u)
    → (company_by_id id (update_file w.now id field f w.companies) ≡ some answer)
      × (u.companies ≡ update_file w.now id field f w.companies)
unfolding store_review
store_review-eq-ok x id field f status w u answer h =
    let w1 : ReviewWorld = record w { companies = update_file w.now id field f w.companies } in
    let (_, w2, r2, h2) = >>=-eq-ok _ _ w h in
    let s2 =
      modified (λ v. record v { companies = update_file v.now id field f v.companies }) w w2 r2 in
    let (found, w3, r3, h3) = >>=-eq-ok _ _ w2 h2 in
    let (got, s3) = gets-eq-ok (λ s. company_by_id id s.companies) w2 r3 in
    let (c, w4, r4, h4) = >>=-eq-ok _ _ w3 h3 in
    let (is_found, s4) = or_raise-eq-ok found _ w3 r4 in
    let (_, w5, r5, h5) = >>=-eq-ok _ _ w4 h4 in
    let k5 = kept w4 w5 (owner-Same w4.companies x c field status) r5 in
    let (_, w6, r6, h6) = >>=-eq-ok _ _ w5 h5 in
    let k6 = kept w5 w6 (ticket-Same w5.companies x c) r6 in
    let (same, s7) = pure-eq-ok c w6 h6 in
    let from_start = ap (λ s. s.companies) (s4 ∙ s3 ∙ s2) in
    (
      ap (λ s. company_by_id id s.companies) (sym s2) ∙ got ∙ is_found ∙ ap some same,
      ap (λ s. s.companies) s7 ∙ k6 ∙ k5 ∙ from_start,
    )

-- One pending document of a stored, active company was reviewed; the answer and the stored company
-- have its outcome and the time of the update, and nothing else about any company changed.
pub record IsReviewed (id : ℕ) (kind : Text) (reviewer_id : ℕ) (status : ComplianceDocumentStatus)
    (reason : Option Text) (w u : ReviewWorld) (answer : CompanyDocument) : Type 0 where
  pub field : DocumentField
  pub is_field : document_field kind ≡ some field
  pub company : CompanyDocument
  pub is_stored : company_by_id id w.companies ≡ some company
  pub active : company.is_active ≡ true
  pub current : CompanyComplianceFile
  pub is_current : file_of field company ≡ some current
  pub uploaded : nonempty current.storage_key ≡ true
  pub waited : is_pending current.status ≡ true
  pub outcome :
      answer ≡ with_file w.now field (with_review reviewer_id w.now status reason current) company
  pub stored :
      u.companies
      ≡ update_file w.now id field (with_review reviewer_id w.now status reason current) w.companies

-- When a review succeeds, the document was pending and belongs to a stored and active company, and the
-- answer is this company with the outcome of the review in this document and the time of the update,
-- and this is all that changed in the stored companies.
pub review-IsReviewed :
    (x : Collaborators) (id : ℕ) (kind : Text) (reviewer_id : ℕ) (status : ComplianceDocumentStatus)
    (reason : Option Text) (w u : ReviewWorld) (answer : CompanyDocument)
    → review x id kind reviewer_id status reason w ≡ (ok answer, u)
    → IsReviewed id kind reviewer_id status reason w u answer
unfolding review
review-IsReviewed x id kind reviewer_id status reason w u answer h =
    let ((field, company, current), w1, r1, h1) = >>=-eq-ok (reviewable id kind) _ w h in
    let (s1, (is_field, is_company, active, is_current, uploaded, waited)) =
      reviewable-eq-ok id kind w w1 (field, company, current) r1 in
    let (now, w2, r2, h2) = >>=-eq-ok _ _ w1 h1 in
    let (is_now, s2) = gets-eq-ok (λ s. s.now) w1 r2 in
    let f = with_review reviewer_id now status reason current in
    let (found, left) = store_review-eq-ok x id field f status w2 u answer h2 in
    let same_world = s2 ∙ s1 in
    let same_now : now ≡ w.now = sym is_now ∙ ap (λ s. s.now) s1 in
    record {
      field = field;
      is_field = is_field;
      company = company;
      is_stored = is_company;
      active = active;
      current = current;
      is_current = is_current;
      uploaded = uploaded;
      waited = waited;
      outcome =
          some-injective _ _ (
            sym found
            ∙ company_by_id-update_file w2.now id field f w2.companies
            ∙ ap (λ s. Option.map (with_file s.now field f) (company_by_id id s.companies))
                same_world
            ∙ ap (Option.map (with_file w.now field f)) is_company)
          ∙ ap
              (λ n. with_file w.now field (with_review reviewer_id n status reason current) company)
              same_now;
      stored =
          left
          ∙ ap (λ s. update_file s.now id field f s.companies) same_world
          ∙ ap
              (λ n.
                update_file w.now id field (with_review reviewer_id n status reason current)
                  w.companies)
              same_now;
    }

-- the guard against a second review
refused :
    (id : ℕ) (kind : Text) (u : ReviewWorld) (field : DocumentField) (c : CompanyDocument)
    (f : CompanyComplianceFile)
    → document_field kind ≡ some field
    → company_by_id id u.companies ≡ some c
    → c.is_active ≡ true
    → file_of field c ≡ some f
    → nonempty f.storage_key ≡ true
    → is_pending f.status ≡ false
    → reviewable id kind u ≡ (err (validation "This document has already been reviewed."), u)
unfolding reviewable ◌>>=◌
refused id kind u field c f a b d e g h = simp (a, b, d, e, g, h)

-- A document is reviewed once: after a review that approved or rejected it, any further review of this
-- document is refused, and changes nothing.
pub review-refused :
    (x : Collaborators) (id : ℕ) (kind : Text) (reviewer_id again : ℕ)
    (status later : ComplianceDocumentStatus) (reason why : Option Text) (w u : ReviewWorld)
    (answer : CompanyDocument)
    → is_pending status ≡ false
    → review x id kind reviewer_id status reason w ≡ (ok answer, u)
    → review x id kind again later why u
      ≡ (err (validation "This document has already been reviewed."), u)
unfolding review
review-refused x id kind reviewer_id again status later reason why w u answer settled h =
    let r = review-IsReviewed x id kind reviewer_id status reason w u answer h in
    let f = with_review reviewer_id w.now status reason r.current in
    >>=-of-err (reviewable id kind) _ u (
      refused id kind u r.field (with_file w.now r.field f r.company) f r.is_field
        (ap (company_by_id id) r.stored
          ∙ company_by_id-update_file w.now id r.field f w.companies
          ∙ ap (Option.map (with_file w.now r.field f)) r.is_stored)
        (set_file-is_active r.field f r.company ∙ r.active)
        (file_of-with_file w.now r.field f r.company) r.uploaded settled)
