-- ===== src/Companies/Samples.antt =====
-- The review of a licence that waits for it.
use econmesh_api.Prelude.{◌≡◌, refl, true, false, none, some, [], ◌∷◌}
use econmesh_api.Text.{codes}
use econmesh_api.Service.{Result, ok, err, validation, ◌>>=◌}
use econmesh_api.Accounts.{CompanyDocument, CompanyComplianceFile, ComplianceDocumentStatus}
use econmesh_api.Companies.Compliance.{
  document_field, ReviewWorld, Collaborators, find_open_document_review, notify_owner,
  maybe_close_ticket, update_ticket, reviewable, store_review, review,
}
use econmesh_api.Companies.Reviews.{IsReviewed, review-IsReviewed, review-refused}

abbrev licence : CompanyComplianceFile
licence = record {
  storage_key = codes "k";
  public_url = codes "u";
  filename = codes "f";
  content_type = codes "application/pdf";
  status = ComplianceDocumentStatus.pending;
  rejection_reason = none;
  reviewed_at = none;
  reviewed_by = none;
}

abbrev smelter : CompanyDocument
smelter = record {
  id = 4;
  owner_user_id = 1;
  legal_name = codes "Fundir SA";
  trade_name = none;
  tax_id = codes "2";
  email = none;
  phone = none;
  legal_representative = none;
  address = none;
  operating_license = some licence;
  mtr_document = none;
  signature_authorization = none;
  is_active = true;
  created_at = 0;
  updated_at = 0;
}

abbrev queue : ReviewWorld
queue = record {
  companies = smelter ∷ [];
  users = [];
  tickets = [];
  messages = [];
  notices = [];
  fresh = 1;
  now = 10;
}

abbrev quiet : Collaborators
quiet = record { has_support_realtime = false; takes = λ n. true; is_online = λ n. some false }

abbrev outcome : Result CompanyDocument × ReviewWorld
outcome = review quiet 4 (codes "operating_license") 7 ComplianceDocumentStatus.approved none queue

abbrev company_or : CompanyDocument → Result CompanyDocument → CompanyDocument
company_or d (ok c) = c
company_or d (err e) = d

outcome_returns : outcome ≡ (ok (company_or smelter outcome.0), outcome.1)
unfolding review reviewable store_review document_field notify_owner maybe_close_ticket
    find_open_document_review update_ticket ◌>>=◌
outcome_returns = refl

review-IsReviewed_example :
    IsReviewed 4
      (codes "operating_license")
      7
      ComplianceDocumentStatus.approved
      none
      queue
      outcome.1
      (company_or smelter outcome.0)
review-IsReviewed_example =
    review-IsReviewed quiet 4 (codes "operating_license") 7 ComplianceDocumentStatus.approved none
      queue outcome.1 (company_or smelter outcome.0) outcome_returns

review-refused_example :
    review quiet 4
      (codes "operating_license")
      8
      ComplianceDocumentStatus.rejected
      (some (codes "não"))
      outcome.1
    ≡ (err (validation "This document has already been reviewed."), outcome.1)
review-refused_example =
    review-refused quiet 4 (codes "operating_license") 7 8 ComplianceDocumentStatus.approved
      ComplianceDocumentStatus.rejected none (some (codes "não")) queue outcome.1
      (company_or smelter outcome.0) refl outcome_returns
