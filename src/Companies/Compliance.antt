-- ===== src/Companies/Compliance.antt =====
-- src/modules/companies/compliance_review.py: the queue of compliance documents that administrators
-- review, with the support tickets that it opens and closes. Of a ticket the attributes that the queue
-- reads or writes are kept; a notice records who is told of what, without the wording.
use econmesh_api.Prelude.{
  anyb, ℕ, ◌+◌, ltb, Bool, true, false, not, ◌&&◌, ◌||◌, Option, none, some, List, [], ◌∷◌, ◌++◌,
  ◌==◌, if◌then◌else◌, is_some, or_else, length, findb, countb,
}
use econmesh_api.Text.{Text, codes, eq_text, nonempty, truthy, strip}
use econmesh_api.Service.{
  Action, pure, gets, or_raise, raise_if, modify, when, branch, match_some, ◌>>=◌, ◌>>◌, not_found,
  validation, unhandled,
}
use econmesh_api.Accounts.{
  UserDocument, CompanyDocument, CompanyComplianceFile, ComplianceDocumentStatus, user_by_id,
  company_by_id,
}

-- the attributes of a company that `_KIND_FIELDS` names
pub data DocumentField : Type 0 where
  operating_license mtr_document signature_authorization : DocumentField

-- `document_field`
unfoldable pub document_field : Text → Option DocumentField
document_field kind =
    if eq_text kind (codes "operating_license")
    then some DocumentField.operating_license
    else if eq_text kind (codes "mtr")
    then some DocumentField.mtr_document
    else if eq_text kind (codes "signature_authorization")
    then some DocumentField.signature_authorization
    else none

-- `getattr(company, field)`, and the patch `{field: ...}`
abbrev pub file_of : DocumentField → CompanyDocument → Option CompanyComplianceFile
file_of DocumentField.operating_license c = c.operating_license
file_of DocumentField.mtr_document c = c.mtr_document
file_of DocumentField.signature_authorization c = c.signature_authorization

abbrev pub set_file : DocumentField → CompanyComplianceFile → CompanyDocument → CompanyDocument
set_file DocumentField.operating_license f c = record c { operating_license = some f }
set_file DocumentField.mtr_document f c = record c { mtr_document = some f }
set_file DocumentField.signature_authorization f c = record c { signature_authorization = some f }

abbrev pub is_pending : ComplianceDocumentStatus → Bool
is_pending ComplianceDocumentStatus.pending = true
is_pending _ = false

pub data SupportTicketStatus : Type 0 where
  «open» in_progress closed : SupportTicketStatus

pub record SupportTicketDocument : Type 0 where
  pub id : ℕ
  pub is_document_review : Bool
  pub user_id : Option ℕ
  pub company_id : Option ℕ
  pub ticket_number : ℕ
  pub status : SupportTicketStatus
  pub closed_by : Option ℕ
  pub closed_at : Option ℕ
  pub last_message_at : Option ℕ
  pub created_at : ℕ

pub record SupportMessageDocument : Type 0 where
  pub ticket_id : ℕ
  pub author_id : ℕ
  pub body : Text

pub data Notice : Type 0 where
  ticket_created ticket_closed admins_told : ℕ → Notice
  owner_told owner_emailed : ℕ → DocumentField → ComplianceDocumentStatus → Notice

pub record ReviewWorld : Type 0 where
  pub companies : List CompanyDocument
  pub users : List UserDocument
  pub tickets : List SupportTicketDocument
  pub messages : List SupportMessageDocument
  pub notices : List Notice
  pub fresh : ℕ
  pub now : ℕ

-- The collaborators of the service that lie outside the database: the optional publisher, whether Redis
-- takes an event, the copy of an owner's notice included, and what it answers about who is online
-- (`none` is a raise).
pub record Collaborators : Type 0 where
  pub has_support_realtime : Bool
  pub takes : Notice → Bool
  pub is_online : ℕ → Option Bool

abbrev notify : Notice → Action ReviewWorld (Unit {0})
notify n = modify λ w. record w { notices = w.notices ++ n ∷ [] }

-- `SupportTicketsRepository.find_open_document_review`
abbrev pub is_open : SupportTicketStatus → Bool
is_open SupportTicketStatus.closed = false
is_open _ = true

abbrev pub is_review_of : ℕ → SupportTicketDocument → Bool
is_review_of id t =
    t.is_document_review && elim t.company_id as (λ _. Bool) [ none ↦ false | some c ↦ c == id ]

unfoldable pub find_open_document_review : ℕ → ReviewWorld → Option SupportTicketDocument
find_open_document_review id w = findb (λ t. is_review_of id t && is_open t.status) w.tickets

-- `SupportTicketsRepository.find_latest_document_review`
abbrev later : SupportTicketDocument → Option SupportTicketDocument → SupportTicketDocument
later t none = t
later t (some u) = if ltb t.created_at u.created_at then u else t

latest_of : ℕ → List SupportTicketDocument → Option SupportTicketDocument
latest_of id [] = none
latest_of id (t ∷ ts) =
    let rest = latest_of id ts in if is_review_of id t then some (later t rest) else rest

-- `SupportTicketsRepository.update` of a ticket that was just read
abbrev replace_ticket :
    SupportTicketDocument → List SupportTicketDocument → List SupportTicketDocument
replace_ticket t [] = []
replace_ticket t (u ∷ us) =
    let rest = replace_ticket t us in if u.id == t.id then t ∷ us else u ∷ rest

unfoldable pub update_ticket : SupportTicketDocument → Action ReviewWorld (Unit {0})
update_ticket t = modify λ w. record w { tickets = replace_ticket t w.tickets }

-- a realtime event; Redis raises where it does not take it
unfoldable pub publish : Collaborators → Notice → Action ReviewWorld (Unit {0})
publish x n = do raise_if (not (x.takes n)) (unhandled "RedisError"); notify n

-- what `enqueue` does with the ticket that it found or made
unfoldable pub announce :
    Collaborators → SupportTicketDocument → CompanyDocument → Text → Action ReviewWorld (Unit {0})
announce x t company body = do
  modify λ w. record w {
    messages =
        w.messages
        ++ record { ticket_id = t.id; author_id = company.owner_user_id; body = body } ∷ [];
  }
  when x.has_support_realtime (publish x (ticket_created t.id))
  notify (admins_told t.id)

-- the default text of the first message
abbrev default_body : CompanyDocument → Text
default_body c = codes "A empresa " ++ c.legal_name ++ codes " enviou documentos para análise."

abbrev has_documents : CompanyDocument → Bool
has_documents c =
    is_some c.operating_license || is_some c.mtr_document || is_some c.signature_authorization

-- the ticket that a closed one becomes again
abbrev reopened : ℕ → SupportTicketDocument → SupportTicketDocument
reopened now t = record t {
  status = SupportTicketStatus.«open»;
  closed_by = none;
  closed_at = none;
  last_message_at = some now;
}

-- the unique index on the numbers of these tickets
abbrev same_number : SupportTicketDocument → SupportTicketDocument → Bool
same_number t u = t.is_document_review && u.is_document_review && t.ticket_number == u.ticket_number

-- a ticket for a company without one
unfoldable pub create_ticket : CompanyDocument → Action ReviewWorld SupportTicketDocument
create_ticket company = do
  count ← gets (λ w. countb (λ t. t.is_document_review) w.tickets)
  id ← gets (λ w. w.fresh)
  now ← gets (λ w. w.now)
  let t : SupportTicketDocument = record {
    id = id;
    is_document_review = true;
    user_id = some company.owner_user_id;
    company_id = some company.id;
    ticket_number = count + 1;
    status = SupportTicketStatus.«open»;
    closed_by = none;
    closed_at = none;
    last_message_at = some now;
    created_at = now;
  }
  taken ← gets (λ w. anyb (same_number t) w.tickets)
  raise_if taken (unhandled "DuplicateKeyError")
  modify λ w. record w { tickets = w.tickets ++ t ∷ []; fresh = w.fresh + 1 }
  pure t

-- `latest.status == SupportTicketStatus.CLOSED`
abbrev if_closed : Option SupportTicketDocument → Option SupportTicketDocument
if_closed none = none
if_closed (some t) = if is_open t.status then none else some t

unfoldable pub enqueue :
    Collaborators
    → CompanyDocument
    → Option Text
    → Action ReviewWorld (Option SupportTicketDocument)
unfolding latest_of
enqueue x company message = branch (not (has_documents company)) (pure none) (do
  now ← gets (λ w. w.now)
  let body = if truthy message then or_else message [] else default_body company
  found ← gets (find_open_document_review company.id)
  latest ← gets (λ w. latest_of company.id w.tickets)
  match_some found
      (λ t. do
        let t1 = record t { last_message_at = some now }
        update_ticket t1
        announce x t1 company body
        pure (some t1))
      (match_some (if_closed latest)
        (λ t. do
          update_ticket (reopened now t)
          announce x (reopened now t) company body
          pure (some (reopened now t)))
        (do t ← create_ticket company; announce x t company body; pure (some t))))

-- `CompaniesRepository.update` with the patch of one document, and `updated_at`
abbrev pub with_file :
    (now : ℕ) → DocumentField → CompanyComplianceFile → CompanyDocument → CompanyDocument
with_file now field f c = record (set_file field f c) { updated_at = now }

abbrev pub update_file :
    (now id : ℕ)
    → DocumentField
    → CompanyComplianceFile
    → List CompanyDocument
    → List CompanyDocument
update_file now id field f [] = []
update_file now id field f (c ∷ cs) =
    let rest = update_file now id field f cs in
    if c.id == id then with_file now field f c ∷ cs else c ∷ rest

-- `_notify_owner`
unfoldable pub notify_owner :
    Collaborators
    → CompanyDocument
    → DocumentField
    → ComplianceDocumentStatus
    → Action ReviewWorld (Unit {0})
notify_owner x company field status = do
  found ← gets (λ w. user_by_id company.owner_user_id w.users)
  match_some found
      (λ owner. do
        notify (owner_told owner.id field status)
        raise_if (not (x.takes (owner_told owner.id field status))) (unhandled "RedisError")
        online ← or_raise (x.is_online owner.id) (unhandled "RedisError")
        when (not online && truthy owner.email) (notify (owner_emailed owner.id field status)))
      (pure tt)

abbrev pub awaits_file : Option CompanyComplianceFile → Bool
awaits_file none = true
awaits_file (some f) = is_pending f.status

abbrev pub awaits_review : Option CompanyComplianceFile → Bool
awaits_review none = false
awaits_review (some f) = is_pending f.status

-- `still_pending` of `_maybe_close_ticket`
abbrev pub still_pending : CompanyDocument → Bool
still_pending c =
    awaits_file c.operating_license
    || awaits_file c.mtr_document
    || awaits_review c.signature_authorization

unfoldable pub maybe_close_ticket : Collaborators → CompanyDocument → Action ReviewWorld (Unit {0})
maybe_close_ticket x company = do
  found ← gets (find_open_document_review company.id)
  now ← gets (λ w. w.now)
  branch (still_pending company) (pure tt) (
      match_some found
        (λ t. do
          update_ticket (record t {
            status = SupportTicketStatus.closed;
            closed_at = some now;
            last_message_at = some now;
          })
          when x.has_support_realtime (publish x (ticket_closed t.id)))
        (pure tt))

-- the file with the outcome of its review
abbrev pub with_review :
    ℕ → ℕ → ComplianceDocumentStatus → Option Text → CompanyComplianceFile → CompanyComplianceFile
with_review reviewer_id now status reason f = record f {
  status = status;
  rejection_reason = reason;
  reviewed_at = some now;
  reviewed_by = some reviewer_id;
}

-- the guards of `_review`: the document that may be reviewed, with its company
unfoldable pub reviewable :
    ℕ → Text → Action ReviewWorld (DocumentField × CompanyDocument × CompanyComplianceFile)
reviewable company_id kind = do
  field ← or_raise (document_field kind) (validation "Unknown document type.")
  found ← gets (λ w. company_by_id company_id w.companies)
  company ← or_raise found (not_found "Company not found.")
  raise_if (not company.is_active) (not_found "Company not found.")
  current ← or_raise (file_of field company) (not_found "Document not found.")
  raise_if (not (nonempty current.storage_key)) (not_found "Document not found.")
  raise_if (not (is_pending current.status)) (validation "This document has already been reviewed.")
  pure (field, company, current)

-- the rest of `_review`: the outcome is stored, and the owner and the ticket learn of it
unfoldable pub store_review :
    Collaborators
    → ℕ
    → DocumentField
    → CompanyComplianceFile
    → ComplianceDocumentStatus
    → Action ReviewWorld CompanyDocument
store_review x company_id field reviewed status = do
  modify λ w. record w { companies = update_file w.now company_id field reviewed w.companies }
  stored ← gets (λ w. company_by_id company_id w.companies)
  updated ← or_raise stored (not_found "Company not found.")
  notify_owner x updated field status
  maybe_close_ticket x updated
  pure updated

-- `_review`
unfoldable pub review :
    Collaborators
    → ℕ
    → Text
    → ℕ
    → ComplianceDocumentStatus
    → Option Text
    → Action ReviewWorld CompanyDocument
review x company_id kind reviewer_id status reason = do
  (field, company, current) ← reviewable company_id kind
  now ← gets (λ w. w.now)
  store_review x company_id field (with_review reviewer_id now status reason current) status

unfoldable pub approve : Collaborators → ℕ → Text → ℕ → Action ReviewWorld CompanyDocument
approve x company_id kind reviewer_id =
    review x company_id kind reviewer_id ComplianceDocumentStatus.approved none

unfoldable pub reject : Collaborators → ℕ → Text → ℕ → Text → Action ReviewWorld CompanyDocument
reject x company_id kind reviewer_id reason = do
  let trimmed = strip reason
  raise_if (ltb (length trimmed) 3) (validation "Informe o motivo da rejeição.")
  review x company_id kind reviewer_id ComplianceDocumentStatus.rejected (some trimmed)
