-- ===== src/Agreements/Queries.antt =====
-- What `AgreementsService` (src/modules/agreements/service.py) answers about agreements, and the sweep
-- that expires the overdue ones.
use econmesh_api.Prelude.{
  ℕ, ◌+◌, Bool, true, false, not, Option, none, some, List, [], ◌∷◌, ◌++◌, String, ◌==◌,
  if◌then◌else◌, length, filterb, anyb, is_empty,
}
use econmesh_api.Text.{Text, codes, eq_text, nonempty}
use econmesh_api.Service.{
  Action, pure, gets, or_raise, raise_if, branch, match_some, ◌>>=◌, ◌>>◌, not_found, forbidden,
  unhandled,
}
use econmesh_api.Accounts.{Role, UserDocument, profile_by_user, company_by_id}
use econmesh_api.Agreements.Model.{
  AgreementStatus, AgreementEventType, AgreementFile, AgreementParticipant, AgreementDocument,
  AgreementEventDocument, is_waiting, is_completed, is_rejected, is_viewed,
}
use econmesh_api.Agreements.Eligibility.{personal_missing_fields, company_missing_fields}
use econmesh_api.Agreements.World.{
  World, Deps, replace_agreement, list_events, list_expired_candidates,
}
use econmesh_api.Agreements.Access.{
  resolve_user, get_accessible, append_event, append_full_event, require_signature_authorization,
  progress_of, email_matches,
}

abbrev pub is_admin : Role → Bool
is_admin Role.admin = true
is_admin _ = false

-- a participant that was invited by e-mail only, and whose address is the caller's
abbrev pub is_unlinked_match : Option Text → AgreementParticipant → Bool
is_unlinked_match email p = elim p.user_id [ none ↦ email_matches email p | some u ↦ false ]

-- the loop of `get` that links the caller to the matching participants
unfoldable pub link_participants :
    ℕ → Option Text → List AgreementParticipant → List AgreementParticipant
link_participants user_id email [] = []
link_participants user_id email (p ∷ ps) =
    (if is_unlinked_match email p then record p { user_id = some user_id } else p)
    ∷ link_participants user_id email ps

unfoldable pub get : ℕ → Text → Role → Action World AgreementDocument
get agreement_id uid role = do
  user ← resolve_user uid
  doc ← get_accessible agreement_id user.id user.email (is_admin role)
  let linked = record doc { participants = link_participants user.id user.email doc.participants }
  branch (anyb (is_unlinked_match user.email) doc.participants) (replace_agreement linked)
      (pure doc)

unfoldable pub timeline : ℕ → Text → Role → Action World (List AgreementEventDocument)
timeline agreement_id uid role = do
  user ← resolve_user uid
  get_accessible agreement_id user.id user.email (is_admin role)
  gets (list_events agreement_id)

pub record ProgressResponse : Type 0 where
  pub total_participants : ℕ
  pub completed : ℕ
  pub pending : ℕ
  pub rejected : ℕ
  pub viewed : ℕ
  pub progress_percent : ℕ
  pub completed_participants : List AgreementParticipant
  pub pending_participants : List AgreementParticipant
  pub rejected_participants : List AgreementParticipant
  pub viewed_participants : List AgreementParticipant

-- the answer of `progress`, from the document
unfoldable pub progress_response : AgreementDocument → ProgressResponse
progress_response doc =
    let (signed, total, percent) = progress_of doc in
    let waiting = filterb (λ p. is_waiting p.status) doc.participants in
    let refused = filterb (λ p. is_rejected p.status) doc.participants in
    let seen = filterb (λ p. is_viewed p.status) doc.participants in
    record {
      total_participants = total;
      completed = signed;
      pending = length waiting;
      rejected = length refused;
      viewed = length seen;
      progress_percent = percent;
      completed_participants = filterb (λ p. is_completed p.status) doc.participants;
      pending_participants = waiting;
      rejected_participants = refused;
      viewed_participants = seen;
    }

unfoldable pub progress : ℕ → Text → Role → Action World ProgressResponse
progress agreement_id uid role = do
  user ← resolve_user uid
  doc ← get_accessible agreement_id user.id user.email (is_admin role)
  pure (progress_response doc)

-- the `mapping` of `download_url` and `download_file_bytes`
pub artifact_file : AgreementDocument → Text → Option AgreementFile
artifact_file doc artifact =
    if eq_text artifact (codes "original")
    then doc.original_file
    else if eq_text artifact (codes "signed")
    then doc.signed_file
    else if eq_text artifact (codes "audit")
    then doc.audit_report_file
    else if eq_text artifact (codes "certificate")
    then doc.certificate_file
    else if eq_text artifact (codes "chat_audit")
    then doc.chat_audit_report_file
    else if eq_text artifact (codes "opportunity_audit")
    then doc.opportunity_audit_report_file
    else none

unfoldable pub download_url : ℕ → Text → Text → Role → Option Text → Option Text → Action World Text
download_url agreement_id artifact uid role ip user_agent = do
  user ← resolve_user uid
  doc ← get_accessible agreement_id user.id user.email (is_admin role)
  file ← or_raise (artifact_file doc artifact) (not_found "Arquivo não disponível.")
  append_full_event (record {
    agreement_id = doc.id;
    event_type = AgreementEventType.downloaded;
    actor_user_id = some user.id;
    actor_name = user.name;
    actor_company_id = none;
    actor_company_name = none;
    ip = ip;
    user_agent = user_agent;
    metadata = (codes "artifact", artifact) ∷ [];
    created_at = 0;
  })
  pure file.url

unfoldable pub download_file_bytes : Deps → ℕ → Text → Text → Role → Action World (Text × Text)
download_file_bytes x agreement_id artifact uid role = do
  user ← resolve_user uid
  doc ← get_accessible agreement_id user.id user.email (is_admin role)
  file ← or_raise (artifact_file doc artifact) (not_found "Arquivo não disponível.")
  body ← or_raise (x.download file.url) (unhandled "download failed")
  pure (body, if nonempty file.filename then file.filename else artifact ++ codes ".pdf")

-- the company's part of `check_eligibility`
company_part : Deps → UserDocument → Option ℕ → Action World (List String)
company_part x user company_id =
    match_some company_id
      (λ id. do
        found ← gets (λ w. company_by_id id w.companies)
        company ← or_raise found (not_found "Empresa não encontrada.")
        raise_if (not (company.owner_user_id == user.id))
            (forbidden "Você não tem acesso a esta empresa.")
        require_auth ← require_signature_authorization x
        pure (company_missing_fields company require_auth))
      (pure [])

unfoldable pub check_eligibility : Deps → Text → Option ℕ → Action World (Bool × List String)
unfolding company_part
check_eligibility x uid company_id = do
  user ← resolve_user uid
  profile ← gets (λ w. profile_by_user user.id w.profiles)
  company_missing ← company_part x user company_id
  let missing = personal_missing_fields user profile ++ company_missing
  pure (is_empty missing, missing)

-- the loop of `expire_due` over the candidates
unfoldable pub expire_all : List AgreementDocument → Action World ℕ
expire_all [] = pure 0
expire_all (doc ∷ docs) = do
  replace_agreement (record doc { status = AgreementStatus.expired })
  append_event doc.id AgreementEventType.expired none none
  count ← expire_all docs
  pure (count + 1)

unfoldable pub expire_due : Action World ℕ
expire_due = do docs ← gets list_expired_candidates; expire_all docs
