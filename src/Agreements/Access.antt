-- ===== src/Agreements/Access.antt =====
-- The helpers of `AgreementsService` (src/modules/agreements/service.py): who the caller is, which
-- agreements the caller may see, lazy expiry, the participant that the caller is, whose turn it is,
-- and how far an agreement has come.
use econmesh_api.Prelude.{
  ℕ, Bool, false, not, ◌&&◌, ◌||◌, Option, none, some, List, [], ◌∷◌, ◌++◌, String, ◌==◌,
  if◌then◌else◌, or_else, length, filterb, anyb, countb, findb, sort_by, is_empty,
}
use econmesh_api.Text.{Text, eq_text, lower, nonempty, or_text}
use econmesh_api.Service.{
  Action, pure, gets, or_raise, raise_if, branch, ◌>>=◌, ◌>>◌, not_found, forbidden, incomplete,
}
use econmesh_api.Accounts.{
  UserDocument, CompanyDocument, user_by_firebase_uid, profile_by_user, company_by_id,
}
use econmesh_api.Agreements.Model.{
  AgreementStatus, AgreementParticipant, AgreementDocument, AgreementEventType,
  AgreementEventDocument, ParticipantRole, is_open, is_waiting, is_completed,
}
use econmesh_api.Agreements.Eligibility.{personal_missing_fields, company_missing_fields}
use econmesh_api.Agreements.Percent.{round_percent}
use econmesh_api.Agreements.World.{
  World, Deps, get_agreement, replace_agreement, create_event, get_or_create_settings, is_overdue,
}

unfoldable pub resolve_user : Text → Action World UserDocument
resolve_user uid w = or_raise (user_by_firebase_uid uid w.users) (not_found "User not found.") w

-- `_progress`
unfoldable pub progress_of : AgreementDocument → ℕ × ℕ × ℕ
unfolding round_percent
progress_of doc =
    let total = length doc.participants in
    let signed = countb (λ p. is_completed p.status) doc.participants in
    (signed, total, if total == 0 then 0 else round_percent signed total)

-- `p.user_id == user_id`
abbrev pub has_user : ℕ → AgreementParticipant → Bool
has_user user_id p = elim p.user_id [ none ↦ false | some u ↦ u == user_id ]

-- `email and p.email.lower() == email.lower()`
abbrev pub email_matches : Option Text → AgreementParticipant → Bool
email_matches none p = false
email_matches (some e) p = nonempty e && eq_text (lower p.email) (lower e)

-- the two tests in the loops over the participants
abbrev pub is_caller : ℕ → Option Text → AgreementParticipant → Bool
is_caller user_id email p = has_user user_id p || email_matches email p

unfoldable pub can_access : AgreementDocument → ℕ → Option Text → Bool → Bool
can_access doc user_id email is_admin =
    is_admin || doc.owner_user_id == user_id || anyb (is_caller user_id email) doc.participants

-- `_append_event`, for an event that names its actor
unfoldable pub append_event :
    ℕ → AgreementEventType → Option ℕ → Option Text → Action World (Unit {0})
append_event id type actor name w =
    create_event
      (record {
        agreement_id = id;
        event_type = type;
        actor_user_id = actor;
        actor_name = name;
        actor_company_id = none;
        actor_company_name = none;
        ip = none;
        user_agent = none;
        metadata = [];
        created_at = w.now;
      })
      w

-- `_append_event`, for an event with more than its actor; `e.created_at` is set here
unfoldable pub append_full_event : AgreementEventDocument → Action World (Unit {0})
append_full_event e w = create_event (record e { created_at = w.now }) w

-- `_maybe_expire`. The document is changed in place, so the call returns it.
unfoldable pub maybe_expire : AgreementDocument → Action World AgreementDocument
maybe_expire doc = do
  now ← gets (λ w. w.now)
  branch (is_overdue now doc && is_open doc.status)
      (do
        doc' ← replace_agreement (record doc { status = AgreementStatus.expired })
        append_event doc.id AgreementEventType.expired none none
        pure doc')
      (pure doc)

-- `_get_accessible`
unfoldable pub get_accessible : ℕ → ℕ → Option Text → Bool → Action World AgreementDocument
get_accessible agreement_id user_id email is_admin = do
  found ← gets (get_agreement agreement_id)
  doc ← or_raise found (not_found "Acordo não encontrado.")
  raise_if (not doc.is_active) (not_found "Acordo não encontrado.")
  raise_if (not (can_access doc user_id email is_admin)) (not_found "Acordo não encontrado.")
  doc' ← maybe_expire doc
  refreshed ← gets (get_agreement agreement_id)
  pure (or_else refreshed doc')

unfoldable pub require_signature_authorization : Deps → Action World Bool
require_signature_authorization x =
    branch x.has_platform_settings
      (do settings ← get_or_create_settings; pure settings.require_signature_authorization)
      (pure false)

-- `raise_if_incomplete`
abbrev pub raise_if_incomplete : List String → Action World (Unit {0})
raise_if_incomplete missing = raise_if (not (is_empty missing)) (incomplete missing)

-- `company.trade_name or company.legal_name`
abbrev pub display_name : CompanyDocument → Text
display_name c = or_text c.trade_name c.legal_name

-- `_ensure_creator_eligible`
unfoldable pub ensure_creator_eligible : Deps → UserDocument → ℕ → Action World Text
ensure_creator_eligible x user company_id = do
  profile ← gets (λ w. profile_by_user user.id w.profiles)
  found ← gets (λ w. company_by_id company_id w.companies)
  company ← or_raise found (not_found "Empresa não encontrada.")
  raise_if (not company.is_active) (not_found "Empresa não encontrada.")
  raise_if (not (company.owner_user_id == user.id))
      (forbidden "Você não tem acesso a esta empresa.")
  require_auth ← require_signature_authorization x
  raise_if_incomplete
      (personal_missing_fields user profile ++ company_missing_fields company require_auth)
  pure (display_name company)

-- `_find_participant_for_user`
unfoldable pub find_participant : AgreementDocument → ℕ → Option Text → Option AgreementParticipant
find_participant doc user_id email = findb (is_caller user_id email) doc.participants

abbrev pub first : List AgreementParticipant → Option AgreementParticipant
first [] = none
first (p ∷ ps) = some p

-- `_next_ordered_participant`
unfoldable pub next_ordered_participant : AgreementDocument → Option AgreementParticipant
next_ordered_participant doc =
    first (filterb (λ p. is_waiting p.status) (sort_by (λ p. p.order_index) doc.participants))

-- `_event_for_role`
pub event_for_role : ParticipantRole → AgreementEventType
event_for_role ParticipantRole.sign = AgreementEventType.signed
event_for_role ParticipantRole.approve = AgreementEventType.approved
event_for_role ParticipantRole.witness = AgreementEventType.witnessed
event_for_role ParticipantRole.acknowledge = AgreementEventType.acknowledged
event_for_role ParticipantRole.receipt = AgreementEventType.receipt_confirmed
