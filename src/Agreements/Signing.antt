-- ===== src/Agreements/Signing.antt =====
-- The participants' operations of `AgreementsService` (src/modules/agreements/service.py): viewing,
-- signing and rejecting an agreement, and what the last signature sets off.
use econmesh_api.Prelude.{
  ℕ, Bool, false, not, Option, none, some, List, [], ◌∷◌, ◌++◌, map, ◌==◌, or_else, filterb,
}
use econmesh_api.Text.{Text, codes, or_text}
use econmesh_api.Service.{
  Action, pure, gets, or_raise, raise_if, when, branch, ◌>>=◌, ◌>>◌, forbidden, validation,
  unhandled,
}
use econmesh_api.Accounts.{UserDocument, UserProfileDocument, profile_by_user}
use econmesh_api.Agreements.Model.{
  AgreementStatus, ParticipantStatus, AgreementEventType, AgreementParticipant, AgreementField,
  AgreementDocument, is_open, is_signed, is_pending,
}
use econmesh_api.Agreements.Eligibility.{personal_missing_fields}
use econmesh_api.Agreements.World.{World, Deps, get_agreement, replace_agreement}
use econmesh_api.Agreements.Access.{
  resolve_user, get_accessible, append_full_event, find_participant, raise_if_incomplete,
  event_for_role,
}
use econmesh_api.Agreements.Drafting.{upload_file}
use econmesh_api.Agreements.Notices.{notify_signed, notify_rejected, notify_completed}
use econmesh_api.Agreements.Closing.{finalize}
use econmesh_api.Agreements.Steps.{
  SignRequest, set_participant, view, fill_field, load_visual_artifacts, is_signature, is_initials,
  mark_fields, artifact_png, artifact_meta, signature_payload, complete, settle, signer,
  company_check, source_url,
}

unfoldable pub mark_viewed : ℕ → Text → Option Text → Option Text → Action World AgreementDocument
mark_viewed agreement_id uid ip user_agent = do
  user ← resolve_user uid
  doc ← get_accessible agreement_id user.id user.email false
  let participant = find_participant doc user.id user.email
  append_full_event (record {
    agreement_id = doc.id;
    event_type = AgreementEventType.viewed;
    actor_user_id = some user.id;
    actor_name = user.name;
    actor_company_id = none;
    actor_company_name = none;
    ip = ip;
    user_agent = user_agent;
    metadata = [];
    created_at = 0;
  })
  let waiting = elim participant as (λ _. Bool) [ none ↦ false | some p ↦ is_pending p.status ]
  branch waiting (replace_agreement (set_participant user.id user.email (view user.id) doc))
      (pure doc)

-- the document with its fields filled in, before the PDF is stamped
unfoldable pub filled :
    Deps → SignRequest → ℕ → AgreementParticipant → AgreementDocument → AgreementDocument
filled x payload now p doc = record doc { fields = map (fill_field x payload now p) doc.fields }

abbrev fields_of : AgreementParticipant → AgreementDocument → List AgreementField
fields_of p doc = filterb (λ f. f.participant_id == p.id) doc.fields

-- what `sign` does once the participant may sign
unfoldable pub sign_as :
    Deps
    → SignRequest
    → UserDocument
    → Option UserProfileDocument
    → Option Text
    → Option Text
    → AgreementDocument
    → AgreementParticipant
    → Action World AgreementDocument
sign_as x payload user profile ip user_agent doc p = do
  now ← gets (λ w. w.now)
  let doc1 = filled x payload now p doc
  (signature, initials) ← load_visual_artifacts x user.id (fields_of p doc1)
  let fields1 = mark_fields x p.id is_signature signature doc1.fields
  let doc2 = record doc1 { fields = mark_fields x p.id is_initials initials fields1 }
  original ← or_raise doc.original_file (validation "Documento original ausente.")
  body ← or_raise (x.download (source_url doc original)) (unhandled "download failed")
  let hash = x.sha256 body
  let stamped =
      x.stamp_signed_pdf body doc2 p (fields_of p doc2) now hash (artifact_png signature)
        (artifact_png initials)
  file ← upload_file x stamped doc.owner_user_id (codes "assinado-" ++ original.filename)
  let signature_hash = x.sha256 (signature_payload x doc.id p.id hash now signature initials)
  let doc3 = record doc2 { signed_file = some file }
  let doc4 =
      set_participant user.id user.email (complete user.id now ip user_agent signature_hash profile)
        doc3
  doc5 ← replace_agreement (settle doc4)
  append_full_event (record {
    agreement_id = doc.id;
    event_type = event_for_role p.role;
    actor_user_id = some user.id;
    actor_name = some (or_text user.name p.name);
    actor_company_id = p.company_id;
    actor_company_name = p.company_name;
    ip = ip;
    user_agent = user_agent;
    metadata =
        (codes "participant_id", x.id_text p.id)
          ∷ artifact_meta x (codes "signature_id") (codes "signature_sha256") signature
        ++ artifact_meta x (codes "initials_id") (codes "initials_sha256") initials;
    created_at = 0;
  })
  when x.has_notifications (notify_signed doc5)
  doc6 ←
      branch (is_signed doc5.status)
        (do final ← finalize x doc5; when x.has_notifications (notify_completed final); pure final)
        (pure doc5)
  refreshed ← gets (get_agreement doc.id)
  pure (or_else refreshed doc6)

unfoldable pub sign :
    Deps → ℕ → SignRequest → Text → Option Text → Option Text → Action World AgreementDocument
sign x agreement_id payload uid ip user_agent = do
  user ← resolve_user uid
  profile ← gets (λ w. profile_by_user user.id w.profiles)
  raise_if_incomplete (personal_missing_fields user profile)
  doc ← get_accessible agreement_id user.id user.email false
  p ← signer user.id user.email doc
  company_check x p
  sign_as x payload user profile ip user_agent doc p

-- a participant turns the agreement down
abbrev pub turn_down :
    ℕ → ℕ → Text → Option Text → Option Text → AgreementParticipant → AgreementParticipant
turn_down user_id now reason ip user_agent p = record p {
  status = ParticipantStatus.rejected;
  rejected_at = some now;
  rejection_reason = some reason;
  ip = ip;
  user_agent = user_agent;
  user_id = some user_id;
}

unfoldable pub reject :
    Deps → ℕ → Text → Text → Option Text → Option Text → Action World AgreementDocument
reject x agreement_id reason uid ip user_agent = do
  user ← resolve_user uid
  doc ← get_accessible agreement_id user.id user.email false
  raise_if (not (is_open doc.status))
      (validation "Este acordo não pode ser rejeitado neste status.")
  p ←
      or_raise (find_participant doc user.id user.email)
        (forbidden "Você não é participante deste acordo.")
  now ← gets (λ w. w.now)
  let doc1 = set_participant user.id user.email (turn_down user.id now reason ip user_agent) doc
  doc2 ← replace_agreement (record doc1 { status = AgreementStatus.rejected })
  append_full_event (record {
    agreement_id = doc.id;
    event_type = AgreementEventType.rejected;
    actor_user_id = some user.id;
    actor_name = some (or_text user.name p.name);
    actor_company_id = none;
    actor_company_name = none;
    ip = ip;
    user_agent = user_agent;
    metadata = (codes "reason", reason) ∷ [];
    created_at = 0;
  })
  when x.has_notifications (notify_rejected doc2)
  pure doc2
