-- ===== src/Agreements/Steps.antt =====
-- The steps inside `AgreementsService.sign` and its neighbours (src/modules/agreements/service.py): the
-- guards, the values that the fields take, the visual artifacts, and the new status.
use econmesh_api.Prelude.{
  ℕ, Bool, true, false, not, ◌&&◌, ◌||◌, Option, none, some, List, [], ◌∷◌, ◌++◌, map, leb, ◌==◌,
  if◌then◌else◌, or_else, length, anyb, countb, update_first,
}
use econmesh_api.Text.{Text, codes, truthy}
use econmesh_api.Service.{
  Action, pure, gets, or_raise, raise_if, branch, match_some, ◌>>=◌, ◌>>◌, forbidden, validation,
}
use econmesh_api.Accounts.{UserProfileDocument, company_by_id}
use econmesh_api.Agreements.Model.{
  AgreementStatus, ParticipantStatus, FieldType, AgreementFile, AgreementParticipant,
  AgreementField, AgreementDocument, is_open, is_ordered, is_company, is_completed, is_rejected,
}
use econmesh_api.Agreements.Eligibility.{company_missing_fields}
use econmesh_api.Agreements.World.{World, Deps, VisualArtifact, VisualSignatureKind}
use econmesh_api.Agreements.Access.{
  find_participant, next_ordered_participant, is_caller, raise_if_incomplete,
  require_signature_authorization,
}

-- The participant object that `_find_participant_for_user` returned is changed in place.
abbrev pub set_participant :
    ℕ
    → Option Text
    → (AgreementParticipant → AgreementParticipant)
    → AgreementDocument
    → AgreementDocument
set_participant user_id email f doc = record doc {
  participants = update_first (is_caller user_id email) f doc.participants;
}

abbrev pub view : ℕ → AgreementParticipant → AgreementParticipant
view user_id p = record p {
  status = ParticipantStatus.viewed;
  user_id = some (or_else p.user_id user_id);
}

pub record SignRequest : Type 0 where
  pub field_values : Text → Option Text
  pub signature_data : Option Text

-- `if not in another branch`: the value that a field takes by its type
default_value : SignRequest → Text → AgreementParticipant → AgreementField → Option Text
default_value payload date p f = elim f.field_type [
  | FieldType.signature ↦ if truthy payload.signature_data then payload.signature_data else f.value
  | FieldType.name ↦ some p.name
  | FieldType.cpf ↦ p.cpf
  | FieldType.job_title ↦ p.job_title
  | FieldType.company ↦ p.company_name
  | FieldType.date ↦ some date
  | _ ↦ f.value
]

-- one round of the loop `for field in doc.fields`
unfoldable pub fill_field :
    Deps → SignRequest → ℕ → AgreementParticipant → AgreementField → AgreementField
unfolding default_value
fill_field x payload now p f =
    if f.participant_id == p.id
    then record f {
      value = (elim (payload.field_values (x.id_text f.id)) [
        | some v ↦ some v
        | none ↦ default_value payload (x.date_text now) p f
      ]);
    }
    else f

abbrev pub is_signature : FieldType → Bool
is_signature FieldType.signature = true
is_signature _ = false

abbrev pub is_initials : FieldType → Bool
is_initials FieldType.initials = true
is_initials _ = false

-- the artifact of one kind, if a field of the participant needs it
unfoldable pub load_artifact :
    Deps → ℕ → VisualSignatureKind → Bool → Action World (Option VisualArtifact)
load_artifact x user_id kind needed =
    branch needed
      (do
        art ←
            or_raise (x.load_png user_id kind)
              (validation "Crie sua assinatura visual no perfil antes de assinar o acordo.")
        pure (some art))
      (pure none)

-- `_load_visual_artifacts`
unfoldable pub load_visual_artifacts :
    Deps → ℕ → List AgreementField → Action World (Option VisualArtifact × Option VisualArtifact)
unfolding load_artifact
load_visual_artifacts x user_id fields = do
  let needs_signature = anyb (λ f. is_signature f.field_type) fields
  let needs_initials = anyb (λ f. is_initials f.field_type) fields
  raise_if ((needs_signature || needs_initials) && not x.has_visual_signatures)
      (validation "Crie sua assinatura visual no perfil antes de assinar o acordo.")
  signature ← load_artifact x user_id VisualSignatureKind.signature needs_signature
  initials ← load_artifact x user_id VisualSignatureKind.initials needs_initials
  pure (signature, initials)

-- the fields of one type of the participant take the identifier of the artifact
unfoldable pub mark_fields :
    Deps
    → ℕ
    → (FieldType → Bool)
    → Option VisualArtifact
    → List AgreementField
    → List AgreementField
mark_fields x participant_id is_kind none fields = fields
mark_fields x participant_id is_kind (some art) fields =
    map
      (λ f.
        if f.participant_id == participant_id && is_kind f.field_type
        then record f { value = some (x.id_text art.id) }
        else f)
      fields

artifact_sha256 : Option VisualArtifact → Text
artifact_sha256 none = []
artifact_sha256 (some art) = art.sha256

unfoldable pub artifact_png : Option VisualArtifact → Option Text
artifact_png none = none
artifact_png (some art) = some art.png

unfoldable pub artifact_meta : Deps → Text → Text → Option VisualArtifact → List (Text × Text)
artifact_meta x id_key hash_key none = []
artifact_meta x id_key hash_key (some art) =
    (id_key, x.id_text art.id) ∷ (hash_key, art.sha256) ∷ []

-- the text whose hash is the participant's `signature_hash`
unfoldable pub signature_payload :
    Deps → ℕ → ℕ → Text → ℕ → Option VisualArtifact → Option VisualArtifact → Text
unfolding artifact_sha256
signature_payload x doc_id participant_id hash now signature initials =
    x.id_text doc_id
    ++ codes ":"
    ++ x.id_text participant_id
    ++ codes ":"
    ++ hash
    ++ codes ":"
    ++ x.time_text now
    ++ codes ":"
    ++ artifact_sha256 signature
    ++ codes ":"
    ++ artifact_sha256 initials

-- `if profile and profile.cpf and not participant.cpf: participant.cpf = profile.cpf`
abbrev profile_cpf_or : Option UserProfileDocument → Option Text → Option Text
profile_cpf_or none c = c
profile_cpf_or (some p) c = if truthy p.cpf && not (truthy c) then p.cpf else c

-- the participant's step is done
unfoldable pub complete :
    ℕ
    → ℕ
    → Option Text
    → Option Text
    → Text
    → Option UserProfileDocument
    → AgreementParticipant
    → AgreementParticipant
complete user_id now ip user_agent hash profile p = record p {
  status = ParticipantStatus.completed;
  completed_at = some now;
  ip = ip;
  user_agent = user_agent;
  user_id = some user_id;
  signature_hash = some hash;
  cpf = profile_cpf_or profile p.cpf;
}

-- `SIGNED` once every participant has completed, else `PARTIALLY_SIGNED`
unfoldable pub settle : AgreementDocument → AgreementDocument
settle doc = record doc {
  status =
      (if leb (length doc.participants) (countb (λ p. is_completed p.status) doc.participants)
        then AgreementStatus.signed
        else AgreementStatus.partially_signed);
}

-- the guards of `sign` from the status to the participant's turn
unfoldable pub signer : ℕ → Option Text → AgreementDocument → Action World AgreementParticipant
signer user_id email doc = do
  raise_if (not (is_open doc.status)) (validation "Este acordo não está aberto para assinatura.")
  p ←
      or_raise (find_participant doc user_id email)
        (forbidden "Você não é participante deste acordo.")
  raise_if (is_completed p.status) (validation "Você já concluiu sua etapa.")
  raise_if (is_rejected p.status) (validation "Você rejeitou este acordo.")
  let turn = elim (next_ordered_participant doc) as (λ _. Bool) [
    | none ↦ false
    | some n ↦ n.id == p.id
  ]
  raise_if (is_ordered doc.signing_mode && not turn)
      (validation "Aguarde a conclusão da etapa anterior na ordem de assinatura.")
  pure p

-- the check of the company that a participant signs for
unfoldable pub company_check : Deps → AgreementParticipant → Action World (Unit {0})
company_check x p =
    branch (is_company p.kind)
      (match_some p.company_id
        (λ c. do
          found ← gets (λ w. company_by_id c w.companies)
          match_some found
              (λ company. do
                require_auth ← require_signature_authorization x
                raise_if_incomplete (company_missing_fields company require_auth))
              (pure tt))
        (pure tt))
      (pure tt)

abbrev pub source_url : AgreementDocument → AgreementFile → Text
source_url doc original = elim doc.signed_file [ none ↦ original.url | some f ↦ f.url ]
