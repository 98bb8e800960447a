-- ===== src/Agreements/Samples.antt =====
-- Runs of the agreements service on a small world: Ana owns agreement 7, which Bia and Caio are to
-- sign in this order.
use econmesh_api.Prelude.{
  ℕ, ◌≡◌, refl, ◌≤◌, ◌+◌, true, false, Option, none, some, List, [], ◌∷◌, ◌++◌, arith, All, length,
  is_empty, map, ◌⊎◌,
}
use econmesh_api.Text.{Text, codes, lower}
use econmesh_api.Service.{Result, ok, err, ◌>>=◌}
use econmesh_api.Accounts.{
  Address, Role, UserDocument, UserProfileDocument, CompanyDocument, ComplianceDocumentStatus,
  CompanyComplianceFile,
}
use econmesh_api.Agreements.Model.{
  AgreementStatus, SigningMode, ParticipantKind, ParticipantRole, FieldType, AgreementFile,
  AgreementParticipant, AgreementField, AgreementDocument, AgreementEventDocument,
}
use econmesh_api.Agreements.Eligibility.{
  personal_missing_fields, company_missing_fields, profile_address_missing, address_missing,
}
use econmesh_api.Agreements.Percent.{round_percent}
use econmesh_api.Agreements.World.{
  World, Deps, list_expired_candidates, get_agreement, replace_agreement, create_event, new_uuid,
}
use econmesh_api.Agreements.Access.{
  resolve_user, find_participant, get_accessible, next_ordered_participant, maybe_expire,
  append_event, append_full_event, can_access,
}
use econmesh_api.Agreements.Drafting.{new_agreement, load_owned, cancel, upload_file}
use econmesh_api.Agreements.Parties.{
  ParticipantInput, new_participant, update_participants, make_participant, make_participants,
  set_participants,
}
use econmesh_api.Agreements.Notices.{notify_added, notify_by_emails, notify_signed, notify_user_ids}
use econmesh_api.Agreements.Steps.{
  SignRequest, signer, company_check, fill_field, load_visual_artifacts, mark_fields, complete,
  settle, artifact_meta, artifact_png, signature_payload, load_artifact,
}
use econmesh_api.Agreements.Signing.{sign, sign_as, filled}
use econmesh_api.Agreements.Queries.{expire_due, progress_response}
use econmesh_api.Agreements.Invariant.{IsSound}
use econmesh_api.Agreements.Requests.{Caller, Request, cancel_it, run, run-IsSound}
use econmesh_api.Agreements.Lookup.{lookup_answer, get_accessible_lem}
use econmesh_api.Agreements.Turns.{IsFirst, signer-in_turn}
use econmesh_api.Agreements.Gates.{
  IsOwned, MaySign, perform, allows, withdraw, perform-IsOwned, sign-MaySign,
}
use econmesh_api.Agreements.Completeness.{
  is_complete_person, is_complete_company, personal_missing_fields-is_empty,
  company_missing_fields-is_empty,
}
use econmesh_api.Agreements.Progress.{progress_response_lem}
use econmesh_api.Agreements.Renewal.{IsAhead, update_participants-drops_fields}
use econmesh_api.Agreements.Expiry.{expiry_event, close_all, expire_due_lem, expire_due-none_left}

abbrev some_text : Text → Option Text
some_text t = some t

abbrev home : Address
home = record {
  postal_code = some (codes "01000-000");
  street = some (codes "Rua A");
  number = some (codes "1");
  complement = none;
  neighborhood = none;
  city = some (codes "Santos");
  state = some (codes "SP");
}

abbrev person : ℕ → Text → UserDocument
person id name = record {
  id = id;
  firebase_uid = name;
  email = some (name ++ codes "@x.br");
  name = some name;
  phone = some (codes "13");
  role = Role.viewer;
  email_verified = true;
  is_verified = false;
  is_active = true;
}

abbrev profile : ℕ → UserProfileDocument
profile id = record { user_id = id; cpf = some (codes "1"); job_title = none; address = some home }

abbrev approved_file : CompanyComplianceFile
approved_file = record {
  storage_key = codes "k";
  public_url = codes "u";
  filename = codes "f";
  content_type = codes "application/pdf";
  status = ComplianceDocumentStatus.approved;
  rejection_reason = none;
  reviewed_at = none;
  reviewed_by = none;
}

abbrev recycler : CompanyDocument
recycler = record {
  id = 4;
  owner_user_id = 1;
  legal_name = codes "Recicla SA";
  trade_name = some (codes "Recicla");
  tax_id = codes "2";
  email = some (codes "a@x.br");
  phone = some (codes "13");
  legal_representative = some (codes "ana");
  address = some home;
  operating_license = some approved_file;
  mtr_document = some approved_file;
  signature_authorization = none;
  is_active = true;
  created_at = 0;
  updated_at = 0;
}

abbrev contract : AgreementFile
contract = record {
  storage_key = codes "k";
  url = codes "u";
  sha256 = codes "h";
  filename = codes "c.pdf";
  page_count = 1;
  size_bytes = 9;
}

abbrev party : ℕ → ℕ → Text → ℕ → AgreementParticipant
party id user name place =
    new_participant id ParticipantKind.external (some user) none none name (name ++ codes "@x.br")
      ParticipantRole.sign place

abbrev bia : AgreementParticipant
bia = party 11 2 (codes "bia") 0

abbrev signature_box : AgreementField
signature_box = record {
  id = 21;
  participant_id = 11;
  field_type = FieldType.signature;
  page = 1;
  box = 0;
  value = none;
}

abbrev deal : AgreementDocument
deal =
    record (new_agreement 7 (codes "Acordo") 4 (codes "Recicla") 1 (codes "CODE")
      AgreementStatus.awaiting_signatures 5) {
        deadline = some 50;
        signing_mode = SigningMode.ordered;
        original_file = some contract;
        participants = party 12 3 (codes "caio") 1 ∷ bia ∷ [];
        fields = signature_box ∷ [];
      }

abbrev plan : AgreementDocument
plan = record deal {
  id = 8;
  status = AgreementStatus.awaiting_send;
  verification_code = codes "PLAN";
}

abbrev office : World
office = record {
  users = person 1 (codes "ana") ∷ person 2 (codes "bia") ∷ person 3 (codes "caio") ∷ [];
  profiles = profile 1 ∷ profile 2 ∷ profile 3 ∷ [];
  companies = recycler ∷ [];
  settings = none;
  agreements = deal ∷ plan ∷ [];
  events = [];
  messages = [];
  opportunities = [];
  deliveries = [];
  fresh = 100;
  draws = 0;
  now = 10;
}

-- the same after the deadline
abbrev late_office : World
late_office = record office { now = 51 }

-- Collaborators that always answer.
abbrev plain : Deps
plain = record {
  has_notifications = true;
  has_messages = false;
  has_opportunities = false;
  has_platform_settings = true;
  has_visual_signatures = true;
  download = λ url. some url;
  upload = λ key body. some key;
  sha256 = λ t. t;
  page_count = λ t. 1;
  byte_count = λ t. 9;
  random = λ n. n;
  id_text = λ n. n ∷ [];
  number_text = λ n. n ∷ [];
  time_text = λ n. n ∷ [];
  date_text = λ n. n ∷ [];
  load_png = λ n k. some (record { id = 30; sha256 = codes "s"; png = codes "p" });
  stamp_signed_pdf = λ b d p fs n h s i. b;
  audit_report_pdf = λ d es h. h;
  certificate_pdf = λ d h. h;
  chat_audit_report_pdf = λ d ms n. [];
  opportunity_audit_report_pdf = λ d t. t;
}

deal-IsSound : IsSound deal
deal-IsSound = record {
  signed_completed = λ e. cc;
  prepared_file = λ e. refl;
  prepared_parties = λ e. refl;
  sent_fields = λ e. refl;
}

plan-IsSound : IsSound plan
plan-IsSound = record {
  signed_completed = λ e. cc;
  prepared_file = λ e. refl;
  prepared_parties = λ e. refl;
  sent_fields = λ e. refl;
}

abbrev ana : Caller
ana = record { uid = codes "ana"; role = Role.viewer; ip = none; user_agent = none }

abbrev a_day : List (ℕ × Caller × Request)
a_day = (20, ana, cancel_it 7) ∷ []

run-IsSound_example :
    All IsSound (run plain a_day office).agreements
    × ((ys : List AgreementEventDocument) × ((run plain a_day office).events ≡ office.events ++ ys))
run-IsSound_example = run-IsSound plain a_day office (deal-IsSound, (plan-IsSound, tt))

get_accessible_lem_example :
    (get_accessible 7 2 (some (codes "bia@x.br")) false late_office).0
    ≡ lookup_answer late_office 7 2 (some (codes "bia@x.br")) false
get_accessible_lem_example = get_accessible_lem late_office 7 2 (some (codes "bia@x.br")) false

abbrev called_off : AgreementDocument
called_off = record deal { status = AgreementStatus.cancelled; updated_at = 10 }

cancelled_by_owner :
    perform plain 7 (codes "ana") withdraw office
    ≡ (ok called_off, (perform plain 7 (codes "ana") withdraw office).1)
unfolding perform cancel load_owned resolve_user get_accessible get_agreement maybe_expire
    can_access replace_agreement append_event create_event ◌>>=◌
cancelled_by_owner = refl

perform-IsOwned_example : IsOwned (allows withdraw) office (codes "ana") 7
perform-IsOwned_example =
    perform-IsOwned plain 7 (codes "ana") withdraw office
      (perform plain 7 (codes "ana") withdraw office).1 called_off cancelled_by_owner

bia_signs : signer 2 (some (codes "bia@x.br")) deal office ≡ (ok bia, office)
unfolding signer find_participant next_ordered_participant lower ◌>>=◌
bia_signs = refl

signer-in_turn_example :
    (office ≡ office)
    × (true ≡ true)
    × (find_participant deal 2 (some (codes "bia@x.br")) ≡ some bia)
    × (true ≡ true)
    × ((true ≡ false) ⊎ IsFirst bia deal.participants)
signer-in_turn_example =
    signer-in_turn 2 (some (codes "bia@x.br")) deal bia office office ((refl, tt), (tt, tt))
      bia_signs

personal_missing_fields-is_empty_example :
    is_empty (personal_missing_fields (person 1 (codes "ana")) (some (profile 1)))
    ≡ is_complete_person (person 1 (codes "ana")) (some (profile 1))
personal_missing_fields-is_empty_example =
    personal_missing_fields-is_empty (person 1 (codes "ana")) (some (profile 1))

company_missing_fields-is_empty_example :
    is_empty (company_missing_fields recycler true) ≡ is_complete_company recycler true
company_missing_fields-is_empty_example = company_missing_fields-is_empty recycler true

progress_response_lem_example :
    ((progress_response deal).completed
        + (progress_response deal).pending
        + (progress_response deal).rejected
      ≡ (progress_response deal).total_participants)
    × ((progress_response deal).viewed ≤ (progress_response deal).pending)
    × ((progress_response deal).progress_percent ≤ 100)
progress_response_lem_example = progress_response_lem deal

office-IsAhead : IsAhead 100 office
office-IsAhead = record {
  ahead = omega arith;
  below = ((omega arith, tt), ((omega arith, tt), tt));
}

expire_due_lem_example :
    ((expire_due late_office).0 ≡ ok (length (list_expired_candidates late_office)))
    × ((expire_due late_office).1.agreements
        ≡ close_all 51 (list_expired_candidates late_office) late_office.agreements)
    × ((expire_due late_office).1.events
        ≡ late_office.events ++ map (expiry_event 51) (list_expired_candidates late_office))
expire_due_lem_example = expire_due_lem late_office

expire_due-none_left_example : list_expired_candidates (expire_due late_office).1 ≡ []
expire_due-none_left_example = expire_due-none_left late_office ((refl, tt), (tt, tt)) (omega arith)

-- the value of a method that returned
abbrev value_or : AgreementDocument → Result AgreementDocument → AgreementDocument
value_or d (ok e) = e
value_or d (err e) = d

abbrev blank_form : SignRequest
blank_form = record { field_values = λ t. none; signature_data = some (codes "png") }

abbrev bia_run : Result AgreementDocument × World
bia_run = sign plain 7 blank_form (codes "bia") none none office

sign_returns : bia_run ≡ (ok (value_or deal bia_run.0), bia_run.1)
unfolding sign resolve_user personal_missing_fields get_accessible get_agreement maybe_expire
    can_access signer find_participant next_ordered_participant company_check sign_as filled
    fill_field load_visual_artifacts mark_fields upload_file new_uuid complete settle
    replace_agreement append_full_event create_event notify_signed notify_user_ids artifact_meta
    artifact_png signature_payload load_artifact profile_address_missing address_missing lower ◌>>=◌
sign_returns = refl

sign-MaySign_example : MaySign office (codes "bia") 7
sign-MaySign_example =
    sign-MaySign plain 7 blank_form (codes "bia") none none office bia_run.1
      (value_or deal bia_run.0) (((refl, tt), (tt, tt)), (((refl, tt), (tt, tt)), tt)) sign_returns

abbrev bia_again : ParticipantInput
bia_again = record {
  kind = ParticipantKind.external;
  company_id = none;
  company_name = none;
  name = codes "bia";
  email = codes "bia@x.br";
  cpf = none;
  job_title = none;
  role = ParticipantRole.sign;
  order_index = 0;
}

abbrev renewal : Result AgreementDocument × World
renewal = update_participants plain 8 none (bia_again ∷ []) (codes "ana") office

renewal_returns : renewal ≡ (ok (value_or plan renewal.0), renewal.1)
unfolding update_participants load_owned resolve_user get_accessible get_agreement maybe_expire
    can_access make_participants make_participant new_uuid set_participants replace_agreement
    append_full_event create_event notify_added notify_by_emails ◌>>=◌
renewal_returns = refl

update_participants-drops_fields_example : (value_or plan renewal.0).fields ≡ []
update_participants-drops_fields_example =
    update_participants-drops_fields plain 8 none (bia_again ∷ []) (codes "ana") office renewal.1
      (value_or plan renewal.0) office-IsAhead renewal_returns

-- 23 of 40 is 57.49999999999999 in double precision
percent_run : round_percent 23 40 ≡ 57
unfolding round_percent
percent_run = refl

third_run : round_percent 2 3 ≡ 67
unfolding round_percent
third_run = refl

half_run : round_percent 1 8 ≡ 12
unfolding round_percent
half_run = refl

all_run : round_percent 7 7 ≡ 100
unfolding round_percent
all_run = refl
