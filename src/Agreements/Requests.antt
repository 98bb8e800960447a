-- ===== src/Agreements/Requests.antt =====
-- The service as a whole: every operation of `AgreementsService` (src/modules/agreements/service.py) as
-- a request, served one after the other. Between two requests time passes, and the other modules
-- may rewrite the users, profiles, companies, settings, messages and opportunities at will.
use econmesh_api.Prelude.{ℕ, ◌≡◌, Option, List, [], ◌∷◌, ◌++◌, All}
use econmesh_api.Text.{Text}
use econmesh_api.Service.{Action, Result, ok, err, Guarantees, Holds}
use econmesh_api.Accounts.{
  Role, UserDocument, UserProfileDocument, CompanyDocument, PlatformSettingsDocument,
}
use econmesh_api.Agreements.Model.{SigningMode, AgreementEventDocument}
use econmesh_api.Agreements.World.{World, Deps, ChatMessage}
use econmesh_api.Agreements.Drafting.{
  AgreementCreate, AgreementUpdate, UploadFile, create, update, cancel, send, upload_pdf,
}
use econmesh_api.Agreements.Handover.{MinutaHandover, create_from_contract_proposal}
use econmesh_api.Agreements.Parties.{
  ParticipantInput, FieldInput, update_participants, update_fields,
}
use econmesh_api.Agreements.Steps.{SignRequest}
use econmesh_api.Agreements.Signing.{mark_viewed, sign, reject}
use econmesh_api.Agreements.Listing.{AgreementListParams, list}
use econmesh_api.Agreements.Queries.{
  get, timeline, progress, download_url, download_file_bytes, check_eligibility, expire_due,
}
use econmesh_api.Agreements.Invariant.{
  Inv, IsSound, create-keeps, update-keeps, cancel-keeps, send-keeps, upload_pdf-keeps,
  update_participants-keeps, update_fields-keeps, handover-keeps, mark_viewed-keeps, sign-keeps,
  reject-keeps, list-keeps, get-keeps, timeline-keeps, progress-keeps, download_url-keeps,
  download_file_bytes-keeps, check_eligibility-keeps, expire_due-keeps, same-Inv,
}
use econmesh_api.Prelude.{refl}
use mathlib.Core.List.{append-nil}
use econmesh_api.Prelude.{sym}

-- Who calls, and from where.
pub record Caller : Type 0 where
  pub uid : Text
  pub role : Role
  pub ip : Option Text
  pub user_agent : Option Text

-- What the other modules have written.
pub record Elsewhere : Type 0 where
  pub users : List UserDocument
  pub profiles : List UserProfileDocument
  pub companies : List CompanyDocument
  pub settings : Option PlatformSettingsDocument
  pub messages : List ChatMessage
  pub opportunities : List (ℕ × Text)

pub data Request : Type 0 where
  create_it : AgreementCreate → Request
  update_it : ℕ → List AgreementUpdate → Request
  cancel_it : ℕ → Request
  send_it : ℕ → Request
  upload_it : ℕ → UploadFile → Request
  set_parties : ℕ → Option SigningMode → List ParticipantInput → Request
  set_fields : ℕ → List FieldInput → Request
  hand_over : MinutaHandover → Request
  view_it : ℕ → Request
  sign_it : ℕ → SignRequest → Request
  reject_it : ℕ → Text → Request
  list_them : AgreementListParams → Request
  get_it : ℕ → Request
  timeline_of : ℕ → Request
  progress_of : ℕ → Request
  download_it : ℕ → Text → Request
  download_bytes : ℕ → Text → Request
  check_it : Option ℕ → Request
  expire_them : Request
  elsewhere : Elsewhere → Request

-- The world after one request, however it ended.
serve : Deps → Caller → Request → World → World
serve x c (create_it payload) w = (create x payload c.uid w).1
serve x c (update_it id payload) w = (update id payload c.uid w).1
serve x c (cancel_it id) w = (cancel id c.uid w).1
serve x c (send_it id) w = (send x id c.uid w).1
serve x c (upload_it id file) w = (upload_pdf x id file c.uid w).1
serve x c (set_parties id mode items) w = (update_participants x id mode items c.uid w).1
serve x c (set_fields id items) w = (update_fields x id items c.uid w).1
serve x c (hand_over m) w = (create_from_contract_proposal x m w).1
serve x c (view_it id) w = (mark_viewed id c.uid c.ip c.user_agent w).1
serve x c (sign_it id payload) w = (sign x id payload c.uid c.ip c.user_agent w).1
serve x c (reject_it id reason) w = (reject x id reason c.uid c.ip c.user_agent w).1
serve x c (list_them params) w = (list params c.uid c.role w).1
serve x c (get_it id) w = (get id c.uid c.role w).1
serve x c (timeline_of id) w = (timeline id c.uid c.role w).1
serve x c (progress_of id) w = (progress id c.uid c.role w).1
serve x c (download_it id artifact) w =
    (download_url id artifact c.uid c.role c.ip c.user_agent w).1
serve x c (download_bytes id artifact) w = (download_file_bytes x id artifact c.uid c.role w).1
serve x c (check_it company_id) w = (check_eligibility x c.uid company_id w).1
serve x c expire_them w = (expire_due w).1
serve x c (elsewhere e) w = record w {
  users = e.users;
  profiles = e.profiles;
  companies = e.companies;
  settings = e.settings;
  messages = e.messages;
  opportunities = e.opportunities;
}

-- Requests with their callers and the times at which they come.
pub run : Deps → List (ℕ × Caller × Request) → World → World
run x [] w = w
run x ((t, c, r) ∷ rs) w = run x rs (serve x c r (record w { now = t }))

module _ {A : Type 0} {Q : A → Type 0} (log : List AgreementEventDocument) where
  -- the invariant of the world that a method leaves
  after :
      {m : Action World A} → Guarantees (Inv log) Q m → (w : World) → Inv log w → Inv log (m w).1
  after {m} g w v = go (m w) (g.run w v)
    where
      go : (r : Result A × World) → Holds (Inv log) Q r → Inv log r.1
      go (ok a, u) h = h.0
      go (err e, u) h = h

module _ (log : List AgreementEventDocument) (x : Deps) (c : Caller) where
  serve-Inv : (r : Request) (w : World) → Inv log w → Inv log (serve x c r w)
  unfolding serve
  serve-Inv (create_it payload) = after log (create-keeps log x payload c.uid)
  serve-Inv (update_it id payload) = after log (update-keeps log id payload c.uid)
  serve-Inv (cancel_it id) = after log (cancel-keeps log id c.uid)
  serve-Inv (send_it id) = after log (send-keeps log x id c.uid)
  serve-Inv (upload_it id file) = after log (upload_pdf-keeps log x id file c.uid)
  serve-Inv (set_parties id mode items) =
      after log (update_participants-keeps log x id mode items c.uid)
  serve-Inv (set_fields id items) = after log (update_fields-keeps log x id items c.uid)
  serve-Inv (hand_over m) = after log (handover-keeps log x m)
  serve-Inv (view_it id) = after log (mark_viewed-keeps log id c.uid c.ip c.user_agent)
  serve-Inv (sign_it id payload) = after log (sign-keeps log x id payload c.uid c.ip c.user_agent)
  serve-Inv (reject_it id reason) = after log (reject-keeps log x id reason c.uid c.ip c.user_agent)
  serve-Inv (list_them params) = after log (list-keeps log params c.uid c.role)
  serve-Inv (get_it id) = after log (get-keeps log id c.uid c.role)
  serve-Inv (timeline_of id) = after log (timeline-keeps log id c.uid c.role)
  serve-Inv (progress_of id) = after log (progress-keeps log id c.uid c.role)
  serve-Inv (download_it id artifact) =
      after log (download_url-keeps log id artifact c.uid c.role c.ip c.user_agent)
  serve-Inv (download_bytes id artifact) =
      after log (download_file_bytes-keeps log x id artifact c.uid c.role)
  serve-Inv (check_it company_id) = after log (check_eligibility-keeps log x c.uid company_id)
  serve-Inv expire_them = after log (expire_due-keeps log)
  serve-Inv (elsewhere e) = λ w v. same-Inv log w _ refl refl v

run-Inv :
    (log : List AgreementEventDocument) (x : Deps) (rs : List (ℕ × Caller × Request)) (w : World)
    → Inv log w
    → Inv log (run x rs w)
unfolding run
run-Inv log x [] w v = v
run-Inv log x ((t, c, r) ∷ rs) w v =
    run-Inv log x rs _ (serve-Inv log x c r _ (same-Inv log w _ refl refl v))

-- After any requests, by any callers, at any times, and whatever the other modules write between
-- them, when every agreement was sound at the start: every stored agreement is sound, so one whose
-- status is signed has only participants that completed their step, one past the draft has its PDF
-- and its participants, and one that was sent has fields; and the audit log is the old log with
-- entries added at its end.
pub run-IsSound :
    (x : Deps) (rs : List (ℕ × Caller × Request)) (w : World)
    → All IsSound w.agreements
    → All IsSound (run x rs w).agreements
      × ((ys : List AgreementEventDocument) × ((run x rs w).events ≡ w.events ++ ys))
run-IsSound x rs w h =
    let v =
      run-Inv w.events x rs w (record { sound = h; grown = ([], sym (append-nil w.events)) }) in
    (v.sound, v.grown)
