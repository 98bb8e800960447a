-- ===== src/Agreements/World.antt =====
-- What the agreements service reads and writes: the stored documents, the deliveries of its
-- notifications, the clock and the supply of new identifiers, with the operations of
-- src/modules/agreements/repository.py. One request reads the clock once.
use econmesh_api.Prelude.{
  ℕ, zero, suc, ◌+◌, ◌%◌, Bool, false, ◌&&◌, Option, none, some, List, [], ◌∷◌, ◌++◌, String, ltb,
  ◌==◌, if◌then◌else◌, findb, filterb, anyb, take,
}
use econmesh_api.Text.{Text, codes, eq_text}
use econmesh_api.Service.{Action, pure, raise, gets, modify, match_some, ◌>>=◌, ◌>>◌, unhandled}
use econmesh_api.Accounts.{
  UserDocument, UserProfileDocument, CompanyDocument, PlatformSettingsDocument, default_settings,
}
use econmesh_api.Agreements.Model.{
  AgreementParticipant, AgreementField, AgreementDocument, AgreementEventDocument, is_open,
}

-- A message of an opportunity conversation, as the chat report reads it.
pub record ChatMessage : Type 0 where
  pub conversation_id : ℕ
  pub author_id : ℕ
  pub author_role : Text
  pub message_type : Text
  pub event_actor_name : Option Text
  pub body : Text
  pub is_user_visible : Bool
  pub created_at : ℕ

pub record MessageRow : Type 0 where
  pub created_at : Text
  pub author_name : Option Text
  pub author_role : Text
  pub message_type : Text
  pub body : Text

-- One delivery: an in-app notification for a user, or an e-mail.
pub data Recipient : Type 0 where
  in_app : ℕ → Recipient
  email_to : Text → Recipient

pub record Delivery : Type 0 where
  pub recipient : Recipient
  pub event : String
  pub agreement_id : ℕ

pub record World : Type 0 where
  pub users : List UserDocument
  pub profiles : List UserProfileDocument
  pub companies : List CompanyDocument
  pub settings : Option PlatformSettingsDocument
  pub agreements : List AgreementDocument
  pub events : List AgreementEventDocument
  pub messages : List ChatMessage
  pub opportunities : List (ℕ × Text)
  pub deliveries : List Delivery
  pub fresh : ℕ
  pub draws : ℕ
  pub now : ℕ

pub data VisualSignatureKind : Type 0 where
  signature initials : VisualSignatureKind

-- A visual signature: its identifier, the hash of its image, and the image.
pub record VisualArtifact : Type 0 where
  pub id : ℕ
  pub sha256 : Text
  pub png : Text

-- The collaborators of the service, and what lies outside the program: downloads (`httpx`), the
-- file store (`firebase`), hashes, PDFs (`fitz`), and how values print. `none` is a raise.
-- The flags say which optional collaborators the service was built with.
pub record Deps : Type 0 where
  pub has_notifications : Bool
  pub has_messages : Bool
  pub has_opportunities : Bool
  pub has_platform_settings : Bool
  pub has_visual_signatures : Bool
  pub download : Text → Option Text
  pub upload : Text → Text → Option Text
  pub sha256 : Text → Text
  pub page_count : Text → ℕ
  pub byte_count : Text → ℕ
  pub random : ℕ → ℕ
  pub id_text : ℕ → Text
  pub number_text : ℕ → Text
  pub time_text : ℕ → Text
  pub date_text : ℕ → Text
  pub load_png : ℕ → VisualSignatureKind → Option VisualArtifact
  pub stamp_signed_pdf :
      Text
      → AgreementDocument
      → AgreementParticipant
      → List AgreementField
      → ℕ
      → Text
      → Option Text
      → Option Text
      → Text
  pub audit_report_pdf : AgreementDocument → List AgreementEventDocument → Text → Text
  pub certificate_pdf : AgreementDocument → Text → Text
  pub chat_audit_report_pdf : AgreementDocument → List MessageRow → ℕ → Text
  pub opportunity_audit_report_pdf : AgreementDocument → Text → Text

-- `new_uuid()`: an identifier that was not given out before
unfoldable pub new_uuid : Action World ℕ
new_uuid w = pure w.fresh (record w { fresh = w.fresh + 1 })

-- `AgreementsRepository.get`
unfoldable pub get_agreement : ℕ → World → Option AgreementDocument
get_agreement id w = findb (λ d. d.id == id) w.agreements

abbrev pub same_code : AgreementDocument → AgreementDocument → Bool
same_code doc d = eq_text d.verification_code doc.verification_code

-- `AgreementsRepository.create`: the unique index refuses a verification code that is taken
unfoldable pub create_agreement : AgreementDocument → Action World (Unit {0})
create_agreement doc w =
    if anyb (same_code doc) w.agreements
    then raise (unhandled "DuplicateKeyError") w
    else pure tt (record w { agreements = w.agreements ++ doc ∷ [] })

-- `replace_one({"_id": doc.id}, ...)`
abbrev pub replace_in : AgreementDocument → List AgreementDocument → List AgreementDocument
replace_in doc [] = []
replace_in doc (d ∷ ds) =
    let rest = replace_in doc ds in if d.id == doc.id then doc ∷ ds else d ∷ rest

-- `AgreementsRepository.replace`, with `doc.touch()`
unfoldable pub replace_agreement : AgreementDocument → Action World AgreementDocument
replace_agreement doc w =
    let touched = record doc { updated_at = w.now } in
    pure touched (record w { agreements = replace_in touched w.agreements })

-- the filter of `list_expired_candidates`
abbrev pub is_overdue : ℕ → AgreementDocument → Bool
is_overdue now d = elim d.deadline [ none ↦ false | some t ↦ ltb t now ]

abbrev pub is_expired_candidate : ℕ → AgreementDocument → Bool
is_expired_candidate now d = d.is_active && is_overdue now d && is_open d.status

unfoldable pub list_expired_candidates : World → List AgreementDocument
list_expired_candidates w = take 500 (filterb (is_expired_candidate w.now) w.agreements)

-- `AgreementEventsRepository.create`
unfoldable pub create_event : AgreementEventDocument → Action World (Unit {0})
create_event e = modify λ w. record w { events = w.events ++ e ∷ [] }

-- `AgreementEventsRepository.list_for_agreement`: the log is kept in the order of `created_at`
pub list_events : ℕ → World → List AgreementEventDocument
list_events id w = take 2000 (filterb (λ e. e.agreement_id == id) w.events)

-- `PlatformSettingsRepository.get_or_create`
unfoldable pub get_or_create_settings : Action World PlatformSettingsDocument
get_or_create_settings = do
  found ← gets (λ w. w.settings)
  match_some found pure
      (do modify λ w. record w { settings = some default_settings }; pure default_settings)

abbrev alphabet : Text
alphabet = codes "ABCDEFGHIJKLMNOPQRSTUVWXYZ0123456789"

abbrev pub letter : ℕ → Text → ℕ
letter n [] = b'A'
letter zero (c ∷ s) = c
letter (suc n) (c ∷ s) = letter n s

draw : Deps → ℕ → ℕ → Text
draw x zero k = []
draw x (suc n) k = letter (x.random k % 36) alphabet ∷ draw x n (k + 1)

-- `_verification_code`: twelve letters, each a `secrets.choice` of the alphabet
unfoldable pub verification_code : Deps → Action World Text
unfolding draw
verification_code x w = pure (draw x 12 w.draws) (record w { draws = w.draws + 12 })
