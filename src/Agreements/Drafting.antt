-- ===== src/Agreements/Drafting.antt =====
-- The owner's operations of `AgreementsService` (src/modules/agreements/service.py): creating an
-- agreement, editing its draft, sending it and cancelling it. Each answers the stored agreement,
-- which the code then prints as a response.
-- A request body arrives validated by its schema, so `title` and `signing_mode` of an update are
-- never null.
use econmesh_api.Prelude.{
  ℕ, Bool, true, false, not, ◌&&◌, ◌||◌, Option, none, some, List, [], ◌∷◌, ◌++◌, String, ◌==◌,
  if◌then◌else◌, is_some, is_empty,
}
use econmesh_api.Text.{Text, codes, eq_text, lower, nonempty, or_text}
use econmesh_api.Service.{
  Action, pure, gets, or_raise, raise_if, when, ◌>>=◌, ◌>>◌, forbidden, validation, unhandled,
}
use econmesh_api.Accounts.{UserDocument}
use econmesh_api.Agreements.Model.{
  AgreementStatus, SigningMode, AgreementEventType, AgreementFile, AgreementDocument, is_editable,
  is_uncancellable,
}
use econmesh_api.Agreements.World.{
  World, Deps, new_uuid, create_agreement, replace_agreement, verification_code,
}
use econmesh_api.Agreements.Access.{
  resolve_user, get_accessible, append_event, append_full_event, ensure_creator_eligible,
}
use econmesh_api.Agreements.Notices.{notify_sent}

-- A new `AgreementDocument` with the defaults of its model.
abbrev pub new_agreement : ℕ → Text → ℕ → Text → ℕ → Text → AgreementStatus → ℕ → AgreementDocument
new_agreement id title company_id company_name owner code status now = record {
  id = id;
  title = title;
  description = none;
  deadline = none;
  status = status;
  company_id = company_id;
  company_name = company_name;
  owner_user_id = owner;
  signing_mode = SigningMode.unordered;
  original_file = none;
  signed_file = none;
  audit_report_file = none;
  certificate_file = none;
  chat_audit_report_file = none;
  opportunity_audit_report_file = none;
  participants = [];
  fields = [];
  verification_code = code;
  is_active = true;
  opportunity_id = none;
  conversation_id = none;
  contract_proposal_id = none;
  created_at = now;
  updated_at = now;
}

pub record AgreementCreate : Type 0 where
  pub title : Text
  pub description : Option Text
  pub deadline : Option ℕ
  pub company_id : ℕ
  pub signing_mode : SigningMode

unfoldable pub create : Deps → AgreementCreate → Text → Action World AgreementDocument
create x payload uid = do
  user ← resolve_user uid
  company_name ← ensure_creator_eligible x user payload.company_id
  code ← verification_code x
  id ← new_uuid
  now ← gets (λ w. w.now)
  let blank =
      new_agreement id payload.title payload.company_id company_name user.id code
        AgreementStatus.draft now
  let doc = record blank {
    description = payload.description;
    deadline = payload.deadline;
    signing_mode = payload.signing_mode;
  }
  create_agreement doc
  append_event id AgreementEventType.created (some user.id) user.name
  pure doc

-- The user and the agreement of an operation that only the owner may call: the resolved user, the
-- accessible agreement, and the test of its owner.
unfoldable pub load_owned : Text → ℕ → String → Action World (UserDocument × AgreementDocument)
load_owned uid agreement_id refusal = do
  user ← resolve_user uid
  doc ← get_accessible agreement_id user.id user.email false
  raise_if (not (doc.owner_user_id == user.id)) (forbidden refusal)
  pure (user, doc)

-- `payload.model_dump(exclude_unset=True)`: the attributes that the request sets
pub data AgreementUpdate : Type 0 where
  set_title : Text → AgreementUpdate
  set_description : Option Text → AgreementUpdate
  set_deadline : Option ℕ → AgreementUpdate
  set_signing_mode : SigningMode → AgreementUpdate

abbrev set_attribute : AgreementUpdate → AgreementDocument → AgreementDocument
set_attribute (set_title t) doc = record doc { title = t }
set_attribute (set_description d) doc = record doc { description = d }
set_attribute (set_deadline d) doc = record doc { deadline = d }
set_attribute (set_signing_mode m) doc = record doc { signing_mode = m }

unfoldable pub apply_update : List AgreementUpdate → AgreementDocument → AgreementDocument
apply_update [] doc = doc
apply_update (u ∷ us) doc = apply_update us (set_attribute u doc)

unfoldable pub update : ℕ → List AgreementUpdate → Text → Action World AgreementDocument
update agreement_id payload uid = do
  (user, doc) ← load_owned uid agreement_id "Apenas o criador pode editar o acordo."
  raise_if (not (is_editable doc.status)) (validation "Somente rascunhos podem ser editados.")
  doc' ← replace_agreement (apply_update payload doc)
  append_event doc.id AgreementEventType.updated (some user.id) user.name
  pure doc'

unfoldable pub cancel : ℕ → Text → Action World AgreementDocument
cancel agreement_id uid = do
  (user, doc) ← load_owned uid agreement_id "Apenas o criador pode cancelar o acordo."
  raise_if (is_uncancellable doc.status) (validation "Este acordo não pode ser cancelado.")
  doc' ← replace_agreement (record doc { status = AgreementStatus.cancelled })
  append_event doc.id AgreementEventType.cancelled (some user.id) user.name
  pure doc'

unfoldable pub send : Deps → ℕ → Text → Action World AgreementDocument
send x agreement_id uid = do
  user ← resolve_user uid
  seen ← get_accessible agreement_id user.id user.email false
  ensure_creator_eligible x user seen.company_id
  doc ← get_accessible agreement_id user.id user.email false
  raise_if (not (doc.owner_user_id == user.id)) (forbidden "Apenas o criador pode enviar o acordo.")
  raise_if (not (is_some doc.original_file)) (validation "Envie o PDF antes de enviar o acordo.")
  raise_if (is_empty doc.participants) (validation "Adicione ao menos um participante.")
  raise_if (is_empty doc.fields) (validation "Posicione ao menos um campo de assinatura.")
  doc' ← replace_agreement (record doc { status = AgreementStatus.awaiting_signatures })
  append_full_event (record {
    agreement_id = doc.id;
    event_type = AgreementEventType.sent;
    actor_user_id = some user.id;
    actor_name = user.name;
    actor_company_id = some doc.company_id;
    actor_company_name = some doc.company_name;
    ip = none;
    user_agent = none;
    metadata = [];
    created_at = 0;
  })
  when x.has_notifications (notify_sent doc')
  pure doc'

-- An uploaded file: its declared type, its name and its bytes.
pub record UploadFile : Type 0 where
  pub content_type : Option Text
  pub filename : Option Text
  pub body : Text

abbrev is_pdf_type : Text → Bool
is_pdf_type t = eq_text t (codes "application/pdf") || eq_text t (codes "application/x-pdf")

-- `s.endswith(".pdf")`
ends_with : Text → Text → Bool
ends_with suffix [] = eq_text [] suffix
ends_with suffix (c ∷ s) = eq_text (c ∷ s) suffix || ends_with suffix s

abbrev storage_key : Text → Text → Text
storage_key owner new = codes "econmesh/agreements/" ++ owner ++ codes "/" ++ new ++ codes ".pdf"

-- `_upload_pdf`
unfoldable pub upload_file : Deps → Text → ℕ → Text → Action World AgreementFile
upload_file x body owner filename = do
  id ← new_uuid
  let key = storage_key (x.id_text owner) (x.id_text id)
  url ← or_raise (x.upload key body) (unhandled "storage upload failed")
  pure (record {
    storage_key = key;
    url = url;
    sha256 = x.sha256 body;
    filename = filename;
    page_count = x.page_count body;
    size_bytes = x.byte_count body;
  })

-- A new file resets the signed one; with participants the agreement waits to be sent.
unfoldable pub set_original : AgreementFile → AgreementDocument → AgreementDocument
set_original file doc = record doc {
  original_file = some file;
  signed_file = none;
  status = (if is_empty doc.participants then doc.status else AgreementStatus.awaiting_send);
}

unfoldable pub upload_pdf : Deps → ℕ → UploadFile → Text → Action World AgreementDocument
unfolding ends_with
upload_pdf x agreement_id file uid = do
  (user, doc) ← load_owned uid agreement_id "Apenas o criador pode enviar o PDF."
  raise_if (not (is_editable doc.status)) (validation "Não é possível alterar o PDF neste status.")
  raise_if
      (not (is_pdf_type (lower (or_text file.content_type [])))
        && not (ends_with (codes ".pdf") (lower (or_text file.filename []))))
      (validation "Apenas arquivos PDF são aceitos.")
  raise_if (not (nonempty file.body)) (validation "Arquivo vazio.")
  uploaded ← upload_file x file.body user.id (or_text file.filename (codes "documento.pdf"))
  replace_agreement (set_original uploaded doc)
