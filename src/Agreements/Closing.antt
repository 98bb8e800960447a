-- ===== src/Agreements/Closing.antt =====
-- `_finalize` of src/modules/agreements/service.py: the reports of an agreement that everybody signed.
use econmesh_api.Prelude.{
  ℕ, max, ◌&&◌, Option, none, some, List, [], ◌∷◌, ◌++◌, map, leb, ◌==◌, if◌then◌else◌, is_some,
  or_else, filterb,
}
use mathlib.Core.Option
use econmesh_api.Text.{Text, codes, nonempty, truthy}
use econmesh_api.Service.{Action, pure, gets, or_raise, match_some, ◌>>=◌, ◌>>◌, unhandled}
use econmesh_api.Accounts.{user_by_id}
use econmesh_api.Agreements.Model.{
  AgreementEventType, AgreementFile, AgreementParticipant, AgreementDocument,
}
use econmesh_api.Agreements.World.{
  World, Deps, ChatMessage, MessageRow, replace_agreement, list_events,
}
use econmesh_api.Agreements.Access.{append_event}
use econmesh_api.Agreements.Drafting.{upload_file}

-- the messages of the conversation up to the last signature, as rows of the report
message_row : Deps → World → ChatMessage → MessageRow
message_row x w m = record {
  created_at = x.time_text m.created_at;
  author_name = (elim (user_by_id m.author_id w.users) [
    | none ↦ m.event_actor_name
    | some u ↦ if truthy u.name then u.name else m.event_actor_name
  ]);
  author_role = m.author_role;
  message_type = m.message_type;
  body = m.body;
}

pub message_rows : Deps → World → ℕ → ℕ → List MessageRow
unfolding message_row
message_rows x w conversation_id until = map (message_row x w) (
    filterb
      (λ m. m.conversation_id == conversation_id && m.is_user_visible && leb m.created_at until)
      w.messages)

-- `max(signed_ats) if signed_ats else utcnow()`
last_completion : List AgreementParticipant → Option ℕ
last_completion [] = none
last_completion (p ∷ ps) = elim p.completed_at [
  | none ↦ last_completion ps
  | some t ↦ elim (last_completion ps) [ none ↦ some t | some u ↦ some (max t u) ]
]

-- `upload(...)` of a report that is due, else `none`
unfoldable pub report_file : Deps → ℕ → Option Text → Text → Action World (Option AgreementFile)
report_file x owner report filename =
    match_some report (λ body. do file ← upload_file x body owner filename; pure (some file))
      (pure none)

-- the chat report, when the agreement has a conversation
chat_body : Deps → AgreementDocument → ℕ → World → Option Text
chat_body x doc until w = elim doc.conversation_id [
  | none ↦ none
  | some c ↦
      if x.has_messages
      then some (x.chat_audit_report_pdf doc (message_rows x w c until) until)
      else none
]

find_opportunity : ℕ → List (ℕ × Text) → Option Text
find_opportunity id [] = none
find_opportunity id ((i, t) ∷ os) = if i == id then some t else find_opportunity id os

-- the opportunity report, when the agreement has an opportunity that still exists
opportunity_body : Deps → AgreementDocument → World → Option Text
unfolding find_opportunity
opportunity_body x doc w = elim doc.opportunity_id [
  | none ↦ none
  | some o ↦
      if x.has_opportunities
      then Option.map (x.opportunity_audit_report_pdf doc) (find_opportunity o w.opportunities)
      else none
]

-- `_finalize`, past the test of its source file
unfoldable pub finalize_from :
    Deps → AgreementDocument → AgreementFile → Action World AgreementDocument
unfolding message_rows last_completion chat_body opportunity_body
finalize_from x doc source = do
  events ← gets (list_events doc.id)
  body ← or_raise (x.download source.url) (unhandled "download failed")
  let hash = if nonempty source.sha256 then source.sha256 else x.sha256 body
  let suffix = doc.verification_code ++ codes ".pdf"
  audit ←
      upload_file x (x.audit_report_pdf doc events hash) doc.owner_user_id
        (codes "auditoria-" ++ suffix)
  let doc1 = record doc { audit_report_file = some audit }
  cert ←
      upload_file x (x.certificate_pdf doc1 hash) doc.owner_user_id (codes "certificado-" ++ suffix)
  let doc2 = record doc1 { certificate_file = some cert }
  now ← gets (λ w. w.now)
  let until = or_else (last_completion doc.participants) now
  chat_report ← gets (chat_body x doc2 until)
  chat ← report_file x doc.owner_user_id chat_report (codes "auditoria-chat-" ++ suffix)
  let doc3 = record doc2 {
    chat_audit_report_file = (if is_some chat then chat else doc.chat_audit_report_file);
  }
  opportunity_report ← gets (opportunity_body x doc3)
  opp ←
      report_file x doc.owner_user_id opportunity_report (codes "auditoria-oportunidade-" ++ suffix)
  let doc4 = record doc3 {
    opportunity_audit_report_file =
        (if is_some opp then opp else doc.opportunity_audit_report_file);
  }
  doc5 ← replace_agreement doc4
  append_event doc.id AgreementEventType.completed none none
  pure doc5

-- `_finalize`
unfoldable pub finalize : Deps → AgreementDocument → Action World AgreementDocument
finalize x doc =
    match_some doc.signed_file (finalize_from x doc)
      (match_some doc.original_file (finalize_from x doc) (pure doc))
