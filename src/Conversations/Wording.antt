-- ===== src/Conversations/Wording.antt =====
-- What a system event of a conversation says, and how users and companies are named in it
-- (src/modules/conversations/service.py). The clock's text comes with the event.
use econmesh_api.Prelude.{Bool, true, false, Option, none, some, String, ◌++◌, if◌then◌else◌}
use econmesh_api.Text.{Text, codes, strip, nonempty, or_text}
use econmesh_api.Accounts.{UserDocument}
use econmesh_api.Conversations.Model.{ConversationSystemEventKind}

-- `s and s.strip()`
abbrev pub has_words : Option Text → Bool
has_words none = false
has_words (some s) = nonempty (strip s)

-- `s.strip() if s else None`
abbrev pub stripped : Option Text → Option Text
stripped none = none
stripped (some s) = if nonempty s then some (strip s) else none

-- `_company_display_name`
unfoldable pub company_display_name : Text → Option Text → Text
company_display_name legal_name none = legal_name
company_display_name legal_name (some t) = if nonempty (strip t) then strip t else legal_name

-- `user.name or user.email or "Usuário"`
abbrev pub user_name : UserDocument → Text
user_name u = or_text u.name (or_text u.email (codes "Usuário"))

-- `reason_suffix`
abbrev reason_suffix : Option Text → Text
reason_suffix none = codes ""
reason_suffix (some r) = if nonempty (strip r) then codes " por: " ++ r else codes ""

-- the verb, what it is about, and whether the reason is told
abbrev phrase : ConversationSystemEventKind → String × String × Bool
phrase ConversationSystemEventKind.contact_closed = ("encerrou", "o contato", true)
phrase ConversationSystemEventKind.reopen_requested = ("solicitou", "a reabertura do contato", true)
phrase ConversationSystemEventKind.reopen_rejected = ("recusou", "a reabertura do contato", true)
phrase ConversationSystemEventKind.contact_reopened = ("reabriu", "o contato", true)
phrase ConversationSystemEventKind.new_contact_requested = ("solicitou", "um novo contato", true)
phrase ConversationSystemEventKind.new_contact_accepted = ("aceitou", "o novo contato", true)
phrase ConversationSystemEventKind.new_contact_rejected = ("recusou", "o novo contato", true)
phrase ConversationSystemEventKind.agreement_proposed = ("propôs", "um acordo", false)
phrase ConversationSystemEventKind.agreement_submitted =
    ("enviou", "a minuta para aprovação", false)
phrase ConversationSystemEventKind.agreement_changes_requested =
    ("solicitou", "alterações na minuta", true)
phrase ConversationSystemEventKind.agreement_rejected = ("rejeitou", "a minuta", true)
phrase ConversationSystemEventKind.agreement_approved = ("aprovou", "a minuta", false)

-- `_system_body`
unfoldable pub system_body :
    ConversationSystemEventKind → Text → Option Text → (for_actor : Bool) → (clock : Text) → Text
system_body kind actor_name reason for_actor clock =
    let (verb, what, told) = phrase kind in
    (if for_actor then codes "Você" else actor_name)
    ++ codes " "
    ++ codes verb
    ++ codes " "
    ++ codes what
    ++ codes " às "
    ++ clock
    ++ (if told then reason_suffix reason else codes "")
    ++ codes "."
