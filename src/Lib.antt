-- ===== src/Lib.antt =====
-- EconMesh API: the services of a market for waste and by-products, as a model with proofs.
--
-- The program is a FastAPI service over MongoDB. Each module of src/modules has a service, whose
-- methods a route calls, documents that a repository stores, and request schemas. The services read
-- each other's documents: an agreement is made for a company, by a user with a profile, under the
-- platform's settings, and can come from the draft contract (minuta) of a negotiation.
--
-- How the code is modelled. A service method is an action on the stored state: it answers a value or
-- an exception (src/core/exceptions.py) together with the state it leaves, also after a raise, since
-- a write to the database stays written (Service, Service.Defs). Service.Rules has the rules for what a
-- method keeps and guarantees, and what a part that succeeded was given; Service.Triples has pre- and
-- postconditions for returns and raises. Identifiers (UUIDs) are
-- numbers, and a new one is the next that was not given out. A request reads the clock once. Text is a
-- list of code points; lower and upper know the letters of ASCII and Latin-1. Lists of documents stand
-- for collections, and an update replaces the first document with the identifier.
--
-- Files:
--  * Prelude: tests on numbers, lists as the services use them, sorting; Text: texts.
--  * Service: exceptions, actions and their rules.
--  * Accounts: the documents of src/modules/auth, users, companies and platform_settings that
--    the agreements read, with their lookups.
--  * Agreements: src/modules/agreements. Model (model.py), Eligibility (eligibility.py), World
--    (repository.py, the clock, the collaborators), Notices (notification_service.py), and the
--    methods of service.py: Percent and Access (the helpers from _resolve_user to _event_for_role),
--    Drafting (create, update, cancel, send, upload_pdf), Parties (update_participants,
--    update_fields), Handover (create_from_contract_proposal), Steps (the parts of sign), Closing
--    (_finalize), Signing (mark_viewed, sign, reject) and Queries (get, timeline, progress,
--    download_url, download_file_bytes, check_eligibility, expire_due) and Listing (list, which
--    expires what it lists). Invariant, Requests, Lookup, Turns, Gates, Completeness, Progress,
--    Renewal and Expiry hold proofs, and Samples runs on a small world.
--  * ContractProposals: the sections of a draft contract (minuta), of src/modules/contract_proposals
--    and src/modules/contract_sections. Model (model.py of both, matching.py), Titles (core_sections.py),
--    Sync (reorder_proposal_sections of section_sync.py) and Templates (the other functions of
--    section_sync.py). Editing models _normalize_sections of service.py, with proofs in Editing/Locked.
--    Order and Closing hold proofs, and Samples runs on a small draft.
--    A function of section_sync.py that changes the draft in place answers its Boolean result with the
--    draft. The text of the closing section (build_foro_html) is a parameter, and so is the first new identifier
--    of an edit: new_uuid() takes it and the ones after it.
--  * Companies: Compliance models src/modules/companies/compliance_review.py, with the tickets of
--    src/modules/support that it opens and closes. Its _review is reviewable (the guards) and then
--    store_review. Reviews holds proofs, and Samples reviews a licence.
--  * Conversations: src/modules/conversations. Model (model.py), Wording (the texts of system events),
--    World (repository.py, with its unique indexes, and the realtime events), Notices
--    (notification_service.py), Responses (the answers), and the methods of service.py: Access (the
--    helpers), Contact (close, reopen, and the two requests with their answers) and Threads
--    (create_or_get, the messages, the listings, the notes). Life is the contract: what may happen to a
--    contact, with Soundness, Keys and Paths on it. Guards, Quiet, Changes, Refinement, Renewal, Starting
--    and Traffic show that the service follows it; Requests, Story, Atomicity, Flags, Reading and Silence
--    draw the conclusions, and Samples runs on a small desk. What Redis answers (it may raise), the clock's
--    text and how an identifier prints are parameters (the record Collaborators).
--  * Crypto: src/core/crypto.py, with RoundTrip (the proof) and Samples (a toy cipher). AES-GCM, base64,
--    UTF-8 and os.urandom are parameters, with what they document as IsDocumented.
--  * Users.Cpf: _is_valid_cpf and _validate_cpf of src/modules/users/schema.py, with Digits (proofs) and
--    Samples. The Unicode table of decimal digits is a parameter.
--  * Slugify: src/shared/utils/slugify.py, with Shape (proofs) and Samples. Each of its two regular
--    expressions is a pass that remembers whether it stands in a run.
--  * Blog: _unique_slug of src/modules/blog/service.py with slug_exists of its repository, with Free
--    (proofs) and Samples.
--
-- Parameters of the model (the record Deps): downloads, the file store, hashes, PDF drawing and page
-- counts, random numbers, how identifiers, numbers and times print, and the visual signatures of
-- src/modules/visual_signatures. None of them has a law that a proof uses.
-- Those of the conversations have one, IsUp (Redis answers and takes what it is given), where a result
-- says so.
--
-- Bounds: the repository reads at most 500 agreements in one sweep and 2000 events of an agreement; the
-- model keeps both. Loops run over lists; scale of Percent alone has fuel, the number of participants,
-- which scale-enough of Progress shows to be enough.
--
-- Not modelled: the HTTP routes, schemas' length and format checks but that of the CPF, how answers
-- are printed, the wording of notifications and e-mails (a delivery keeps the recipient and the
-- event), the company search, the paged lists of conversations, the drawing of PDFs, and the other
-- modules. An update request that sets a title or a signing mode to null is left out. Requests are
-- served one after the other. In the agreements the realtime copies of notifications are left out,
-- so a refusal by Redis is too; in the conversations and the reviews of companies Redis may raise.
pub mod Prelude
pub mod Text
pub mod Service
pub mod Slugify
pub mod Blog
pub mod Crypto
pub mod Accounts
pub mod Users
pub mod Agreements
pub mod ContractProposals
pub mod Companies
pub mod Conversations
