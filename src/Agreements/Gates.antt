-- ===== src/Agreements/Gates.antt =====
-- Who may do what: what must have held for an owner's operation, or for `sign`, to succeed
-- (src/modules/agreements/service.py).
use econmesh_api.Prelude.{
  ℕ, ◌≡◌, refl, sym, ◌∙◌, ap, Bool, true, false, not, ◌&&◌, Option, some, List, ==_iff,
  if◌then◌else◌, Option-cases, ◌⊎◌, inl, inr, not-false, is_empty, String, All, findb-All,
}
use mathlib.Core.Path.{subst}
use econmesh_api.Text.{Text}
use econmesh_api.Service.{
  Action, ok, err, ◌>>=◌, >>=-eq-ok, raise_if-eq-ok, or_raise-eq-ok, pure-eq-ok, gets-eq-ok,
  not_found,
}
use econmesh_api.Accounts.{UserDocument, user_by_firebase_uid, profile_by_user}
use econmesh_api.Agreements.Model.{
  AgreementStatus, SigningMode, AgreementDocument, AgreementParticipant, is_open, is_ordered,
  is_waiting, is_editable, is_uncancellable, expired,
}
use econmesh_api.Agreements.Eligibility.{personal_missing_fields}
use econmesh_api.Agreements.World.{World, Deps, get_agreement, is_overdue}
use econmesh_api.Agreements.Access.{resolve_user, can_access, get_accessible, find_participant}
use econmesh_api.Agreements.Drafting.{
  AgreementUpdate, UploadFile, load_owned, update, cancel, upload_pdf,
}
use econmesh_api.Agreements.Parties.{
  ParticipantInput, FieldInput, update_participants, update_fields,
}
use econmesh_api.Agreements.Steps.{SignRequest}
use econmesh_api.Agreements.Signing.{sign}
use econmesh_api.Agreements.Lookup.{seen_at, lookup_answer, get_accessible_lem}
use econmesh_api.Agreements.Turns.{IsFirst, Distinct, signer-in_turn}

-- An agreement that the lookup answered: it is stored, active and visible to the caller, and the
-- answer is its state at this time.
pub record IsAnswer (w : World) (id user_id : ℕ) (email : Option Text) (d : AgreementDocument)
    : Type 0 where
  pub stored : AgreementDocument
  pub is_stored : get_agreement id w ≡ some stored
  pub active : stored.is_active ≡ true
  pub visible : can_access stored user_id email false ≡ true
  pub current : d ≡ seen_at w.now stored

resolve-eq-ok :
    (uid : Text) (w u : World) (user : UserDocument)
    → resolve_user uid w ≡ (ok user, u)
    → (user_by_firebase_uid uid w.users ≡ some user) × (u ≡ w)
unfolding resolve_user
resolve-eq-ok uid w u user h = or_raise-eq-ok _ _ w h

IsAnswer-eq-ok :
    (w : World) (id user_id : ℕ) (email : Option Text) (d : AgreementDocument)
    → lookup_answer w id user_id email false ≡ ok d
    → IsAnswer w id user_id email d
unfolding lookup_answer
IsAnswer-eq-ok w id user_id email d h = elim (Option-cases (get_agreement id w)) [
  | inl e ↦ absurd (missing (rw (e, lookup_answer) at h))
  | inr (s, e) ↦
      shown s e (s.is_active) refl (can_access s user_id email false) refl
        (rw (e, lookup_answer) at h)
]
  where
    missing : err (not_found "Acordo não encontrado.") ≡ ok d → ⊥
    missing k = cc

    shown :
        (s : AgreementDocument)
        → get_agreement id w ≡ some s
        → (a : Bool) → s.is_active ≡ a
        → (c : Bool) → can_access s user_id email false ≡ c
        → (if a && c then ok (seen_at w.now s) else err (not_found "Acordo não encontrado.")) ≡ ok d
        → IsAnswer w id user_id email d
    shown s e true ea true ec k = record {
      stored = s;
      is_stored = e;
      active = ea;
      visible = ec;
      current = cc;
    }
    shown s e true ea false ec k = absurd (missing k)
    shown s e false ea c ec k = absurd (missing k)

accessible-eq-ok :
    (w u : World) (id user_id : ℕ) (email : Option Text) (d : AgreementDocument)
    → get_accessible id user_id email false w ≡ (ok d, u)
    → IsAnswer w id user_id email d
accessible-eq-ok w u id user_id email d h =
    IsAnswer-eq-ok w id user_id email d
      (sym (get_accessible_lem w id user_id email false) ∙ ap (λ r. r.0) h)

-- The caller owns the agreement, which is stored, active, and in a status that the call allows.
pub record IsOwned (allowed : AgreementStatus → Bool) (w : World) (uid : Text) (id : ℕ)
    : Type 0 where
  pub user : UserDocument
  pub is_user : user_by_firebase_uid uid w.users ≡ some user
  pub seen : AgreementDocument
  pub answer : IsAnswer w id user.id user.email seen
  pub owner : seen.owner_user_id ≡ user.id
  pub in_time : allowed seen.status ≡ true

-- the operations for the owner alone, but for `send`
pub data OwnerCall : Type 0 where
  edit : List AgreementUpdate → OwnerCall
  withdraw : OwnerCall
  put_pdf : UploadFile → OwnerCall
  put_parties : Option SigningMode → List ParticipantInput → OwnerCall
  put_fields : List FieldInput → OwnerCall

unfoldable pub perform : Deps → ℕ → Text → OwnerCall → Action World AgreementDocument
perform x id uid (edit changes) = update id changes uid
perform x id uid withdraw = cancel id uid
perform x id uid (put_pdf file) = upload_pdf x id file uid
perform x id uid (put_parties mode items) = update_participants x id mode items uid
perform x id uid (put_fields items) = update_fields x id items uid

-- in which statuses
pub allows : OwnerCall → AgreementStatus → Bool
allows withdraw s = not (is_uncancellable s)
allows _ s = is_editable s

-- the shape that the five operations share
owned :
    (uid : Text) (id : ℕ) (refusal : String) (allowed : AgreementStatus → Bool)
    (k : UserDocument × AgreementDocument → Action World AgreementDocument) (w u : World)
    (d : AgreementDocument)
    → ((user : UserDocument) (s : AgreementDocument) (v : World)
        → k (user, s) v ≡ (ok d, u)
        → allowed s.status ≡ true)
    → (load_owned uid id refusal >>= k) w ≡ (ok d, u)
    → IsOwned allowed w uid id
unfolding load_owned
owned uid id refusal allowed k w u d gate h =
    let ((user, s), v, loaded, rest) = >>=-eq-ok (load_owned uid id refusal) k w h in
    let (user1, w1, r1, h1) = >>=-eq-ok _ _ w loaded in
    let (is_user, same) = resolve-eq-ok uid w w1 user1 r1 in
    let (s1, w2, r2, h2) = >>=-eq-ok _ _ w1 h1 in
    let (_, w3, r3, h3) = >>=-eq-ok _ _ w2 h2 in
    let (mine, _) = raise_if-eq-ok _ _ w2 r3 in
    let (pair, _) = pure-eq-ok (user1, s1) w3 h3 in
    record {
      user = user1;
      is_user = is_user;
      seen = s1;
      answer =
          subst (λ z. IsAnswer z id user1.id user1.email s1) same
            (accessible-eq-ok w1 w2 id user1.id user1.email s1 r2);
      owner = (==_iff s1.owner_user_id user1.id).0 (not-false mine);
      in_time = ap (λ z. allowed z.1.status) pair ∙ gate user s v rest;
    }

-- An owner's operation succeeds for the owner of the stored, active agreement alone, and only while
-- the status that the agreement has at this time allows it: a draft or one waiting to be sent for
-- an edit, the PDF, the participants and the fields, and any but a signed, cancelled or expired one
-- for the cancellation.
pub perform-IsOwned :
    (x : Deps) (id : ℕ) (uid : Text) (call : OwnerCall) (w u : World) (d : AgreementDocument)
    → perform x id uid call w ≡ (ok d, u)
    → IsOwned (allows call) w uid id
unfolding perform allows update cancel upload_pdf update_participants update_fields
perform-IsOwned x id uid (edit changes) w u d h =
    owned uid id _ _ _ w u d
      (λ user s v k. not-false (raise_if-eq-ok _ _ v (>>=-eq-ok _ _ v k).2).0) h
perform-IsOwned x id uid withdraw w u d h =
    owned uid id _ _ _ w u d (λ user s v k. ap not (raise_if-eq-ok _ _ v (>>=-eq-ok _ _ v k).2).0) h
perform-IsOwned x id uid (put_pdf file) w u d h =
    owned uid id _ _ _ w u d
      (λ user s v k. not-false (raise_if-eq-ok _ _ v (>>=-eq-ok _ _ v k).2).0) h
perform-IsOwned x id uid (put_parties mode items) w u d h =
    owned uid id _ _ _ w u d
      (λ user s v k. not-false (raise_if-eq-ok _ _ v (>>=-eq-ok _ _ v k).2).0) h
perform-IsOwned x id uid (put_fields items) w u d h =
    owned uid id _ _ _ w u d
      (λ user s v k. not-false (raise_if-eq-ok _ _ v (>>=-eq-ok _ _ v k).2).0) h

-- The caller's profile is complete, and the caller's participant of the answered agreement, which
-- is open, is still to act, and in an ordered agreement acts next.
pub record MaySign (w : World) (uid : Text) (id : ℕ) : Type 0 where
  pub user : UserDocument
  pub is_user : user_by_firebase_uid uid w.users ≡ some user
  pub complete : is_empty (personal_missing_fields user (profile_by_user user.id w.profiles)) ≡ true
  pub seen : AgreementDocument
  pub answer : IsAnswer w id user.id user.email seen
  pub opened : is_open seen.status ≡ true
  pub not_late : is_overdue w.now seen ≡ false
  pub participant : AgreementParticipant
  pub is_participant : find_participant seen user.id user.email ≡ some participant
  pub waiting : is_waiting participant.status ≡ true
  pub in_turn : (is_ordered seen.signing_mode ≡ false) ⊎ IsFirst participant seen.participants

-- an answer that is open is not past its deadline
open-not_late :
    (now : ℕ) (stored d : AgreementDocument)
    → d ≡ seen_at now stored
    → is_open d.status ≡ true
    → is_overdue now d ≡ false
unfolding seen_at
open-not_late now stored d e o =
    subst (λ z. is_overdue now z ≡ false) (sym e)
      (go (is_overdue now stored) refl (is_open stored.status) refl
        (ap (λ z. is_open z.status) (sym e) ∙ o))
  where
    go :
        (late : Bool)
        → is_overdue now stored ≡ late
        → (opened : Bool) → is_open stored.status ≡ opened
        → is_open
            (if late && opened
              then record stored { status = expired; updated_at = now }
              else stored).status
          ≡ true
        → is_overdue now (
            if late && opened then record stored { status = expired; updated_at = now } else stored)
          ≡ false
    go true l true p k = cc
    go true l false p k = cc
    go false l opened p k = l

-- the answer has the participants of the stored agreement
answer-Distinct :
    (w : World) (id user_id : ℕ) (email : Option Text) (d : AgreementDocument)
    → All (λ a. Distinct a.participants) w.agreements
    → IsAnswer w id user_id email d
    → Distinct d.participants
unfolding get_agreement seen_at
answer-Distinct w id user_id email d h a =
    subst Distinct
      (sym (
        ap (λ z. z.participants) a.current
        ∙ same (is_overdue w.now a.stored && is_open a.stored.status)))
      (findb-All (λ a. Distinct a.participants) _ w.agreements a.stored h a.is_stored)
  where
    same :
        (b : Bool)
        → (if b
            then record a.stored { status = expired; updated_at = w.now }
            else a.stored).participants
          ≡ a.stored.participants
    same true = refl
    same false = refl

-- Where no agreement has two participants of one identifier: when `sign` succeeds, the caller has a
-- complete profile and is a participant, still to act, of an agreement that is stored, active, visible
-- to the caller, open and not past its deadline; and in an ordered agreement nobody still to act comes
-- before.
pub sign-MaySign :
    (x : Deps) (id : ℕ) (payload : SignRequest) (uid : Text) (ip user_agent : Option Text)
    (w u : World) (d : AgreementDocument)
    → All (λ a. Distinct a.participants) w.agreements
    → sign x id payload uid ip user_agent w ≡ (ok d, u)
    → MaySign w uid id
unfolding sign
sign-MaySign x id payload uid ip user_agent w u d distinct h =
    let (user, w1, r1, h1) = >>=-eq-ok _ _ w h in
    let (is_user, s1) = resolve-eq-ok uid w w1 user r1 in
    let (profile, w2, r2, h2) = >>=-eq-ok _ _ w1 h1 in
    let (got, s2) = gets-eq-ok _ w1 r2 in
    let (_, w3, r3, h3) = >>=-eq-ok _ _ w2 h2 in
    let (nothing_missing, s3) = raise_if-eq-ok _ _ w2 r3 in
    let (s, w4, r4, h4) = >>=-eq-ok _ _ w3 h3 in
    let (p, w5, r5, _) = >>=-eq-ok _ _ w4 h4 in
    let answer : IsAnswer w id user.id user.email s =
      subst (λ z. IsAnswer z id user.id user.email s) (s3 ∙ s2 ∙ s1)
        (accessible-eq-ok w3 w4 id user.id user.email s r4) in
    let (_, opened, found, waiting, turn) =
      signer-in_turn user.id user.email s p w4 w5
        (answer-Distinct w id user.id user.email s distinct answer) r5 in
    record {
      user = user;
      is_user = is_user;
      complete = not-false (
          ap (λ q. not (is_empty (personal_missing_fields user q)))
            (ap (λ z. profile_by_user user.id z.profiles) (sym s1) ∙ got)
          ∙ nothing_missing);
      seen = s;
      answer = answer;
      opened = opened;
      not_late = open-not_late w.now answer.stored s answer.current opened;
      participant = p;
      is_participant = found;
      waiting = waiting;
      in_turn = turn;
    }
