-- ===== src/Agreements/Lookup.antt =====
-- What `_get_accessible` and `load_owned` answer, in full: which stored agreement, to whom, and in
-- which state.
use econmesh_api.Prelude.{
  ℕ, ◌≡◌, refl, ◌∙◌, ap, Bool, true, false, not, ◌&&◌, Option, none, some, List, [], ◌∷◌, arith,
  ◌==◌, ==_iff, if◌then◌else◌, Bool-cases, Option-cases, inl, inr, findb, is_some, or_else,
  findb_sound,
}
use econmesh_api.Text.{Text}
use econmesh_api.Service.{
  Action, Result, ok, err, pure, gets, AppException, guard_lem, ◌>>=◌, >>=-of-ok, not_found,
}
use econmesh_api.Agreements.Model.{expired, AgreementDocument, is_open}
use econmesh_api.Agreements.World.{
  World, get_agreement, replace_agreement, replace_in, create_event, is_overdue,
}
use econmesh_api.Agreements.Access.{can_access, maybe_expire, get_accessible, append_event}

-- A replaced document is what the next lookup finds, if one with its identifier was stored.
pub get-replace_in :
    (d : AgreementDocument) (ds : List AgreementDocument) (id : ℕ)
    → d.id ≡ id
    → findb (λ e. e.id == id) (replace_in d ds)
      ≡ (if is_some (findb (λ e. e.id == id) ds) then some d else none)
get-replace_in d [] id h = refl
get-replace_in d (e ∷ ds) id h = ground (arith, get-replace_in d ds id h)

-- The agreement as the caller gets it: an open one past its deadline has expired.
unfoldable pub seen_at : ℕ → AgreementDocument → AgreementDocument
seen_at now d =
    if is_overdue now d && is_open d.status
    then record d { status = expired; updated_at = now }
    else d

abbrev touched : ℕ → AgreementDocument → AgreementDocument
touched now d = record d { status = expired; updated_at = now }

module _ (w : World) (d : AgreementDocument) where
  maybe_expire_late :
      (is_overdue w.now d && is_open d.status) ≡ true
      → maybe_expire d w ≡ (ok (touched w.now d), (maybe_expire d w).1)
        × ((maybe_expire d w).1.agreements ≡ replace_in (touched w.now d) w.agreements)
  unfolding maybe_expire replace_agreement append_event create_event ◌>>=◌
  maybe_expire_late late = rw (late, maybe_expire) (refl, refl)

  maybe_expire_fine :
      (is_overdue w.now d && is_open d.status) ≡ false → maybe_expire d w ≡ (ok d, w)
  unfolding maybe_expire ◌>>=◌
  maybe_expire_fine fine = rw (fine, maybe_expire)

-- A lookup answers a document with the identifier asked for.
pub id_of_get :
    (w : World) (id : ℕ) (d : AgreementDocument) → get_agreement id w ≡ some d → d.id ≡ id
unfolding get_agreement
id_of_get w id d e = (==_iff d.id id).0 (findb_sound (λ a. a.id == id) w.agreements d e)

-- the end of `_get_accessible`: the expiry, the second lookup, and `refreshed or doc`
abbrev finish : ℕ → AgreementDocument → Action World AgreementDocument
finish id d = do
  doc' ← maybe_expire d
  refreshed ← gets (get_agreement id)
  pure (or_else refreshed doc')

finish_lem :
    (w : World) (id : ℕ) (d : AgreementDocument)
    → get_agreement id w ≡ some d
    → d.id ≡ id
    → (finish id d w).0 ≡ ok (seen_at w.now d)
unfolding get_agreement seen_at ◌>>=◌
finish_lem w id d e i = elim (Bool-cases (is_overdue w.now d && is_open d.status)) [
  | inl late ↦
      let (result, stored) = maybe_expire_late w d late in
      ap (λ r. r.0)
        (>>=-of-ok (maybe_expire d)
          (λ doc'. gets (get_agreement id) >>= λ refreshed. pure (or_else refreshed doc')) w result)
      ∙ rw (late, stored, get-replace_in (touched w.now d) w.agreements id i, e) refl
  | inr fine ↦
      ap (λ r. r.0)
        (>>=-of-ok (maybe_expire d)
          (λ doc'. gets (get_agreement id) >>= λ refreshed. pure (or_else refreshed doc')) w
          (maybe_expire_fine w d fine))
      ∙ rw (fine, e) refl
]

-- What the guards of the lookup say of a stored agreement.
unfoldable pub lookup_answer : World → ℕ → ℕ → Option Text → Bool → Result AgreementDocument
lookup_answer w id user_id email is_admin = elim (get_agreement id w) [
  | none ↦ err (not_found "Acordo não encontrado.")
  | some d ↦
      if d.is_active && can_access d user_id email is_admin
      then ok (seen_at w.now d)
      else err (not_found "Acordo não encontrado.")
]

-- the two guards, by their tests
guards_lem :
    (a c : Bool) (w : World) (e : AppException) (r : Result AgreementDocument × World)
    (x : AgreementDocument)
    → r.0 ≡ ok x
    → (if not a then (err e, w) else if not c then (err e, w) else r).0
      ≡ (if a && c then ok x else err e)
guards_lem true true w e r x h = h
guards_lem true false w e r x h = refl
guards_lem false c w e r x h = refl

-- On every branch: a missing, inactive or hidden agreement is not found, and any other is answered
-- as it stands at this time, an open one past its deadline as expired.
pub get_accessible_lem :
    (w : World) (id user_id : ℕ) (email : Option Text) (is_admin : Bool)
    → (get_accessible id user_id email is_admin w).0 ≡ lookup_answer w id user_id email is_admin
unfolding get_accessible lookup_answer ◌>>=◌
get_accessible_lem w id user_id email is_admin = elim (Option-cases (get_agreement id w)) [
  | inl missing ↦ rw (missing, lookup_answer)
  | inr (d, e) ↦
      rw (e, lookup_answer)
        (ap (λ r. r.0)
            (guard_lem (not d.is_active) (not_found "Acordo não encontrado.") _ w
              ∙ ap
                  (λ r.
                    if not d.is_active then (err (not_found "Acordo não encontrado."), w) else r)
                  (guard_lem (not (can_access d user_id email is_admin))
                    (not_found "Acordo não encontrado.") (finish id d) w))
          ∙ guards_lem d.is_active (can_access d user_id email is_admin) w _ (finish id d w) _
              (finish_lem w id d e (id_of_get w id d e)))
]
