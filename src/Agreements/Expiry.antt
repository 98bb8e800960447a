-- ===== src/Agreements/Expiry.antt =====
-- The sweep `expire_due` (src/modules/agreements/service.py): which agreements it closes, what it logs,
-- and that nothing due is left when it could list all of them.
use econmesh_api.Prelude.{
  ℕ, ◌≡◌, ◌≤◌, ◌+◌, refl, sym, ap, ◌∙◌, Bool, true, false, ◌&&◌, ◌||◌, none, List, [], ◌∷◌, ◌++◌,
  map, arith, ◌==◌, inl, inr, Bool-cases, All, filterb, length, anyb, take, take-all,
}
use mathlib.Core.Path.{subst}
use mathlib.Core.List.{append_assoc, append-nil}
use econmesh_api.Service.{ok, pure, resume, ◌>>=◌}
use econmesh_api.Agreements.Model.{
  expired, AgreementDocument, AgreementEventType, AgreementEventDocument,
}
use econmesh_api.Agreements.World.{
  World, replace_agreement, replace_in, create_event, is_overdue, is_expired_candidate,
  list_expired_candidates,
}
use econmesh_api.Agreements.Access.{append_event}
use econmesh_api.Agreements.Queries.{expire_all, expire_due}

-- the audit event of an agreement that the sweep closed
pub expiry_event : ℕ → AgreementDocument → AgreementEventDocument
expiry_event now d = record {
  agreement_id = d.id;
  event_type = AgreementEventType.expired;
  actor_user_id = none;
  actor_name = none;
  actor_company_id = none;
  actor_company_name = none;
  ip = none;
  user_agent = none;
  metadata = [];
  created_at = now;
}

abbrev pub closed : ℕ → AgreementDocument → AgreementDocument
closed now d = record d { status = expired; updated_at = now }

-- the stored agreements after the sweep
abbrev pub close_all : ℕ → List AgreementDocument → List AgreementDocument → List AgreementDocument
close_all now [] ds = ds
close_all now (d ∷ ds) stored = close_all now ds (replace_in (closed now d) stored)

expire_all_lem :
    (docs : List AgreementDocument) (w : World)
    → expire_all docs w ≡ (
      ok (length docs),
      record w {
        agreements = close_all w.now docs w.agreements;
        events = w.events ++ map (expiry_event w.now) docs;
      },
    )
unfolding expire_all replace_agreement append_event create_event expiry_event ◌>>=◌
expire_all_lem [] w = ap (λ l. (ok 0, record w { events = l })) (sym (append-nil w.events))
expire_all_lem (d ∷ docs) w =
    let w1 : World = record w {
      agreements = replace_in (closed w.now d) w.agreements;
      events = w.events ++ expiry_event w.now d ∷ [];
    } in
    ap (resume (λ c. pure (c + 1))) (expire_all_lem docs w1)
    ∙ ap
        (λ l. (
          ok (length docs + 1),
          record w1 { agreements = close_all w.now docs w1.agreements; events = l },
        ))
        (append_assoc w.events (expiry_event w.now d ∷ []) (map (expiry_event w.now) docs))
    ∙ ap
        (λ n. (
          ok n,
          record w {
            agreements = close_all w.now (d ∷ docs) w.agreements;
            events = w.events ++ map (expiry_event w.now) (d ∷ docs);
          },
        ))
        (omega arith)

-- The sweep always returns. It lists the agreements that are due, the first 500 of them, and returns
-- their number; it stores each of them as expired now, leaves the other stored agreements as they were,
-- and adds one event for each of them to the log, in their order.
pub expire_due_lem :
    (w : World)
    → ((expire_due w).0 ≡ ok (length (list_expired_candidates w)))
      × ((expire_due w).1.agreements ≡ close_all w.now (list_expired_candidates w) w.agreements)
      × ((expire_due w).1.events ≡ w.events ++ map (expiry_event w.now) (list_expired_candidates w))
unfolding expire_due ◌>>=◌
expire_due_lem w =
    let e = expire_all_lem (list_expired_candidates w) w in
    (ap (λ r. r.0) e, ap (λ r. r.1.agreements) e, ap (λ r. r.1.events) e)

-- no two agreements have one identifier
abbrev pub DistinctIds : List AgreementDocument → Type 0
DistinctIds [] = Unit
DistinctIds (d ∷ ds) = All (λ e. (d.id == e.id) ≡ false) ds × DistinctIds ds

module _ (now : ℕ) where
  abbrev listed : List AgreementDocument → AgreementDocument → Bool
  listed docs a = anyb (λ d. d.id == a.id) docs

  -- if the agreement is due, it is still to be closed
  abbrev Left : List AgreementDocument → AgreementDocument → Type 0
  Left docs a = is_expired_candidate now a ≡ true → listed docs a ≡ true

  not_due : (d : AgreementDocument) → is_expired_candidate now (closed now d) ≡ false
  not_due d = and_false (d.is_active && is_overdue now d)
    where
      and_false : (b : Bool) → (b && false) ≡ false
      and_false true = refl
      and_false false = refl

  apart-replace_in :
      (n : ℕ) (e : AgreementDocument) (ds : List AgreementDocument)
      → All (λ b. (n == b.id) ≡ false) ds
      → All (λ b. (n == b.id) ≡ false) (replace_in e ds)
  apart-replace_in n e [] h = tt
  apart-replace_in n e (d ∷ ds) h = elim (Bool-cases (d.id == e.id)) [
    | inl m ↦ rw m (let k : (n == d.id) ≡ false = h.0 in ground arith, h.1)
    | inr m ↦ rw m (h.0, apart-replace_in n e ds h.1)
  ]

  replace_in-DistinctIds :
      (e : AgreementDocument) (ds : List AgreementDocument)
      → DistinctIds ds
      → DistinctIds (replace_in e ds)
  replace_in-DistinctIds e [] h = tt
  replace_in-DistinctIds e (d ∷ ds) h = elim (Bool-cases (d.id == e.id)) [
    | inl m ↦ rw m (all_apart d.id m ds h.0, h.1)
    | inr m ↦ rw m (apart-replace_in d.id e ds h.0, replace_in-DistinctIds e ds h.1)
  ]
    where
      all_apart :
          (n : ℕ)
          → (n == e.id) ≡ true
          → (rest : List AgreementDocument) → All (λ b. (n == b.id) ≡ false) rest
          → All (λ b. (e.id == b.id) ≡ false) rest
      all_apart n m [] k = tt
      all_apart n m (a ∷ rest) k =
          (let j : (n == a.id) ≡ false = k.0 in ground arith, all_apart n m rest k.1)

  drop_other :
      (d a : AgreementDocument) (docs : List AgreementDocument)
      → (d.id == a.id) ≡ false
      → Left (d ∷ docs) a
      → Left docs a
  drop_other d a docs m h c = rw m at (h c)

  drop_others :
      (n : ℕ) (d : AgreementDocument) (docs rest : List AgreementDocument)
      → (n == d.id) ≡ true
      → All (λ b. (n == b.id) ≡ false) rest
      → All (Left (d ∷ docs)) rest
      → All (Left docs) rest
  drop_others n d docs [] m k h = tt
  drop_others n d docs (a ∷ rest) m k h = (
    drop_other d a docs (let j : (n == a.id) ≡ false = k.0 in ground arith) h.0,
    drop_others n d docs rest m k.1 h.1,
  )

  closes_one :
      (d : AgreementDocument) (docs stored : List AgreementDocument)
      → DistinctIds stored
      → All (Left (d ∷ docs)) stored
      → All (Left docs) (replace_in (closed now d) stored)
  closes_one d docs [] u h = tt
  closes_one d docs (a ∷ stored) u h = elim (Bool-cases (a.id == d.id)) [
    | inl m ↦ rw m ((λ c. absurd (clash (not_due d) c)), drop_others a.id d docs stored m u.0 h.1)
    | inr m ↦ rw m (drop_other d a docs (ground arith) h.0, closes_one d docs stored u.1 h.1)
  ]
    where
      clash : {b : Bool} → b ≡ false → b ≡ true → ⊥
      clash p q = cc

  closes-All :
      (docs stored : List AgreementDocument)
      → DistinctIds stored
      → All (Left docs) stored
      → All (Left []) (close_all now docs stored)
  closes-All [] stored u h = h
  closes-All (d ∷ docs) stored u h =
      closes-All docs _ (replace_in-DistinctIds (closed now d) stored u)
        (closes_one d docs stored u h)

  none_due :
      (stored : List AgreementDocument)
      → All (Left []) stored
      → filterb (is_expired_candidate now) stored ≡ []
  none_due [] h = refl
  none_due (a ∷ stored) h = elim (Bool-cases (is_expired_candidate now a)) [
    | inl c ↦ absurd (never (h.0 c))
    | inr c ↦ rw (c, none_due stored h.1) refl
  ]
    where
      never : false ≡ true → ⊥
      never k = cc

  also_listed :
      (d : AgreementDocument) (docs rest : List AgreementDocument)
      → All (Left docs) rest
      → All (Left (d ∷ docs)) rest
  also_listed d docs [] h = tt
  also_listed d docs (a ∷ rest) h =
      ((λ c. or_true (d.id == a.id) (h.0 c)), also_listed d docs rest h.1)
    where
      or_true : (b : Bool) {c : Bool} → c ≡ true → (b || c) ≡ true
      or_true true k = refl
      or_true false k = k

  All-listed : (ds : List AgreementDocument) → All (Left (filterb (is_expired_candidate now) ds)) ds
  All-listed [] = tt
  All-listed (d ∷ ds) = elim (Bool-cases (is_expired_candidate now d)) [
    | inl c ↦
        subst (λ l. All (Left l) (d ∷ ds)) (sym (kept c))
          (
            (λ _. first_listed),
            also_listed d (filterb (is_expired_candidate now) ds) ds (All-listed ds),
          )
    | inr c ↦
        subst (λ l. All (Left l) (d ∷ ds)) (sym (left_out c))
          ((λ k. absurd (clash c k)), All-listed ds)
  ]
    where
      clash : {b : Bool} → b ≡ false → b ≡ true → ⊥
      clash p q = cc

      kept :
          is_expired_candidate now d ≡ true
          → filterb (is_expired_candidate now) (d ∷ ds) ≡ d ∷ filterb (is_expired_candidate now) ds
      kept c = rw c refl

      left_out :
          is_expired_candidate now d ≡ false
          → filterb (is_expired_candidate now) (d ∷ ds) ≡ filterb (is_expired_candidate now) ds
      left_out c = rw c refl

      first_listed : listed (d ∷ filterb (is_expired_candidate now) ds) d ≡ true
      first_listed = ground arith

-- One sweep leaves no agreement due, when at most 500 were due and identifiers are distinct.
pub expire_due-none_left :
    (w : World)
    → DistinctIds w.agreements
    → length (filterb (is_expired_candidate w.now) w.agreements) ≤ 500
    → list_expired_candidates (expire_due w).1 ≡ []
unfolding expire_due list_expired_candidates ◌>>=◌
expire_due-none_left w distinct few =
    let docs = list_expired_candidates w in
    ap (λ r. list_expired_candidates r.1) (expire_all_lem docs w)
    ∙ ap (take 500) (
        none_due w.now _ (
          closes-All w.now docs w.agreements distinct (
            subst (λ l. All (Left w.now l) w.agreements) (sym (take-all 500 _ few))
              (All-listed w.now w.agreements))))
