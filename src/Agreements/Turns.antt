-- ===== src/Agreements/Turns.antt =====
-- Whose turn it is to sign: `_next_ordered_participant` and the guards of `sign` against an
-- independent account of the order of signature.
use econmesh_api.Prelude.{
  ℕ, ◌≡◌, refl, ◌∙◌, ap, ◌≤◌, Bool, true, false, not, ◌&&◌, Option, none, some, List, [], ◌∷◌,
  arith, ◌==◌, Bool-cases, ◌⊎◌, inl, inr, Option-cases, not-false, All, findb, findb-All, filterb,
  sort_by, All-sort_by, All-of-sort_by, IsSortedBy, sort_by-IsSortedBy,
}
use mathlib.Core.Option.{some-injective}
use mathlib.Core.Path.{subst}
use native.Mathlib.Nat.{le_refl}
use econmesh_api.Text.{Text}
use econmesh_api.Service.{ok, >>=-eq-ok, raise_if-eq-ok, or_raise-eq-ok, pure-eq-ok}
use econmesh_api.Agreements.Model.{
  AgreementDocument, AgreementParticipant, ParticipantStatus, is_open, is_ordered, is_waiting,
  is_completed, is_rejected,
}
use econmesh_api.Agreements.World.{World}
use econmesh_api.Agreements.Access.{is_caller, find_participant, next_ordered_participant, first}
use econmesh_api.Agreements.Steps.{signer}

-- Every participant that is still to act comes at this place in the order or after it.
abbrev pub IsFirst : AgreementParticipant → List AgreementParticipant → Type 0
IsFirst p ps = All (λ q. is_waiting q.status ≡ true → p.order_index ≤ q.order_index) ps

-- No two participants have one identifier.
abbrev pub Distinct : List AgreementParticipant → Type 0
Distinct [] = Unit
Distinct (p ∷ ps) = All (λ q. (p.id == q.id) ≡ false) ps × Distinct ps

abbrev order : AgreementParticipant → ℕ
order p = p.order_index

abbrev waits : AgreementParticipant → Bool
waits p = is_waiting p.status

weaken_order :
    (n : AgreementParticipant) (s : List AgreementParticipant)
    → All (λ y. order n ≤ order y) s
    → IsFirst n s
weaken_order n [] h = tt
weaken_order n (q ∷ s) h = ((λ _. h.0), weaken_order n s h.1)

-- In a sorted list the first entry that waits comes before all others that wait.
first-IsFirst :
    (s : List AgreementParticipant) (n : AgreementParticipant)
    → IsSortedBy order s
    → first (filterb waits s) ≡ some n
    → IsFirst n s
first-IsFirst [] n h e = cc
first-IsFirst (q ∷ s) n h e = elim (Bool-cases (waits q)) [
  | inl w ↦
      let same : q ≡ n = some-injective _ _ (rw w at e) in
      subst (λ m. IsFirst m (q ∷ s)) same ((λ _. le_refl _), weaken_order q s h.0)
  | inr w ↦ ((λ w'. absurd (clash w w')), first-IsFirst s n h.1 (rw w at e))
]
  where
    clash : waits q ≡ false → waits q ≡ true → ⊥
    clash a b = cc

first-All :
    (P : AgreementParticipant → Type 0) (s : List AgreementParticipant) (n : AgreementParticipant)
    → All P s
    → first (filterb waits s) ≡ some n
    → P n
first-All P [] n h e = cc
first-All P (q ∷ s) n h e = elim (Bool-cases (waits q)) [
  | inl w ↦ subst P (some-injective _ _ (rw w at e)) h.0
  | inr w ↦ first-All P s n h.1 (rw w at e)
]

-- The next participant in the order comes before all others that are still to act.
next-IsFirst :
    (d : AgreementDocument) (n : AgreementParticipant)
    → next_ordered_participant d ≡ some n
    → IsFirst n d.participants
unfolding next_ordered_participant
next-IsFirst d n e =
    All-of-sort_by (λ q. is_waiting q.status ≡ true → n.order_index ≤ q.order_index) order
      d.participants
      (first-IsFirst (sort_by order d.participants) n (sort_by-IsSortedBy order d.participants) e)

-- The participant found is the only one with its identifier.
found_unique :
    (c : AgreementParticipant → Bool) (ps : List AgreementParticipant) (p : AgreementParticipant)
    → Distinct ps
    → findb c ps ≡ some p
    → All (λ q. (q.id == p.id) ≡ true → q ≡ p) ps
found_unique c [] p h e = tt
found_unique c (q ∷ ps) p h e = elim (Bool-cases (c q)) [
  | inl hit ↦
      let same : q ≡ p = some-injective _ _ (rw hit at e) in ((λ _. same), apart p same ps h.0)
  | inr miss ↦
      let later : findb c ps ≡ some p = rw miss at e in
      (
        (λ k. absurd (clash (findb-All (λ r. (q.id == r.id) ≡ false) c ps p h.0 later) k)),
        found_unique c ps p h.1 later,
      )
]
  where
    clash : {b : Bool} → b ≡ false → b ≡ true → ⊥
    clash a b = cc

    apart :
        (r : AgreementParticipant)
        → q ≡ r
        → (rs : List AgreementParticipant) → All (λ s. (q.id == s.id) ≡ false) rs
        → All (λ s. (s.id == r.id) ≡ true → s ≡ r) rs
    apart r same [] k = tt
    apart r same (s ∷ rs) k =
        ((λ m. absurd (differ (ap (λ z. z.id) same) k.0 m)), apart r same rs k.1)
      where
        differ : q.id ≡ r.id → (q.id == s.id) ≡ false → (s.id == r.id) ≡ true → ⊥
        differ a b c = ground arith

-- the test of the turn in `sign`
abbrev turn_of : AgreementDocument → AgreementParticipant → Bool
turn_of d p = elim (next_ordered_participant d) as (λ _. Bool) [
  | none ↦ false
  | some n ↦ n.id == p.id
]

passed_turn :
    (d : AgreementDocument) (p : AgreementParticipant)
    → turn_of d p ≡ true
    → (n : AgreementParticipant) × (next_ordered_participant d ≡ some n) × ((n.id == p.id) ≡ true)
passed_turn d p h = elim (Option-cases (next_ordered_participant d)) [
  | inl e ↦ absurd (never (rw (e, turn_of) at h))
  | inr (n, e) ↦ (n, e, rw (e, turn_of) at h)
]
  where
    never : false ≡ true → ⊥
    never k = cc

-- a participant whose turn it is comes first
turn-IsFirst :
    (d : AgreementDocument) (c : AgreementParticipant → Bool) (p : AgreementParticipant)
    → Distinct d.participants
    → findb c d.participants ≡ some p
    → turn_of d p ≡ true
    → IsFirst p d.participants
unfolding next_ordered_participant
turn-IsFirst d c p h e t =
    let (n, next, same_id) = passed_turn d p t in
    let unique : (n.id == p.id) ≡ true → n ≡ p =
      first-All (λ q. (q.id == p.id) ≡ true → q ≡ p) (sort_by order d.participants) n
        (All-sort_by (λ q. (q.id == p.id) ≡ true → q ≡ p) order d.participants
          (found_unique c d.participants p h e))
        next in
    subst (λ m. IsFirst m d.participants) (unique same_id) (next-IsFirst d n next)

still_waiting :
    (s : ParticipantStatus) → is_completed s ≡ false → is_rejected s ≡ false → is_waiting s ≡ true
still_waiting ParticipantStatus.pending a b = refl
still_waiting ParticipantStatus.viewed a b = refl
still_waiting ParticipantStatus.completed a b = cc
still_waiting ParticipantStatus.rejected a b = cc

may_pass : (ordered turn : Bool) → (ordered && not turn) ≡ false → ordered ≡ true → turn ≡ true
may_pass true true h o = refl
may_pass true false h o = cc
may_pass false turn h o = cc

-- Whom the guards of `sign` let through, where the participants of the agreement have distinct
-- identifiers: the agreement is open, the one who signs is the caller's participant and has neither
-- completed nor rejected it, in an ordered agreement nobody who is still to act comes before, and
-- nothing is written.
pub signer-in_turn :
    (user_id : ℕ) (email : Option Text) (d : AgreementDocument) (p : AgreementParticipant)
    (w u : World)
    → Distinct d.participants
    → signer user_id email d w ≡ (ok p, u)
    → (u ≡ w)
      × (is_open d.status ≡ true)
      × (find_participant d user_id email ≡ some p)
      × (is_waiting p.status ≡ true)
      × ((is_ordered d.signing_mode ≡ false) ⊎ IsFirst p d.participants)
unfolding signer find_participant
signer-in_turn user_id email d p w u distinct h =
    let (_, w1, r1, h1) = >>=-eq-ok _ _ w h in
    let (isopen, s1) = raise_if-eq-ok _ _ w r1 in
    let (q, w2, r2, h2) = >>=-eq-ok _ _ w1 h1 in
    let (found, s2) = or_raise-eq-ok _ _ w1 r2 in
    let (_, w3, r3, h3) = >>=-eq-ok _ _ w2 h2 in
    let (open_step, s3) = raise_if-eq-ok _ _ w2 r3 in
    let (_, w4, r4, h4) = >>=-eq-ok _ _ w3 h3 in
    let (unrefused, s4) = raise_if-eq-ok _ _ w3 r4 in
    let (_, w5, r5, h5) = >>=-eq-ok _ _ w4 h4 in
    let (turn, s5) = raise_if-eq-ok _ _ w4 r5 in
    let (same, s6) = pure-eq-ok q w5 h5 in
    (
      s6 ∙ s5 ∙ s4 ∙ s3 ∙ s2 ∙ s1,
      not-false isopen,
      found ∙ ap some same,
      subst (λ z. is_waiting z.status ≡ true) same (still_waiting q.status open_step unrefused),
      elim (Bool-cases (is_ordered d.signing_mode)) [
        | inl o ↦ inr (
            subst (λ z. IsFirst z d.participants) same
              (turn-IsFirst d (is_caller user_id email) q distinct found
                (may_pass (is_ordered d.signing_mode) (turn_of d q) turn o)))
        | inr o ↦ inl o
      ],
    )
