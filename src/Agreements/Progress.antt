-- ===== src/Agreements/Progress.antt =====
-- The numbers of `progress` (src/modules/agreements/service.py).
use econmesh_api.Prelude.{
  ℕ, zero, suc, ◌<◌, ◌+◌, ◌*◌, ◌%◌, ◌≤◌, ◌≡◌, refl, Bool, true, false, List, [], ◌∷◌, arith, ltb,
  ◌==◌, if◌then◌else◌, length, countb, length-filterb, countb_mono, countb-le, Bool-cases, inl, inr,
}
use native.Mathlib.Nat.{div-le_of_le-mul, div-add-mod, mul-le-mul_right, le-mul_of_pos_right}
use econmesh_api.Agreements.Model.{
  AgreementDocument, AgreementParticipant, ParticipantStatus, is_completed, is_waiting, is_rejected,
  is_viewed,
}
use econmesh_api.Agreements.Percent.{round_half_even, scale, round_percent}
use econmesh_api.Agreements.Access.{progress_of}
use econmesh_api.Agreements.Queries.{progress_response}

abbrev one_if : Bool → ℕ
one_if true = 1
one_if false = 0

-- a participant has completed, refused, or is still to act, and only one of these
one_state :
    (s : ParticipantStatus)
    → one_if (is_completed s) + one_if (is_waiting s) + one_if (is_rejected s) ≡ 1
one_state ParticipantStatus.pending = refl
one_state ParticipantStatus.viewed = refl
one_state ParticipantStatus.completed = refl
one_state ParticipantStatus.rejected = refl

sum_of_states :
    (ps : List AgreementParticipant)
    → countb (λ p. is_completed p.status) ps
        + countb (λ p. is_waiting p.status) ps
        + countb (λ p. is_rejected p.status) ps
      ≡ length ps
sum_of_states [] = refl
sum_of_states (p ∷ ps) = go p.status _ _ _ (sum_of_states ps)
  where
    go :
        (s : ParticipantStatus)
        → (a b c : ℕ) → a + b + c ≡ length ps
        → (if is_completed s then suc a else a)
            + (if is_waiting s then suc b else b)
            + (if is_rejected s then suc c else c)
          ≡ suc (length ps)
    go ParticipantStatus.pending a b c h = omega (arith, h)
    go ParticipantStatus.viewed a b c h = omega (arith, h)
    go ParticipantStatus.completed a b c h = omega (arith, h)
    go ParticipantStatus.rejected a b c h = omega (arith, h)

-- a quotient that reaches the bound leaves no remainder, so nothing is rounded up
rounded-le :
    (q r a t c : ℕ)
    → 0 < t
    → t * q + r ≡ a
    → a ≤ t * c
    → q ≤ c
    → (if ltb (2 * r) t
        then q
        else if ltb t (2 * r)
        then q + 1
        else if q % 2 == 0
        then q
        else q + 1)
      ≤ c
rounded-le q r a t c pos e h k = elim (Bool-cases (ltb q c)) [
  | inl less ↦ ground arith
  | inr full ↦ rw (none_left full, q_full full) (ground arith)
]
  where
    q_full : ltb q c ≡ false → q ≡ c
    q_full f = ground arith

    none_left : ltb q c ≡ false → r ≡ 0
    none_left full = let e' : t * c + r ≡ a = rw (q_full full) at e in omega arith

round_half_even-le : (a b c : ℕ) → 0 < b → a ≤ b * c → round_half_even a b ≤ c
unfolding round_half_even
round_half_even-le a b c pos h = rounded-le _ _ a b c pos (div-add-mod a b) h (div-le_of_le-mul b h)

scale-pos : (n signed total g : ℕ) → 0 < g → 0 < scale n signed total g
unfolding scale
scale-pos zero signed total g h = h
scale-pos (suc n) signed total g h = ground (arith, scale-pos n signed total (2 * g) (omega arith))

-- the steps of `scale` are enough: of n steps from g on, when n times 2 ^ 45 and g are enough
scale-enough :
    (n signed total g : ℕ)
    → 0 < signed
    → 35184372088832 ≤ g
    → total * 35184372088832 ≤ g + n * 35184372088832
    → total * 4503599627370496 ≤ signed * (128 * scale n signed total g)
unfolding scale
scale-enough zero signed total g pos low h = omega (arith, le-mul_of_pos_right (128 * g) pos)
scale-enough (suc n) signed total g pos low h =
    let deeper = scale-enough n signed total (2 * g) pos (omega arith) (omega arith) in
    ground (arith, deeper)

round_percent-le :
    (signed total : ℕ) → 0 < total → signed ≤ total → round_percent signed total ≤ 100
unfolding round_percent
round_percent-le signed total pos h =
    let g = scale total signed total 35184372088832 in
    let m = round_half_even (signed * (128 * g)) total in
    let is_pos : 0 < g = scale-pos total signed total 35184372088832 (omega arith) in
    let small : m ≤ 128 * g =
      round_half_even-le (signed * (128 * g)) total (128 * g) pos (mul-le-mul_right (128 * g) h) in
    elim (Bool-cases (ltb (m * 100) 576460752303423488)) [
      | inl e ↦
          rw e (finish g m 64 (200 * g) is_pos (omega arith) (omega (arith, small)) (omega arith))
      | inr e ↦
          rw e (finish g m 128 (100 * g) is_pos (omega arith) (omega (arith, small)) (omega arith))
    ]
  where
    finish :
        (g m e c : ℕ)
        → 0 < g
        → 0 < e
        → m * 100 ≤ e * c
        → c * e ≤ 128 * g * 100
        → round_half_even (round_half_even (m * 100) e * e) (128 * g) ≤ 100
    finish g m e c pos_g pos_e fits whole =
        let part : round_half_even (m * 100) e ≤ c = round_half_even-le (m * 100) e c pos_e fits in
        round_half_even-le _ (128 * g) 100 (omega arith)
          (omega (arith, mul-le-mul_right e part, whole))

viewed-IsWaiting : (s : ParticipantStatus) → is_viewed s ≡ true → is_waiting s ≡ true
viewed-IsWaiting ParticipantStatus.viewed h = refl
viewed-IsWaiting ParticipantStatus.pending h = cc
viewed-IsWaiting ParticipantStatus.completed h = cc
viewed-IsWaiting ParticipantStatus.rejected h = cc

percent-le : (d : AgreementDocument) → (progress_of d).2 ≤ 100
unfolding progress_of
percent-le d = elim (Bool-cases (length d.participants == 0)) [
  | inl e ↦ rw e (omega arith)
  | inr e ↦ rw e (round_percent-le _ _ (ground arith) (countb-le _ d.participants))
]

-- The numbers of a progress answer fit together: those who completed, who are still to act and who
-- refused make up all participants, those who have only viewed are among those still to act, and
-- the percentage is at most 100.
pub progress_response_lem :
    (d : AgreementDocument)
    → ((progress_response d).completed
          + (progress_response d).pending
          + (progress_response d).rejected
        ≡ (progress_response d).total_participants)
      × ((progress_response d).viewed ≤ (progress_response d).pending)
      × ((progress_response d).progress_percent ≤ 100)
unfolding progress_response progress_of
progress_response_lem d =
    rw
      (
        length-filterb (λ p. is_waiting p.status) d.participants,
        length-filterb (λ p. is_rejected p.status) d.participants,
        length-filterb (λ p. is_viewed p.status) d.participants,
      )
      (
        sum_of_states d.participants,
        countb_mono (λ p. is_viewed p.status) (λ p. is_waiting p.status) d.participants
            (λ p. viewed-IsWaiting p.status),
        percent-le d,
      )
