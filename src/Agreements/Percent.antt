-- ===== src/Agreements/Percent.antt =====
-- The percentage of `_progress` (src/modules/agreements/service.py): `int(round((signed / total) * 100))`,
-- in double precision, as Python computes it. A double is a significand below 2 ^ 53 over a power of two.
use econmesh_api.Prelude.{ℕ, zero, suc, ◌+◌, ◌*◌, ◌/◌, ◌%◌, ltb, leb, ◌==◌, if◌then◌else◌}

-- `a / b` rounded to a whole number, halves to the even one
unfoldable pub round_half_even : ℕ → ℕ → ℕ
round_half_even a b =
    let q = a / b in
    let r = a % b in
    if ltb (2 * r) b then q else if ltb b (2 * r) then q + 1 else if q % 2 == 0 then q else q + 1

-- The power of two, as a multiple of 128, that brings the quotient to at least 2 ^ 52. It is doubled
-- from 2 ^ 45 on; as the quotient is at least 1 / total, total steps are enough.
unfoldable pub scale : (fuel signed total g : ℕ) → ℕ
scale zero signed total g = g
scale (suc n) signed total g =
    let more = scale n signed total (2 * g) in
    if leb (total * 4503599627370496) (signed * (128 * g)) then g else more

-- the product with 100, whose significand loses six or seven bits
abbrev pub dropped_bits : ℕ → ℕ
dropped_bits m = if ltb (m * 100) 576460752303423488 then 64 else 128

unfoldable pub round_percent : ℕ → ℕ → ℕ
unfolding round_half_even scale
round_percent signed total =
    let g = scale total signed total 35184372088832 in
    let m = round_half_even (signed * (128 * g)) total in
    let e = dropped_bits m in round_half_even (round_half_even (m * 100) e * e) (128 * g)
