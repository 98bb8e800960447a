-- ===== src/Users/Cpf.antt =====
-- The check of a CPF, the Brazilian tax number of a person, in src/modules/users/schema.py.
-- `decimal` is the Unicode table of decimal digits, which `re` and `int` read.
pub mod Digits
mod Samples
use econmesh_api.Prelude.{
  ℕ, zero, suc, ◌+◌, ◌-◌, ◌*◌, ◌%◌, ◌≡◌, Bool, true, false, not, ◌&&◌, ◌||◌, if◌then◌else◌, Option,
  none, some, List, [], ◌∷◌, map, take, length, filterb, allb, ltb, ◌==◌, is_some, or_else,
}
use econmesh_api.Text.{Text}
use econmesh_api.Service.{Result, ok, err, unhandled}

abbrev pub Decimal : Type 0
Decimal = ℕ → Option ℕ

-- `_strip_non_digits`
abbrev pub strip_non_digits : Decimal → Text → Text
strip_non_digits decimal value = filterb (λ c. is_some (decimal c)) value

-- `[int(d) for d in digits]`
abbrev pub digit_values : Decimal → Text → List ℕ
digit_values decimal digits = map (λ c. or_else (decimal c) 0) digits

-- `digits[i]`, where there is one
abbrev pub digit_at : ℕ → List ℕ → ℕ
digit_at n [] = 0
digit_at zero (x ∷ xs) = x
digit_at (suc n) (x ∷ xs) = digit_at n xs

-- `digits == digits[0] * 11`, of eleven characters
abbrev pub is_repeated : Text → Bool
is_repeated [] = false
is_repeated (c ∷ s) = allb (λ d. d == c) s

-- `total`, with weights that fall by one from the first
abbrev pub weighted : ℕ → List ℕ → ℕ
weighted w [] = 0
weighted w (n ∷ ns) = n * w + weighted (w - 1) ns

-- `_calc_check(slice_len)`, on the slice
pub check_of : (slice_len : ℕ) → List ℕ → ℕ
check_of slice_len nums =
    let remainder = weighted (slice_len + 1) nums % 11 in
    if ltb remainder 2 then 0 else 11 - remainder

pub calc_check : (slice_len : ℕ) → List ℕ → ℕ
unfolding check_of
calc_check slice_len values = check_of slice_len (take slice_len values)

unfoldable pub is_valid_cpf : Decimal → Text → Bool
unfolding calc_check
is_valid_cpf decimal cpf =
    let digits = strip_non_digits decimal cpf in
    let values = digit_values decimal digits in
    if not (length digits == 11) || is_repeated digits
    then false
    else (calc_check 9 values == digit_at 9 values) && (calc_check 10 values == digit_at 10 values)

-- `_validate_cpf`
unfoldable pub validate_cpf : Decimal → Option Text → Result (Option Text)
unfolding is_valid_cpf
validate_cpf decimal none = ok none
validate_cpf decimal (some value) =
    let digits = strip_non_digits decimal value in
    if not (is_valid_cpf decimal digits) then err (unhandled "Invalid CPF.") else ok (some digits)
