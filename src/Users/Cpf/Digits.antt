-- ===== src/Users/Cpf/Digits.antt =====
-- What an accepted CPF is.
use econmesh_api.Prelude.{
  ℕ, zero, suc, ◌≡◌, ◌<◌, refl, sym, ap, ◌∙◌, Bool, true, false, not, ◌&&◌, ◌||◌, if◌then◌else◌,
  Option, some, List, [], ◌∷◌, ◌++◌, take, length, length-map, ◌==◌, arith, take-all,
}
use mathlib.Core.Path.{subst}
use econmesh_api.Text.{Text}
use econmesh_api.Service.{Result, ok, err, unhandled}
use econmesh_api.Users.Cpf.{
  Decimal, strip_non_digits, digit_values, digit_at, check_of, calc_check, is_valid_cpf,
  validate_cpf,
}

-- the characters that a filter kept pass it again
strip_non_digits_idem :
    (decimal : Decimal) (s : Text)
    → strip_non_digits decimal (strip_non_digits decimal s) ≡ strip_non_digits decimal s
strip_non_digits_idem decimal [] = refl
strip_non_digits_idem decimal (c ∷ s) = ground (arith, strip_non_digits_idem decimal s)

take-suc :
    (n : ℕ) (xs : List ℕ) → n < length xs → take (suc n) xs ≡ take n xs ++ (digit_at n xs ∷ [])
take-suc n [] h = absurd (omega arith)
take-suc zero (x ∷ xs) h = refl
take-suc (suc n) (x ∷ xs) h = ap (λ ys. x ∷ ys) (take-suc n xs (omega arith))

-- nine digits with the two check digits that they call for
abbrev pub with_checks : List ℕ → List ℕ
with_checks nums = let first = nums ++ (check_of 9 nums ∷ []) in first ++ (check_of 10 first ∷ [])

-- eleven digits whose last two are as calculated
calc_check-with_checks :
    (values : List ℕ)
    → length values ≡ 11
    → calc_check 9 values ≡ digit_at 9 values
    → calc_check 10 values ≡ digit_at 10 values
    → values ≡ with_checks (take 9 values)
unfolding calc_check
calc_check-with_checks values size nine ten =
    sym (take-all 11 values (omega arith))
    ∙ take-suc 10 values (omega arith)
    ∙ ap (λ d. take 10 values ++ (d ∷ [])) (sym ten)
    ∙ ap (λ xs. xs ++ (check_of 10 xs ∷ []))
        (take-suc 9 values (omega arith) ∙ ap (λ d. take 9 values ++ (d ∷ [])) (sym nine))

-- what the check leaves
is_valid_cpf_parts :
    (decimal : Decimal) (s : Text)
    → is_valid_cpf decimal s ≡ true
    → (length (strip_non_digits decimal s) ≡ 11)
      × (calc_check 9 (digit_values decimal (strip_non_digits decimal s))
          ≡ digit_at 9 (digit_values decimal (strip_non_digits decimal s)))
      × (calc_check 10 (digit_values decimal (strip_non_digits decimal s))
          ≡ digit_at 10 (digit_values decimal (strip_non_digits decimal s)))
unfolding is_valid_cpf
is_valid_cpf_parts decimal s h = go _ _ _ _ _ _ h
  where
    go :
        (n : ℕ) (b : Bool) (k l p q : ℕ)
        → (if not (n == 11) || b then false else (k == l) && (p == q)) ≡ true
        → (n ≡ 11) × (k ≡ l) × (p ≡ q)
    go n b k l p q e = (ground arith, ground arith, ground arith)

-- Two accepted CPFs with the same first nine digits have the same eleven digits.
pub is_valid_cpf_unique :
    (decimal : Decimal) (s t : Text)
    → is_valid_cpf decimal s ≡ true
    → is_valid_cpf decimal t ≡ true
    → take 9 (digit_values decimal (strip_non_digits decimal s))
      ≡ take 9 (digit_values decimal (strip_non_digits decimal t))
    → digit_values decimal (strip_non_digits decimal s)
      ≡ digit_values decimal (strip_non_digits decimal t)
is_valid_cpf_unique decimal s t hs ht same = own s hs ∙ ap with_checks same ∙ sym (own t ht)
  where
    own :
        (u : Text)
        → is_valid_cpf decimal u ≡ true
        → digit_values decimal (strip_non_digits decimal u)
          ≡ with_checks (take 9 (digit_values decimal (strip_non_digits decimal u)))
    own u h =
        let parts = is_valid_cpf_parts decimal u h in
        calc_check-with_checks _ (length-map _ (strip_non_digits decimal u) ∙ parts.0) parts.1
          parts.2

-- digits that pass are accepted as they are
validate_cpf_digits :
    (decimal : Decimal) (digits : Text)
    → strip_non_digits decimal digits ≡ digits
    → is_valid_cpf decimal digits ≡ true
    → (length digits ≡ 11) × (validate_cpf decimal (some digits) ≡ ok (some digits))
unfolding validate_cpf
validate_cpf_digits decimal digits bare valid = (
  ap length (sym bare) ∙ (is_valid_cpf_parts decimal digits valid).0,
  ap (λ d. if not (is_valid_cpf decimal d) then err (unhandled "Invalid CPF.") else ok (some d))
        bare
      ∙ ap (λ b. if not b then err (unhandled "Invalid CPF.") else ok (some digits)) valid,
)

-- When a CPF is accepted, what is stored are its digits, eleven of them, and sent again it is accepted
-- and stored as it is.
pub validate_cpf_idem :
    (decimal : Decimal) (value result : Text)
    → validate_cpf decimal (some value) ≡ ok (some result)
    → (result ≡ strip_non_digits decimal value)
      × (length result ≡ 11)
      × (validate_cpf decimal (some result) ≡ ok (some result))
unfolding validate_cpf
validate_cpf_idem decimal value result h =
    let (valid, same) = passed _ _ h in
    let digits = strip_non_digits decimal value in
    let rest =
      subst (λ r. (length r ≡ 11) × (validate_cpf decimal (some r) ≡ ok (some r))) same
        (validate_cpf_digits decimal digits (strip_non_digits_idem decimal value) valid) in
    (sym same, rest.0, rest.1)
  where
    value_of : Result (Option Text) → Text
    value_of (ok (some d)) = d
    value_of _ = []

    passed :
        (b : Bool) (d : Text) {r : Text}
        → (if not b then err (unhandled "Invalid CPF.") else ok (some d)) ≡ ok (some r)
        → (b ≡ true) × (d ≡ r)
    passed true d e = (refl, ap value_of e)
    passed false d e = cc
