-- ===== src/Users/Cpf/Samples.antt =====
-- A CPF with and without its punctuation.
use econmesh_api.Prelude.{◌-◌, ◌≡◌, ◌&&◌, refl, true, none, some, leb, length, if◌then◌else◌}
use econmesh_api.Text.{Text, codes}
use econmesh_api.Service.{ok}
use econmesh_api.Users.Cpf.{Decimal, strip_non_digits, digit_values, is_valid_cpf, validate_cpf}
use econmesh_api.Users.Cpf.Digits.{is_valid_cpf_unique, validate_cpf_idem}

-- the digits of ASCII
abbrev ascii : Decimal
ascii c = if leb 48 c && leb c 57 then some (c - 48) else none

abbrev written : Text
written = codes "529.982.247-25"

written_run : validate_cpf ascii (some written) ≡ ok (some (codes "52998224725"))
unfolding validate_cpf
written_run = refl

validity : is_valid_cpf ascii written ≡ true
unfolding is_valid_cpf
validity = refl

validity_bare : is_valid_cpf ascii (codes "52998224725") ≡ true
unfolding is_valid_cpf
validity_bare = refl

validate_cpf_idem_example :
    (codes "52998224725" ≡ strip_non_digits ascii written)
    × (length (codes "52998224725") ≡ 11)
    × (validate_cpf ascii (some (codes "52998224725")) ≡ ok (some (codes "52998224725")))
validate_cpf_idem_example = validate_cpf_idem ascii written (codes "52998224725") written_run

is_valid_cpf_unique_example :
    digit_values ascii (strip_non_digits ascii written)
    ≡ digit_values ascii (strip_non_digits ascii (codes "52998224725"))
is_valid_cpf_unique_example =
    is_valid_cpf_unique ascii written (codes "52998224725") validity validity_bare refl
