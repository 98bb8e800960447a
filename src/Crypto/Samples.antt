-- ===== src/Crypto/Samples.antt =====
-- A text encrypted with a toy cipher, which only prepends a tag.
use econmesh_api.Prelude.{
  ℕ, zero, suc, ◌≡◌, refl, ap, sym, ◌∙◌, some, List, [], ◌∷◌, ◌++◌, drop, length, arith,
}
use mathlib.Core.Option.{some-injective}
use econmesh_api.Text.{Text, codes}
use econmesh_api.Service.{ok}
use econmesh_api.Crypto.{Packages, encrypt_string, decrypt_string}
use econmesh_api.Crypto.RoundTrip.{IsDocumented, decrypt_string-encrypt_string}

abbrev zeros : ℕ → List ℕ
zeros zero = []
zeros (suc n) = 0 ∷ zeros n

abbrev toy : Packages
toy = record {
  utf8_encode = λ s. some s;
  utf8_decode = λ b. some b;
  aes_encrypt = λ key nonce bytes. some (zeros 16 ++ bytes);
  aes_decrypt = λ key nonce c. some (drop 16 c);
  b64encode = λ b. b;
  b64decode = λ s. some s;
}

length-zeros : (n : ℕ) → length (zeros n) ≡ n
length-zeros zero = refl
length-zeros (suc n) = ap suc (length-zeros n)

toy-IsDocumented : IsDocumented toy
toy-IsDocumented = record {
  utf8_law = λ s b h. sym h;
  aes_law = λ key nonce bytes c h. ap (λ c. some (drop 16 c)) (sym (some-injective _ _ h));
  tag_law = λ key nonce bytes c h. ap length (sym (some-injective _ _ h)) ∙ omega arith;
  b64_law = λ b. refl;
}

decrypt_string-encrypt_string_example :
    (blob : Text) × (encrypt_string toy [] zeros (codes "123") ≡ ok blob)
    × (decrypt_string toy [] blob ≡ ok (codes "123"))
decrypt_string-encrypt_string_example =
    decrypt_string-encrypt_string toy [] zeros (codes "123") (codes "123") (zeros 16 ++ codes "123")
      toy-IsDocumented length-zeros refl refl
