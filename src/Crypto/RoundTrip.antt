-- ===== src/Crypto/RoundTrip.antt =====
-- Decryption undoes encryption, under what the packages document.
use econmesh_api.Prelude.{
  ℕ, ◌+◌, ◌≡◌, refl, false, some, List, ◌++◌, length, leb, arith, take-append, drop-append,
  length-append,
}
use econmesh_api.Text.{Text}
use econmesh_api.Service.{ok}
use econmesh_api.Crypto.{
  Packages, nonce_size, version_prefix, encrypt_string, decrypt_packed, decrypt_string,
}

-- what the packages document: a decoder undoes its encoder, AES-GCM decrypts what it encrypted under
-- the same key and nonce, and adds a tag of 16 bytes
pub record IsDocumented (p : Packages) : Type 0 where
  pub utf8_law : (s : Text) (b : List ℕ) → p.utf8_encode s ≡ some b → p.utf8_decode b ≡ some s
  pub aes_law :
      (key nonce bytes c : List ℕ)
      → p.aes_encrypt key nonce bytes ≡ some c
      → p.aes_decrypt key nonce c ≡ some bytes
  pub tag_law :
      (key nonce bytes c : List ℕ)
      → p.aes_encrypt key nonce bytes ≡ some c
      → length c ≡ length bytes + 16
  pub b64_law : (b : List ℕ) → p.b64decode (p.b64encode b) ≡ some b

-- the packed bytes of an encryption
decrypt_packed-append :
    (p : Packages) (key nonce c bytes : List ℕ) (s : Text)
    → length nonce ≡ 12
    → length c ≡ length bytes + 16
    → p.aes_decrypt key nonce c ≡ some bytes
    → p.utf8_decode bytes ≡ some s
    → decrypt_packed p key (nonce ++ c) ≡ ok s
unfolding decrypt_packed
decrypt_packed-append p key nonce c bytes s size tag aes utf8 =
    rw (long, take-append nonce_size nonce c size, drop-append nonce_size nonce c size, aes, utf8)
      refl
  where
    long : leb (length (nonce ++ c)) 12 ≡ false
    long = ground (arith, length-append nonce c)

-- Let the packages do what they document and os.urandom answer as many bytes as it was asked for. When
-- the text has a UTF-8 encoding that AES-GCM encrypts, encrypt_string returns a blob, and
-- decrypt_string under the same key returns the text from it.
pub decrypt_string-encrypt_string :
    (p : Packages) (key : List ℕ) (urandom : ℕ → List ℕ) (s : Text) (bytes c : List ℕ)
    → IsDocumented p
    → ((n : ℕ) → length (urandom n) ≡ n)
    → p.utf8_encode s ≡ some bytes
    → p.aes_encrypt key (urandom 12) bytes ≡ some c
    → (blob : Text) × (encrypt_string p key urandom s ≡ ok blob)
      × (decrypt_string p key blob ≡ ok s)
unfolding encrypt_string decrypt_string
decrypt_string-encrypt_string p key urandom s bytes c laws size encoded encrypted = (
  version_prefix ++ p.b64encode (urandom 12 ++ c),
  rw (encoded, encrypted) refl,
  rw (laws.b64_law (urandom 12 ++ c)) (
      decrypt_packed-append p key (urandom 12) c bytes s (size 12)
        (laws.tag_law key (urandom 12) bytes c encrypted)
        (laws.aes_law key (urandom 12) bytes c encrypted) (laws.utf8_law s bytes encoded)),
)
