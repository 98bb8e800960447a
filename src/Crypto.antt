-- ===== src/Crypto.antt =====
-- The encryption of stored fields, src/core/crypto.py. Bytes and code points are numbers. The
-- packages that the module calls (AES-GCM, base64, the UTF-8 codec, os.urandom) are parameters; a call
-- of theirs that raises answers `none`.
pub mod RoundTrip
mod Samples
use econmesh_api.Prelude.{
  ℕ, ◌≡◌, Bool, if◌then◌else◌, Option, none, some, List, ◌++◌, String, take, drop, length, leb,
}
use econmesh_api.Text.{Text, codes, eq_text}
use econmesh_api.Service.{Result, ok, err, unhandled}

pub record Packages : Type 0 where
  -- `plaintext.encode("utf-8")` and `data.decode("utf-8")`
  pub utf8_encode : Text → Option (List ℕ)
  pub utf8_decode : List ℕ → Option Text
  -- `AESGCM(key).encrypt(nonce, data, None)` and `AESGCM(key).decrypt(nonce, data, None)`
  pub aes_encrypt : (key nonce bytes : List ℕ) → Option (List ℕ)
  pub aes_decrypt : (key nonce bytes : List ℕ) → Option (List ℕ)
  -- `base64.b64encode(data).decode("ascii")` and `base64.b64decode(s, validate=True)`
  pub b64encode : List ℕ → Text
  pub b64decode : Text → Option (List ℕ)

-- `_NONCE_SIZE`
abbrev pub nonce_size : ℕ
nonce_size = 12

-- `_VERSION_PREFIX`
abbrev pub version_prefix : Text
version_prefix = codes "v1:"

-- what a call of a package answers, for the rest of a function
abbrev pub or_unhandled : {A B : Type 0} → Option A → String → (A → Result B) → Result B
or_unhandled none message f = err (unhandled message)
or_unhandled (some a) message f = f a

-- `s.startswith(prefix)`
abbrev pub startswith : Text → Text → Bool
startswith prefix s = eq_text (take (length prefix) s) prefix

-- `key` is the key of the settings, and `urandom` what `os.urandom` answers in this call
unfoldable pub encrypt_string :
    Packages → (key : List ℕ) → (urandom : ℕ → List ℕ) → Text → Result Text
encrypt_string p key urandom plaintext =
    or_unhandled (p.utf8_encode plaintext) "UnicodeEncodeError" λ bytes.
      or_unhandled (p.aes_encrypt key (urandom nonce_size) bytes) "OverflowError"
        λ ciphertext. ok (version_prefix ++ p.b64encode (urandom nonce_size ++ ciphertext))

-- `packed[:_NONCE_SIZE], packed[_NONCE_SIZE:]`, decrypted
unfoldable pub decrypt_packed : Packages → (key packed : List ℕ) → Result Text
decrypt_packed p key packed =
    if leb (length packed) nonce_size
    then err (unhandled "Ciphertext is truncated.")
    else or_unhandled (p.aes_decrypt key (take nonce_size packed) (drop nonce_size packed))
        "InvalidTag"
        λ bytes. or_unhandled (p.utf8_decode bytes) "UnicodeDecodeError" λ plaintext. ok plaintext

unfoldable pub decrypt_string : Packages → (key : List ℕ) → Text → Result Text
unfolding decrypt_packed
decrypt_string p key blob =
    if startswith version_prefix blob
    then or_unhandled (p.b64decode (drop (length version_prefix) blob)) "binascii.Error"
        (decrypt_packed p key)
    else err (unhandled "Unsupported ciphertext version.")
