-- ===== src/Crypto.antt =====
-- crates/core/src/crypto.rs: device keys in their text form, manifest signatures, nonces.
-- The `base64`, `hex`, `ed25519-dalek` and `p256` crates are a parameter: a record of functions,
-- with the documented behaviour that the code relies on in a record of laws.
pub mod Keys
pub mod Toy
pub mod Tests
use sealedge.Base.{
  ℕ, ◌+◌, ◌-◌, Bytes, Text, str, Bool, true, false, Option, none, some, ◌++◌, length, drop, Result,
  ok, err, ensure, map_err, starts_with, strip_prefix, ◌==◌, not, if◌then◌else◌, ◌>>=◌, ◌>>◌, ◌≡◌,
}

-- The crates. An error is the text that its `Display` gives.
pub record Crates : Type 0 where
  pub base64_encode : Bytes → Text
  pub base64_decode : Text → Result Text Bytes
  pub hex_decode : Text → Result Text Bytes
  -- `SigningKey::from_bytes(secret).verifying_key().to_bytes()`
  pub ed25519_public : Bytes → Bytes
  -- `SigningKey::from_bytes(secret).sign(message).to_bytes()`
  pub ed25519_sign : Bytes → Bytes → Bytes
  -- `VerifyingKey::from_bytes`; a key is given by its bytes.
  pub ed25519_key : Bytes → Result Text Bytes
  -- `verifying_key.verify(message, signature).is_ok()`
  pub ed25519_verify : Bytes → Bytes → Bytes → Bool
  pub p256_key : Bytes → Result Text Bytes
  pub p256_signature : Bytes → Result Text Bytes
  pub p256_verify : Bytes → Bytes → Bytes → Bool

-- What the crates document: decoding inverts encoding, sizes, and a signature verifies.
pub record CratesLaws (c : Crates) : Type 0 where
  pub decode-encode : (b : Bytes) → c.base64_decode (c.base64_encode b) ≡ ok b
  pub length-public : (secret : Bytes) → length (c.ed25519_public secret) ≡ 32
  pub length-sign : (secret message : Bytes) → length (c.ed25519_sign secret message) ≡ 64
  pub key-public :
      (secret : Bytes) → c.ed25519_key (c.ed25519_public secret) ≡ ok (c.ed25519_public secret)
  pub verify-sign :
      (secret message : Bytes)
      → c.ed25519_verify (c.ed25519_public secret) message (c.ed25519_sign secret message) ≡ true

pub data CryptoError : Type 0 where
  invalid_key_format invalid_signature_format encryption_failed decryption_failed :
      Text → CryptoError
  signature_verification_failed : CryptoError
  key_generation_failed invalid_nonce_format : Text → CryptoError

pub record DeviceKeypair : Type 0 where
  pub public : Text
  pub secret : Bytes

abbrev pub ed25519_prefix : Text
ed25519_prefix = str "ed25519:"

abbrev pub ecdsa_prefix : Text
ecdsa_prefix = str "ecdsa-p256:"

abbrev pub xchacha20_prefix : Text
xchacha20_prefix = str "xchacha20:"

module _ (c : Crates) where
  unfoldable pub export_secret : DeviceKeypair → Text
  export_secret kp = ed25519_prefix ++ c.base64_encode kp.secret

  secret_bytes_of : Text → Option Text → Result CryptoError Bytes
  secret_bytes_of secret_str (some b64_part) =
      map_err (λ e. invalid_key_format (str "Invalid base64: " ++ e)) (c.base64_decode b64_part)
  secret_bytes_of secret_str none =
      if length secret_str == 64
      then map_err (λ e. invalid_key_format (str "Invalid hex: " ++ e)) (c.hex_decode secret_str)
      else err (invalid_key_format (str "Must be ed25519:BASE64 or 64-char hex"))

  unfoldable pub import_secret : Text → Result CryptoError DeviceKeypair
  unfolding secret_bytes_of
  import_secret secret_str = do
    secret_bytes ← secret_bytes_of secret_str (strip_prefix secret_str ed25519_prefix)
    ensure (length secret_bytes == 32) (invalid_key_format (str "Secret key must be 32 bytes"))
    ok (record {
      public = ed25519_prefix ++ c.base64_encode (c.ed25519_public secret_bytes);
      secret = secret_bytes;
    })

  unfoldable pub from_public : Text → Result CryptoError Bytes
  from_public public_str =
      if not (starts_with public_str ed25519_prefix)
      then err (invalid_key_format (str "Public key must start with 'ed25519:'"))
      else do
        pub_bytes ←
            map_err (λ e. invalid_key_format (str "Invalid base64: " ++ e))
              (c.base64_decode (drop 8 public_str))
        ensure (length pub_bytes == 32) (invalid_key_format (str "Public key must be 32 bytes"))
        map_err (λ e. invalid_key_format (str "Invalid public key: " ++ e))
            (c.ed25519_key pub_bytes)

  unfoldable pub sign_manifest : DeviceKeypair → Bytes → Result CryptoError Text
  sign_manifest kp canonical_bytes =
      ok (ed25519_prefix ++ c.base64_encode (c.ed25519_sign kp.secret canonical_bytes))

  strip_or : Text → CryptoError → Option Text → Result CryptoError Text
  strip_or s e none = err e
  strip_or s e (some rest) = ok rest

  unfoldable pub verify_manifest_ecdsa_p256 : Text → Bytes → Text → Result CryptoError Bool
  unfolding strip_or
  verify_manifest_ecdsa_p256 device_public canonical_bytes signature_str = do
    pub_b64 ←
        strip_or device_public
          (invalid_key_format (str "ECDSA P-256 public key must start with 'ecdsa-p256:'"))
          (strip_prefix device_public ecdsa_prefix)
    pub_bytes ←
        map_err (λ e. invalid_key_format (str "Invalid base64 in public key: " ++ e))
          (c.base64_decode pub_b64)
    verifying_key ←
        map_err (λ e. invalid_key_format (str "Invalid P-256 public key: " ++ e))
          (c.p256_key pub_bytes)
    sig_b64 ←
        strip_or signature_str
          (invalid_signature_format (str "ECDSA P-256 signature must start with 'ecdsa-p256:'"))
          (strip_prefix signature_str ecdsa_prefix)
    sig_bytes ←
        map_err (λ e. invalid_signature_format (str "Invalid base64 in signature: " ++ e))
          (c.base64_decode sig_b64)
    signature ←
        map_err (λ e. invalid_signature_format (str "Invalid P-256 DER signature: " ++ e))
          (c.p256_signature sig_bytes)
    ok (c.p256_verify verifying_key canonical_bytes signature)

  verify_ed25519 : Text → Bytes → Text → Result CryptoError Bool
  verify_ed25519 device_public canonical_bytes b64_part = do
    verifying_key ← from_public device_public
    sig_bytes ←
        map_err (λ e. invalid_signature_format (str "Invalid base64: " ++ e))
          (c.base64_decode b64_part)
    ensure (length sig_bytes == 64)
        (invalid_signature_format (str "Ed25519 signature must be 64 bytes"))
    ok (c.ed25519_verify verifying_key canonical_bytes sig_bytes)

  verify_by_prefix : Text → Bytes → Text → Option Text → Result CryptoError Bool
  verify_by_prefix device_public canonical_bytes signature_str (some b64_part) =
      verify_ed25519 device_public canonical_bytes b64_part
  verify_by_prefix device_public canonical_bytes signature_str none =
      if starts_with signature_str ecdsa_prefix
      then verify_manifest_ecdsa_p256 device_public canonical_bytes signature_str
      else err (
          invalid_signature_format
            (str "Unsupported signature algorithm. Expected ed25519: or ecdsa-p256: prefix"))

  unfoldable pub verify_manifest : Text → Bytes → Text → Result CryptoError Bool
  unfolding verify_by_prefix verify_ed25519
  verify_manifest device_public canonical_bytes signature_str =
      verify_by_prefix device_public canonical_bytes signature_str
        (strip_prefix signature_str ed25519_prefix)

  unfoldable pub format_nonce : Bytes → Text
  format_nonce nonce = xchacha20_prefix ++ c.base64_encode nonce

  unfoldable pub parse_nonce : Text → Result CryptoError Bytes
  parse_nonce nonce_str =
      if not (starts_with nonce_str xchacha20_prefix)
      then err (invalid_nonce_format (str "Nonce must start with 'xchacha20:'"))
      else do
        nonce_bytes ←
            map_err (λ e. invalid_nonce_format (str "Invalid base64: " ++ e))
              (c.base64_decode (drop 10 nonce_str))
        ensure (length nonce_bytes == 24) (invalid_nonce_format (str "Nonce must be 24 bytes"))
        ok nonce_bytes
