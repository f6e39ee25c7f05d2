-- ===== src/Format.antt =====
-- crates/core/src/format.rs: the binary envelope's header, its algorithm numbers, and the
-- associated data of a chunk. A byte array is a list; its length stands in `IsHeader`.
pub mod Header
pub mod Reencode
pub mod Aad
pub mod Migration
pub mod Tests
use sealedge.Base.{
  ℕ, zero, suc, ◌+◌, ◌-◌, ◌*◌, ◌/◌, ◌%◌, ◌^◌, ◌<◌, ◌≡◌, List, [], ◌∷◌, ◌++◌, Bytes, Text, str, Bool,
  Option, decimal, length, take, drop, replicate, All, Result, ok, err, ensure, map_err, ◌>>=◌,
  ◌>>◌, ◌==◌, if◌then◌else◌,
}

abbrev pub header_len : ℕ
header_len = 66

pub data AeadAlgorithm : Type 0 where
  aes256_gcm : AeadAlgorithm
  chacha20_poly1305 : AeadAlgorithm
  aes256_siv : AeadAlgorithm

pub data SignatureAlgorithm : Type 0 where
  ed25519 : SignatureAlgorithm
  ecdsa_p256 : SignatureAlgorithm
  ecdsa_p384 : SignatureAlgorithm
  rsa_pss2048 : SignatureAlgorithm
  rsa_pss4096 : SignatureAlgorithm
  dilithium3 : SignatureAlgorithm
  falcon512 : SignatureAlgorithm

pub data HashAlgorithm : Type 0 where
  blake3 : HashAlgorithm
  sha256 : HashAlgorithm
  sha384 : HashAlgorithm
  sha512 : HashAlgorithm
  sha3_256 : HashAlgorithm
  sha3_512 : HashAlgorithm

pub data KdfAlgorithm : Type 0 where
  pbkdf2_sha256 : KdfAlgorithm
  argon2id : KdfAlgorithm
  scrypt : KdfAlgorithm
  hkdf : KdfAlgorithm

-- An `anyhow` error: the context, then the cause.
pub record FormatError : Type 0 where
  pub context : Text
  pub cause : Text

unfoldable pub aead_algorithm : ℕ → Result Text AeadAlgorithm
aead_algorithm value =
    if value == 1
    then ok aes256_gcm
    else if value == 2
    then ok chacha20_poly1305
    else if value == 3
    then ok aes256_siv
    else err (str "Unsupported AEAD algorithm: " ++ decimal value)

unfoldable pub signature_algorithm : ℕ → Result Text SignatureAlgorithm
signature_algorithm value =
    if value == 1
    then ok ed25519
    else if value == 2
    then ok ecdsa_p256
    else if value == 3
    then ok ecdsa_p384
    else if value == 4
    then ok rsa_pss2048
    else if value == 5
    then ok rsa_pss4096
    else if value == 6
    then ok dilithium3
    else if value == 7
    then ok falcon512
    else err (str "Unsupported signature algorithm: " ++ decimal value)

unfoldable pub hash_algorithm : ℕ → Result Text HashAlgorithm
hash_algorithm value =
    if value == 1
    then ok blake3
    else if value == 2
    then ok sha256
    else if value == 3
    then ok sha384
    else if value == 4
    then ok sha512
    else if value == 5
    then ok sha3_256
    else if value == 6
    then ok sha3_512
    else err (str "Unsupported hash algorithm: " ++ decimal value)

unfoldable pub kdf_algorithm : ℕ → Result Text KdfAlgorithm
kdf_algorithm value =
    if value == 1
    then ok pbkdf2_sha256
    else if value == 2
    then ok argon2id
    else if value == 3
    then ok scrypt
    else if value == 4
    then ok hkdf
    else err (str "Unsupported KDF algorithm: " ++ decimal value)

-- `u32::to_be_bytes` and `u32::from_be_bytes`
unfoldable pub be32 : ℕ → Bytes
be32 n = (n / 16777216) % 256 ∷ (n / 65536) % 256 ∷ (n / 256) % 256 ∷ n % 256 ∷ []

unfoldable pub from_be32 : ℕ → ℕ → ℕ → ℕ → ℕ
from_be32 a b c d = a * 16777216 + b * 65536 + c * 256 + d

-- `u64::to_be_bytes`: the high half, then the low half.
unfoldable pub be64 : ℕ → Bytes
be64 n = be32 (n / 4294967296) ++ be32 (n % 4294967296)

pub record FileHeader : Type 0 where
  pub version : ℕ
  pub aead_alg : ℕ
  pub sig_alg : ℕ
  pub hash_alg : ℕ
  pub kdf_alg : ℕ
  pub reserved : Bytes
  pub key_id : Bytes
  pub device_id_hash : Bytes
  pub nonce_prefix : Bytes
  pub chunk_size : ℕ

-- The array starts as zeros: the two bytes after the last field stay so.
unfoldable pub to_bytes : FileHeader → Bytes
to_bytes h =
    h.version
    ∷ h.aead_alg
    ∷ h.sig_alg
    ∷ h.hash_alg
    ∷ h.kdf_alg
    ∷ (h.reserved
        ++ (h.key_id
            ++ (h.device_id_hash ++ (h.nonce_prefix ++ (be32 h.chunk_size ++ 0 ∷ 0 ∷ [])))))

-- `bytes[i]` of an array that is long enough.
abbrev pub byte_at : ℕ → Bytes → ℕ
byte_at i [] = 0
byte_at zero (x ∷ xs) = x
byte_at (suc i) (x ∷ xs) = byte_at i xs

-- `bytes[i..i + n]`
abbrev pub slice : ℕ → ℕ → Bytes → Bytes
slice i n bytes = take n (drop i bytes)

abbrev pub with_context {ℓ} : {A : Type ℓ} → Text → Result Text A → Result FormatError A
with_context context r = map_err (λ cause. record { context = context; cause = cause }) r

unfoldable pub from_bytes : Bytes → Result FormatError FileHeader
from_bytes bytes = do
  with_context (str "Invalid AEAD algorithm") (aead_algorithm (byte_at 1 bytes))
  with_context (str "Invalid signature algorithm") (signature_algorithm (byte_at 2 bytes))
  with_context (str "Invalid hash algorithm") (hash_algorithm (byte_at 3 bytes))
  with_context (str "Invalid KDF algorithm") (kdf_algorithm (byte_at 4 bytes))
  ok (record {
    version = byte_at 0 bytes;
    aead_alg = byte_at 1 bytes;
    sig_alg = byte_at 2 bytes;
    hash_alg = byte_at 3 bytes;
    kdf_alg = byte_at 4 bytes;
    reserved = slice 5 3 bytes;
    key_id = slice 8 16 bytes;
    device_id_hash = slice 24 32 bytes;
    nonce_prefix = slice 56 4 bytes;
    chunk_size =
        from_be32 (byte_at 60 bytes) (byte_at 61 bytes) (byte_at 62 bytes) (byte_at 63 bytes);
  })

unfoldable pub build_aad : Bytes → ℕ → Bytes → Bytes → ℕ → Bytes
build_aad header_hash seq nonce manifest_hash chunk_len =
    header_hash ++ (be64 seq ++ (nonce ++ (manifest_hash ++ be32 chunk_len)))

pub record FileHeaderV1 : Type 0 where
  pub version : ℕ
  pub alg : ℕ
  pub key_id : Bytes
  pub device_id_hash : Bytes
  pub nonce_prefix : Bytes
  pub chunk_size : ℕ

unfoldable pub v1_from_bytes : Bytes → FileHeaderV1
v1_from_bytes bytes = record {
  version = byte_at 0 bytes;
  alg = byte_at 1 bytes;
  key_id = slice 2 16 bytes;
  device_id_hash = slice 18 32 bytes;
  nonce_prefix = slice 50 4 bytes;
  chunk_size =
      from_be32 (byte_at 54 bytes) (byte_at 55 bytes) (byte_at 56 bytes) (byte_at 57 bytes);
}

-- Both versions of the stream header have these fields.
pub record StreamHeader : Type 0 where
  pub v : ℕ
  pub header : Bytes
  pub header_hash : Bytes

unfoldable pub upgraded : FileHeaderV1 → FileHeader
upgraded h = record {
  version = 2;
  aead_alg = h.alg;
  sig_alg = 1;
  hash_alg = 1;
  kdf_alg = 1;
  reserved = replicate 3 0;
  key_id = h.key_id;
  device_id_hash = h.device_id_hash;
  nonce_prefix = h.nonce_prefix;
  chunk_size = h.chunk_size;
}

unfoldable pub migrate_v1_to_v2 : (Bytes → Bytes) → StreamHeader → Result Text StreamHeader
migrate_v1_to_v2 hash v1 = do
  ensure (length v1.header == 58) (str "Invalid V1 header length: " ++ decimal (length v1.header))
  ok (record {
    v = 2;
    header = to_bytes (upgraded (v1_from_bytes v1.header));
    header_hash = hash (to_bytes (upgraded (v1_from_bytes v1.header)));
  })
