-- ===== src/Envelope.antt =====
-- crates/core/src/envelope.rs: the envelope, its parameters, and the key, nonce and pieces of its
-- chunks. X25519, HKDF-SHA256, AES-256-GCM, BLAKE3, Ed25519 and bincode are a record of parameters.
pub mod Seal
pub mod Unseal
pub mod Pieces
pub mod Sealed
pub mod Loops
pub mod RoundTrip
pub mod Reorder
pub mod Nonces
pub mod Tests
use sealedge.Base.{
  ℕ, zero, suc, ◌+◌, ◌-◌, ◌*◌, ◌/◌, ◌%◌, ◌^◌, ◌≤◌, ◌<◌, ◌≡◌, List, [], ◌∷◌, ◌++◌, Bytes, Text, str,
  Bool, true, false, not, Option, none, some, length, take, drop, Result, ok, err, ensure, ok_or,
  ◌>>=◌, ◌>>◌, ◌==◌, if◌then◌else◌,
}
use sealedge.Crypto.{Crates, CratesLaws}
use sealedge.Manifest.Validate.{all}
use sealedge.Format.{be32, slice}

abbrev pub default_chunk_size : ℕ
default_chunk_size = 65536

abbrev pub max_chunk_index : ℕ
max_chunk_index = 16_777_215

abbrev pub envelope_version_v2 : ℕ
envelope_version_v2 = 2

pub record EnvelopeMetadata : Type 0 where
  pub created_at : ℕ
  pub payload_size : ℕ
  pub chunk_count : ℕ
  pub aead_algorithm : ℕ
  pub signature_algorithm : ℕ
  pub hash_algorithm : ℕ

pub record NetworkChunk : Type 0 where
  pub sequence : ℕ
  pub content : Bytes
  pub manifest : Bytes
  pub nonce : Bytes
  pub timestamp : ℕ

pub record Envelope : Type 0 where
  pub version : ℕ
  pub hkdf_salt : Bytes
  pub chunks : List NetworkChunk
  pub verifying_key_bytes : Bytes
  pub beneficiary_key_bytes : Bytes
  pub metadata : EnvelopeMetadata

pub record ChunkManifest : Type 0 where
  pub sequence : ℕ
  pub chunk_size : ℕ
  pub timestamp : ℕ
  pub format_hint : Text
  pub key_derivation_salt : Bytes
  pub pbkdf2_iterations : ℕ

pub record SignedManifest : Type 0 where
  pub manifest : Bytes
  pub sig : Bytes
  pub pubkey : Bytes

-- What the code calls and does not implement. An error is the text that its display gives.
pub record Primitives : Type 0 where
  pub dalek : Crates
  -- `SigningKey::to_scalar_bytes` and `VerifyingKey::to_montgomery`
  pub to_scalar_bytes : Bytes → Bytes
  pub to_montgomery : Bytes → Bytes
  pub diffie_hellman : Bytes → Bytes → Bytes
  -- `Hkdf::<Sha256>::new(Some(salt), ikm).expand(info, …)`, to so many bytes
  pub hkdf_expand : Bytes → Bytes → Bytes → ℕ → Option Bytes
  -- AES-256-GCM under a key, a nonce and associated data
  pub encrypt : Bytes → Bytes → Bytes → Bytes → Result Text Bytes
  pub decrypt : Bytes → Bytes → Bytes → Bytes → Result Text Bytes
  pub blake3 : Bytes → Bytes
  -- `bincode::serialize` and `bincode::deserialize`
  pub serialize_manifest : ChunkManifest → Result Text Bytes
  pub deserialize_manifest : Bytes → Result Text ChunkManifest
  pub serialize_signed : SignedManifest → Result Text Bytes
  pub deserialize_signed : Bytes → Result Text SignedManifest
  pub serialize_envelope : Envelope → Result Text Bytes

-- The numbers of a chunk's manifest have their widths.
pub record InRange (m : ChunkManifest) : Type 0 where
  pub sequence : m.sequence < 2 ^ 64
  pub chunk_size : m.chunk_size < 2 ^ 32
  pub timestamp : m.timestamp < 2 ^ 64
  pub pbkdf2_iterations : m.pbkdf2_iterations < 2 ^ 32

-- What the crates document.
pub record PrimitivesLaws (p : Primitives) : Type 0 where
  pub dalek : CratesLaws p.dalek
  pub shared :
      (a b : Bytes)
      → p.diffie_hellman (p.to_scalar_bytes a) (p.to_montgomery (p.dalek.ed25519_public b))
        ≡ p.diffie_hellman (p.to_scalar_bytes b) (p.to_montgomery (p.dalek.ed25519_public a))
  pub expanded :
      (salt ikm info : Bytes) (n : ℕ)
      → n ≤ 8160
      → (okm : Bytes) × (p.hkdf_expand salt ikm info n ≡ some okm) × (length okm ≡ n)
  pub decrypt-encrypt :
      (key nonce aad plain : Bytes)
      → length key ≡ 32
      → length nonce ≡ 12
      → length plain < 2 ^ 36 - 31
      → (cipher : Bytes) × (p.encrypt key nonce aad plain ≡ ok cipher)
        × (p.decrypt key nonce aad cipher ≡ ok plain)
  pub manifest_round :
      (m : ChunkManifest)
      → InRange m
      → (b : Bytes) × (p.serialize_manifest m ≡ ok b) × (p.deserialize_manifest b ≡ ok m)
  pub signed_round :
      (sm : SignedManifest)
      → (b : Bytes) × (p.serialize_signed sm ≡ ok b) × (p.deserialize_signed b ≡ ok sm)

abbrev pub hkdf_info : Bytes
hkdf_info = str "SEALEDGE_ENVELOPE_V1"

abbrev pub header_text : Bytes
header_text = str "ENVELOPE_V1"

module _ (p : Primitives) where
  -- The key, and the prefix of the nonces.
  unfoldable pub derive_shared_encryption_key : Bytes → Bytes → Bytes → Result Text (Bytes × Bytes)
  derive_shared_encryption_key my_private_key their_public_key salt =
      let shared_secret =
        p.diffie_hellman (p.to_scalar_bytes my_private_key) (p.to_montgomery their_public_key) in
      do
        ensure (not (all (λ b. b == 0) shared_secret)) (str "ECDH produced zero shared secret")
        okm ← ok_or (p.hkdf_expand salt shared_secret hkdf_info 40) (str "HKDF expand failed")
        ok (slice 0 32 okm, slice 32 8 okm)

-- The guard on the index, which both directions make.
abbrev pub index_too_large : Text
index_too_large =
    str "Chunk index exceeds maximum (16,777,215) — envelope too large for current nonce format"

-- The 12 bytes of a chunk's nonce.
unfoldable pub chunk_nonce : Bytes → ℕ → Bool → Bytes
chunk_nonce nonce_prefix sequence is_last_chunk =
    nonce_prefix ++ (drop 1 (be32 (sequence % 2 ^ 32)) ++ (if is_last_chunk then 255 else 0) ∷ [])

-- `payload.chunks(DEFAULT_CHUNK_SIZE)`: at most one round for each byte.
unfoldable pub pieces : ℕ → Bytes → List Bytes
pieces zero payload = []
pieces (suc fuel) [] = []
pieces (suc fuel) (b ∷ payload) =
    take default_chunk_size (b ∷ payload) ∷ pieces fuel (drop default_chunk_size (b ∷ payload))

unfoldable pub payload_chunks : Bytes → List Bytes
payload_chunks payload = pieces (length payload) payload
