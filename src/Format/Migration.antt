-- ===== src/Format/Migration.antt =====
-- crates/core/src/format.rs: `migrate_v1_to_v2`.
use sealedge.Base.{
  ℕ, ◌+◌, ◌<◌, ◌^◌, ◌≡◌, refl, ap, ◌∙◌, [], ◌∷◌, ◌++◌, ok, Bytes, length, length-append, take,
  arith,
}
use sealedge.Format.{
  FileHeader, StreamHeader, AeadAlgorithm, aead_algorithm, signature_algorithm, hash_algorithm,
  kdf_algorithm, be32, byte_at, from_be32, from_bytes, to_bytes, v1_from_bytes, upgraded,
  migrate_v1_to_v2, slice, ed25519, blake3, pbkdf2_sha256,
}
use sealedge.Format.Header.{
  IsHeader, IsSupported, from_bytes-to_bytes, from_be32-be32, drop_block, byte_block, take_block,
}

-- The 58 bytes of a version 1 header: two numbers, the three arrays, and the chunk size.
abbrev pub v1_layout : ℕ → ℕ → Bytes → Bytes → Bytes → ℕ → Bytes
v1_layout version alg key_id device_id_hash nonce_prefix chunk_size =
    version ∷ alg ∷ (key_id ++ (device_id_hash ++ (nonce_prefix ++ be32 chunk_size)))

-- The header of version 2 with the given fields, and the default of every choice that is new.
abbrev pub with_defaults : ℕ → Bytes → Bytes → Bytes → ℕ → FileHeader
with_defaults alg key_id device_id_hash nonce_prefix chunk_size = record {
  version = 2;
  aead_alg = alg;
  sig_alg = 1;
  hash_alg = 1;
  kdf_alg = 1;
  reserved = 0 ∷ 0 ∷ 0 ∷ [];
  key_id = key_id;
  device_id_hash = device_id_hash;
  nonce_prefix = nonce_prefix;
  chunk_size = chunk_size;
}

module _ (version alg : ℕ) (key_id device_id_hash nonce_prefix : Bytes) (chunk_size : ℕ)
    (key_id_size : length key_id ≡ 16) (device_id_hash_size : length device_id_hash ≡ 32)
    (nonce_prefix_size : length nonce_prefix ≡ 4) (chunk_size_range : chunk_size < 2 ^ 32) where
  abbrev bytes : Bytes
  bytes = v1_layout version alg key_id device_id_hash nonce_prefix chunk_size

  abbrev rest : Bytes
  rest = nonce_prefix ++ be32 chunk_size

  v1_length : length bytes ≡ 58
  unfolding be32
  v1_length = ground (
    arith,
    length-append key_id (device_id_hash ++ rest),
    length-append device_id_hash rest,
    length-append nonce_prefix (be32 chunk_size),
    key_id_size,
    device_id_hash_size,
    nonce_prefix_size,
  )

  key_id_read : slice 2 16 bytes ≡ key_id
  key_id_read = take_block 16 key_id (device_id_hash ++ rest) key_id_size

  device_id_hash_read : slice 18 32 bytes ≡ device_id_hash
  device_id_hash_read =
      ap (take 32) (drop_block 16 0 key_id (device_id_hash ++ rest) key_id_size)
      ∙ take_block 32 device_id_hash rest device_id_hash_size

  nonce_prefix_read : slice 50 4 bytes ≡ nonce_prefix
  nonce_prefix_read =
      ap (take 4) (
        drop_block 16 32 key_id (device_id_hash ++ rest) key_id_size
        ∙ drop_block 32 0 device_id_hash rest device_id_hash_size)
      ∙ take_block 4 nonce_prefix (be32 chunk_size) nonce_prefix_size

  -- Byte `i` of the chunk size stands at `52 + i` behind the two numbers.
  chunk_byte_read :
      (i : ℕ) → byte_at (52 + i) (key_id ++ (device_id_hash ++ rest)) ≡ byte_at i (be32 chunk_size)
  chunk_byte_read i =
      let e : 52 + i ≡ 16 + (32 + (4 + i)) = omega arith in
      ap (λ (m : ℕ). byte_at m (key_id ++ (device_id_hash ++ rest))) e
      ∙ byte_block 16 (32 + (4 + i)) key_id (device_id_hash ++ rest) key_id_size
      ∙ byte_block 32 (4 + i) device_id_hash rest device_id_hash_size
      ∙ byte_block 4 i nonce_prefix (be32 chunk_size) nonce_prefix_size

  chunk_size_read :
      from_be32 (byte_at 54 bytes) (byte_at 55 bytes) (byte_at 56 bytes) (byte_at 57 bytes)
      ≡ chunk_size
  unfolding be32
  chunk_size_read = rw (chunk_byte_read 0) (
      rw (chunk_byte_read 1) (
        rw (chunk_byte_read 2)
          (rw (chunk_byte_read 3) (from_be32-be32 chunk_size chunk_size_range))))

  -- Each field is read from its place, and stays in the new header.
  upgraded-v1_layout :
      upgraded (v1_from_bytes bytes)
      ≡ with_defaults alg key_id device_id_hash nonce_prefix chunk_size
  unfolding upgraded v1_from_bytes
  upgraded-v1_layout = cc (key_id_read, device_id_hash_read, nonce_prefix_read, chunk_size_read)

  with_defaults-IsHeader :
      IsHeader (with_defaults alg key_id device_id_hash nonce_prefix chunk_size)
  with_defaults-IsHeader = record {
    reserved_size = refl;
    key_id_size = key_id_size;
    device_id_hash_size = device_id_hash_size;
    nonce_prefix_size = nonce_prefix_size;
    chunk_size_range = chunk_size_range;
  }

  with_defaults-IsSupported :
      (aead : AeadAlgorithm)
      → aead_algorithm alg ≡ ok aead
      → IsSupported (with_defaults alg key_id device_id_hash nonce_prefix chunk_size)
  unfolding signature_algorithm hash_algorithm kdf_algorithm
  with_defaults-IsSupported aead known = record {
    aead = aead;
    signature = ed25519;
    hash = blake3;
    kdf = pbkdf2_sha256;
    aead_known = known;
    signature_known = refl;
    hash_known = refl;
    kdf_known = refl;
  }

  -- A version 1 stream header that lays out a key id of 16 bytes, a device id hash of 32, a nonce
  -- prefix of 4 and a chunk size of 32 bits behind a known algorithm number migrates to version 2,
  -- whatever its version byte and its old hash are: `from_bytes` reads the new bytes as version 2
  -- with that algorithm number, key id, device id hash, nonce prefix and chunk size, number 1 for
  -- signature, hash and key derivation, and zeros in the reserved bytes; the new hash is that of the
  -- new bytes.
  pub migrate_v1_to_v2_reads :
      (hash : Bytes → Bytes) (v : ℕ) (header_hash : Bytes) (aead : AeadAlgorithm)
      → aead_algorithm alg ≡ ok aead
      → (v2 : StreamHeader) × (migrate_v1_to_v2 hash
            (record { v = v; header = bytes; header_hash = header_hash })
          ≡ ok v2)
        × (v2.v ≡ 2)
        × (v2.header_hash ≡ hash v2.header)
        × (from_bytes v2.header
            ≡ ok (with_defaults alg key_id device_id_hash nonce_prefix chunk_size))
  unfolding migrate_v1_to_v2
  migrate_v1_to_v2_reads hash v header_hash aead known =
      let new = with_defaults alg key_id device_id_hash nonce_prefix chunk_size in
      (
        record { v = 2; header = to_bytes new; header_hash = hash (to_bytes new) },
        rw (v1_length, upgraded-v1_layout) refl,
        refl,
        refl,
        from_bytes-to_bytes new with_defaults-IsHeader (with_defaults-IsSupported aead known),
      )
