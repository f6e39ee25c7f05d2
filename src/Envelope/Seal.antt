-- ===== src/Envelope/Seal.antt =====
-- crates/core/src/envelope.rs: `seal` and `create_encrypted_chunk`. The clock and the random salt are
-- arguments: `clock i` is the time at which the chunk of position `i` is made.
use sealedge.Base.{
  ℕ, ◌+◌, ◌-◌, ◌/◌, ◌%◌, ◌^◌, List, [], ◌∷◌, ◌++◌, Bytes, Text, str, Bool, not, length, replicate,
  ltb, ◌==◌, Result, ok, ensure, map_err, ◌>>=◌, ◌>>◌,
}
use sealedge.Format.{build_aad}
use sealedge.Envelope.{
  default_chunk_size, max_chunk_index, envelope_version_v2, EnvelopeMetadata, NetworkChunk,
  Envelope, ChunkManifest, Primitives, header_text, derive_shared_encryption_key, index_too_large,
  chunk_nonce, payload_chunks,
}

-- The manifest of a chunk.
unfoldable pub chunk_manifest : ℕ → Bytes → ℕ → ChunkManifest
chunk_manifest sequence chunk_data created_at = record {
  sequence = sequence;
  chunk_size = length chunk_data % 2 ^ 32;
  timestamp = created_at;
  format_hint = str "application/octet-stream";
  key_derivation_salt = replicate 32 0;
  pbkdf2_iterations = 0;
}

module _ (p : Primitives) where
  unfoldable pub create_encrypted_chunk :
      (ℕ → ℕ)
      → ℕ
      → Bytes
      → Bytes
      → Bytes
      → Bytes
      → Bool
      → EnvelopeMetadata
      → Result Text NetworkChunk
  create_encrypted_chunk clock sequence chunk_data signing_key encryption_key nonce_prefix
        is_last_chunk metadata =
      let nonce = chunk_nonce nonce_prefix sequence is_last_chunk in
      do
        ensure (not (ltb max_chunk_index sequence)) index_too_large
        manifest_bytes ←
            map_err (λ e. str "Failed to serialize manifest")
              (p.serialize_manifest (chunk_manifest sequence chunk_data metadata.created_at))
        let manifest_hash = p.blake3 manifest_bytes
        ensure (length encryption_key == 32) (str "Failed to create cipher")
        ciphertext ←
            map_err (λ e. str "Encryption failed: " ++ e)
              (p.encrypt encryption_key nonce
                (build_aad (p.blake3 header_text) sequence nonce manifest_hash
                  (length chunk_data % 2 ^ 32))
                chunk_data)
        signed_manifest_bytes ←
            map_err (λ e. str "Failed to serialize signed manifest")
              (p.serialize_signed (record {
                manifest = manifest_bytes;
                sig = p.dalek.ed25519_sign signing_key manifest_hash;
                pubkey = p.dalek.ed25519_public signing_key;
              }))
        ok (record {
          sequence = sequence;
          content = ciphertext;
          manifest = signed_manifest_bytes;
          nonce = nonce;
          timestamp = clock sequence;
        })

  -- The loop over `payload.chunks(…).enumerate()`, from position `i` of `total_chunks`.
  unfoldable pub seal_chunks :
      (ℕ → ℕ)
      → Bytes
      → Bytes
      → Bytes
      → ℕ
      → EnvelopeMetadata
      → ℕ
      → List Bytes
      → Result Text (List NetworkChunk)
  seal_chunks clock signing_key encryption_key nonce_prefix total_chunks metadata i [] = ok []
  seal_chunks clock signing_key encryption_key nonce_prefix total_chunks metadata i
        (chunk_data ∷ rest) =
      do
        chunk ←
            create_encrypted_chunk clock i chunk_data signing_key encryption_key nonce_prefix
              (i == total_chunks - 1) metadata
        others ←
            seal_chunks clock signing_key encryption_key nonce_prefix total_chunks metadata (i + 1)
              rest
        ok (chunk ∷ others)

  -- `AeadAlgorithm::Aes256Gcm`, `SignatureAlgorithm::Ed25519` and `HashAlgorithm::Blake3` are 1.
  unfoldable pub seal_metadata : ℕ → Bytes → EnvelopeMetadata
  seal_metadata timestamp payload = record {
    created_at = timestamp;
    payload_size = length payload;
    chunk_count = ((length payload + default_chunk_size - 1) / default_chunk_size) % 2 ^ 32;
    aead_algorithm = 1;
    signature_algorithm = 1;
    hash_algorithm = 1;
  }

  unfoldable pub seal : ℕ → Bytes → (ℕ → ℕ) → Bytes → Bytes → Bytes → Result Text Envelope
  seal timestamp hkdf_salt clock payload signing_key beneficiary_key = do
    (encryption_key, nonce_prefix) ←
        derive_shared_encryption_key p signing_key beneficiary_key hkdf_salt
    chunks ←
        seal_chunks clock signing_key encryption_key nonce_prefix (length (payload_chunks payload))
          (seal_metadata timestamp payload) 0 (payload_chunks payload)
    ok (record {
      version = envelope_version_v2;
      hkdf_salt = hkdf_salt;
      chunks = chunks;
      verifying_key_bytes = p.dalek.ed25519_public signing_key;
      beneficiary_key_bytes = beneficiary_key;
      metadata = seal_metadata timestamp payload;
    })
