-- ===== src/Envelope/Unseal.antt =====
-- crates/core/src/envelope.rs: `verify` and `unseal`.
use sealedge.Base.{
  ℕ, zero, suc, ◌+◌, ◌-◌, List, [], ◌∷◌, ◌++◌, Bytes, Text, str, Bool, true, false, not, ◌&&◌,
  length, decimal, map, ltb, leb, ◌==◌, Result, ok, err, ensure, map_err, ◌>>=◌, ◌>>◌,
  if◌then◌else◌,
}
use sealedge.Format.{build_aad}
use sealedge.Manifest.Validate.{all}
use sealedge.Envelope.{
  max_chunk_index, envelope_version_v2, NetworkChunk, Envelope, SignedManifest, Primitives,
  header_text, derive_shared_encryption_key, index_too_large, chunk_nonce,
}

-- `sort`, and `sort_by_key(|chunk| chunk.sequence)`, which is stable.
unfoldable pub insert_number : ℕ → List ℕ → List ℕ
insert_number n [] = n ∷ []
insert_number n (m ∷ rest) = if leb n m then n ∷ (m ∷ rest) else m ∷ insert_number n rest

unfoldable pub sort_numbers : List ℕ → List ℕ
sort_numbers [] = []
sort_numbers (n ∷ rest) = insert_number n (sort_numbers rest)

unfoldable pub insert_chunk : NetworkChunk → List NetworkChunk → List NetworkChunk
insert_chunk c [] = c ∷ []
insert_chunk c (d ∷ rest) =
    if leb c.sequence d.sequence then c ∷ (d ∷ rest) else d ∷ insert_chunk c rest

unfoldable pub sort_chunks : List NetworkChunk → List NetworkChunk
sort_chunks [] = []
sort_chunks (c ∷ rest) = insert_chunk c (sort_chunks rest)

-- The loop over `(0..chunk_count).zip(sequences)`, with so many expected numbers left from `i` on.
unfoldable pub numbered : ℕ → ℕ → List ℕ → Bool
numbered i left [] = true
numbered i zero (n ∷ rest) = true
numbered i (suc left) (n ∷ rest) = i == n && numbered (i + 1) left rest

unfoldable pub verify_chunk_sequence : Envelope → Bool
verify_chunk_sequence env =
    length env.chunks == env.metadata.chunk_count
    && numbered 0 env.metadata.chunk_count (sort_numbers (map (λ c. c.sequence) env.chunks))

module _ (p : Primitives) where
  abbrev pub signature_verifies : Bytes → Bytes → Bytes → Result Text Bytes → Bool
  signature_verifies manifest_hash sig key (ok verifying_key) =
      p.dalek.ed25519_verify verifying_key manifest_hash sig
  signature_verifies manifest_hash sig key (err e) = false

  abbrev pub signed_verifies : Bytes → Result Text SignedManifest → Bool
  signed_verifies key (ok sm) =
      length sm.sig == 64
      && signature_verifies (p.blake3 sm.manifest) sm.sig key (p.dalek.ed25519_key key)
  signed_verifies key (err e) = false

  unfoldable pub verify_chunk_signature : Envelope → NetworkChunk → Bool
  verify_chunk_signature env chunk =
      signed_verifies env.verifying_key_bytes (p.deserialize_signed chunk.manifest)

  unfoldable pub verify : Envelope → Bool
  verify env =
      if not (env.version == envelope_version_v2)
      then false
      else if not (all (verify_chunk_signature env) env.chunks)
      then false
      else verify_chunk_sequence env

  unfoldable pub decrypt_chunk_v2 : NetworkChunk → Bytes → Bytes → Bool → Result Text Bytes
  decrypt_chunk_v2 chunk encryption_key nonce_prefix is_last_chunk = do
    signed_manifest ←
        map_err (λ e. str "Failed to deserialize signed manifest")
          (p.deserialize_signed chunk.manifest)
    manifest ←
        map_err (λ e. str "Failed to deserialize chunk manifest")
          (p.deserialize_manifest signed_manifest.manifest)
    ensure (not (ltb max_chunk_index manifest.sequence)) index_too_large
    let nonce = chunk_nonce nonce_prefix manifest.sequence is_last_chunk
    ensure (length encryption_key == 32) (str "Failed to create cipher for v2 decryption")
    map_err (λ e. str "V2 decryption failed: " ++ e)
        (p.decrypt encryption_key nonce
          (build_aad (p.blake3 header_text) manifest.sequence nonce
            (p.blake3 signed_manifest.manifest) manifest.chunk_size)
          chunk.content)

  -- The loop over the sorted chunks, from position `i` of `total_chunks`, with the payload so far.
  unfoldable pub unseal_chunks :
      Bytes → Bytes → ℕ → ℕ → Bytes → List NetworkChunk → Result Text Bytes
  unseal_chunks encryption_key nonce_prefix total_chunks i payload [] = ok payload
  unseal_chunks encryption_key nonce_prefix total_chunks i payload (chunk ∷ rest) = do
    decrypted ← decrypt_chunk_v2 chunk encryption_key nonce_prefix (i == total_chunks - 1)
    unseal_chunks encryption_key nonce_prefix total_chunks (i + 1) (payload ++ decrypted) rest

  unfoldable pub unseal : Envelope → Bytes → Result Text Bytes
  unseal env decryption_key = do
    ensure (env.version == envelope_version_v2) (
        str "Unsupported envelope version "
        ++ (decimal env.version
            ++ (str ": this build understands only v" ++ decimal envelope_version_v2)))
    ensure (verify env) (str "Envelope verification failed")
    sender_public_key ←
        map_err (λ e. str "Invalid sender public key in envelope")
          (p.dalek.ed25519_key env.verifying_key_bytes)
    (encryption_key, nonce_prefix) ←
        derive_shared_encryption_key p decryption_key sender_public_key env.hkdf_salt
    payload ←
        unseal_chunks encryption_key nonce_prefix (length env.chunks) 0 [] (sort_chunks env.chunks)
    ensure (length payload == env.metadata.payload_size) (
        str "Payload size mismatch: expected "
        ++ (decimal env.metadata.payload_size ++ (str ", got " ++ decimal (length payload))))
    ok payload

  unfoldable pub hash : Envelope → Result Text Bytes
  hash env = do
    envelope_bytes ←
        map_err (λ e. str "Failed to serialize envelope for hashing: " ++ e)
          (p.serialize_envelope env)
    ok (p.blake3 envelope_bytes)

  unfoldable pub beneficiary : Envelope → Result Text Bytes
  beneficiary env =
      map_err (λ e. str "Invalid beneficiary key bytes: " ++ e)
        (p.dalek.ed25519_key env.beneficiary_key_bytes)

  unfoldable pub issuer : Envelope → Result Text Bytes
  issuer env =
      map_err (λ e. str "Invalid issuer key bytes: " ++ e)
        (p.dalek.ed25519_key env.verifying_key_bytes)
