-- ===== src/Envelope/RoundTrip.antt =====
-- crates/core/src/envelope.rs: a payload is sealed for a key, then verified and unsealed with it.
use sealedge.Base.{
  ℕ, ◌^◌, ◌≤◌, ◌<◌, ◌≡◌, refl, ap, sym, ◌∙◌, List, [], Bytes, true, length, ◌==◌, ok, arith,
}
use sealedge.Archive.{concat}
use sealedge.Envelope.{
  envelope_version_v2, Envelope, Primitives, PrimitivesLaws, derive_shared_encryption_key,
  payload_chunks,
}
use sealedge.Envelope.Seal.{seal_metadata, seal}
use sealedge.Envelope.Unseal.{verify, unseal_chunks, unseal}
use sealedge.Envelope.Pieces.{concat-payload_chunks, length-payload_chunks, payload_chunks-IsPiece}
use sealedge.Envelope.Sealed.{AreSealed, seal_chunks-AreSealed}
use sealedge.Envelope.Loops.{
  Contributory, derive_lem, derive-symmetric, unseal_chunks_lem, length-AreSealed,
  sort_chunks-AreSealed, sequences-AreSealed, signatures-AreSealed, verify_chunk_sequence-numbers,
}

-- The largest payload whose chunks have indices of 24 bits.
abbrev pub max_payload : ℕ
max_payload = 1_099_511_627_776

module _ (p : Primitives) where
  -- The chunks pass for those of the parts, which make up the payload, under the key that the envelope's salt gives.
  pub record Holds (secret their_public payload : Bytes) (parts : List Bytes) (env : Envelope)
      : Type 0 where
    pub key : Bytes
    pub prefix : Bytes
    pub derived :
        derive_shared_encryption_key p secret their_public env.hkdf_salt ≡ ok (key, prefix)
    pub version : env.version ≡ envelope_version_v2
    pub sender : env.verifying_key_bytes ≡ p.dalek.ed25519_public secret
    pub size : env.metadata.payload_size ≡ length payload
    pub count : length env.chunks ≡ env.metadata.chunk_count
    pub whole : concat parts ≡ payload
    pub sealed : AreSealed p secret key prefix (length parts) 0 parts env.chunks

  pub seal-Holds :
      PrimitivesLaws p
      → (timestamp : ℕ) (salt : Bytes) (clock : ℕ → ℕ) (payload secret their_public : Bytes)
      → timestamp < 2 ^ 64
      → length payload ≤ max_payload
      → Contributory p secret their_public
      → (env : Envelope) × (seal p timestamp salt clock payload secret their_public ≡ ok env)
        × Holds secret their_public payload (payload_chunks payload) env
  unfolding seal seal_metadata
  seal-Holds laws timestamp salt clock payload secret their_public on_time small nonzero =
      let (key, prefix, derived, key_size, prefix_size) =
        derive_lem p laws secret their_public salt nonzero in
      let parts = payload_chunks payload in
      let counted = length-payload_chunks payload in
      let (cs, made, sealed) =
        seal_chunks-AreSealed p secret key prefix laws key_size prefix_size clock
          (seal_metadata p timestamp payload) on_time (length parts) 0 parts
          (omega (arith, counted)) (payload_chunks-IsPiece payload) in
      (
        record {
          version = envelope_version_v2;
          hkdf_salt = salt;
          chunks = cs;
          verifying_key_bytes = p.dalek.ed25519_public secret;
          beneficiary_key_bytes = their_public;
          metadata = seal_metadata p timestamp payload;
        },
        rw (derived, made),
        record {
          key = key;
          prefix = prefix;
          derived = derived;
          version = refl;
          sender = refl;
          size = refl;
          count =
              length-AreSealed p secret key prefix (length parts) 0 parts cs sealed
              ∙ omega (arith, counted);
          whole = concat-payload_chunks payload;
          sealed = sealed;
        },
      )

  pub verify-Holds :
      (secret their_public payload : Bytes) (parts : List Bytes) (env : Envelope)
      → Holds secret their_public payload parts env
      → verify p env ≡ true
  unfolding verify
  verify-Holds secret their_public payload parts env h =
      let version : (env.version == envelope_version_v2) ≡ true = ground (arith, h.version) in
      rw
        (
          version,
          signatures-AreSealed p secret h.key h.prefix env (length parts) 0 parts env.chunks
              h.sender h.sealed,
        )
        (verify_chunk_sequence-numbers env (length parts)
          (sequences-AreSealed p secret h.key h.prefix (length parts) 0 parts env.chunks h.sealed)
          h.count)

  pub unseal-Holds :
      PrimitivesLaws p
      → (secret their_secret payload : Bytes) (parts : List Bytes) (env : Envelope)
      → Holds secret (p.dalek.ed25519_public their_secret) payload parts env
      → unseal p env their_secret ≡ ok payload
  unfolding unseal
  unseal-Holds laws secret their_secret payload parts env h =
      let version : (env.version == envelope_version_v2) ≡ true = ground (arith, h.version) in
      let sized : (length payload == env.metadata.payload_size) ≡ true = ground (arith, h.size) in
      let count =
        length-AreSealed p secret h.key h.prefix (length parts) 0 parts env.chunks h.sealed in
      let opened : unseal_chunks p h.key h.prefix (length env.chunks) 0 [] env.chunks ≡ ok payload =
        ap (λ n. unseal_chunks p h.key h.prefix n 0 [] env.chunks) count
        ∙ unseal_chunks_lem p secret h.key h.prefix (length parts) 0 [] parts env.chunks h.sealed
        ∙ ap ok h.whole in
      rw (
        version,
        verify-Holds secret (p.dalek.ed25519_public their_secret) payload parts env h,
        h.sender,
        laws.dalek.key-public secret,
        sym (derive-symmetric p laws secret their_secret env.hkdf_salt) ∙ h.derived,
        sort_chunks-AreSealed p secret h.key h.prefix (length parts) 0 parts env.chunks h.sealed,
        opened,
        sized,
      )

  -- `seal` makes an envelope of each payload of up to 2^40 bytes, `verify` accepts it, and `unseal`
  -- with the beneficiary's key gives the payload back: for a clock within 64 bits, and two keys
  -- whose shared secret is not all zeros.
  pub unseal-seal :
      PrimitivesLaws p
      → (timestamp : ℕ) (salt : Bytes) (clock : ℕ → ℕ) (payload secret their_secret : Bytes)
      → timestamp < 2 ^ 64
      → length payload ≤ max_payload
      → Contributory p secret (p.dalek.ed25519_public their_secret)
      → (env : Envelope) × (seal p timestamp salt clock payload secret
            (p.dalek.ed25519_public their_secret)
          ≡ ok env)
        × (verify p env ≡ true)
        × (unseal p env their_secret ≡ ok payload)
  unseal-seal laws timestamp salt clock payload secret their_secret on_time small nonzero =
      let (env, made, h) =
        seal-Holds laws timestamp salt clock payload secret (p.dalek.ed25519_public their_secret)
          on_time small nonzero in
      (
        env,
        made,
        verify-Holds secret (p.dalek.ed25519_public their_secret) payload (payload_chunks payload)
            env h,
        unseal-Holds laws secret their_secret payload (payload_chunks payload) env h,
      )
