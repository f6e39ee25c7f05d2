-- ===== src/Envelope/Nonces.antt =====
-- crates/core/src/envelope.rs: the nonces of an envelope, and the guard on the chunk index.
use sealedge.Base.{
  ℕ, suc, ◌+◌, ◌-◌, ◌^◌, ◌≤◌, ◌<◌, ◌≡◌, sym, ◌∙◌, ◌≢◌, List, [], ◌∷◌, Bytes, Bool, not, length, ltb,
  ◌==◌, str, ◌++◌, ◌%◌, All, All-map, ok, err, map_err, bind-ok, ensure-ok, arith, Bool-cases, inl,
  inr, subst,
}
use native.Mathlib.Numerals.{add-one}
use sealedge.Format.{build_aad}
use sealedge.Envelope.{
  header_text, max_chunk_index, EnvelopeMetadata, NetworkChunk, Envelope, Primitives,
  PrimitivesLaws, derive_shared_encryption_key, chunk_nonce, payload_chunks, index_too_large,
}
use sealedge.Envelope.Seal.{
  chunk_manifest, create_encrypted_chunk, seal_chunks, seal_metadata, seal,
}
use sealedge.Envelope.Pieces.{
  IsPiece, chunk_nonce-injective, length-payload_chunks, payload_chunks-IsPiece,
}
use sealedge.Envelope.Sealed.{create_encrypted_chunk-IsSealed}
use sealedge.Envelope.Loops.{Contributory, derive_lem}
use sealedge.Envelope.RoundTrip.{max_payload}

-- The nonce is that of an index from `i` on, of 24 bits.
pub record NonceFrom (prefix : Bytes) (i : ℕ) (c : NetworkChunk) : Type 0 where
  pub index : ℕ
  pub is_last : Bool
  pub from : i ≤ index
  pub fits : index ≤ max_chunk_index
  pub nonce : c.nonce ≡ chunk_nonce prefix index is_last

-- No two chunks have one nonce.
abbrev pub DistinctNonces : List NetworkChunk → Type 0
DistinctNonces [] = Unit {0}
DistinctNonces (c ∷ rest) = All (λ d. c.nonce ≢ d.nonce) rest × DistinctNonces rest

module _ (p : Primitives) where
  create_encrypted_chunk-nonce :
      (clock : ℕ → ℕ) (i : ℕ) (piece secret key prefix : Bytes) (is_last : Bool)
      (metadata : EnvelopeMetadata) (c : NetworkChunk)
      → create_encrypted_chunk p clock i piece secret key prefix is_last metadata ≡ ok c
      → (i ≤ max_chunk_index) × (c.nonce ≡ chunk_nonce prefix i is_last)
  unfolding create_encrypted_chunk
  create_encrypted_chunk-nonce clock i piece secret key prefix is_last metadata c h =
      let guarded = ensure-ok (not (ltb max_chunk_index i)) _ _ c h in
      let m = chunk_manifest i piece metadata.created_at in
      let manifest =
        bind-ok (map_err (λ e. str "Failed to serialize manifest") (p.serialize_manifest m)) _ c
          guarded.1 in
      let keyed = ensure-ok (length key == 32) _ _ c manifest.2 in
      let cipher =
        bind-ok
          (map_err (λ e. str "Encryption failed: " ++ e)
            (p.encrypt key (chunk_nonce prefix i is_last)
              (build_aad (p.blake3 header_text) i (chunk_nonce prefix i is_last)
                (p.blake3 manifest.0) (length piece % 2 ^ 32))
              piece))
          _ c keyed.1 in
      let signed =
        bind-ok
          (map_err (λ e. str "Failed to serialize signed manifest")
            (p.serialize_signed (record {
              manifest = manifest.0;
              sig = p.dalek.ed25519_sign secret (p.blake3 manifest.0);
              pubkey = p.dalek.ed25519_public secret;
            })))
          _ c cipher.2 in
      (ground (arith, guarded.0), cc (signed.2))

  seal_chunks-NonceFrom :
      (clock : ℕ → ℕ) (secret key prefix : Bytes) (total : ℕ) (metadata : EnvelopeMetadata) (i : ℕ)
      (parts : List Bytes) (cs : List NetworkChunk)
      → seal_chunks p clock secret key prefix total metadata i parts ≡ ok cs
      → All (NonceFrom prefix i) cs × DistinctNonces cs × (length cs ≤ suc max_chunk_index - i)
  unfolding seal_chunks
  seal_chunks-NonceFrom clock secret key prefix total metadata i [] [] h = (tt, tt, omega arith)
  seal_chunks-NonceFrom clock secret key prefix total metadata i [] (c ∷ cs) h = absurd (cc)
  seal_chunks-NonceFrom clock secret key prefix total metadata i (piece ∷ rest) cs h =
      let made =
        bind-ok (create_encrypted_chunk p clock i piece secret key prefix (i == total - 1) metadata)
          _ cs h in
      let others =
        bind-ok (seal_chunks p clock secret key prefix total metadata (i + 1) rest) _ cs made.2 in
      let (fits, nonce) =
        create_encrypted_chunk-nonce clock i piece secret key prefix (i == total - 1) metadata
          made.0 made.1 in
      let (from, distinct, few) =
        seal_chunks-NonceFrom clock secret key prefix total metadata (i + 1) rest others.0
          others.1 in
      let whole : made.0 ∷ others.0 ≡ cs = cc (others.2) in
      subst
        (λ l. All (NonceFrom prefix i) l × DistinctNonces l × (length l ≤ suc max_chunk_index - i))
        whole
        (
          (
            record {
              index = i;
              is_last = i == total - 1;
              from = omega arith;
              fits = fits;
              nonce = nonce;
            },
            All-map
                (λ d f. record {
                  index = f.index;
                  is_last = f.is_last;
                  from = omega (arith, f.from);
                  fits = f.fits;
                  nonce = f.nonce;
                })
                others.0 from,
          ),
          (
            All-map
                (λ d f e. absurd (
                  omega (
                    arith,
                    f.from,
                    chunk_nonce-injective prefix i f.index (i == total - 1) f.is_last fits f.fits
                        (sym nonce ∙ e ∙ f.nonce),
                  )))
                others.0 from,
            distinct,
          ),
          omega (arith, few, fits),
        )

  -- An envelope that `seal` makes, of whatever payload and keys, has no nonce twice, and its chunks are
  -- at most 2^24.
  pub seal-DistinctNonces :
      (timestamp : ℕ) (salt : Bytes) (clock : ℕ → ℕ) (payload secret their_public : Bytes)
      (env : Envelope)
      → seal p timestamp salt clock payload secret their_public ≡ ok env
      → DistinctNonces env.chunks × (length env.chunks ≤ suc max_chunk_index)
  unfolding seal
  seal-DistinctNonces timestamp salt clock payload secret their_public env h =
      let derived = bind-ok (derive_shared_encryption_key p secret their_public salt) _ env h in
      let parts = payload_chunks payload in
      let metadata = seal_metadata p timestamp payload in
      let made =
        bind-ok (seal_chunks p clock secret derived.0.0 derived.0.1 (length parts) metadata 0 parts)
          _ env derived.2 in
      let found =
        seal_chunks-NonceFrom clock secret derived.0.0 derived.0.1 (length parts) metadata 0 parts
          made.0 made.1 in
      let same : made.0 ≡ env.chunks = cc (made.2) in
      subst (λ cs. DistinctNonces cs × (length cs ≤ suc max_chunk_index)) same
        (found.1, omega (arith, found.2))

  -- A chunk beyond the 24 bits fails, after those before it were made.
  seal_chunks-too_many :
      PrimitivesLaws p
      → (clock : ℕ → ℕ) (secret key prefix : Bytes) (total : ℕ) (metadata : EnvelopeMetadata)
      → length key ≡ 32
      → length prefix ≡ 8
      → metadata.created_at < 2 ^ 64
      → (i : ℕ) (parts : List Bytes) → i ≤ suc max_chunk_index
      → suc max_chunk_index < i + length parts
      → All IsPiece parts
      → seal_chunks p clock secret key prefix total metadata i parts ≡ err index_too_large
  unfolding seal_chunks
  seal_chunks-too_many laws clock secret key prefix total metadata hk hp ht i [] hi h a =
      absurd (omega (arith, h))
  seal_chunks-too_many laws clock secret key prefix total metadata hk hp ht i (piece ∷ rest) hi h
        a =
      elim (Bool-cases (ltb max_chunk_index i)) [
        | inl big ↦ unfold create_encrypted_chunk in rw big
        | inr small ↦
            let made =
              create_encrypted_chunk-IsSealed p secret key prefix laws hk hp clock metadata ht i
                (i == total - 1) piece (ground (arith, small)) a.0 in
            rw (
              made.1,
              add-one i,
              seal_chunks-too_many laws clock secret key prefix total metadata hk hp ht (suc i) rest
                  (ground (arith, small)) (omega (arith, h)) a.1,
            )
      ]

  -- A payload over 2^40 bytes is refused by the guard on the chunk index: for a clock within 64 bits and
  -- two keys whose shared secret is not all zeros.
  pub seal-too_large :
      PrimitivesLaws p
      → (timestamp : ℕ) (salt : Bytes) (clock : ℕ → ℕ) (payload secret their_public : Bytes)
      → timestamp < 2 ^ 64
      → max_payload < length payload
      → Contributory p secret their_public
      → seal p timestamp salt clock payload secret their_public ≡ err index_too_large
  unfolding seal seal_metadata
  seal-too_large laws timestamp salt clock payload secret their_public on_time large nonzero =
      let (key, prefix, derived, hk, hp) = derive_lem p laws secret their_public salt nonzero in
      let parts = payload_chunks payload in
      rw (
        derived,
        seal_chunks-too_many laws clock secret key prefix (length parts)
            (seal_metadata p timestamp payload) hk hp on_time 0 parts (omega arith)
            (omega (arith, length-payload_chunks payload, large)) (payload_chunks-IsPiece payload),
      )

  -- An envelope is sealed only around a payload of at most 2^40 bytes.
  pub seal-small :
      PrimitivesLaws p
      → (timestamp : ℕ) (salt : Bytes) (clock : ℕ → ℕ) (payload secret their_public : Bytes)
        (env : Envelope)
      → timestamp < 2 ^ 64
      → Contributory p secret their_public
      → seal p timestamp salt clock payload secret their_public ≡ ok env
      → length payload ≤ max_payload
  seal-small laws timestamp salt clock payload secret their_public env on_time nonzero made =
      elim (Bool-cases (ltb max_payload (length payload))) [
        | inl large ↦
            let refused =
              seal-too_large laws timestamp salt clock payload secret their_public on_time
                (ground (arith, large)) nonzero in
            absurd (cc (refused, made))
        | inr small ↦ ground (arith, small)
      ]
