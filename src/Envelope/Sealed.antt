-- ===== src/Envelope/Sealed.antt =====
-- crates/core/src/envelope.rs: what a chunk is that `create_encrypted_chunk` makes.
use sealedge.Base.{
  ℕ, suc, ◌+◌, ◌-◌, ◌%◌, ◌^◌, ◌≤◌, ◌<◌, ◌≡◌, refl, List, [], ◌∷◌, Bytes, Bool, true, not, length,
  ltb, ◌==◌, All, ok, arith,
}
use native.Mathlib.Numerals.{add-one}
use sealedge.Format.{build_aad}
use sealedge.Envelope.{
  max_chunk_index, EnvelopeMetadata, NetworkChunk, InRange, Primitives, PrimitivesLaws, header_text,
  chunk_nonce,
}
use sealedge.Envelope.Seal.{chunk_manifest, create_encrypted_chunk, seal_chunks}
use sealedge.Envelope.Unseal.{signed_verifies, decrypt_chunk_v2}
use sealedge.Envelope.Pieces.{IsPiece, length-chunk_nonce}

chunk_manifest-InRange :
    (i : ℕ) (b : Bytes) (now : ℕ)
    → i ≤ max_chunk_index
    → now < 2 ^ 64
    → InRange (chunk_manifest i b now)
unfolding chunk_manifest
chunk_manifest-InRange i b now hi hn = record {
  sequence = omega arith;
  chunk_size = omega arith;
  timestamp = hn;
  pbkdf2_iterations = omega arith;
}

module _ (p : Primitives) (secret key prefix : Bytes) where
  -- The chunk passes for that of position `i`: it is numbered so, its signature verifies, and it
  -- opens to the piece.
  pub record IsSealed (i : ℕ) (is_last : Bool) (piece : Bytes) (c : NetworkChunk) : Type 0 where
    pub sequence : c.sequence ≡ i
    pub signed :
        signed_verifies p (p.dalek.ed25519_public secret) (p.deserialize_signed c.manifest) ≡ true
    pub opens : decrypt_chunk_v2 p c key prefix is_last ≡ ok piece

  abbrev pub AreSealed : ℕ → ℕ → List Bytes → List NetworkChunk → Type 0
  AreSealed total i [] [] = Unit {0}
  AreSealed total i [] (c ∷ cs) = ⊥
  AreSealed total i (piece ∷ rest) [] = ⊥
  AreSealed total i (piece ∷ rest) (c ∷ cs) =
      IsSealed i (i == total - 1) piece c × AreSealed total (suc i) rest cs

  module _ (laws : PrimitivesLaws p) (key_size : length key ≡ 32) (prefix_size : length prefix ≡ 8)
      (clock : ℕ → ℕ) (metadata : EnvelopeMetadata) (on_time : metadata.created_at < 2 ^ 64) where
    -- A chunk is made for each index of 24 bits.
    pub create_encrypted_chunk-IsSealed :
        (i : ℕ) (is_last : Bool) (piece : Bytes)
        → i ≤ max_chunk_index
        → IsPiece piece
        → (c : NetworkChunk) × (create_encrypted_chunk p clock i piece secret key prefix is_last
              metadata
            ≡ ok c)
          × IsSealed i is_last piece c
    unfolding create_encrypted_chunk decrypt_chunk_v2 chunk_manifest
    create_encrypted_chunk-IsSealed i is_last piece hi hp =
        let m = chunk_manifest i piece metadata.created_at in
        let (mb, ser, de) =
          laws.manifest_round m (chunk_manifest-InRange i piece metadata.created_at hi on_time) in
        let nonce = chunk_nonce prefix i is_last in
        let aad = build_aad (p.blake3 header_text) i nonce (p.blake3 mb) (length piece % 2 ^ 32) in
        let (cipher, enc, dec) =
          laws.decrypt-encrypt key nonce aad piece key_size
            (length-chunk_nonce prefix i is_last prefix_size) (omega (arith, hp)) in
        let (sb, sser, sde) = laws.signed_round (record {
          manifest = mb;
          sig = p.dalek.ed25519_sign secret (p.blake3 mb);
          pubkey = p.dalek.ed25519_public secret;
        }) in
        let small : not (ltb max_chunk_index i) ≡ true = ground arith in
        let sized : (length key == 32) ≡ true = ground (arith, key_size) in
        let sig_sized : (length (p.dalek.ed25519_sign secret (p.blake3 mb)) == 64) ≡ true =
          ground (arith, laws.dalek.length-sign secret (p.blake3 mb)) in
        (
          record {
            sequence = i;
            content = cipher;
            manifest = sb;
            nonce = nonce;
            timestamp = clock i;
          },
          rw (small, ser, sized, enc, sser),
          record {
            sequence = refl;
            signed =
                rw (sde, sig_sized, laws.dalek.key-public secret)
                  (laws.dalek.verify-sign secret (p.blake3 mb));
            opens = rw (sde, de, small, sized, dec);
          },
        )

    pub seal_chunks-AreSealed :
        (total i : ℕ) (parts : List Bytes)
        → i + length parts ≤ suc max_chunk_index
        → All IsPiece parts
        → (cs : List NetworkChunk) × (seal_chunks p clock secret key prefix total metadata i parts
            ≡ ok cs)
          × AreSealed total i parts cs
    unfolding seal_chunks
    seal_chunks-AreSealed total i [] h a = ([], refl, tt)
    seal_chunks-AreSealed total i (piece ∷ rest) h a =
        let (c, made, sealed) =
          create_encrypted_chunk-IsSealed i (i == total - 1) piece (omega (arith, h)) a.0 in
        let (cs, others, all_sealed) =
          seal_chunks-AreSealed total (suc i) rest (omega (arith, h)) a.1 in
        (c ∷ cs, rw (made, add-one i, others), (sealed, all_sealed))
