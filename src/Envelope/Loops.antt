-- ===== src/Envelope/Loops.antt =====
-- crates/core/src/envelope.rs: the key agreement, and the loops of `verify` and `unseal` over sealed chunks.
use mathlib.Core.List.{append_assoc, append-nil}
use native.Mathlib.Numerals.{add-one}
use sealedge.Base.{
  ℕ, zero, suc, ◌≡◌, refl, ap, ◌∙◌, List, [], ◌∷◌, ◌++◌, Bytes, true, false, length, length-take,
  drop, map, leb, ◌==◌, ok, arith,
}
use sealedge.Archive.{concat}
use sealedge.Manifest.Validate.{all}
use sealedge.Format.{slice}
use sealedge.Envelope.{
  hkdf_info, NetworkChunk, Envelope, Primitives, PrimitivesLaws, derive_shared_encryption_key,
}
use sealedge.Envelope.Unseal.{
  insert_number, sort_numbers, insert_chunk, sort_chunks, numbered, verify_chunk_sequence,
  verify_chunk_signature, unseal_chunks,
}
use sealedge.Envelope.Pieces.{length-drop}
use sealedge.Envelope.Sealed.{AreSealed}

abbrev pub numbers : ℕ → ℕ → List ℕ
numbers i zero = []
numbers i (suc n) = i ∷ numbers (suc i) n

sort_numbers-numbers : (i n : ℕ) → sort_numbers (numbers i n) ≡ numbers i n
unfolding sort_numbers insert_number
sort_numbers-numbers i zero = refl
sort_numbers-numbers i (suc zero) = refl
sort_numbers-numbers i (suc (suc n)) =
    let first : leb i (suc i) ≡ true = ground arith in
    ap (insert_number i) (sort_numbers-numbers (suc i) (suc n)) ∙ rw first

numbered-numbers : (i left n : ℕ) → numbered i left (numbers i n) ≡ true
unfolding numbered
numbered-numbers i left zero = refl
numbered-numbers i zero (suc n) = refl
numbered-numbers i (suc left) (suc n) =
    let same : (i == i) ≡ true = ground arith in
    rw (same, add-one i) (numbered-numbers (suc i) left n)

-- The sequence check looks at the numbers alone.
pub verify_chunk_sequence-numbers :
    (env : Envelope) (n : ℕ)
    → map (λ c. c.sequence) env.chunks ≡ numbers 0 n
    → length env.chunks ≡ env.metadata.chunk_count
    → verify_chunk_sequence env ≡ true
unfolding verify_chunk_sequence
verify_chunk_sequence-numbers env n e h =
    let counted : (length env.chunks == env.metadata.chunk_count) ≡ true = ground (arith, h) in
    rw (counted, e, sort_numbers-numbers 0 n) (numbered-numbers 0 env.metadata.chunk_count n)

module _ (p : Primitives) where
  -- The two sides of the agreement have a shared secret that is not all zeros.
  abbrev pub Contributory : Bytes → Bytes → Type 0
  Contributory secret their_public =
      all (λ b. b == 0) (p.diffie_hellman (p.to_scalar_bytes secret) (p.to_montgomery their_public))
      ≡ false

  pub derive_lem :
      PrimitivesLaws p
      → (secret their_public salt : Bytes) → Contributory secret their_public
      → (key prefix : Bytes) × (derive_shared_encryption_key p secret their_public salt
          ≡ ok (key, prefix))
        × (length key ≡ 32)
        × (length prefix ≡ 8)
  unfolding derive_shared_encryption_key
  derive_lem laws secret their_public salt nonzero =
      let shared = p.diffie_hellman (p.to_scalar_bytes secret) (p.to_montgomery their_public) in
      let (okm, expanded, size) = laws.expanded salt shared hkdf_info 40 (omega arith) in
      (
        slice 0 32 okm,
        slice 32 8 okm,
        rw (nonzero, expanded),
        length-take 32 okm (omega (arith, size)),
        length-take 8 (drop 32 okm) (omega (arith, size, length-drop 32 okm)),
      )

  -- Both sides derive the same key and prefix.
  pub derive-symmetric :
      PrimitivesLaws p
      → (a b salt : Bytes)
      → derive_shared_encryption_key p a (p.dalek.ed25519_public b) salt
        ≡ derive_shared_encryption_key p b (p.dalek.ed25519_public a) salt
  unfolding derive_shared_encryption_key
  derive-symmetric laws a b salt = rw (laws.shared a b)

  module _ (secret key prefix : Bytes) where
    pub unseal_chunks_lem :
        (total i : ℕ) (so_far : Bytes) (parts : List Bytes) (cs : List NetworkChunk)
        → AreSealed p secret key prefix total i parts cs
        → unseal_chunks p key prefix total i so_far cs ≡ ok (so_far ++ concat parts)
    unfolding unseal_chunks
    unseal_chunks_lem total i so_far [] [] s = rw append-nil
    unseal_chunks_lem total i so_far [] (c ∷ cs) s = elim s [ ]
    unseal_chunks_lem total i so_far (piece ∷ rest) [] s = elim s [ ]
    unseal_chunks_lem total i so_far (piece ∷ rest) (c ∷ cs) s =
        rw (s.0.opens, add-one i)
          (unseal_chunks_lem total (suc i) (so_far ++ piece) rest cs s.1 ∙ rw append_assoc)

    pub length-AreSealed :
        (total i : ℕ) (parts : List Bytes) (cs : List NetworkChunk)
        → AreSealed p secret key prefix total i parts cs
        → length cs ≡ length parts
    length-AreSealed total i [] [] s = refl
    length-AreSealed total i [] (c ∷ cs) s = elim s [ ]
    length-AreSealed total i (piece ∷ rest) [] s = elim s [ ]
    length-AreSealed total i (piece ∷ rest) (c ∷ cs) s =
        ap suc (length-AreSealed total (suc i) rest cs s.1)

    pub sort_chunks-AreSealed :
        (total i : ℕ) (parts : List Bytes) (cs : List NetworkChunk)
        → AreSealed p secret key prefix total i parts cs
        → sort_chunks cs ≡ cs
    unfolding sort_chunks insert_chunk
    sort_chunks-AreSealed total i [] [] s = refl
    sort_chunks-AreSealed total i [] (c ∷ cs) s = elim s [ ]
    sort_chunks-AreSealed total i (piece ∷ rest) [] s = elim s [ ]
    sort_chunks-AreSealed total i (piece ∷ []) (c ∷ []) s = refl
    sort_chunks-AreSealed total i (piece ∷ []) (c ∷ (c' ∷ cs)) s = elim s.1 [ ]
    sort_chunks-AreSealed total i (piece ∷ (piece' ∷ rest)) (c ∷ []) s = elim s.1 [ ]
    sort_chunks-AreSealed total i (piece ∷ (piece' ∷ rest)) (c ∷ (c' ∷ cs)) s =
        let first : leb c.sequence c'.sequence ≡ true =
          ground (arith, s.0.sequence, s.1.0.sequence) in
        ap (insert_chunk c) (sort_chunks-AreSealed total (suc i) (piece' ∷ rest) (c' ∷ cs) s.1)
        ∙ rw first

    pub sequences-AreSealed :
        (total i : ℕ) (parts : List Bytes) (cs : List NetworkChunk)
        → AreSealed p secret key prefix total i parts cs
        → map (λ c. c.sequence) cs ≡ numbers i (length parts)
    sequences-AreSealed total i [] [] s = refl
    sequences-AreSealed total i [] (c ∷ cs) s = elim s [ ]
    sequences-AreSealed total i (piece ∷ rest) [] s = elim s [ ]
    sequences-AreSealed total i (piece ∷ rest) (c ∷ cs) s =
        rw (s.0.sequence, sequences-AreSealed total (suc i) rest cs s.1)

    pub signatures-AreSealed :
        (env : Envelope) (total i : ℕ) (parts : List Bytes) (cs : List NetworkChunk)
        → env.verifying_key_bytes ≡ p.dalek.ed25519_public secret
        → AreSealed p secret key prefix total i parts cs
        → all (verify_chunk_signature p env) cs ≡ true
    unfolding verify_chunk_signature
    signatures-AreSealed env total i [] [] e s = refl
    signatures-AreSealed env total i [] (c ∷ cs) e s = elim s [ ]
    signatures-AreSealed env total i (piece ∷ rest) [] e s = elim s [ ]
    signatures-AreSealed env total i (piece ∷ rest) (c ∷ cs) e s =
        rw (e, s.0.signed) (signatures-AreSealed env total (suc i) rest cs e s.1)
