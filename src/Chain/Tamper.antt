-- ===== src/Chain/Tamper.antt =====
-- crates/core/src/chain.rs: `validate_chain` and the last link of a chain, under changes of the
-- segments. A digest may collide; a collision is a value.
use mathlib.Core.List.{reverse, reverse-reverse, reverse-cons}
use sealedge.Base.{
  ℕ, suc, ◌≡◌, refl, ap, sym, ◌∙◌, ◌≢◌, ◌⊎◌, List, [], ◌∷◌, ◌++◌, Bytes, Text, bytes_eq,
  bytes_eq_iff, ok, arith, Bool-cases, inl, inr, length, length-append, All, append-injective,
  All-reverse,
}
use sealedge.Chain.{
  ChainSegment, chain_next, genesis, genesis_seed, validate_chain, chain_from, chain_of, tip_from,
  hashes_of,
}
use sealedge.Chain.Correct.{validate_chain_sound}

-- Two different messages with one digest.
pub record Collision (blake3 : Bytes → Bytes) : Type 0 where
  pub left : Bytes
  pub right : Bytes
  pub differ : left ≢ right
  pub same : blake3 left ≡ blake3 right

-- `[u8; 32]`
abbrev pub IsDigest : Bytes → Type 0
IsDigest d = length d ≡ 32

module _ (blake3 : Bytes → Bytes) where
  -- Equal digests: the messages are equal, or they collide.
  pub digest-injective : (a b : Bytes) → blake3 a ≡ blake3 b → (a ≡ b) ⊎ Collision blake3
  digest-injective a b e = elim (Bool-cases (bytes_eq a b)) [
    | inl same ↦ inl ((bytes_eq_iff a b).0 same)
    | inr differ ↦ inr (record {
      left = a;
      right = b;
      differ = λ p. cc (differ, (bytes_eq_iff a b).1 p);
      same = e;
    })
  ]

  -- The tip over the hashes, the last one first.
  tip_back : List Bytes → Bytes
  tip_back [] = genesis blake3
  tip_back (hash ∷ rest) = chain_next blake3 (tip_back rest) hash

  tip_from-snoc :
      (previous hash : Bytes) (hashes : List Bytes)
      → tip_from blake3 previous (hashes ++ hash ∷ [])
        ≡ chain_next blake3 (tip_from blake3 previous hashes) hash
  unfolding tip_from
  tip_from-snoc previous hash [] = refl
  tip_from-snoc previous hash (h ∷ rest) = tip_from-snoc (chain_next blake3 previous h) hash rest

  tip_from-reverse :
      (back : List Bytes) → tip_from blake3 (genesis blake3) (reverse back) ≡ tip_back back
  unfolding tip_back
  tip_from-reverse [] = unfold tip_from in refl
  tip_from-reverse (h ∷ rest) = rw reverse-cons (
      tip_from-snoc (genesis blake3) h (reverse rest)
      ∙ ap (λ t. chain_next blake3 t h) (tip_from-reverse rest))

  module _ (digest_size : (m : Bytes) → IsDigest (blake3 m)) where
    tip_back-IsDigest : (back : List Bytes) → IsDigest (tip_back back)
    unfolding tip_back chain_next genesis
    tip_back-IsDigest [] = digest_size genesis_seed
    tip_back-IsDigest (h ∷ rest) = digest_size (tip_back rest ++ h)

    -- 16 bytes are hashed for genesis, 64 for a link.
    genesis-ne-link :
        (back : List Bytes) (hash : Bytes) → IsDigest hash → genesis_seed ≢ tip_back back ++ hash
    genesis-ne-link back hash h e =
        omega (arith, ap length e, length-append (tip_back back) hash, tip_back-IsDigest back)

    -- One link: the same preimage gives the same hash, and the same tip before it.
    link_cases :
        (xs ys : List Bytes) (x y : Bytes)
        → (tip_back xs ≡ tip_back ys → (xs ≡ ys) ⊎ Collision blake3)
        → (tip_back xs ++ x ≡ tip_back ys ++ y) ⊎ Collision blake3
        → (x ∷ xs ≡ y ∷ ys) ⊎ Collision blake3
    link_cases xs ys x y ih (inr c) = inr c
    link_cases xs ys x y ih (inl p) =
        let parts : (tip_back xs ≡ tip_back ys) × (x ≡ y) =
          append-injective (tip_back xs) (tip_back ys) x y
            (tip_back-IsDigest xs ∙ sym (tip_back-IsDigest ys)) p in
        elim (ih parts.0) [ inl q ↦ inl (cc (parts.1, q)) | inr c ↦ inr c ]

    tip_back-injective :
        (xs ys : List Bytes)
        → All IsDigest xs
        → All IsDigest ys
        → tip_back xs ≡ tip_back ys
        → (xs ≡ ys) ⊎ Collision blake3
    unfolding tip_back genesis chain_next
    tip_back-injective [] [] hx hy e = inl refl
    tip_back-injective [] (y ∷ ys) hx hy e =
        elim (digest-injective genesis_seed (tip_back ys ++ y) e) [
          | inl p ↦ absurd (genesis-ne-link ys y hy.0 p)
          | inr c ↦ inr c
        ]
    tip_back-injective (x ∷ xs) [] hx hy e =
        elim (digest-injective genesis_seed (tip_back xs ++ x) (sym e)) [
          | inl p ↦ absurd (genesis-ne-link xs x hx.0 p)
          | inr c ↦ inr c
        ]
    tip_back-injective (x ∷ xs) (y ∷ ys) hx hy e =
        link_cases xs ys x y (tip_back-injective xs ys hx.1 hy.1)
          (digest-injective (tip_back xs ++ x) (tip_back ys ++ y) e)

    pub tip_from-injective :
        (xs ys : List Bytes)
        → All IsDigest xs
        → All IsDigest ys
        → tip_from blake3 (genesis blake3) xs ≡ tip_from blake3 (genesis blake3) ys
        → (xs ≡ ys) ⊎ Collision blake3
    tip_from-injective xs ys hx hy e =
        elim (tip_back-injective (reverse xs) (reverse ys) (All-reverse IsDigest xs hx)
          (All-reverse IsDigest ys hy) (back xs ∙ e ∙ sym (back ys))) [
            | inl p ↦ inl (sym (reverse-reverse xs) ∙ ap reverse p ∙ reverse-reverse ys)
            | inr c ↦ inr c
          ]
      where
        back : (zs : List Bytes) → tip_back (reverse zs) ≡ tip_from blake3 (genesis blake3) zs
        back zs =
            sym (tip_from-reverse (reverse zs))
            ∙ ap (tip_from blake3 (genesis blake3)) (reverse-reverse zs)

-- The last stored continuity value, genesis for an archive with no segments.
unfoldable pub stored_tip : Bytes → List ChainSegment → Bytes
stored_tip start [] = start
stored_tip start (segment ∷ rest) = stored_tip segment.stored_continuity rest

stored_tip-chain_from :
    (blake3 : Bytes → Bytes) (i : ℕ) (previous : Bytes) (hashes : List Bytes)
    → stored_tip previous (chain_from blake3 i previous hashes) ≡ tip_from blake3 previous hashes
unfolding stored_tip chain_from tip_from
stored_tip-chain_from blake3 i previous [] = refl
stored_tip-chain_from blake3 i previous (h ∷ rest) =
    stored_tip-chain_from blake3 (suc i) (chain_next blake3 previous h) rest

module _ (blake3 : Bytes → Bytes) (hex : Bytes → Text)
    (digest_size : (m : Bytes) → IsDigest (blake3 m)) where
  stored_tip-valid :
      (segments : List ChainSegment)
      → validate_chain blake3 hex segments ≡ ok tt
      → stored_tip (genesis blake3) segments ≡ tip_from blake3 (genesis blake3) (hashes_of segments)
  unfolding chain_of
  stored_tip-valid segments h =
      ap (stored_tip (genesis blake3)) (validate_chain_sound blake3 hex segments h)
      ∙ stored_tip-chain_from blake3 0 (genesis blake3) (hashes_of segments)

  -- Two lists of segments, of any lengths, that `validate_chain` accepts and that end in the same
  -- stored continuity value (genesis for an empty list) are the same list, or the proof holds two
  -- different messages with one digest. Stored hashes are 32 bytes, and so is every digest.
  pub validate_chain_tamper_evident :
      (xs ys : List ChainSegment)
      → All IsDigest (hashes_of xs)
      → All IsDigest (hashes_of ys)
      → validate_chain blake3 hex xs ≡ ok tt
      → validate_chain blake3 hex ys ≡ ok tt
      → stored_tip (genesis blake3) xs ≡ stored_tip (genesis blake3) ys
      → (xs ≡ ys) ⊎ Collision blake3
  validate_chain_tamper_evident xs ys hx hy vx vy e =
      elim (tip_from-injective blake3 digest_size (hashes_of xs) (hashes_of ys) hx hy
        (sym (stored_tip-valid xs vx) ∙ e ∙ stored_tip-valid ys vy)) [
          | inl p ↦ inl (
              validate_chain_sound blake3 hex xs vx
              ∙ ap (chain_of blake3) p
              ∙ sym (validate_chain_sound blake3 hex ys vy))
          | inr c ↦ inr c
        ]
