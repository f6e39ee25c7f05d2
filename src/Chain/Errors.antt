-- ===== src/Chain/Errors.antt =====
-- crates/core/src/chain.rs: the errors of `validate_chain`.
use sealedge.Base.{
  ℕ, suc, ◌+◌, ◌≡◌, refl, ap, ◌≢◌, List, [], ◌∷◌, ◌++◌, Bytes, Text, bytes_eq_iff, bytes_eq_refl,
  ok, err, arith, length,
}
use sealedge.Chain.{
  ChainSegment, gap, out_of_order, chain_next, genesis, check_gaps, check_continuity,
  validate_chain, chain_from, chain_of, tip_from,
}

-- The indices count up from `i`.
abbrev pub IndexesFrom : ℕ → List ChainSegment → Type 0
IndexesFrom i [] = Unit {0}
IndexesFrom i (s ∷ rest) = (s.index ≡ i) × IndexesFrom (i + 1) rest

check_gaps-IndexesFrom :
    (i : ℕ) (segments : List ChainSegment) → IndexesFrom i segments → check_gaps i segments ≡ ok tt
unfolding check_gaps
check_gaps-IndexesFrom i [] h = refl
check_gaps-IndexesFrom i (s ∷ rest) h = ground (arith, check_gaps-IndexesFrom (i + 1) rest)

check_gaps-first :
    (i : ℕ) (good rest : List ChainSegment) (bad : ChainSegment)
    → IndexesFrom i good
    → bad.index ≢ i + length good
    → check_gaps i (good ++ bad ∷ rest) ≡ err (gap (i + length good))
unfolding check_gaps
check_gaps-first i [] rest bad h n = ground arith
check_gaps-first i (s ∷ good) rest bad h n =
    let e : i + 1 + length good ≡ i + suc (length good) = omega arith in
    ground (arith, check_gaps-first (i + 1) good rest bad, e)

module _ (blake3 : Bytes → Bytes) (hex : Bytes → Text) where
  -- When the first segments carry the indices 0, 1, 2, … and the next one, at position `i`, does
  -- not carry `i`, the answer is `Gap(i)`, whatever the hashes are and whatever follows.
  pub validate_chain_gap :
      (good rest : List ChainSegment) (bad : ChainSegment)
      → IndexesFrom 0 good
      → bad.index ≢ length good
      → validate_chain blake3 hex (good ++ bad ∷ rest) ≡ err (gap (length good))
  unfolding validate_chain
  validate_chain_gap [] rest bad h n =
      rw (check_gaps-first 0 [] rest bad h (omega arith)) (ap (λ k. err (gap k)) (omega arith))
  validate_chain_gap (s ∷ good) rest bad h n =
      rw (check_gaps-first 0 (s ∷ good) rest bad h (omega arith))
        (ap (λ k. err (gap k)) (omega arith))

  check_continuity-first :
      (i : ℕ) (previous : Bytes) (good : List Bytes) (rest : List ChainSegment) (bad : ChainSegment)
      → let expected = chain_next blake3 (tip_from blake3 previous good) bad.stored_hash in
        bad.stored_continuity ≢ expected
        → check_continuity blake3 hex previous (chain_from blake3 i previous good ++ bad ∷ rest)
          ≡ err (out_of_order (hex expected) (hex bad.stored_continuity))
  unfolding check_continuity chain_from tip_from
  check_continuity-first i previous [] rest bad n =
      ground
        (arith, bytes_eq_iff (chain_next blake3 previous bad.stored_hash) bad.stored_continuity)
  check_continuity-first i previous (h ∷ good) rest bad n =
      let expected = chain_next blake3 previous h in
      rw (bytes_eq_refl expected) (check_continuity-first (suc i) expected good rest bad n)

  -- When every index is right and the segments before `bad` are a valid chain, a wrong continuity
  -- value in `bad` is reported as `OutOfOrder`, with the value that its hash and the link before
  -- it give, and with the value that it stores, both in hex.
  pub validate_chain_broken_link :
      (good : List Bytes) (rest : List ChainSegment) (bad : ChainSegment)
      → IndexesFrom 0 (chain_of blake3 good ++ bad ∷ rest)
      → bad.stored_continuity
        ≢ chain_next blake3 (tip_from blake3 (genesis blake3) good) bad.stored_hash
      → validate_chain blake3 hex (chain_of blake3 good ++ bad ∷ rest)
        ≡ err (
            out_of_order
              (hex (chain_next blake3 (tip_from blake3 (genesis blake3) good) bad.stored_hash))
              (hex bad.stored_continuity))
  unfolding validate_chain chain_of chain_from chain_next
  validate_chain_broken_link [] rest bad h n =
      rw (check_gaps-IndexesFrom 0 _ h) (check_continuity-first 0 (genesis blake3) [] rest bad n)
  validate_chain_broken_link (x ∷ good) rest bad h n =
      rw (check_gaps-IndexesFrom 0 _ h)
        (check_continuity-first 0 (genesis blake3) (x ∷ good) rest bad n)
