-- ===== src/Chain/Correct.antt =====
-- crates/core/src/chain.rs: the lists of segments that `validate_chain` accepts.
use sealedge.Base.{
  ℕ, suc, ◌+◌, ◌≡◌, refl, ap, ◌∙◌, ◌↔◌, List, [], ◌∷◌, Bytes, Text, bytes_eq_iff, bytes_eq_refl, ok,
  arith,
}
use sealedge.Chain.{
  ChainSegment, chain_next, genesis, check_gaps, check_continuity, validate_chain, chain_from,
  chain_of, hashes_of,
}

module _ (blake3 : Bytes → Bytes) (hex : Bytes → Text) where
  -- Both loops pass exactly on the chain built over the stored hashes.
  loops-chain_from :
      (i : ℕ) (previous : Bytes) (segments : List ChainSegment)
      → check_gaps i segments ≡ ok tt
      → check_continuity blake3 hex previous segments ≡ ok tt
      → segments ≡ chain_from blake3 i previous (hashes_of segments)
  unfolding check_gaps check_continuity chain_from
  loops-chain_from i previous [] g c = refl
  loops-chain_from i previous (s ∷ rest) g c =
      let expected = chain_next blake3 previous s.stored_hash in
      ground
        (arith, bytes_eq_iff expected s.stored_continuity, loops-chain_from (i + 1) expected rest)

  check_gaps-chain_from :
      (i : ℕ) (previous : Bytes) (hashes : List Bytes)
      → check_gaps i (chain_from blake3 i previous hashes) ≡ ok tt
  unfolding check_gaps chain_from
  check_gaps-chain_from i previous [] = refl
  check_gaps-chain_from i previous (h ∷ rest) =
      ground (arith, check_gaps-chain_from (suc i) (chain_next blake3 previous h) rest)

  check_continuity-chain_from :
      (i : ℕ) (previous : Bytes) (hashes : List Bytes)
      → check_continuity blake3 hex previous (chain_from blake3 i previous hashes) ≡ ok tt
  unfolding check_continuity chain_from
  check_continuity-chain_from i previous [] = refl
  check_continuity-chain_from i previous (h ∷ rest) =
      let expected = chain_next blake3 previous h in
      rw (bytes_eq_refl expected) (check_continuity-chain_from (suc i) expected rest)

  -- The chain built over any hashes, from genesis, is accepted.
  pub validate_chain-chain_of :
      (hashes : List Bytes) → validate_chain blake3 hex (chain_of blake3 hashes) ≡ ok tt
  unfolding validate_chain chain_of chain_from
  validate_chain-chain_of [] = refl
  validate_chain-chain_of (h ∷ rest) =
      rw (check_gaps-chain_from 0 (genesis blake3) (h ∷ rest))
        (check_continuity-chain_from 0 (genesis blake3) (h ∷ rest))

  pub validate_chain_sound :
      (segments : List ChainSegment)
      → validate_chain blake3 hex segments ≡ ok tt
      → segments ≡ chain_of blake3 (hashes_of segments)
  unfolding validate_chain chain_of
  validate_chain_sound [] h = unfold chain_from in refl
  validate_chain_sound (s ∷ rest) h = ground (arith, loops-chain_from 0 (genesis blake3) (s ∷ rest))

  -- `validate_chain` accepts a list of segments exactly when it is the chain built over its own
  -- stored hashes: indices 0, 1, 2, … and every continuity value linked back to genesis.
  pub validate_chain_iff :
      (segments : List ChainSegment)
      → (validate_chain blake3 hex segments ≡ ok tt)
        ↔ (segments ≡ chain_of blake3 (hashes_of segments))
  validate_chain_iff segments = (
    validate_chain_sound segments,
    λ e. ap (validate_chain blake3 hex) e ∙ validate_chain-chain_of (hashes_of segments),
  )
