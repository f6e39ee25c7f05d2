-- ===== src/Chain.antt =====
-- crates/core/src/chain.rs: the BLAKE3 continuity chain over an archive's segments.
-- BLAKE3 (`blake3`) and `hex::encode` (`hex`) are parameters: functions on byte strings.
pub mod Correct
pub mod Tamper
pub mod Errors
pub mod Tests
use sealedge.Base.{
  ℕ, zero, suc, ◌+◌, List, [], ◌∷◌, ◌++◌, Bytes, Text, str, bytes_eq, Result, ok, err, ensure,
  ◌>>=◌, ◌>>◌, ◌==◌, map,
}

abbrev pub genesis_seed : Bytes
genesis_seed = str "sealedge:genesis"

pub record ChainSegment : Type 0 where
  pub index : ℕ
  pub stored_hash : Bytes
  pub stored_continuity : Bytes

pub data ChainError : Type 0 where
  gap : ℕ → ChainError
  out_of_order : Text → Text → ChainError
  end_of_chain_truncated : ChainError

module _ (blake3 : Bytes → Bytes) where
  unfoldable pub segment_hash : Bytes → Bytes
  segment_hash ciphertext = blake3 ciphertext

  -- The hasher is fed `prev`, then `curr`.
  unfoldable pub chain_next : Bytes → Bytes → Bytes
  chain_next prev curr = blake3 (prev ++ curr)

  unfoldable pub genesis : Bytes
  genesis = blake3 genesis_seed

-- The loop over `segments.iter().enumerate()`, from position `i`.
unfoldable pub check_gaps : ℕ → List ChainSegment → Result ChainError (Unit {0})
check_gaps i [] = ok tt
check_gaps i (segment ∷ rest) = do ensure (segment.index == i) (gap i); check_gaps (i + 1) rest

module _ (blake3 : Bytes → Bytes) (hex : Bytes → Text) where
  -- The loop that carries `expected_continuity`; `previous` is its value before the round.
  unfoldable pub check_continuity : Bytes → List ChainSegment → Result ChainError (Unit {0})
  check_continuity previous [] = ok tt
  check_continuity previous (segment ∷ rest) =
      let expected = chain_next blake3 previous segment.stored_hash in
      do
        ensure (bytes_eq expected segment.stored_continuity)
            (out_of_order (hex expected) (hex segment.stored_continuity))
        check_continuity expected rest

  unfoldable pub validate_chain : List ChainSegment → Result ChainError (Unit {0})
  validate_chain [] = ok tt
  validate_chain segments = do check_gaps 0 segments; check_continuity (genesis blake3) segments

-- The chain that a writer builds over segment hashes, an independent description of a valid one.
module _ (blake3 : Bytes → Bytes) where
  unfoldable pub chain_from : ℕ → Bytes → List Bytes → List ChainSegment
  chain_from i previous [] = []
  chain_from i previous (hash ∷ rest) =
      let continuity = chain_next blake3 previous hash in
      record { index = i; stored_hash = hash; stored_continuity = continuity }
      ∷ chain_from (suc i) continuity rest

  unfoldable pub chain_of : List Bytes → List ChainSegment
  chain_of hashes = chain_from 0 (genesis blake3) hashes

  -- The last link of the chain over the hashes.
  unfoldable pub tip_from : Bytes → List Bytes → Bytes
  tip_from previous [] = previous
  tip_from previous (hash ∷ rest) = tip_from (chain_next blake3 previous hash) rest

abbrev pub hashes_of : List ChainSegment → List Bytes
hashes_of = map λ segment. segment.stored_hash
