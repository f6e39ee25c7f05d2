-- ===== src/Chain/Tests.antt =====
-- The chain at concrete inputs. The hash keeps the first 32 bytes of its input, so it is short of
-- no collision.
use sealedge.Base.{
  bytes_eq, ℕ, ◌≡◌, ◌≢◌, refl, ap, ◌↔◌, ◌⊎◌, List, [], ◌∷◌, ◌++◌, Bytes, Text, replicate, ok, err,
  arith,
}
use sealedge.Crypto.Toy.{fit}
use sealedge.Chain.{
  ChainSegment, out_of_order, chain_next, genesis, check_gaps, check_continuity, validate_chain,
  chain_from, chain_of, tip_from, hashes_of,
}
use sealedge.Chain.Correct.{validate_chain_iff}
use sealedge.Chain.Tamper.{Collision, stored_tip, validate_chain_tamper_evident}
use sealedge.Chain.Errors.{IndexesFrom, validate_chain_broken_link}
use sealedge.Crypto.Toy.{length-fit}

abbrev toy_hash : Bytes → Bytes
toy_hash = fit 32

abbrev toy_hex : Bytes → Text
toy_hex b = b

abbrev one : Bytes
one = replicate 32 1

abbrev two : Bytes
two = replicate 32 2

abbrev seed : Bytes
seed = genesis toy_hash

-- The links of this chain are all the first one, as the hash cuts the rest off.
abbrev segment : ℕ → Bytes → Bytes → ChainSegment
segment i hash link = record { index = i; stored_hash = hash; stored_continuity = link }

abbrev first_chain : List ChainSegment
first_chain = segment 0 one seed ∷ segment 1 two seed ∷ []

abbrev second_chain : List ChainSegment
second_chain = segment 0 two seed ∷ []

first_chain-ok : validate_chain toy_hash toy_hex first_chain ≡ ok tt
unfolding validate_chain check_gaps check_continuity chain_next genesis fit bytes_eq
first_chain-ok = refl

second_chain-ok : validate_chain toy_hash toy_hex second_chain ≡ ok tt
unfolding validate_chain check_gaps check_continuity chain_next genesis fit bytes_eq
second_chain-ok = refl

same_tip : stored_tip seed first_chain ≡ stored_tip seed second_chain
unfolding stored_tip
same_tip = refl

validate_chain_tamper_evident_example : (first_chain ≡ second_chain) ⊎ Collision toy_hash
validate_chain_tamper_evident_example =
    validate_chain_tamper_evident toy_hash toy_hex (length-fit 32) first_chain second_chain
      (refl, (refl, tt)) (refl, tt) first_chain-ok second_chain-ok same_tip

validate_chain_iff_example :
    (validate_chain toy_hash toy_hex first_chain ≡ ok tt)
    ↔ (first_chain ≡ chain_of toy_hash (hashes_of first_chain))
validate_chain_iff_example = validate_chain_iff toy_hash toy_hex first_chain

abbrev head : Bytes → ℕ
head [] = 0
head (x ∷ xs) = x

indexes : IndexesFrom 0 (chain_of toy_hash (one ∷ []) ++ segment 1 two one ∷ [])
unfolding chain_of chain_from
indexes = (refl, (refl, tt))

link_differs : one ≢ chain_next toy_hash (tip_from toy_hash seed (one ∷ [])) two
unfolding chain_next tip_from genesis fit
link_differs e = absurd (omega (arith, ap head e))

validate_chain_broken_link_example :
    validate_chain toy_hash toy_hex (chain_of toy_hash (one ∷ []) ++ segment 1 two one ∷ [])
    ≡ err (out_of_order (chain_next toy_hash (tip_from toy_hash seed (one ∷ [])) two) one)
validate_chain_broken_link_example =
    validate_chain_broken_link toy_hash toy_hex (one ∷ []) [] (segment 1 two one) indexes
      link_differs
