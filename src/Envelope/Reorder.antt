-- ===== src/Envelope/Reorder.antt =====
-- crates/core/src/envelope.rs: the number outside a chunk's signed manifest. `unseal` sorts by it and
-- takes the nonce from the number inside.
use sealedge.Base.{
  ℕ, ◌-◌, ◌^◌, ◌≤◌, ◌<◌, ◌≡◌, refl, ap, sym, ◌∙◌, subst, List, [], ◌∷◌, ◌++◌, Bytes, length,
  length-append, Bool, true, false, ok, arith, ◌==◌,
}
use sealedge.Archive.{concat}
use sealedge.Envelope.{NetworkChunk, Envelope, Primitives, PrimitivesLaws, payload_chunks}
use sealedge.Envelope.Seal.{seal}
use sealedge.Envelope.Unseal.{verify, unseal, decrypt_chunk_v2}
use sealedge.Envelope.Pieces.{concat-payload_chunks}
use sealedge.Envelope.Sealed.{IsSealed, AreSealed}
use sealedge.Envelope.Loops.{Contributory}
use sealedge.Envelope.RoundTrip.{max_payload, Holds, seal-Holds, verify-Holds, unseal-Holds}

-- The first two chunks change places, and the outer numbers follow the places.
abbrev pub swap_chunks : List NetworkChunk → List NetworkChunk
swap_chunks (x ∷ y ∷ rest) = record y { sequence = 0 } ∷ record x { sequence = 1 } ∷ rest
swap_chunks cs = cs

abbrev pub swap_first_two : Envelope → Envelope
swap_first_two env = record env { chunks = swap_chunks env.chunks }

length-swap_chunks : (cs : List NetworkChunk) → length (swap_chunks cs) ≡ length cs
length-swap_chunks [] = refl
length-swap_chunks (x ∷ []) = refl
length-swap_chunks (x ∷ y ∷ rest) = refl

length-exchange : (a b r : Bytes) → length (a ++ (b ++ r)) ≡ length (b ++ (a ++ r))
length-exchange a b r = omega (
  arith,
  length-append a (b ++ r),
  length-append b r,
  length-append b (a ++ r),
  length-append a r,
)

module _ (p : Primitives) where
  -- Only the outer number ties a sealed chunk to its place.
  renumbered :
      (secret key prefix : Bytes) (i j : ℕ) (is_last : Bool) (piece : Bytes) (c : NetworkChunk)
      → IsSealed p secret key prefix i is_last piece c
      → IsSealed p secret key prefix j is_last piece (record c { sequence = j })
  unfolding decrypt_chunk_v2
  renumbered secret key prefix i j is_last piece c s = record {
    sequence = refl;
    signed = s.signed;
    opens = s.opens;
  }

  AreSealed-swap_chunks :
      (secret key prefix : Bytes) (total : ℕ) (a b : Bytes) (rest : List Bytes)
      (cs : List NetworkChunk)
      → 2 < total
      → AreSealed p secret key prefix total 0 (a ∷ b ∷ rest) cs
      → AreSealed p secret key prefix total 0 (b ∷ a ∷ rest) (swap_chunks cs)
  AreSealed-swap_chunks secret key prefix total a b rest [] h s = elim s [ ]
  AreSealed-swap_chunks secret key prefix total a b rest (x ∷ []) h s = elim s.1 [ ]
  AreSealed-swap_chunks secret key prefix total a b rest (x ∷ y ∷ cs) h s =
      let first : (0 == total - 1) ≡ false = ground arith in
      let second : (1 == total - 1) ≡ false = ground arith in
      rw (first, second)
        (
          renumbered secret key prefix 1 0 false b y
              (subst (λ l. IsSealed p secret key prefix 1 l b y) second s.1.0),
          (
            renumbered secret key prefix 0 1 false a x
                (subst (λ l. IsSealed p secret key prefix 0 l a x) first s.0),
            s.1.1,
          ),
        )

  -- An envelope of more than two chunks whose first two chunks were exchanged, with the numbers outside
  -- their signed manifests set to the new places, still verifies, and `unseal` gives the payload
  -- with its first two pieces exchanged: for each payload of up to 2^40 bytes in pieces `a`, `b`,
  -- `c` and the rest, a clock within 64 bits, and two keys whose shared secret is not all zeros.
  pub unseal-swap_first_two :
      PrimitivesLaws p
      → (timestamp : ℕ) (salt : Bytes) (clock : ℕ → ℕ) (payload secret their_secret : Bytes)
        (a b c : Bytes) (rest : List Bytes)
      → timestamp < 2 ^ 64
      → length payload ≤ max_payload
      → Contributory p secret (p.dalek.ed25519_public their_secret)
      → payload_chunks payload ≡ a ∷ b ∷ c ∷ rest
      → (env : Envelope) × (seal p timestamp salt clock payload secret
            (p.dalek.ed25519_public their_secret)
          ≡ ok env)
        × (verify p (swap_first_two env) ≡ true)
        × (unseal p (swap_first_two env) their_secret ≡ ok (b ++ (a ++ concat (c ∷ rest))))
  unseal-swap_first_two laws timestamp salt clock payload secret their_secret a b c rest on_time
        small nonzero cut =
      let (env, made, h) =
        seal-Holds p laws timestamp salt clock payload secret (p.dalek.ed25519_public their_secret)
          on_time small nonzero in
      let parts = a ∷ b ∷ c ∷ rest in
      let sealed =
        subst (λ ps. AreSealed p secret h.key h.prefix (length ps) 0 ps env.chunks) cut h.sealed in
      let swapped =
        AreSealed-swap_chunks secret h.key h.prefix (length parts) a b (c ∷ rest) env.chunks
          (omega arith) sealed in
      let whole = sym (ap concat cut) ∙ concat-payload_chunks payload in
      let held : Holds p secret (p.dalek.ed25519_public their_secret)
          (b ++ (a ++ concat (c ∷ rest))) (b ∷ a ∷ c ∷ rest) (swap_first_two env) =
        record {
          key = h.key;
          prefix = h.prefix;
          derived = h.derived;
          version = h.version;
          sender = h.sender;
          size = h.size ∙ sym (ap length whole) ∙ length-exchange a b (concat (c ∷ rest));
          count = length-swap_chunks env.chunks ∙ h.count;
          whole = refl;
          sealed = swapped;
        } in
      (
        env,
        made,
        verify-Holds p secret (p.dalek.ed25519_public their_secret) _ (b ∷ a ∷ c ∷ rest)
            (swap_first_two env) held,
        unseal-Holds p laws secret their_secret _ (b ∷ a ∷ c ∷ rest) (swap_first_two env) held,
      )
