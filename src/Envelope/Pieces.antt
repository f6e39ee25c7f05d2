-- ===== src/Envelope/Pieces.antt =====
-- crates/core/src/envelope.rs: how `payload.chunks(DEFAULT_CHUNK_SIZE)` cuts a payload, and the bytes of
-- a chunk's nonce.
use sealedge.Base.{
  sym, ℕ, zero, suc, ◌+◌, ◌-◌, ◌/◌, ◌≤◌, ◌≡◌, refl, ap, ◌∙◌, List, [], ◌∷◌, ◌++◌, Bytes, Bool,
  length, length-append, take, drop, take-append, drop-append, All, arith, append-injective,
}
use sealedge.Archive.{concat}
use sealedge.Format.{be32}
use sealedge.Envelope.{default_chunk_size, max_chunk_index, pieces, payload_chunks, chunk_nonce}

take-drop : {A : Type 0} (n : ℕ) (xs : List A) → take n xs ++ drop n xs ≡ xs
take-drop zero xs = refl
take-drop (suc n) [] = refl
take-drop (suc n) (x ∷ xs) = ap (λ t. x ∷ t) (take-drop n xs)

pub length-drop : {A : Type 0} (n : ℕ) (xs : List A) → length (drop n xs) ≡ length xs - n
length-drop zero xs = omega arith
length-drop (suc n) [] = omega arith
length-drop (suc n) (x ∷ xs) = length-drop n xs ∙ omega arith

length-take-le : {A : Type 0} (n : ℕ) (xs : List A) → length (take n xs) ≤ n
length-take-le zero xs = omega arith
length-take-le (suc n) [] = omega arith
length-take-le (suc n) (x ∷ xs) = omega (arith, length-take-le n xs)

-- One piece less is left over with each round.
cut : (n : ℕ) (b : ℕ) (payload : Bytes) → length (drop (suc n) (b ∷ payload)) ≤ length payload
cut n b payload = omega (arith, length-drop n payload)

concat-pieces :
    (fuel : ℕ) (payload : Bytes) → length payload ≤ fuel → concat (pieces fuel payload) ≡ payload
unfolding pieces
concat-pieces zero [] h = refl
concat-pieces zero (b ∷ payload) h = absurd (omega arith)
concat-pieces (suc fuel) [] h = refl
concat-pieces (suc fuel) (b ∷ payload) h =
    let rest = drop default_chunk_size (b ∷ payload) in
    ap (λ t. take default_chunk_size (b ∷ payload) ++ t)
      (concat-pieces fuel rest (omega (arith, cut 65535 b payload)))
    ∙ take-drop default_chunk_size (b ∷ payload)

length-pieces :
    (fuel : ℕ) (payload : Bytes)
    → length payload ≤ fuel
    → length (pieces fuel payload) ≡ (length payload + default_chunk_size - 1) / default_chunk_size
unfolding pieces
length-pieces zero [] h = omega arith
length-pieces zero (b ∷ payload) h = absurd (omega arith)
length-pieces (suc fuel) [] h = omega arith
length-pieces (suc fuel) (b ∷ payload) h =
    let rest = drop default_chunk_size (b ∷ payload) in
    omega (
      arith,
      length-pieces fuel rest (omega (arith, cut 65535 b payload)),
      length-drop default_chunk_size (b ∷ payload),
    )

abbrev pub IsPiece : Bytes → Type 0
IsPiece b = length b ≤ default_chunk_size

pieces-IsPiece : (fuel : ℕ) (payload : Bytes) → All IsPiece (pieces fuel payload)
unfolding pieces
pieces-IsPiece zero payload = tt
pieces-IsPiece (suc fuel) [] = tt
pieces-IsPiece (suc fuel) (b ∷ payload) = (
  length-take-le default_chunk_size (b ∷ payload),
  pieces-IsPiece fuel (drop default_chunk_size (b ∷ payload)),
)

-- The pieces make up the payload, are at most 64 KiB each, and are as many as `seal` counts.
pub concat-payload_chunks : (payload : Bytes) → concat (payload_chunks payload) ≡ payload
unfolding payload_chunks
concat-payload_chunks payload = concat-pieces (length payload) payload (omega arith)

pub length-payload_chunks :
    (payload : Bytes)
    → length (payload_chunks payload)
      ≡ (length payload + default_chunk_size - 1) / default_chunk_size
unfolding payload_chunks
length-payload_chunks payload = length-pieces (length payload) payload (omega arith)

pub payload_chunks-IsPiece : (payload : Bytes) → All IsPiece (payload_chunks payload)
unfolding payload_chunks
payload_chunks-IsPiece payload = pieces-IsPiece (length payload) payload

pub length-chunk_nonce :
    (prefix : Bytes) (i : ℕ) (is_last : Bool)
    → length prefix ≡ 8
    → length (chunk_nonce prefix i is_last) ≡ 12
unfolding chunk_nonce be32
length-chunk_nonce prefix i is_last h = omega (arith, h, length-append prefix _)

-- Two chunks under one prefix have one nonce only if they have one index, for indices of 24 bits.
pub chunk_nonce-injective :
    (prefix : Bytes) (i j : ℕ) (is_last was_last : Bool)
    → i ≤ max_chunk_index
    → j ≤ max_chunk_index
    → chunk_nonce prefix i is_last ≡ chunk_nonce prefix j was_last
    → i ≡ j
unfolding chunk_nonce be32
chunk_nonce-injective prefix i j is_last was_last hi hj e =
    let tail = (append-injective prefix prefix _ _ refl e).1 in ground (arith, tail)

-- A full piece is cut off first.
pub pieces-append :
    (fuel : ℕ) (a r : Bytes)
    → length a ≡ default_chunk_size
    → pieces (suc fuel) (a ++ r) ≡ a ∷ pieces fuel r
unfolding pieces
pieces-append fuel [] r h = absurd (omega (arith, h))
pieces-append fuel (b ∷ a) r h =
    let first : take default_chunk_size (b ∷ (a ++ r)) ≡ b ∷ a =
      ap (λ n. take n (b ∷ (a ++ r))) (sym h) ∙ take-append (b ∷ a) r in
    let rest : drop default_chunk_size (b ∷ (a ++ r)) ≡ r =
      ap (λ n. drop n (b ∷ (a ++ r))) (sym h) ∙ drop-append (b ∷ a) r in
    λ i. first i ∷ pieces fuel (rest i)
