-- ===== src/Envelope/Tests.antt =====
-- The envelope with toy primitives: a cipher that puts the associated data before the plain text, and a
-- shared secret that adds the two public keys.
use sealedge.Base.{
  ℕ, suc, ◌+◌, ◌≤◌, ◌≡◌, refl, ap, ◌∙◌, [], ◌∷◌, ◌++◌, Bytes, Text, str, true, some, length,
  length-append, replicate, length-replicate, take, drop, Result, ok, err, ok_or, strip_prefix,
  strip_prefix-append, arith, take-append, drop-append,
}
use sealedge.Archive.{concat}
use sealedge.Crypto.Toy.{toy_crates, toy_laws, fit, length-fit}
use sealedge.Envelope.{
  ChunkManifest, SignedManifest, Envelope, Primitives, PrimitivesLaws, pieces, payload_chunks,
  index_too_large, max_chunk_index,
}
use sealedge.Envelope.Seal.{seal}
use sealedge.Envelope.Unseal.{verify, unseal}
use sealedge.Envelope.Pieces.{pieces-append}
use sealedge.Envelope.Loops.{Contributory}
use sealedge.Envelope.RoundTrip.{unseal-seal}
use sealedge.Envelope.Reorder.{swap_first_two, unseal-swap_first_two}
use sealedge.Envelope.Nonces.{DistinctNonces, seal-DistinctNonces, seal-too_large}

abbrev add_bytes : Bytes → Bytes → Bytes
add_bytes [] b = b
add_bytes (x ∷ a) [] = x ∷ a
add_bytes (x ∷ a) (y ∷ b) = (x + y) ∷ add_bytes a b

add_bytes_comm : (a b : Bytes) → add_bytes a b ≡ add_bytes b a
add_bytes_comm [] [] = refl
add_bytes_comm [] (y ∷ b) = refl
add_bytes_comm (x ∷ a) [] = refl
add_bytes_comm (x ∷ a) (y ∷ b) =
    let sum : x + y ≡ y + x = omega arith in rw (sum, add_bytes_comm a b)

-- The numbers of a manifest, then its salt behind the length of the format hint.
abbrev print_manifest : ChunkManifest → Bytes
print_manifest m =
    m.sequence
    ∷ m.chunk_size
    ∷ m.timestamp
    ∷ m.pbkdf2_iterations
    ∷ length m.format_hint
    ∷ (m.format_hint ++ m.key_derivation_salt)

abbrev parse_manifest : Bytes → Result Text ChunkManifest
parse_manifest (sequence ∷ chunk_size ∷ timestamp ∷ iterations ∷ n ∷ rest) = ok (record {
  sequence = sequence;
  chunk_size = chunk_size;
  timestamp = timestamp;
  format_hint = take n rest;
  key_derivation_salt = drop n rest;
  pbkdf2_iterations = iterations;
})
parse_manifest other = err (str "end of input")

abbrev print_signed : SignedManifest → Bytes
print_signed sm = length sm.manifest ∷ length sm.sig ∷ (sm.manifest ++ (sm.sig ++ sm.pubkey))

abbrev parse_signed : Bytes → Result Text SignedManifest
parse_signed (n ∷ k ∷ rest) =
    ok
      (record { manifest = take n rest; sig = take k (drop n rest); pubkey = drop k (drop n rest) })
parse_signed other = err (str "end of input")

abbrev pub toy : Primitives
toy = record {
  dalek = toy_crates;
  to_scalar_bytes = fit 32;
  to_montgomery = λ k. k;
  diffie_hellman = add_bytes;
  hkdf_expand = λ salt ikm info n. some (fit n (ikm ++ salt));
  encrypt = λ key nonce aad plain. ok (aad ++ plain);
  decrypt = λ key nonce aad cipher. ok_or (strip_prefix cipher aad) (str "Error");
  blake3 = fit 32;
  serialize_manifest = λ m. ok (print_manifest m);
  deserialize_manifest = parse_manifest;
  serialize_signed = λ sm. ok (print_signed sm);
  deserialize_signed = parse_signed;
  serialize_envelope = λ env. ok (env.hkdf_salt);
}

signed_round : (sm : SignedManifest) → parse_signed (print_signed sm) ≡ ok sm
signed_round sm = rw (
  take-append sm.manifest (sm.sig ++ sm.pubkey),
  drop-append sm.manifest (sm.sig ++ sm.pubkey),
  take-append sm.sig sm.pubkey,
  drop-append sm.sig sm.pubkey,
)

manifest_round : (m : ChunkManifest) → parse_manifest (print_manifest m) ≡ ok m
manifest_round m = rw (
  take-append m.format_hint m.key_derivation_salt,
  drop-append m.format_hint m.key_derivation_salt,
)

pub toy-PrimitivesLaws : PrimitivesLaws toy
toy-PrimitivesLaws = record {
  dalek = toy_laws;
  shared = λ a b. add_bytes_comm (fit 32 a) (fit 32 b);
  expanded = λ salt ikm info n h. (fit n (ikm ++ salt), refl, length-fit n (ikm ++ salt));
  decrypt-encrypt =
      λ key nonce aad plain hk hn hp. (aad ++ plain, refl, rw (strip_prefix-append aad plain));
  manifest_round = λ m r. (print_manifest m, refl, manifest_round m);
  signed_round = λ sm. (print_signed sm, refl, signed_round sm);
}

abbrev pub alice : Bytes
alice = 1 ∷ []

abbrev pub bob : Bytes
bob = 2 ∷ []

abbrev clock : ℕ → ℕ
clock i = 1000

pub contributory : Contributory toy alice (toy_crates.ed25519_public bob)
unfolding fit
contributory = refl

abbrev short : Bytes
short = str "hello"

unseal-seal_example :
    (env : Envelope) × (seal toy 1000 [] clock short alice (toy_crates.ed25519_public bob) ≡ ok env)
    × (verify toy env ≡ true)
    × (unseal toy env bob ≡ ok short)
unseal-seal_example =
    unseal-seal toy toy-PrimitivesLaws 1000 [] clock short alice bob (omega arith) (omega arith)
      contributory

-- So many of one byte.
filled : ℕ → ℕ → Bytes
filled n b = replicate n b

length-filled : (n b : ℕ) → length (filled n b) ≡ n
unfolding filled
length-filled n b = length-replicate n b

abbrev block : ℕ → Bytes
block b = filled 65536 b

length-block : (b : ℕ) → length (block b) ≡ 65536
length-block b = length-filled 65536 b

abbrev long : Bytes
long = block 1 ++ (block 2 ++ 3 ∷ [])

length-long : length long ≡ 131073
length-long = omega (
  arith,
  length-append (block 1) (block 2 ++ 3 ∷ []),
  length-append (block 2) (3 ∷ []),
  length-block 1,
  length-block 2,
)

long-cut : payload_chunks long ≡ block 1 ∷ block 2 ∷ (3 ∷ []) ∷ []
unfolding payload_chunks
long-cut =
    ap (λ n. pieces n long) length-long
    ∙ pieces-append 131072 (block 1) (block 2 ++ 3 ∷ []) (length-block 1)
    ∙ ap (λ t. block 1 ∷ t) (pieces-append 131071 (block 2) (3 ∷ []) (length-block 2))
    ∙ ap (λ t. block 1 ∷ block 2 ∷ t) last
  where
    last : pieces 131071 (3 ∷ []) ≡ (3 ∷ []) ∷ []
    last = unfold pieces in refl

unseal-swap_first_two_example :
    (env : Envelope) × (seal toy 1000 [] clock long alice (toy_crates.ed25519_public bob) ≡ ok env)
    × (verify toy (swap_first_two env) ≡ true)
    × (unseal toy (swap_first_two env) bob ≡ ok (block 2 ++ (block 1 ++ concat ((3 ∷ []) ∷ []))))
unseal-swap_first_two_example =
    unseal-swap_first_two toy toy-PrimitivesLaws 1000 [] clock long alice bob (block 1) (block 2)
      (3 ∷ []) [] (omega arith) (omega (arith, length-long)) contributory long-cut

-- A byte more than 2^40.
abbrev too_long : Bytes
too_long = filled 1_099_511_627_777 0

seal-too_large_example :
    seal toy 1000 [] clock too_long alice (toy_crates.ed25519_public bob) ≡ err index_too_large
seal-too_large_example =
    seal-too_large toy toy-PrimitivesLaws 1000 [] clock too_long alice
      (toy_crates.ed25519_public bob) (omega arith)
      (omega (arith, length-filled 1_099_511_627_777 0)) contributory

long_sealed :
    (env : Envelope) × (seal toy 1000 [] clock long alice (toy_crates.ed25519_public bob) ≡ ok env)
    × (verify toy env ≡ true)
    × (unseal toy env bob ≡ ok long)
long_sealed =
    unseal-seal toy toy-PrimitivesLaws 1000 [] clock long alice bob (omega arith)
      (omega (arith, length-long)) contributory

seal-DistinctNonces_example :
    DistinctNonces long_sealed.0.chunks × (length long_sealed.0.chunks ≤ suc max_chunk_index)
seal-DistinctNonces_example =
    seal-DistinctNonces toy 1000 [] clock long alice (toy_crates.ed25519_public bob) long_sealed.0
      long_sealed.1
