-- ===== src/Format/Aad.antt =====
-- crates/core/src/format.rs: `build_aad`, the associated data of a chunk.
use sealedge.Base.{
  ℕ, ◌<◌, ◌^◌, ◌/◌, ◌%◌, ◌≡◌, refl, ap, sym, ◌∙◌, [], ◌∷◌, Bytes, length, append-injective, arith,
}
use sealedge.Format.{be32, from_be32, be64, build_aad}
use sealedge.Format.Header.{from_be32-be32}

-- The number that four bytes stand for, on the whole list.
abbrev number : Bytes → ℕ
number (a ∷ b ∷ c ∷ d ∷ []) = from_be32 a b c d
number _ = 0

be32-injective : (n m : ℕ) → n < 2 ^ 32 → m < 2 ^ 32 → be32 n ≡ be32 m → n ≡ m
unfolding be32
be32-injective n m hn hm e = sym (from_be32-be32 n hn) ∙ ap number e ∙ from_be32-be32 m hm

length-be32 : (n : ℕ) → length (be32 n) ≡ 4
unfolding be32
length-be32 n = refl

length-be64 : (n : ℕ) → length (be64 n) ≡ 8
unfolding be64 be32
length-be64 n = refl

be64-injective : (n m : ℕ) → n < 2 ^ 64 → m < 2 ^ 64 → be64 n ≡ be64 m → n ≡ m
unfolding be64
be64-injective n m hn hm e =
    let (high, low) =
      append-injective (be32 (n / 4294967296)) (be32 (m / 4294967296)) _ _
        (length-be32 (n / 4294967296) ∙ sym (length-be32 (m / 4294967296))) e in
    let h : n / 4294967296 ≡ m / 4294967296 =
      be32-injective (n / 4294967296) (m / 4294967296) (omega arith) (omega arith) high in
    let l : n % 4294967296 ≡ m % 4294967296 =
      be32-injective (n % 4294967296) (m % 4294967296) (omega arith) (omega arith) low in
    omega arith

-- The arguments of one `build_aad`: the arrays have their sizes, the numbers their widths.
pub record AadSized (header_hash : Bytes) (seq : ℕ) (nonce manifest_hash : Bytes) (chunk_len : ℕ)
    : Type 0 where
  pub header_hash_size : length header_hash ≡ 32
  pub seq_range : seq < 2 ^ 64
  pub nonce_size : length nonce ≡ 12
  pub manifest_hash_size : length manifest_hash ≡ 32
  pub chunk_len_range : chunk_len < 2 ^ 32

-- The associated data of two chunks, of arrays and numbers of the right sizes, is equal only if
-- header hash, sequence, nonce, manifest hash and chunk length all are.
pub build_aad-injective :
    (h1 h2 : Bytes) (s1 s2 : ℕ) (n1 n2 m1 m2 : Bytes) (c1 c2 : ℕ)
    → AadSized h1 s1 n1 m1 c1
    → AadSized h2 s2 n2 m2 c2
    → build_aad h1 s1 n1 m1 c1 ≡ build_aad h2 s2 n2 m2 c2
    → (h1 ≡ h2) × (s1 ≡ s2) × (n1 ≡ n2) × (m1 ≡ m2) × (c1 ≡ c2)
unfolding build_aad
build_aad-injective h1 h2 s1 s2 n1 n2 m1 m2 c1 c2 a b e0 =
    let (hash, e1) = append-injective h1 h2 _ _ (a.header_hash_size ∙ sym b.header_hash_size) e0 in
    let (seq, e2) =
      append-injective (be64 s1) (be64 s2) _ _ (length-be64 s1 ∙ sym (length-be64 s2)) e1 in
    let (nonce, e3) = append-injective n1 n2 _ _ (a.nonce_size ∙ sym b.nonce_size) e2 in
    let (manifest, e4) =
      append-injective m1 m2 _ _ (a.manifest_hash_size ∙ sym b.manifest_hash_size) e3 in
    (
      hash,
      be64-injective s1 s2 a.seq_range b.seq_range seq,
      nonce,
      manifest,
      be32-injective c1 c2 a.chunk_len_range b.chunk_len_range e4,
    )
