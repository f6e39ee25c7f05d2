-- ===== src/Format/Header.antt =====
-- crates/core/src/format.rs: `FileHeader::to_bytes`, then `FileHeader::from_bytes`.
use sealedge.Base.{
  ℕ, suc, ◌+◌, ◌^◌, ◌/◌, ◌%◌, ◌<◌, ◌≡◌, ap, sym, ◌∙◌, [], ◌∷◌, ◌++◌, Bytes, length, take, drop,
  take-append, arith, ok, Result-cases, inl, inr,
}
use sealedge.Format.{
  FileHeader, aead_algorithm, signature_algorithm, hash_algorithm, kdf_algorithm, AeadAlgorithm,
  SignatureAlgorithm, HashAlgorithm, KdfAlgorithm, be32, from_be32, to_bytes, byte_at, slice,
  from_bytes,
}

-- The sizes of the arrays and of the machine integers.
pub record IsHeader (h : FileHeader) : Type 0 where
  pub reserved_size : length h.reserved ≡ 3
  pub key_id_size : length h.key_id ≡ 16
  pub device_id_hash_size : length h.device_id_hash ≡ 32
  pub nonce_prefix_size : length h.nonce_prefix ≡ 4
  pub chunk_size_range : h.chunk_size < 2 ^ 32

-- The four algorithm numbers are known.
pub record IsSupported (h : FileHeader) : Type 0 where
  pub aead : AeadAlgorithm
  pub signature : SignatureAlgorithm
  pub hash : HashAlgorithm
  pub kdf : KdfAlgorithm
  pub aead_known : aead_algorithm h.aead_alg ≡ ok aead
  pub signature_known : signature_algorithm h.sig_alg ≡ ok signature
  pub hash_known : hash_algorithm h.hash_alg ≡ ok hash
  pub kdf_known : kdf_algorithm h.kdf_alg ≡ ok kdf

drop_past : (k : ℕ) (a r : Bytes) → drop (length a + k) (a ++ r) ≡ drop k r
drop_past k [] r = let e : 0 + k ≡ k = omega arith in ap (λ (m : ℕ). drop m r) e
drop_past k (x ∷ a) r =
    let e : suc (length a) + k ≡ suc (length a + k) = omega arith in
    ap (λ (m : ℕ). drop m (x ∷ (a ++ r))) e ∙ drop_past k a r

byte_past : (k : ℕ) (a r : Bytes) → byte_at (length a + k) (a ++ r) ≡ byte_at k r
byte_past k [] r = let e : 0 + k ≡ k = omega arith in ap (λ (m : ℕ). byte_at m r) e
byte_past k (x ∷ a) r =
    let e : suc (length a) + k ≡ suc (length a + k) = omega arith in
    ap (λ (m : ℕ). byte_at m (x ∷ (a ++ r))) e ∙ byte_past k a r

-- Past a block of a known size.
pub drop_block : (n k : ℕ) (a r : Bytes) → length a ≡ n → drop (n + k) (a ++ r) ≡ drop k r
drop_block n k a r h = ap (λ (m : ℕ). drop (m + k) (a ++ r)) (sym h) ∙ drop_past k a r

pub byte_block : (n k : ℕ) (a r : Bytes) → length a ≡ n → byte_at (n + k) (a ++ r) ≡ byte_at k r
byte_block n k a r h = ap (λ (m : ℕ). byte_at (m + k) (a ++ r)) (sym h) ∙ byte_past k a r

pub take_block : (n : ℕ) (a r : Bytes) → length a ≡ n → take n (a ++ r) ≡ a
take_block n a r h = ap (λ (m : ℕ). take m (a ++ r)) (sym h) ∙ take-append a r

pub from_be32-be32 :
    (n : ℕ)
    → n < 2 ^ 32
    → from_be32 ((n / 16777216) % 256) ((n / 65536) % 256) ((n / 256) % 256) (n % 256) ≡ n
unfolding from_be32
from_be32-be32 n h = omega arith

abbrev tail4 : FileHeader → Bytes
tail4 h = be32 h.chunk_size ++ 0 ∷ 0 ∷ []

abbrev tail3 : FileHeader → Bytes
tail3 h = h.nonce_prefix ++ tail4 h

abbrev tail2 : FileHeader → Bytes
tail2 h = h.device_id_hash ++ tail3 h

abbrev tail1 : FileHeader → Bytes
tail1 h = h.key_id ++ tail2 h

module _ (h : FileHeader) (w : IsHeader h) where
  open w use {reserved_size, key_id_size, device_id_hash_size, nonce_prefix_size, chunk_size_range}

  key_id_read : slice 8 16 (to_bytes h) ≡ h.key_id
  unfolding to_bytes
  key_id_read =
      ap (take 16) (drop_block 3 0 h.reserved (tail1 h) reserved_size)
      ∙ take_block 16 h.key_id (tail2 h) key_id_size

  device_id_hash_read : slice 24 32 (to_bytes h) ≡ h.device_id_hash
  unfolding to_bytes
  device_id_hash_read =
      ap (take 32) (
        drop_block 3 16 h.reserved (tail1 h) reserved_size
        ∙ drop_block 16 0 h.key_id (tail2 h) key_id_size)
      ∙ take_block 32 h.device_id_hash (tail3 h) device_id_hash_size

  nonce_prefix_read : slice 56 4 (to_bytes h) ≡ h.nonce_prefix
  unfolding to_bytes
  nonce_prefix_read =
      ap (take 4) (
        drop_block 3 48 h.reserved (tail1 h) reserved_size
        ∙ drop_block 16 32 h.key_id (tail2 h) key_id_size
        ∙ drop_block 32 0 h.device_id_hash (tail3 h) device_id_hash_size)
      ∙ take_block 4 h.nonce_prefix (tail4 h) nonce_prefix_size

  -- Byte `i` of the chunk size stands at `60 + i`.
  chunk_byte_read : (i : ℕ) → byte_at (55 + i) (h.reserved ++ tail1 h) ≡ byte_at i (tail4 h)
  chunk_byte_read i =
      let e : 55 + i ≡ 3 + (16 + (32 + (4 + i))) = omega arith in
      ap (λ (m : ℕ). byte_at m (h.reserved ++ tail1 h)) e
      ∙ byte_block 3 (16 + (32 + (4 + i))) h.reserved (tail1 h) reserved_size
      ∙ byte_block 16 (32 + (4 + i)) h.key_id (tail2 h) key_id_size
      ∙ byte_block 32 (4 + i) h.device_id_hash (tail3 h) device_id_hash_size
      ∙ byte_block 4 i h.nonce_prefix (tail4 h) nonce_prefix_size

  chunk_size_read :
      from_be32
        (byte_at 60 (to_bytes h))
        (byte_at 61 (to_bytes h))
        (byte_at 62 (to_bytes h))
        (byte_at 63 (to_bytes h))
      ≡ h.chunk_size
  unfolding to_bytes be32
  chunk_size_read = rw (chunk_byte_read 0) (
      rw (chunk_byte_read 1) (
        rw (chunk_byte_read 2)
          (rw (chunk_byte_read 3) (from_be32-be32 h.chunk_size chunk_size_range))))

  reserved_read : slice 5 3 (to_bytes h) ≡ h.reserved
  unfolding to_bytes
  reserved_read = take_block 3 h.reserved (tail1 h) reserved_size

  -- A header whose arrays have their sizes, whose chunk size fits 32 bits and whose four algorithm
  -- numbers are known reads back from its bytes.
  pub from_bytes-to_bytes : IsSupported h → from_bytes (to_bytes h) ≡ ok h
  unfolding from_bytes to_bytes
  from_bytes-to_bytes k = rw k.aead_known (
      rw k.signature_known (
        rw k.hash_known (
          rw k.kdf_known (
            ap ok (
              cc (
                reserved_read, key_id_read, device_id_hash_read, nonce_prefix_read, chunk_size_read,
              ))))))

-- `from_bytes` accepts 66 bytes only if bytes 1 to 4 are known algorithm numbers, which it hands on.
pub from_bytes-IsSupported :
    (bytes : Bytes) (h : FileHeader) → from_bytes bytes ≡ ok h → IsSupported h
unfolding from_bytes
from_bytes-IsSupported bytes h e = elim (Result-cases (aead_algorithm (byte_at 1 bytes))) [
  | inr bad ↦ absurd (ground (arith, bad.1))
  | inl aead ↦ elim (Result-cases (signature_algorithm (byte_at 2 bytes))) [
    | inr bad ↦ absurd (ground (arith, aead.1, bad.1))
    | inl signature ↦ elim (Result-cases (hash_algorithm (byte_at 3 bytes))) [
      | inr bad ↦ absurd (ground (arith, aead.1, signature.1, bad.1))
      | inl hash ↦ elim (Result-cases (kdf_algorithm (byte_at 4 bytes))) [
        | inr bad ↦ absurd (ground (arith, aead.1, signature.1, hash.1, bad.1))
        | inl kdf ↦ record {
          aead = aead.0;
          signature = signature.0;
          hash = hash.0;
          kdf = kdf.0;
          aead_known = ground (arith, aead.1, signature.1, hash.1, kdf.1);
          signature_known = ground (arith, aead.1, signature.1, hash.1, kdf.1);
          hash_known = ground (arith, aead.1, signature.1, hash.1, kdf.1);
          kdf_known = ground (arith, aead.1, signature.1, hash.1, kdf.1);
        }
      ]
    ]
  ]
]
