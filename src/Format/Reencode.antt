-- ===== src/Format/Reencode.antt =====
-- crates/core/src/format.rs: `FileHeader::from_bytes`, then `FileHeader::to_bytes`.
use sealedge.Base.{
  ℕ, zero, suc, ◌+◌, ◌*◌, ◌%◌, ◌/◌, ◌<◌, ◌≤◌, ◌≡◌, refl, ap, sym, ◌∙◌, [], ◌∷◌, ◌++◌, Bytes, length,
  take, drop, All, arith, ok,
}
use sealedge.Format.{FileHeader, be32, from_be32, to_bytes, byte_at, slice, from_bytes}

abbrev IsByte : ℕ → Type 0
IsByte c = c < 256

take_none : (m : ℕ) → take {A = ℕ} m [] ≡ []
take_none zero = refl
take_none (suc m) = refl

-- Two neighbouring slices are one.
glue : (n m : ℕ) (c r : Bytes) → take n c ++ (take m (drop n c) ++ r) ≡ take (n + m) c ++ r
glue zero m c r = let e : m ≡ 0 + m = omega arith in ap (λ (k : ℕ). take k c ++ r) e
glue (suc n) m [] r = rw (take_none m) (sym (ap (λ (b : Bytes). b ++ r) (take_none (suc n + m))))
glue (suc n) m (x ∷ c) r =
    let e : suc (n + m) ≡ suc n + m = omega arith in
    ap (λ (b : Bytes). x ∷ b) (glue n m c r) ∙ ap (λ (k : ℕ). take k (x ∷ c) ++ r) e

drop_none : (n : ℕ) → drop {A = ℕ} n [] ≡ []
drop_none zero = refl
drop_none (suc n) = refl

drop-drop : (i n : ℕ) (b : Bytes) → drop (i + n) b ≡ drop n (drop i b)
drop-drop zero n b = let e : 0 + n ≡ n = omega arith in ap (λ (k : ℕ). drop k b) e
drop-drop (suc i) n [] = drop_none (suc i + n) ∙ sym (drop_none n)
drop-drop (suc i) n (x ∷ b) =
    let e : suc i + n ≡ suc (i + n) = omega arith in
    ap (λ (k : ℕ). drop k (x ∷ b)) e ∙ drop-drop i n b

byte_drop : (i j : ℕ) (b : Bytes) → byte_at (i + j) b ≡ byte_at j (drop i b)
byte_drop zero j b = let e : 0 + j ≡ j = omega arith in ap (λ (k : ℕ). byte_at k b) e
byte_drop (suc i) j [] = refl
byte_drop (suc i) j (x ∷ b) =
    let e : suc i + j ≡ suc (i + j) = omega arith in
    ap (λ (k : ℕ). byte_at k (x ∷ b)) e ∙ byte_drop i j b

All-drop : (i : ℕ) (b : Bytes) → All IsByte b → All IsByte (drop i b)
All-drop zero b h = h
All-drop (suc i) [] h = tt
All-drop (suc i) (x ∷ b) h = All-drop i b h.1

length-drop : (i : ℕ) (b : Bytes) → i ≤ length b → length (drop i b) + i ≡ length b
length-drop zero b h = omega arith
length-drop (suc i) [] h = omega arith
length-drop (suc i) (x ∷ b) h = omega (arith, length-drop i b (omega arith))

-- Four bytes, read as a number and written again.
be32-from_be32 :
    (a b c d : ℕ)
    → IsByte a
    → IsByte b
    → IsByte c
    → IsByte d
    → be32 (from_be32 a b c d) ≡ a ∷ b ∷ c ∷ d ∷ []
unfolding be32 from_be32
be32-from_be32 a b c d ha hb hc hd =
    let e1 : ((a * 16777216 + b * 65536 + c * 256 + d) / 16777216) % 256 ≡ a = omega arith in
    let e2 : ((a * 16777216 + b * 65536 + c * 256 + d) / 65536) % 256 ≡ b = omega arith in
    let e3 : ((a * 16777216 + b * 65536 + c * 256 + d) / 256) % 256 ≡ c = omega arith in
    let e4 : (a * 16777216 + b * 65536 + c * 256 + d) % 256 ≡ d = omega arith in cc (e1, e2, e3, e4)

size_bytes :
    (b : Bytes)
    → 4 ≤ length b
    → All IsByte b
    → be32 (from_be32 (byte_at 0 b) (byte_at 1 b) (byte_at 2 b) (byte_at 3 b)) ≡ take 4 b
size_bytes [] n h = absurd (omega arith)
size_bytes (p ∷ []) n h = absurd (omega arith)
size_bytes (p ∷ q ∷ []) n h = absurd (omega arith)
size_bytes (p ∷ q ∷ r ∷ []) n h = absurd (omega arith)
size_bytes (p ∷ q ∷ r ∷ s ∷ b) n h = be32-from_be32 p q r s h.0 h.1.0 h.1.1.0 h.1.1.1.0

first_five :
    (b : Bytes)
    → 5 ≤ length b
    → byte_at 0 b ∷ byte_at 1 b ∷ byte_at 2 b ∷ byte_at 3 b ∷ byte_at 4 b ∷ [] ≡ take 5 b
first_five [] n = absurd (omega arith)
first_five (p ∷ []) n = absurd (omega arith)
first_five (p ∷ q ∷ []) n = absurd (omega arith)
first_five (p ∷ q ∷ r ∷ []) n = absurd (omega arith)
first_five (p ∷ q ∷ r ∷ s ∷ []) n = absurd (omega arith)
first_five (p ∷ q ∷ r ∷ s ∷ t ∷ b) n = refl

join :
    (i n m : ℕ) (b r : Bytes)
    → take n (drop i b) ++ (take m (drop (i + n) b) ++ r) ≡ take (n + m) (drop i b) ++ r
join i n m b r = rw (drop-drop i n b) (glue n m (drop i b) r)

-- The header that an accepted array is read as.
abbrev header_of : Bytes → FileHeader
header_of bytes = record {
  version = byte_at 0 bytes;
  aead_alg = byte_at 1 bytes;
  sig_alg = byte_at 2 bytes;
  hash_alg = byte_at 3 bytes;
  kdf_alg = byte_at 4 bytes;
  reserved = slice 5 3 bytes;
  key_id = slice 8 16 bytes;
  device_id_hash = slice 24 32 bytes;
  nonce_prefix = slice 56 4 bytes;
  chunk_size =
      from_be32 (byte_at 60 bytes) (byte_at 61 bytes) (byte_at 62 bytes) (byte_at 63 bytes);
}

from_bytes-header_of :
    (bytes : Bytes) (h : FileHeader) → from_bytes bytes ≡ ok h → header_of bytes ≡ h
unfolding from_bytes
from_bytes-header_of bytes h e = ground arith

chunk_size_bytes :
    (bytes : Bytes)
    → length bytes ≡ 66
    → All IsByte bytes
    → be32 (from_be32 (byte_at 60 bytes) (byte_at 61 bytes) (byte_at 62 bytes) (byte_at 63 bytes))
      ≡ slice 60 4 bytes
chunk_size_bytes bytes size range = rw (byte_drop 60 0 bytes) (
    rw (byte_drop 60 1 bytes) (
      rw (byte_drop 60 2 bytes) (
        rw (byte_drop 60 3 bytes) (
          size_bytes (drop 60 bytes) (omega (arith, length-drop 60 bytes (omega arith)))
            (All-drop 60 bytes range)))))

to_bytes-header_of :
    (bytes : Bytes)
    → length bytes ≡ 66
    → All IsByte bytes
    → to_bytes (header_of bytes) ≡ take 64 bytes ++ 0 ∷ 0 ∷ []
unfolding to_bytes
to_bytes-header_of bytes size range =
    let rest : Bytes = 0 ∷ 0 ∷ [] in
    let start : Bytes =
      byte_at 0 bytes
      ∷ byte_at 1 bytes
      ∷ byte_at 2 bytes
      ∷ byte_at 3 bytes
      ∷ byte_at 4 bytes
      ∷ [] in
    let joined : slice 5 3 bytes
          ++ (slice 8 16 bytes
              ++ (slice 24 32 bytes ++ (slice 56 4 bytes ++ (slice 60 4 bytes ++ rest))))
        ≡ take 59 (drop 5 bytes) ++ rest =
      rw (join 56 4 4 bytes rest)
        (rw (join 24 32 8 bytes rest) (rw (join 8 16 40 bytes rest) (join 5 3 56 bytes rest))) in
    rw (chunk_size_bytes bytes size range) (
      ap (λ (b : Bytes). start ++ b) joined
      ∙ ap (λ (b : Bytes). b ++ (take 59 (drop 5 bytes) ++ rest)) (first_five bytes (omega arith))
      ∙ glue 5 59 bytes rest)

-- `from_bytes` keeps all that it is given but the last two bytes, which no field holds: the header
-- that it reads is written as the first 64 bytes of the array, and two zeros.
pub to_bytes-from_bytes :
    (bytes : Bytes) (h : FileHeader)
    → length bytes ≡ 66
    → All IsByte bytes
    → from_bytes bytes ≡ ok h
    → to_bytes h ≡ take 64 bytes ++ 0 ∷ 0 ∷ []
to_bytes-from_bytes bytes h size range e =
    let same : header_of bytes ≡ h = from_bytes-header_of bytes h e in
    ap to_bytes (sym same) ∙ to_bytes-header_of bytes size range
