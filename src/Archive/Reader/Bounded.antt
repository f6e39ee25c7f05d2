-- ===== src/Archive/Reader/Bounded.antt =====
-- crates/core/src/archive.rs: the reads under a cap, and the streaming hash.
use sealedge.Base.{
  ℕ, zero, suc, ◌+◌, ◌≤◌, ◌<◌, ◌≡◌, refl, ap, ◌∙◌, subst, List, [], ◌∷◌, ◌++◌, Bytes, Text, true,
  false, not, some, length, length-append, take, ltb, ltb→lt, ◌==◌, Bool-cases, Option-cases, inl,
  inr, ok, err, ok_or, ◌>>=◌, bind-ok, ensure-ok, ok_or-ok, if◌then◌else◌, arith,
}
use mathlib.Core.List.{append_assoc, append-nil}
use native.Mathlib.Numerals.{unary_clauses}
use sealedge.Chain.{segment_hash}
use sealedge.Manifest.{Floats}
use sealedge.Archive.{
  max_stored_chunk_bytes, Tools, ToolsLaws, Folder, chunks, Disk, open_file, concat, NonEmpty,
}
use sealedge.Archive.Reader.{
  read_capped, open_chunk, saturating_add, hash_blocks, stream_hash_chunk, chunk_too_large,
}

pub take-all : {A : Type 0} (n : ℕ) (xs : List A) → length xs ≤ n → take n xs ≡ xs
take-all zero [] h = refl
take-all zero (x ∷ xs) h = absurd (omega arith)
take-all (suc n) [] h = refl
take-all (suc n) (x ∷ xs) h = ap (λ t. x ∷ t) (take-all n xs (omega arith))

-- One more than the cap tells whether there is more.
pub length-take-cap :
    {A : Type 0} (n : ℕ) (xs : List A) → length (take (suc n) xs) ≤ n → length xs ≤ n
length-take-cap n [] h = omega arith
length-take-cap zero (x ∷ xs) h = absurd (omega arith)
length-take-cap (suc n) (x ∷ xs) h = omega (arith, length-take-cap n xs (omega arith))

pub within : (max n : ℕ) → not (ltb max n) ≡ true → n ≤ max
within max n h = ground arith

pub within_sound : (max n : ℕ) → n ≤ max → not (ltb max n) ≡ true
within_sound max n h = ground arith

-- The first `max + 1` elements, at most `max` of them, are all.
pub take-cap :
    {A : Type 0} (max : ℕ) (xs : List A)
    → not (ltb max (length (take (max + 1) xs))) ≡ true
    → length xs ≤ max
take-cap max xs h =
    length-take-cap max xs (simp unary_clauses at (within max (length (take (max + 1) xs)) h))

pub read_capped-ok :
    (shown : Text → Text) (at : Folder) (name : Text) (max : ℕ) (d : Disk) (content : Bytes)
    → read_capped shown at name max d ≡ ok content
    → (open_file at name d ≡ some content) × (length content ≤ max)
unfolding read_capped
read_capped-ok shown at name max d content h =
    let opened = bind-ok (ok_or (open_file at name d) _) _ content h in
    let found : open_file at name d ≡ some opened.0 =
      ok_or-ok (open_file at name d) _ opened.0 opened.1 in
    let checked =
      ensure-ok (not (ltb max (length (take (max + 1) opened.0)))) _ _ content opened.2 in
    let bound : length opened.0 ≤ max = take-cap max opened.0 checked.0 in
    let whole : take (max + 1) opened.0 ≡ opened.0 = take-all (max + 1) opened.0 (omega arith) in
    let same : opened.0 ≡ content = cc (whole, checked.1) in
    (cc, subst (λ (b : Bytes). length b ≤ max) same bound)

pub read_capped_complete :
    (shown : Text → Text) (at : Folder) (name : Text) (max : ℕ) (d : Disk) (content : Bytes)
    → open_file at name d ≡ some content
    → length content ≤ max
    → read_capped shown at name max d ≡ ok content
unfolding read_capped
read_capped_complete shown at name max d content found bound =
    rw (found, take-all (max + 1) content (omega arith), within_sound max (length content) bound)

-- Saturation sets in far above the cap.
saturating_add_lem :
    (a b : ℕ) → saturating_add a b ≤ max_stored_chunk_bytes → saturating_add a b ≡ a + b
unfolding saturating_add
saturating_add_lem a b h = ground arith

saturating_add-lt :
    (a b : ℕ) → max_stored_chunk_bytes < saturating_add a b → max_stored_chunk_bytes < a + b
unfolding saturating_add
saturating_add-lt a b h = ground arith

over : (n : ℕ) → max_stored_chunk_bytes < n → ltb max_stored_chunk_bytes n ≡ true
over n h = ground arith

module _ (fl : Floats) (t : Tools fl) where
  -- What the rounds come to, from any total within the cap.
  hash_blocks_lem :
      (filename : Text) (total : ℕ) (fed : Bytes) (blocks : List Bytes)
      → NonEmpty blocks
      → total ≤ max_stored_chunk_bytes
      → hash_blocks fl t filename total fed blocks ≡ (
          if ltb max_stored_chunk_bytes (total + length (concat blocks))
          then err (chunk_too_large filename)
          else ok (t.blake3 (fed ++ concat blocks)))
  unfolding hash_blocks
  hash_blocks_lem filename total fed [] filled h = rw append-nil (ground arith)
  hash_blocks_lem filename total fed (block ∷ rest) filled h =
      let next = saturating_add total (length block) in
      let e = length-append block (concat rest) in
      let filled' : (length block == 0) ≡ false = ground (arith, filled.0) in
      elim (Bool-cases (ltb max_stored_chunk_bytes next)) [
        | inl big ↦
            let more =
              saturating_add-lt total (length block) (ltb→lt max_stored_chunk_bytes next big) in
            rw (filled', big) (rw (over (total + length (block ++ concat rest)) (omega (arith, e))))
        | inr small ↦
            let sum = saturating_add_lem total (length block) (ground arith) in
            let ih = hash_blocks_lem filename next (fed ++ block) rest filled.1 (ground arith) in
            let regroup : total + length block + length (concat rest)
                ≡ total + (length block + length (concat rest)) =
              omega arith in
            rw (filled', small) (ih ∙ rw (sum, e, append_assoc, regroup))
      ]

  -- A chunk file's hash, block by block from the disk, is the digest of its whole content: for a file
  -- within the cap the segment hash of its content, for a longer one the error of the cap, and for a
  -- file that is not there the missing-chunk error, however the reads are cut into blocks.
  pub stream_hash_chunk-segment_hash :
      ToolsLaws t
      → (filename : Text) (d : Disk)
      → stream_hash_chunk fl t filename d ≡ (
          open_chunk filename d >>= λ content.
          if ltb max_stored_chunk_bytes (length content)
          then err (chunk_too_large filename)
          else ok (segment_hash t.blake3 content))
  unfolding stream_hash_chunk open_chunk segment_hash
  stream_hash_chunk-segment_hash laws filename d =
      elim (Option-cases (open_file chunks filename d)) [
        | inl missing ↦ rw missing
        | inr (content, found) ↦
            let from_zero : 0 + length content ≡ length content = omega arith in
            rw found (
              hash_blocks_lem filename 0 [] (t.read_blocks content) (laws.non_empty content)
                (omega arith)
              ∙ rw (laws.concat-read_blocks content, from_zero))
      ]
