-- ===== src/Archive/Reader.antt =====
-- crates/core/src/archive.rs: the bounded reads, the streaming hash of a chunk file, and the readers.
-- `shown` is the display of a file's path under the archive's, which one message holds.
pub mod Bounded
use sealedge.Base.{
  ℕ, suc, ◌+◌, ◌-◌, ◌^◌, List, [], ◌∷◌, ◌++◌, Bytes, Text, str, Bool, true, false, not, ◌&&◌, ◌||◌,
  Option, none, some, length, take, drop, decimal, value, is_digit, bytes_eq, ltb, ◌==◌, Result, ok,
  err, ensure, ok_or, map_err, ◌>>=◌, ◌>>◌, if◌then◌else◌, map,
}
use sealedge.Chain.{ChainSegment, genesis, validate_chain}
use sealedge.Manifest.{Floats, SegmentInfo, TrstManifest}
use sealedge.Manifest.Validate.{
  ManifestFormatError, serialization, invalid_field, validate, contains, all, is_empty,
}
use sealedge.Archive.{
  ArchiveError, io, json, schema_mismatch, missing_chunk, unreferenced_chunk, invalid_chunk_index,
  signature_mismatch, chain, validation_failed, manifest_max_bytes, sig_max_bytes,
  max_stored_chunk_bytes, Tools, Files, Folder, base, chunks, signatures, Disk, open_file,
  manifest_name, sig_name, chunk_filename,
}

-- `str::ends_with`
unfoldable pub ends_with : Text → Text → Bool
ends_with s suffix =
    not (ltb (length s) (length suffix)) && bytes_eq (drop (length s - length suffix) s) suffix

-- `usize::saturating_add`
unfoldable pub saturating_add : ℕ → ℕ → ℕ
saturating_add a b = if ltb (2 ^ 64 - 1) (a + b) then 2 ^ 64 - 1 else a + b

abbrev not_found : ArchiveError
not_found = io (str "No such file or directory (os error 2)")

unfoldable pub read_capped : (Text → Text) → Folder → Text → ℕ → Disk → Result ArchiveError Bytes
unfolding open_file
read_capped shown at name max d = do
  content ← ok_or (open_file at name d) not_found
  ensure (not (ltb max (length (take (max + 1) content))))
      (schema_mismatch (shown name ++ (str " exceeds the " ++ (decimal max ++ str "-byte cap"))))
  ok (take (max + 1) content)

unfoldable pub open_chunk : Text → Disk → Result ArchiveError Bytes
open_chunk filename d = ok_or (open_file chunks filename d) (missing_chunk filename)

abbrev pub chunk_too_large : Text → ArchiveError
chunk_too_large filename = schema_mismatch (
    str "chunk "
    ++ (filename ++ (str " exceeds the " ++ (decimal max_stored_chunk_bytes ++ str "-byte cap"))))

-- `str::parse::<usize>` of five bytes: a plus sign may stand before the digits.
abbrev after_sign : Text → Text
after_sign [] = []
after_sign (c ∷ rest) = if c == 43 then rest else c ∷ rest

abbrev digits : Text → Option ℕ
digits t = if not (is_empty t) && all is_digit t then some (value 0 t) else none

unfoldable pub parse_chunk_index : Text → Result ArchiveError ℕ
parse_chunk_index filename = do
  ensure (ends_with filename (str ".bin") && length filename == 9)
      (schema_mismatch (str "Invalid chunk filename format: " ++ filename))
  ok_or (digits (after_sign (take 5 filename)))
      (schema_mismatch (str "Invalid chunk index in filename: " ++ filename))

-- The test of the declared name that both readers make.
unfoldable pub check_name : ℕ → Text → Result ArchiveError (Unit {0})
check_name expected chunk_file =
    if bytes_eq chunk_file (chunk_filename expected)
    then ok tt
    else (do found ← parse_chunk_index chunk_file; err (invalid_chunk_index expected found))

-- The loop over the directory's entries.
unfoldable pub check_unreferenced : List Text → Option Files → Result ArchiveError (Unit {0})
check_unreferenced expected_chunks none = ok tt
check_unreferenced expected_chunks (some []) = ok tt
check_unreferenced expected_chunks (some ((file_name, content) ∷ rest)) = do
  ensure (not (ends_with file_name (str ".bin") && not (contains expected_chunks file_name)))
      (unreferenced_chunk file_name)
  check_unreferenced expected_chunks (some rest)

abbrev pub manifest_error : ManifestFormatError → ArchiveError
manifest_error (serialization cause) =
    validation_failed (str "Manifest validation failed: Serialization error: " ++ cause)
manifest_error (invalid_field message) =
    validation_failed (str "Manifest validation failed: Invalid field value: " ++ message)

module _ (fl : Floats) (t : Tools fl) where
  open fl use {F64}

  -- The rounds of the loop: `total` bytes are read, and the hasher holds `fed`.
  unfoldable pub hash_blocks : Text → ℕ → Bytes → List Bytes → Result ArchiveError Bytes
  hash_blocks filename total fed [] = ok (t.blake3 fed)
  hash_blocks filename total fed (block ∷ rest) =
      let total' = saturating_add total (length block) in
      let more = hash_blocks filename total' (fed ++ block) rest in
      if length block == 0
      then ok (t.blake3 fed)
      else if ltb max_stored_chunk_bytes total'
      then err (chunk_too_large filename)
      else more

  unfoldable pub stream_hash_chunk : Text → Disk → Result ArchiveError Bytes
  stream_hash_chunk filename d = do
    content ← open_chunk filename d
    hash_blocks filename 0 [] (t.read_blocks content)

  abbrev pub check_signature : Option Text → Bytes → Result ArchiveError (Unit {0})
  check_signature none detached_sig = ok tt
  check_signature (some embedded_sig) detached_sig =
      ensure (bytes_eq embedded_sig (t.utf8_lossy detached_sig)) signature_mismatch

  unfoldable pub read_manifest :
      (Text → Text) → Disk → Result ArchiveError (TrstManifest F64 × Bytes)
  read_manifest shown d = do
    manifest_bytes ← read_capped shown base manifest_name manifest_max_bytes d
    manifest ← map_err json (t.parse manifest_bytes)
    detached_sig ← read_capped shown signatures sig_name sig_max_bytes d
    check_signature manifest.signature detached_sig
    ok (manifest, detached_sig)

  -- The loop of `read_archive`, from `index` on.
  unfoldable pub read_chunks :
      ℕ → List (SegmentInfo F64) → Disk → Result ArchiveError (List (ℕ × Bytes))
  read_chunks index [] d = ok []
  read_chunks index (segment ∷ rest) d = do
    check_name index segment.chunk_file
    content ← open_chunk (chunk_filename index) d
    ensure (not (ltb max_stored_chunk_bytes (length (take (max_stored_chunk_bytes + 1) content))))
        (chunk_too_large (chunk_filename index))
    others ← read_chunks (index + 1) rest d
    ok ((index, take (max_stored_chunk_bytes + 1) content) ∷ others)

  unfoldable pub read_archive :
      (Text → Text) → Disk → Result ArchiveError (TrstManifest F64 × List (ℕ × Bytes))
  read_archive shown d = do
    (manifest, detached_sig) ← read_manifest shown d
    chunk_data ← read_chunks 0 manifest.segments d
    ok (manifest, chunk_data)

  -- One round of the loop of `validate_archive`.
  unfoldable pub check_segment : ℕ → SegmentInfo F64 → Disk → Result ArchiveError ChainSegment
  check_segment index segment d = do
    check_name index segment.chunk_file
    computed_hash ← stream_hash_chunk (chunk_filename index) d
    ensure (bytes_eq segment.blake3_hash (t.hex computed_hash)) (
        validation_failed (
          str "Chunk "
          ++ (decimal index
              ++ (str " hash mismatch: expected "
                  ++ (segment.blake3_hash ++ (str ", computed " ++ t.hex computed_hash))))))
    stored_continuity ←
        map_err
          (λ e.
            validation_failed (str "Invalid continuity hash format: " ++ segment.continuity_hash))
          (t.hex_decode segment.continuity_hash)
    ensure (length stored_continuity == 32) (
        validation_failed
          (str "Continuity hash must be 32 bytes, got " ++ decimal (length stored_continuity)))
    ok (record {
      index = index;
      stored_hash = computed_hash;
      stored_continuity = stored_continuity;
    })

  unfoldable pub check_segments :
      ℕ → List (SegmentInfo F64) → Disk → Result ArchiveError (List ChainSegment)
  check_segments index [] d = ok []
  check_segments index (segment ∷ rest) d = do
    s ← check_segment index segment d
    others ← check_segments (index + 1) rest d
    ok (s ∷ others)

  unfoldable pub validate_archive : (Text → Text) → Disk → Result ArchiveError (Unit {0})
  validate_archive shown d = do
    (manifest, sig) ← read_manifest shown d
    check_unreferenced (map (λ s. s.chunk_file) manifest.segments) d.chunk_files
    map_err manifest_error (validate fl manifest)
    chain_segments ← check_segments 0 manifest.segments d
    map_err chain (validate_chain t.blake3 t.hex chain_segments)
