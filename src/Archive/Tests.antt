-- ===== src/Archive/Tests.antt =====
-- An archive of two chunks, written and read with toy tools.
use sealedge.Base.{
  padded, decimal, ℕ, ◌≡◌, refl, ◌↔◌, ◌⊎◌, List, [], ◌∷◌, Bytes, Text, str, none, some, ok, err,
  length, map, bytes_eq, strip_prefix, arith, ltb, ◌>>=◌, if◌then◌else◌,
}
use mathlib.Core.List.{append-nil}
use sealedge.Crypto.Toy.{fit, length-fit}
use sealedge.Chain.{genesis, segment_hash, chain_next}
use sealedge.Chain.Tamper.{Collision}
use sealedge.Manifest.{SegmentInfo, TrstManifest}
use sealedge.Manifest.Validate.{
  validate, validate_metadata, validate_times, validate_segments, validate_chronicle,
  prev_well_formed, is_ascii_hexdigit,
}
use sealedge.Manifest.Validate.Correct.{validate-IsWellFormed}
use sealedge.Manifest.Tests.{toy_floats, recording}
use sealedge.Archive.{
  Tools, ToolsLaws, Disk, concat, NonEmpty, chunk_filename, max_stored_chunk_bytes,
}
use sealedge.Archive.Writer.{ChunkOutcome, write_archive}
use sealedge.Archive.Written.{outcomes, stream_archive}
use sealedge.Archive.RoundTrip.{Fits, stream_archive-write_archive, stream_archive-validate_archive}
use sealedge.Archive.Reader.{
  open_chunk, stream_hash_chunk, validate_archive, read_archive, chunk_too_large,
}
use sealedge.Archive.Reader.Bounded.{stream_hash_chunk-segment_hash}
use sealedge.Archive.Valid.{IsValid, HasManifest, AreStored}
use sealedge.Archive.Valid.Correct.{validate_archive_iff}
use sealedge.Archive.Valid.Tamper.{
  indexed, validate_archive-read_archive, validate_archive_tamper_evident,
}

abbrev segment_of : ChunkOutcome → SegmentInfo ℕ
segment_of o = record {
  chunk_file = chunk_filename o.index;
  blake3_hash = o.blake3;
  start_time = str "0";
  duration_seconds = 2;
  continuity_hash = o.continuity;
}

abbrev manifest_of : List ChunkOutcome → TrstManifest ℕ
manifest_of outs = record recording { segments = map segment_of outs }

abbrev two_chunks : List Bytes
two_chunks = (1 ∷ 2 ∷ []) ∷ (3 ∷ []) ∷ []

abbrev blocks : Bytes → List Bytes
blocks [] = []
blocks (b ∷ rest) = (b ∷ rest) ∷ []

-- The outcomes of a writer do not depend on how manifests are printed.
abbrev tools_for : TrstManifest ℕ → Tools toy_floats
tools_for m = record {
  print = λ x. str "manifest";
  parse = λ b. ok m;
  utf8_lossy = λ b. b;
  blake3 = fit 32;
  hex = λ b. b;
  hex_decode = λ b. ok b;
  read_blocks = blocks;
}

abbrev written_manifest : TrstManifest ℕ
written_manifest =
    manifest_of (outcomes toy_floats (tools_for recording) 0 (genesis (fit 32)) two_chunks)

abbrev tools : Tools toy_floats
tools = tools_for written_manifest

concat-blocks : (b : Bytes) → concat (blocks b) ≡ b
concat-blocks [] = refl
concat-blocks (x ∷ b) = append-nil (x ∷ b)

blocks-NonEmpty : (b : Bytes) → NonEmpty (blocks b)
blocks-NonEmpty [] = tt
blocks-NonEmpty (x ∷ b) = (omega arith, tt)

tools_laws : ToolsLaws tools
tools_laws = record {
  length-blake3 = length-fit 32;
  decode-hex = λ b. refl;
  concat-read_blocks = concat-blocks;
  non_empty = blocks-NonEmpty;
}

abbrev fresh : Disk
fresh = record { base_files = none; chunk_files = none; signature_files = none }

abbrev shown : Text → Text
shown name = name

written_manifest-ok : validate toy_floats written_manifest ≡ ok tt
unfolding validate validate_metadata validate_times validate_segments validate_chronicle
    prev_well_formed strip_prefix is_ascii_hexdigit bytes_eq fit genesis chain_next segment_hash
    chunk_filename padded decimal
written_manifest-ok = refl

fits :
    Fits toy_floats tools written_manifest
      (outcomes toy_floats tools 0 (genesis (fit 32)) two_chunks)
      (str "s")
fits = record {
  described = (
    record { chunk_file = refl; blake3_hash = refl; continuity_hash = refl },
    (record { chunk_file = refl; blake3_hash = refl; continuity_hash = refl }, tt),
  );
  small = omega arith;
  printed = refl;
  well_formed = (validate-IsWellFormed toy_floats written_manifest).0 written_manifest-ok;
  sig_small = omega arith;
  agree = tt;
}

stream_archive-write_archive_example :
    stream_archive toy_floats tools manifest_of two_chunks (str "s") fresh
    ≡ write_archive toy_floats tools written_manifest two_chunks (str "s") fresh
stream_archive-write_archive_example =
    stream_archive-write_archive toy_floats tools manifest_of two_chunks (str "s") fresh
      (omega arith) refl (omega arith)

abbrev written_disk : Disk
written_disk = (stream_archive toy_floats tools manifest_of two_chunks (str "s") fresh).1

stream_archive-validate_archive_example :
    ((stream_archive toy_floats tools manifest_of two_chunks (str "s") fresh).0 ≡ ok tt)
    × (validate_archive toy_floats tools shown written_disk ≡ ok tt)
    × (read_archive toy_floats tools shown written_disk
        ≡ ok (written_manifest, indexed 0 two_chunks))
stream_archive-validate_archive_example =
    stream_archive-validate_archive toy_floats tools tools_laws shown manifest_of two_chunks
      (str "s") fresh refl (omega arith) (omega arith, (omega arith, tt)) fits

validate_archive_iff_example :
    (validate_archive toy_floats tools shown written_disk ≡ ok tt)
    ↔ IsValid toy_floats tools written_disk
validate_archive_iff_example = validate_archive_iff toy_floats tools tools_laws shown written_disk

-- A second copy, beside a file that was there.
abbrev other_disk : Disk
other_disk =
    (stream_archive toy_floats tools manifest_of two_chunks (str "s")
      (record fresh { base_files = some ((str "readme", []) ∷ []) })).1

other_disk-ok :
    ((stream_archive toy_floats tools manifest_of two_chunks
        (str "s")
        (record fresh { base_files = some ((str "readme", []) ∷ []) })).0
      ≡ ok tt)
    × (validate_archive toy_floats tools shown other_disk ≡ ok tt)
    × (read_archive toy_floats tools shown other_disk ≡ ok (written_manifest, indexed 0 two_chunks))
other_disk-ok =
    stream_archive-validate_archive toy_floats tools tools_laws shown manifest_of two_chunks
      (str "s") (record fresh { base_files = some ((str "readme", []) ∷ []) }) refl (omega arith)
      (omega arith, (omega arith, tt)) fits

written_disk-ok :
    ((stream_archive toy_floats tools manifest_of two_chunks (str "s") fresh).0 ≡ ok tt)
    × (validate_archive toy_floats tools shown written_disk ≡ ok tt)
    × (read_archive toy_floats tools shown written_disk
        ≡ ok (written_manifest, indexed 0 two_chunks))
written_disk-ok =
    stream_archive-validate_archive toy_floats tools tools_laws shown manifest_of two_chunks
      (str "s") fresh refl (omega arith) (omega arith, (omega arith, tt)) fits

validate_archive_tamper_evident_example :
    (indexed 0 two_chunks ≡ indexed 0 two_chunks) ⊎ Collision (fit 32)
validate_archive_tamper_evident_example =
    validate_archive_tamper_evident toy_floats tools tools_laws shown written_disk other_disk
      written_manifest written_manifest (indexed 0 two_chunks) (indexed 0 two_chunks)
      written_disk-ok.1 other_disk-ok.1 written_disk-ok.2 other_disk-ok.2 refl

validate_archive-read_archive_example :
    (m : TrstManifest ℕ) × (sig : Bytes) × (contents : List Bytes) × (read_archive toy_floats tools
        shown written_disk
      ≡ ok (m, indexed 0 contents))
    × HasManifest toy_floats tools written_disk m sig
    × AreStored toy_floats tools written_disk 0 (genesis (fit 32)) m.segments contents
validate_archive-read_archive_example =
    validate_archive-read_archive toy_floats tools tools_laws shown written_disk written_disk-ok.1

stream_hash_chunk-segment_hash_example :
    stream_hash_chunk toy_floats tools (chunk_filename 1) written_disk ≡ (
      open_chunk (chunk_filename 1) written_disk >>= λ content.
      if ltb max_stored_chunk_bytes (length content)
      then err (chunk_too_large (chunk_filename 1))
      else ok (segment_hash (fit 32) content))
stream_hash_chunk-segment_hash_example =
    stream_hash_chunk-segment_hash toy_floats tools tools_laws (chunk_filename 1) written_disk
