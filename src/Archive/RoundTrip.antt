-- ===== src/Archive/RoundTrip.antt =====
-- crates/core/src/archive.rs: an archive is written, then validated and read.
use sealedge.Base.{
  ℕ, suc, ◌^◌, ◌≤◌, ◌<◌, ◌≡◌, refl, ap, sym, ◌∙◌, List, [], ◌∷◌, Bytes, Text, Option, none, ok,
  length, map, All, All-map, Has, inl, inr, arith, subst,
}
use sealedge.Chain.{genesis}
use sealedge.Manifest.{Floats, SegmentInfo, TrstManifest}
use sealedge.Manifest.Validate.Correct.{IsWellFormed}
use sealedge.Archive.{
  manifest_max_bytes, sig_max_bytes, max_stored_chunk_bytes, Tools, ToolsLaws, Files, Disk,
  open_file, chunk_filename, put, manifest_name, sig_name,
}
use sealedge.Archive.Files.{
  put_chunks, find-put-same, find-put_chunks, filenames, put_chunks-NamesAmong,
}
use sealedge.Archive.Reader.{validate_archive, read_archive}
use sealedge.Archive.Writer.{ChunkOutcome, write_archive}
use sealedge.Archive.Written.{
  entries, disk, finished, outcomes, stream_archive, stream_archive_lem, write_archive_lem,
}
use sealedge.Archive.Valid.{AreStored, SignatureAgrees, IsValid}
use sealedge.Archive.Valid.Correct.{validate_archive_iff}
use sealedge.Archive.Valid.Tamper.{indexed, IsValid-read_archive}

module _ (fl : Floats) (t : Tools fl) where
  open fl use {F64}

  -- The segment holds what the writer gave for its chunk.
  pub record IsDescribed (outcome : ChunkOutcome) (s : SegmentInfo F64) : Type 0 where
    pub chunk_file : s.chunk_file ≡ chunk_filename outcome.index
    pub blake3_hash : s.blake3_hash ≡ t.hex outcome.blake3
    pub continuity_hash : s.continuity_hash ≡ t.hex outcome.continuity

  abbrev pub AreDescribed : List ChunkOutcome → List (SegmentInfo F64) → Type 0
  AreDescribed [] [] = Unit {0}
  AreDescribed [] (s ∷ rest) = ⊥
  AreDescribed (outcome ∷ outs) [] = ⊥
  AreDescribed (outcome ∷ outs) (s ∷ rest) = IsDescribed outcome s × AreDescribed outs rest

  -- What a manifest has to be for the archive of these chunks: it prints within the cap and reads
  -- back, it is well formed, and it holds the outcomes and the signature.
  pub record Fits (m : TrstManifest F64) (outs : List ChunkOutcome) (sig : Bytes) : Type 0 where
    pub described : AreDescribed outs m.segments
    pub small : length (t.print m) ≤ manifest_max_bytes
    pub printed : t.parse (t.print m) ≡ ok m
    pub well_formed : IsWellFormed fl m
    pub sig_small : length sig ≤ sig_max_bytes
    pub agree : SignatureAgrees fl t m.signature sig

  length-described :
      (i : ℕ) (previous : Bytes) (contents : List Bytes) (segments : List (SegmentInfo F64))
      → AreDescribed (outcomes fl t i previous contents) segments
      → length segments ≡ length contents
  length-described i previous [] [] h = refl
  length-described i previous [] (s ∷ rest) h = elim h [ ]
  length-described i previous (chunk ∷ contents) [] h = elim h [ ]
  length-described i previous (chunk ∷ contents) (s ∷ rest) h =
      ap suc (length-described (suc i) _ contents rest h.1)

  described-filenames :
      (i : ℕ) (previous : Bytes) (contents : List Bytes) (segments : List (SegmentInfo F64))
      → AreDescribed (outcomes fl t i previous contents) segments
      → map (λ s. s.chunk_file) segments ≡ filenames i contents
  described-filenames i previous [] [] h = refl
  described-filenames i previous [] (s ∷ rest) h = elim h [ ]
  described-filenames i previous (chunk ∷ contents) [] h = elim h [ ]
  described-filenames i previous (chunk ∷ contents) (s ∷ rest) h =
      rw (h.0.chunk_file, described-filenames (suc i) _ contents rest h.1)

  described-AreStored :
      ToolsLaws t
      → (b s : Option Files) (i : ℕ) (previous : Bytes) (contents : List Bytes) (files : Files)
        (segments : List (SegmentInfo F64))
      → All (λ content. length content ≤ max_stored_chunk_bytes) contents
      → AreDescribed (outcomes fl t i previous contents) segments
      → AreStored fl t (disk b (put_chunks i contents files) s) i previous segments contents
  unfolding open_file
  described-AreStored laws b s i previous [] files [] a h = tt
  described-AreStored laws b s i previous [] files (x ∷ rest) a h = elim h [ ]
  described-AreStored laws b s i previous (chunk ∷ contents) files [] a h = elim h [ ]
  described-AreStored laws b s i previous (chunk ∷ contents) files (x ∷ rest) a h =
      let more = put (chunk_filename i) chunk files in
      (
        record {
          name = h.0.chunk_file;
          found =
              find-put_chunks i (suc i) contents more (omega arith)
              ∙ find-put-same (chunk_filename i) chunk files;
          bound = a.0;
          hash = h.0.blake3_hash;
          link = ap t.hex_decode h.0.continuity_hash ∙ laws.decode-hex _;
        },
        described-AreStored laws b s (suc i) _ contents more rest a.1 h.1,
      )

  names-Has : (names : List Text) → All (λ name. Has name names) names
  names-Has [] = tt
  names-Has (name ∷ rest) = (inl refl, All-map (λ n h. inr h) rest (names-Has rest))

  finished-IsValid :
      ToolsLaws t
      → (m : TrstManifest F64) (contents : List Bytes) (sig : Bytes) (b s : Option Files)
      → All (λ content. length content ≤ max_stored_chunk_bytes) contents
      → Fits m (outcomes fl t 0 (genesis t.blake3) contents) sig
      → IsValid fl t (
          finished t.print m contents sig
            (record { base_files = b; chunk_files = none; signature_files = s }))
  unfolding open_file
  finished-IsValid laws m contents sig b s a f = record {
    manifest = m;
    sig = sig;
    contents = contents;
    has_manifest = record {
      content = t.print m;
      manifest_file = find-put-same manifest_name (t.print m) (entries b);
      manifest_bound = f.small;
      parsed = f.printed;
      sig_file = find-put-same sig_name sig (entries s);
      sig_bound = f.sig_small;
      agree = f.agree;
    };
    referenced =
        All-map (λ entry h bin. h) (put_chunks 0 contents [])
          (put_chunks-NamesAmong (map (λ x. x.chunk_file) m.segments) 0 contents []
            (subst (λ names. All (λ name. Has name (map (λ x. x.chunk_file) m.segments)) names)
              (described-filenames 0 (genesis t.blake3) contents m.segments f.described)
              (names-Has (map (λ x. x.chunk_file) m.segments)))
            tt);
    well_formed = f.well_formed;
    stored = described-AreStored laws _ _ 0 (genesis t.blake3) contents [] m.segments a f.described;
  }

  -- The streaming writer and `write_archive` give the same answer and leave the same disk, whatever
  -- was on it before: for fewer than 2^32 chunks, and a manifest made of the writer's outcomes that
  -- has as many segments as there are chunks and prints within the reader's cap.
  pub stream_archive-write_archive :
      (manifest_of : List ChunkOutcome → TrstManifest F64) (contents : List Bytes) (sig : Bytes)
      (d : Disk)
      → length contents < 2 ^ 32
      → length ((manifest_of (outcomes fl t 0 (genesis t.blake3) contents)).segments)
        ≡ length contents
      → length (t.print (manifest_of (outcomes fl t 0 (genesis t.blake3) contents)))
        ≤ manifest_max_bytes
      → stream_archive fl t manifest_of contents sig d
        ≡ write_archive fl t
            (manifest_of (outcomes fl t 0 (genesis t.blake3) contents))
            contents
            sig
            d
  stream_archive-write_archive manifest_of contents sig d few same small =
      stream_archive_lem fl t manifest_of contents sig d few same small
      ∙ sym (
          write_archive_lem fl t (manifest_of (outcomes fl t 0 (genesis t.blake3) contents))
            contents sig d same)

  -- An archive that is streamed to a disk with no chunk folder yet is written, is accepted by
  -- `validate_archive`, and is read back by `read_archive` as the manifest and the chunks, numbered
  -- from 0. There are fewer than 2^32 chunks, each within the stored cap, and the manifest that is
  -- made of the writer's outcomes holds them in its segments, is well formed, prints within the
  -- reader's cap and reads back, with a signature within its cap that agrees with an embedded one.
  pub stream_archive-validate_archive :
      ToolsLaws t
      → (shown : Text → Text) (manifest_of : List ChunkOutcome → TrstManifest F64)
        (contents : List Bytes) (sig : Bytes) (d : Disk)
      → d.chunk_files ≡ none
      → length contents < 2 ^ 32
      → All (λ content. length content ≤ max_stored_chunk_bytes) contents
      → Fits
          (manifest_of (outcomes fl t 0 (genesis t.blake3) contents))
          (outcomes fl t 0 (genesis t.blake3) contents)
          sig
      → ((stream_archive fl t manifest_of contents sig d).0 ≡ ok tt)
        × (validate_archive fl t shown ((stream_archive fl t manifest_of contents sig d).1) ≡ ok tt)
        × (read_archive fl t shown ((stream_archive fl t manifest_of contents sig d).1)
            ≡ ok (manifest_of (outcomes fl t 0 (genesis t.blake3) contents), indexed 0 contents))
  unfolding finished-IsValid
  stream_archive-validate_archive laws shown manifest_of contents sig d fresh few a f =
      let m = manifest_of (outcomes fl t 0 (genesis t.blake3) contents) in
      let same = length-described 0 (genesis t.blake3) contents m.segments f.described in
      let valid = finished-IsValid laws m contents sig d.base_files d.signature_files a f in
      rw (stream_archive_lem fl t manifest_of contents sig d few same f.small, fresh)
        (
          refl,
          (validate_archive_iff fl t laws shown _).1 valid,
          IsValid-read_archive fl t shown _ valid,
        )
