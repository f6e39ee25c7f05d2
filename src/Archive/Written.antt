-- ===== src/Archive/Written.antt =====
-- crates/core/src/archive.rs: the disk that `ArchiveWriter` and `write_archive` leave.
use sealedge.Base.{
  ℕ, suc, ◌+◌, ◌%◌, ◌^◌, ◌≤◌, ◌<◌, ◌≡◌, refl, ◌∙◌, List, [], ◌∷◌, Bytes, Text, Option, none, some,
  ok, length, not, ltb, ◌==◌, true, arith,
}
use native.Mathlib.Numerals.{add-one}
use sealedge.Chain.{segment_hash, chain_next, genesis}
use sealedge.Manifest.{Floats, TrstManifest}
use sealedge.Archive.{
  manifest_max_bytes, Tools, Files, base, chunks, signatures, Disk, put, manifest_name, sig_name,
  chunk_filename,
}
use sealedge.Archive.Files.{put_chunks}
use sealedge.Archive.Writer.{
  Action, ChunkOutcome, ArchiveWriter, create_dir, write_file, create, push_chunk, push_all,
  finalize, write_chunks, write_archive, ◌>>=◌, ◌>>◌, pure,
}

abbrev pub entries : Option Files → Files
entries none = []
entries (some files) = files

abbrev pub disk : Option Files → Files → Option Files → Disk
disk b files s = record { base_files = b; chunk_files = some files; signature_files = s }

-- The disk with the archive written to it.
abbrev pub finished :
    {F64 : Type 0} → (TrstManifest F64 → Text) → TrstManifest F64 → List Bytes → Bytes → Disk → Disk
finished print m contents sig d =
    disk (some (put manifest_name (print m) (entries d.base_files)))
      (put_chunks 0 contents (entries d.chunk_files))
      (some (put sig_name sig (entries d.signature_files)))

-- The three folders are there afterwards, with the files that they had.
created :
    {B : Type 0} (k : Action B) (b c s : Option Files)
    → (create_dir base >> (create_dir signatures >> (create_dir chunks >> k)))
        (record { base_files = b; chunk_files = c; signature_files = s })
      ≡ k (disk (some (entries b)) (entries c) (some (entries s)))
unfolding create_dir
created k none none none = refl
created k none none (some s) = refl
created k none (some c) none = refl
created k none (some c) (some s) = refl
created k (some b) none none = refl
created k (some b) none (some s) = refl
created k (some b) (some c) none = refl
created k (some b) (some c) (some s) = refl

module _ (fl : Floats) (t : Tools fl) where
  -- The outcomes of pushing the chunks, from position `i` and link `previous` on.
  abbrev pub outcomes : ℕ → Bytes → List Bytes → List ChunkOutcome
  outcomes i previous [] = []
  outcomes i previous (chunk ∷ rest) =
      let hash = segment_hash t.blake3 chunk in
      let link = chain_next t.blake3 previous hash in
      record { index = i; blake3 = hash; continuity = link; stored_len = length chunk }
      ∷ outcomes (suc i) link rest

  abbrev pub last_link : Bytes → List Bytes → Bytes
  last_link previous [] = previous
  last_link previous (chunk ∷ rest) =
      last_link (chain_next t.blake3 previous (segment_hash t.blake3 chunk)) rest

  push_all_lem :
      (i : ℕ) (previous : Bytes) (contents : List Bytes) (b s : Option Files) (files : Files)
      → i + length contents < 2 ^ 32
      → push_all fl t (record { next_index = i; chain_state = previous }) contents (disk b files s)
        ≡ (
          ok (
            outcomes i previous contents,
            record { next_index = i + length contents; chain_state = last_link previous contents },
          ),
          disk b (put_chunks i contents files) s,
        )
  unfolding push_all push_chunk write_file
  push_all_lem i previous [] b s files h = let none_more : i + 0 ≡ i = omega arith in rw none_more
  push_all_lem i previous (chunk ∷ rest) b s files h =
      let link = chain_next t.blake3 previous (segment_hash t.blake3 chunk) in
      let no_wrap : (i + 1) % 2 ^ 32 ≡ suc i = omega arith in
      let count : suc i + length rest ≡ i + suc (length rest) = omega arith in
      rw (
        no_wrap,
        push_all_lem (suc i) link rest b s (put (chunk_filename i) chunk files) (omega arith),
        count,
      )

  write_chunks_lem :
      (i : ℕ) (contents : List Bytes) (b s : Option Files) (files : Files)
      → write_chunks fl t i contents (disk b files s)
        ≡ (ok tt, disk b (put_chunks i contents files) s)
  unfolding write_chunks write_file
  write_chunks_lem i [] b s files = refl
  write_chunks_lem i (chunk ∷ rest) b s files =
      rw (add-one i) (write_chunks_lem (suc i) rest b s (put (chunk_filename i) chunk files))

  -- A caller's use of the writer: the manifest is made of the outcomes of all chunks.
  abbrev pub stream_archive :
      (List ChunkOutcome → TrstManifest fl.F64) → List Bytes → Bytes → Action (Unit {0})
  stream_archive manifest_of contents sig = do
    w ← create fl t
    (outs, w') ← push_all fl t w contents
    finalize fl t w' (manifest_of outs) sig

  pub stream_archive_lem :
      (manifest_of : List ChunkOutcome → TrstManifest fl.F64) (contents : List Bytes) (sig : Bytes)
      (d : Disk)
      → length contents < 2 ^ 32
      → length ((manifest_of (outcomes 0 (genesis t.blake3) contents)).segments) ≡ length contents
      → length (t.print (manifest_of (outcomes 0 (genesis t.blake3) contents))) ≤ manifest_max_bytes
      → stream_archive manifest_of contents sig d ≡ (
        ok tt,
        finished t.print (manifest_of (outcomes 0 (genesis t.blake3) contents)) contents sig d,
      )
  unfolding create finalize write_file
  stream_archive_lem manifest_of contents sig d few same small =
      let m = manifest_of (outcomes 0 (genesis t.blake3) contents) in
      let fits : not (ltb manifest_max_bytes (length (t.print m))) ≡ true = ground (arith, small) in
      let counted : (length m.segments == (0 + length contents)) ≡ true = ground (arith, same) in
      rw (
        created {B = ArchiveWriter}
            (pure (record { next_index = 0; chain_state = genesis t.blake3 })) d.base_files
            d.chunk_files d.signature_files,
        push_all_lem 0 (genesis t.blake3) contents (some (entries d.base_files))
            (some (entries d.signature_files)) (entries d.chunk_files) (omega (arith, few)),
        counted,
        fits,
      )

  pub write_archive_lem :
      (m : TrstManifest fl.F64) (contents : List Bytes) (sig : Bytes) (d : Disk)
      → length m.segments ≡ length contents
      → write_archive fl t m contents sig d ≡ (ok tt, finished t.print m contents sig d)
  unfolding write_archive write_file
  write_archive_lem m contents sig d same =
      let counted : (length contents == length m.segments) ≡ true = ground (arith, same) in
      rw counted (
        created _ d.base_files d.chunk_files d.signature_files
        ∙ write_chunks_lem 0 contents _ _ (entries d.chunk_files))
