-- ===== src/Archive/Writer.antt =====
-- crates/core/src/archive.rs: `ArchiveWriter` and `write_archive`. An action takes the disk and
-- gives its answer beside the disk that it leaves, also when it fails.
use sealedge.Base.{
  ℕ, ◌+◌, ◌%◌, ◌^◌, List, [], ◌∷◌, ◌++◌, Bytes, Text, str, Bool, true, false, not, Option, none,
  some, length, decimal, ltb, ◌==◌, Result, ok, err,
}
use sealedge.Chain.{segment_hash, chain_next, genesis}
use sealedge.Manifest.{Floats, TrstManifest}
use sealedge.Archive.{
  ArchiveError, io, schema_mismatch, manifest_max_bytes, Tools, Files, Folder, base, chunks,
  signatures, Disk, put, folder, set_folder, manifest_name, sig_name, chunk_filename,
}

abbrev pub Action : Type 0 → Type 0
Action A = Disk → Result ArchiveError A × Disk

abbrev pub and_then :
    {A B : Type 0} → (A → Action B) → Result ArchiveError A × Disk → Result ArchiveError B × Disk
and_then f (ok a, d) = f a d
and_then f (err e, d) = (err e, d)

infixl 5 ◌>>=◌ ◌>>◌
abbrev pub ◌>>=◌ : {A B : Type 0} → Action A → (A → Action B) → Action B
◌>>=◌ m f d = and_then f (m d)

abbrev pub ◌>>◌ : {B : Type 0} → Action (Unit {0}) → Action B → Action B
m >> k = m >>= λ _. k

abbrev pub pure : {A : Type 0} → A → Action A
pure a d = (ok a, d)

abbrev pub require : Bool → ArchiveError → Action (Unit {0})
require true e d = (ok tt, d)
require false e d = (err e, d)

abbrev made : Folder → Option Files → Disk → Disk
made at none d = set_folder at [] d
made at (some files) d = d

-- `fs::create_dir_all`
unfoldable pub create_dir : Folder → Action (Unit {0})
create_dir at d = (ok tt, made at (folder at d) d)

abbrev written : Folder → Text → Bytes → Option Files → Action (Unit {0})
written at name content none d = (err (io (str "No such file or directory (os error 2)")), d)
written at name content (some files) d = (ok tt, set_folder at (put name content files) d)

-- `File::create` and `write_all`
unfoldable pub write_file : Folder → Text → Bytes → Action (Unit {0})
write_file at name content d = written at name content (folder at d) d

pub record ChunkOutcome : Type 0 where
  pub index : ℕ
  pub blake3 : Bytes
  pub continuity : Bytes
  pub stored_len : ℕ

pub record ArchiveWriter : Type 0 where
  pub next_index : ℕ
  pub chain_state : Bytes

module _ (fl : Floats) (t : Tools fl) where
  unfoldable pub create : Action ArchiveWriter
  create = do
    create_dir base
    create_dir signatures
    create_dir chunks
    pure (record { next_index = 0; chain_state = genesis t.blake3 })

  unfoldable pub push_chunk : ArchiveWriter → Bytes → Action (ChunkOutcome × ArchiveWriter)
  push_chunk w stored_bytes =
      let hash = segment_hash t.blake3 stored_bytes in
      let continuity = chain_next t.blake3 w.chain_state hash in
      do
        write_file chunks (chunk_filename w.next_index) stored_bytes
        pure (
          record {
            index = w.next_index;
            blake3 = hash;
            continuity = continuity;
            stored_len = length stored_bytes;
          },
          record { next_index = (w.next_index + 1) % 2 ^ 32; chain_state = continuity },
        )

  unfoldable pub finalize : ArchiveWriter → TrstManifest fl.F64 → Bytes → Action (Unit {0})
  finalize w manifest detached_sig = do
    require (length manifest.segments == w.next_index) (
        schema_mismatch (
          str "Chunk count mismatch: "
          ++ (decimal w.next_index
              ++ (str " chunks written, "
                  ++ (decimal (length manifest.segments) ++ str " segments in manifest")))))
    require (not (ltb manifest_max_bytes (length (t.print manifest)))) (
        schema_mismatch (
          str "manifest exceeds the reader cap ("
          ++ (decimal (length (t.print manifest))
              ++ (str " > "
                  ++ (decimal manifest_max_bytes ++ str " bytes); increase --chunk-size")))))
    write_file base manifest_name (t.print manifest)
    write_file signatures sig_name detached_sig

  -- The loop of `write_archive` over the chunks, from `index` on.
  unfoldable pub write_chunks : ℕ → List Bytes → Action (Unit {0})
  write_chunks index [] = pure tt
  write_chunks index (chunk ∷ rest) = do
    write_file chunks (chunk_filename index) chunk
    write_chunks (index + 1) rest

  unfoldable pub write_archive : TrstManifest fl.F64 → List Bytes → Bytes → Action (Unit {0})
  write_archive manifest chunk_ciphertexts detached_sig = do
    require (length chunk_ciphertexts == length manifest.segments) (
        schema_mismatch (
          str "Chunk count mismatch: "
          ++ (decimal (length chunk_ciphertexts)
              ++ (str " chunks provided, "
                  ++ (decimal (length manifest.segments) ++ str " segments in manifest")))))
    create_dir base
    create_dir signatures
    create_dir chunks
    write_file base manifest_name (t.print manifest)
    write_file signatures sig_name detached_sig
    write_chunks 0 chunk_ciphertexts

  -- A caller's loop over `push_chunk`, which keeps the outcomes.
  unfoldable pub push_all : ArchiveWriter → List Bytes → Action (List ChunkOutcome × ArchiveWriter)
  push_all w [] = pure ([], w)
  push_all w (chunk ∷ rest) = do
    (outcome, w') ← push_chunk w chunk
    (outcomes, w'') ← push_all w' rest
    pure (outcome ∷ outcomes, w'')
