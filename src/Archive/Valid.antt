-- ===== src/Archive/Valid.antt =====
-- What an archive on disk has to be, written without the reader's control flow: the description that
-- `validate_archive` of crates/core/src/archive.rs is compared with.
pub mod Segments
pub mod Correct
pub mod Tamper
use sealedge.Base.{
  ℕ, suc, ◌≤◌, ◌≡◌, List, [], ◌∷◌, Bytes, Text, str, true, Option, none, some, length, map, ok, All,
  Has,
}
use sealedge.Chain.{segment_hash, chain_next, genesis}
use sealedge.Manifest.{Floats, SegmentInfo, TrstManifest}
use sealedge.Manifest.Validate.Correct.{IsWellFormed}
use sealedge.Archive.{
  manifest_max_bytes, sig_max_bytes, max_stored_chunk_bytes, Tools, Files, base, chunks, signatures,
  Disk, open_file, manifest_name, sig_name, chunk_filename,
}
use sealedge.Archive.Reader.{ends_with}

-- Each `.bin` file of the folder is one that a segment names.
abbrev pub IsReferenced : List Text → Option Files → Type 0
IsReferenced names none = Unit {0}
IsReferenced names (some files) =
    All (λ entry. ends_with (entry.0) (str ".bin") ≡ true → Has (entry.0) names) files

module _ (fl : Floats) (t : Tools fl) where
  open fl use {F64}

  -- The segment at position `i` describes the file of that position, whose content is `content`, and
  -- links its hash to the link before it.
  pub record IsStored (d : Disk) (i : ℕ) (previous : Bytes) (s : SegmentInfo F64) (content : Bytes)
      : Type 0 where
    pub name : s.chunk_file ≡ chunk_filename i
    pub found : open_file chunks (chunk_filename i) d ≡ some content
    pub bound : length content ≤ max_stored_chunk_bytes
    pub hash : s.blake3_hash ≡ t.hex (segment_hash t.blake3 content)
    pub link :
        t.hex_decode s.continuity_hash
        ≡ ok (chain_next t.blake3 previous (segment_hash t.blake3 content))

  -- The segments from position `i` on are stored with these contents, one link after the other.
  abbrev pub AreStored : Disk → ℕ → Bytes → List (SegmentInfo F64) → List Bytes → Type 0
  AreStored d i previous [] [] = Unit {0}
  AreStored d i previous [] (content ∷ contents) = ⊥
  AreStored d i previous (s ∷ rest) [] = ⊥
  AreStored d i previous (s ∷ rest) (content ∷ contents) =
      IsStored d i previous s content
      × AreStored d (suc i) (chain_next t.blake3 previous (segment_hash t.blake3 content)) rest
          contents

  -- An embedded signature is the detached one.
  abbrev pub SignatureAgrees : Option Text → Bytes → Type 0
  SignatureAgrees none detached_sig = Unit {0}
  SignatureAgrees (some embedded_sig) detached_sig = embedded_sig ≡ t.utf8_lossy detached_sig

  -- The manifest and the signature that lie in the archive.
  pub record HasManifest (d : Disk) (m : TrstManifest F64) (sig : Bytes) : Type 0 where
    pub content : Bytes
    pub manifest_file : open_file base manifest_name d ≡ some content
    pub manifest_bound : length content ≤ manifest_max_bytes
    pub parsed : t.parse content ≡ ok m
    pub sig_file : open_file signatures sig_name d ≡ some sig
    pub sig_bound : length sig ≤ sig_max_bytes
    pub agree : SignatureAgrees m.signature sig

  pub record IsValid (d : Disk) : Type 0 where
    pub manifest : TrstManifest F64
    pub sig : Bytes
    pub contents : List Bytes
    pub has_manifest : HasManifest d manifest sig
    pub referenced : IsReferenced (map (λ s. s.chunk_file) manifest.segments) d.chunk_files
    pub well_formed : IsWellFormed fl manifest
    pub stored : AreStored d 0 (genesis t.blake3) manifest.segments contents
