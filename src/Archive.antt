-- ===== src/Archive.antt =====
-- crates/core/src/archive.rs: the directory of an archive, the streaming writer, and the readers.
-- The directory is three folders of files, each of which may not be there; `serde_json`, the lossy
-- decoding of UTF-8, BLAKE3, `hex`, and how a read is cut into blocks are a record of parameters.
pub mod Writer
pub mod Reader
pub mod Files
pub mod Valid
pub mod Written
pub mod RoundTrip
pub mod Tests
use sealedge.Base.{
  ℕ, zero, suc, ◌+◌, ◌-◌, ◌≤◌, ◌≡◌, List, [], ◌∷◌, ◌++◌, Bytes, Text, str, Bool, true, false,
  Option, none, some, bytes_eq, length, padded, Result, ok, err, if◌then◌else◌,
}
use sealedge.Manifest.{Floats, TrstManifest}
use sealedge.Manifest.Validate.{ManifestFormatError}
use sealedge.Chain.{ChainError}

pub data ArchiveError : Type 0 where
  io : Text → ArchiveError
  manifest : ManifestFormatError → ArchiveError
  json : Text → ArchiveError
  schema_mismatch : Text → ArchiveError
  missing_chunk : Text → ArchiveError
  unreferenced_chunk : Text → ArchiveError
  invalid_chunk_index : ℕ → ℕ → ArchiveError
  signature_mismatch : ArchiveError
  chain : ChainError → ArchiveError
  validation_failed : Text → ArchiveError

abbrev pub manifest_max_bytes : ℕ
manifest_max_bytes = 8_388_608

abbrev pub sig_max_bytes : ℕ
sig_max_bytes = 4096

abbrev pub max_chunk_size_bytes : ℕ
max_chunk_size_bytes = 268_435_456

abbrev pub max_stored_chunk_bytes : ℕ
max_stored_chunk_bytes = max_chunk_size_bytes + 24 + 16

-- What the code calls and does not implement.
pub record Tools (fl : Floats) : Type 0 where
  -- `serde_json::to_string_pretty` and `serde_json::from_slice` of a manifest
  pub print : TrstManifest fl.F64 → Text
  pub parse : Bytes → Result Text (TrstManifest fl.F64)
  -- `String::from_utf8_lossy`
  pub utf8_lossy : Bytes → Text
  pub blake3 : Bytes → Bytes
  pub hex : Bytes → Text
  pub hex_decode : Text → Result Text Bytes
  -- The non-empty blocks in which a file's content is read.
  pub read_blocks : Bytes → List Bytes

abbrev pub concat : List Bytes → Bytes
concat [] = []
concat (b ∷ rest) = b ++ concat rest

abbrev pub NonEmpty : List Bytes → Type 0
NonEmpty [] = Unit {0}
NonEmpty (b ∷ rest) = (1 ≤ length b) × NonEmpty rest

pub record ToolsLaws {fl : Floats} (t : Tools fl) : Type 0 where
  pub length-blake3 : (b : Bytes) → length (t.blake3 b) ≡ 32
  pub decode-hex : (b : Bytes) → t.hex_decode (t.hex b) ≡ ok b
  pub concat-read_blocks : (b : Bytes) → concat (t.read_blocks b) ≡ b
  pub non_empty : (b : Bytes) → NonEmpty (t.read_blocks b)

-- A folder's files by name.
abbrev pub Files : Type 0
Files = List (Text × Bytes)

pub data Folder : Type 0 where
  base : Folder
  chunks : Folder
  signatures : Folder

-- The three folders of an archive; `none` is a folder that does not exist.
pub record Disk : Type 0 where
  pub base_files : Option Files
  pub chunk_files : Option Files
  pub signature_files : Option Files

unfoldable pub find : Text → Files → Option Bytes
find name [] = none
find name ((n, content) ∷ rest) = if bytes_eq n name then some content else find name rest

-- A file is replaced, or comes to the others.
unfoldable pub put : Text → Bytes → Files → Files
put name content [] = (name, content) ∷ []
put name content ((n, c) ∷ rest) =
    if bytes_eq n name then (name, content) ∷ rest else (n, c) ∷ put name content rest

abbrev pub folder : Folder → Disk → Option Files
folder base d = d.base_files
folder chunks d = d.chunk_files
folder signatures d = d.signature_files

abbrev pub set_folder : Folder → Files → Disk → Disk
set_folder base files d = record d { base_files = some files }
set_folder chunks files d = record d { chunk_files = some files }
set_folder signatures files d = record d { signature_files = some files }

abbrev pub find_in : Text → Option Files → Option Bytes
find_in name none = none
find_in name (some files) = find name files

-- `File::open` with its whole content; `none` is `NotFound`.
unfoldable pub open_file : Folder → Text → Disk → Option Bytes
open_file at name d = find_in name (folder at d)

abbrev pub manifest_name : Text
manifest_name = str "manifest.json"

abbrev pub sig_name : Text
sig_name = str "manifest.sig"

-- `format!("{:05}.bin", index)`
unfoldable pub chunk_filename : ℕ → Text
chunk_filename index = padded index ++ str ".bin"

-- `format!("clip-{}.seal", id)`
unfoldable pub archive_dir_name : Text → Text
archive_dir_name id = str "clip-" ++ (id ++ str ".seal")
