-- ===== src/Manifest/Validate.antt =====
-- `TrstManifest::validate`, in the order of its checks.
pub mod Correct
use sealedge.Base.{
  ℕ, zero, suc, ◌+◌, List, [], ◌∷◌, ◌++◌, Bytes, Text, str, Bool, true, false, not, ◌&&◌, ◌||◌,
  Option, none, some, decimal, ltb, leb, ◌==◌, bytes_eq, strip_prefix, length, Result, ok, err,
  ensure, ◌>>=◌, ◌>>◌,
}
use sealedge.Manifest.{
  Floats, GenericMetadata, CamVideoMetadata, SensorMetadata, AudioMetadata, LogMetadata,
  ProfileMetadata, cam_video, sensor, audio, log, generic, DeviceInfo, SegmentInfo, EncryptionBlock,
  TrstManifest,
}

-- The text of `serde_json::Error` stands for it.
pub data ManifestFormatError : Type 0 where
  serialization : Text → ManifestFormatError
  invalid_field : Text → ManifestFormatError

abbrev pub Checked : Type 0
Checked = Result ManifestFormatError (Unit {0})

-- `return Err(ManifestFormatError::InvalidField(…))` unless the test holds.
abbrev pub require : Bool → Text → Checked
require test message = ensure test (invalid_field message)

abbrev pub is_empty {ℓ} : {A : Type ℓ} → List A → Bool
is_empty [] = true
is_empty (x ∷ xs) = false

-- A check that a text is there: its name, then `cannot be empty`.
abbrev pub require_text : Text → Text → Checked
require_text name t = require (not (is_empty t)) (name ++ str " cannot be empty")

abbrev pub contains : List Text → Text → Bool
contains [] t = false
contains (x ∷ xs) t = bytes_eq x t || contains xs t

abbrev pub profiles : List Text
profiles = str "generic" ∷ str "cam.video" ∷ str "sensor" ∷ str "audio" ∷ str "log" ∷ []

unfoldable pub validate_times : Text → Text → Checked
validate_times started_at ended_at = do
  require_text (str "metadata.started_at") started_at
  require_text (str "metadata.ended_at") ended_at

module _ (fl : Floats) where
  open fl use {F64, le_zero}

  unfoldable pub validate_metadata : ProfileMetadata F64 → Checked
  validate_metadata (cam_video m) = validate_times m.started_at m.ended_at
  validate_metadata (sensor m) = do
    validate_times m.started_at m.ended_at
    require (not (le_zero m.sample_rate_hz)) (str "metadata.sample_rate_hz must be > 0")
    require_text (str "metadata.unit") m.unit
    require_text (str "metadata.sensor_model") m.sensor_model
  validate_metadata (audio m) = do
    validate_times m.started_at m.ended_at
    require (not (m.sample_rate_hz == 0)) (str "metadata.sample_rate_hz must be > 0")
    require (not (m.bit_depth == 0)) (str "metadata.bit_depth must be > 0")
    require (not (m.channels == 0)) (str "metadata.channels must be > 0")
    require_text (str "metadata.codec") m.codec
  validate_metadata (log m) = do
    validate_times m.started_at m.ended_at
    require_text (str "metadata.application") m.application
    require_text (str "metadata.host") m.host
    require_text (str "metadata.log_level") m.log_level
    require_text (str "metadata.log_format") m.log_format
  validate_metadata (generic m) = validate_times m.started_at m.ended_at

  abbrev pub segment_text : ℕ → Text → Text → Checked
  segment_text i name t = require_text (str "segment[" ++ (decimal i ++ (str "]." ++ name))) t

  -- The loop over `segments.iter().enumerate()`, from position `i`.
  unfoldable pub validate_segments : ℕ → List (SegmentInfo F64) → Checked
  validate_segments i [] = ok tt
  validate_segments i (segment ∷ rest) = do
    segment_text i (str "chunk_file") segment.chunk_file
    segment_text i (str "blake3_hash") segment.blake3_hash
    segment_text i (str "continuity_hash") segment.continuity_hash
    validate_segments (i + 1) rest

abbrev pub recipients_present : Option EncryptionBlock → Bool
recipients_present none = true
recipients_present (some e) = not (is_empty e.recipients)

-- `u8::is_ascii_hexdigit`
unfoldable pub is_ascii_hexdigit : ℕ → Bool
is_ascii_hexdigit b = (leb 48 b && leb b 57) || (leb 97 b && leb b 102) || (leb 65 b && leb b 70)

abbrev pub all {ℓ} : {A : Type ℓ} → (A → Bool) → List A → Bool
all test [] = true
all test (x ∷ xs) = test x && all test xs

abbrev pub is_hash_text : Option Text → Bool
is_hash_text none = false
is_hash_text (some h) = length h == 64 && all is_ascii_hexdigit h

unfoldable pub prev_well_formed : Text → Bool
prev_well_formed prev = is_hash_text (strip_prefix prev (str "b3:"))

unfoldable pub validate_chronicle : Option ℕ → Option Text → Checked
validate_chronicle none none = ok tt
validate_chronicle (some zero) none = ok tt
validate_chronicle none (some prev) =
    err (invalid_field (str "prev_archive_hash requires a sequence"))
validate_chronicle (some zero) (some prev) =
    err (invalid_field (str "genesis archive (sequence 0) must not set prev_archive_hash"))
validate_chronicle (some (suc n)) none =
    err (invalid_field (str "sequence > 0 requires prev_archive_hash"))
validate_chronicle (some (suc n)) (some prev) =
    require (prev_well_formed prev) (str "prev_archive_hash must be 'b3:<64 hex>'")

abbrev pub epoch_present : Option ℕ → Bool
epoch_present none = true
epoch_present (some epoch) = not (epoch == 0)

module _ (fl : Floats) where
  open fl use {F64}

  unfoldable pub validate : TrstManifest F64 → Checked
  validate m = do
    require_text (str "trst_version") m.trst_version
    require (contains profiles m.profile) (
        str "profile must be 'generic', 'cam.video', 'sensor', 'audio', or 'log', got '"
        ++ (m.profile ++ str "'"))
    require_text (str "device.id") m.device.id
    require_text (str "device.public_key") m.device.public_key
    validate_metadata fl m.metadata
    require (not (is_empty m.segments)) (str "segments cannot be empty")
    validate_segments fl 0 m.segments
    require (recipients_present m.encryption)
        (str "encryption.recipients cannot be empty (use sign-only mode for no encryption)")
    validate_chronicle m.sequence m.prev_archive_hash
    require (epoch_present m.device.key_epoch)
        (str "device.key_epoch must be >= 1 when present (epoch 0 is represented by absence)")
