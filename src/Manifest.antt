-- ===== src/Manifest.antt =====
-- crates/seal-protocols/src/archive/manifest.rs: the manifest of an archive.
-- A BTreeMap is the list of its entries in key order. Floating point is a parameter: the type, its
-- `Display`, the literals that the code writes, and the test `<= 0.0`.
pub mod New
pub mod Canonical
pub mod Validate
pub mod Tests
use sealedge.Base.{ℕ, List, Text, Bool, Option, none, some}

pub record Floats : Type 1 where
  pub F64 : Type 0
  pub display : F64 → Text
  -- The literal `n.0`.
  pub literal : ℕ → F64
  -- `x <= 0.0`
  pub le_zero : F64 → Bool

abbrev pub Labels : Type 0
Labels = List (Text × Text)

pub record GenericMetadata : Type 0 where
  pub started_at : Text
  pub ended_at : Text
  pub data_type : Option Text
  pub source : Option Text
  pub description : Option Text
  pub mime_type : Option Text
  pub labels : Labels

pub record CamVideoMetadata (F64 : Type 0) : Type 0 where
  pub started_at : Text
  pub ended_at : Text
  pub timezone : Text
  pub fps : F64
  pub resolution : Text
  pub codec : Text

pub record SensorMetadata (F64 : Type 0) : Type 0 where
  pub started_at : Text
  pub ended_at : Text
  pub sample_rate_hz : F64
  pub unit : Text
  pub sensor_model : Text
  pub latitude : Option F64
  pub longitude : Option F64
  pub altitude : Option F64
  pub labels : Labels

pub record AudioMetadata : Type 0 where
  pub started_at : Text
  pub ended_at : Text
  pub sample_rate_hz : ℕ
  pub bit_depth : ℕ
  pub channels : ℕ
  pub codec : Text

pub record LogMetadata : Type 0 where
  pub started_at : Text
  pub ended_at : Text
  pub application : Text
  pub host : Text
  pub log_level : Text
  pub log_format : Text

pub data ProfileMetadata (F64 : Type 0) : Type 0 where
  cam_video : CamVideoMetadata F64 → ProfileMetadata F64
  sensor : SensorMetadata F64 → ProfileMetadata F64
  audio : AudioMetadata → ProfileMetadata F64
  log : LogMetadata → ProfileMetadata F64
  generic : GenericMetadata → ProfileMetadata F64

pub record DeviceInfo : Type 0 where
  pub id : Text
  pub model : Text
  pub firmware_version : Text
  pub public_key : Text
  pub key_agreement_public : Option Text
  pub key_epoch : Option ℕ

pub record ChunkInfo (F64 : Type 0) : Type 0 where
  pub size_bytes : ℕ
  pub duration_seconds : F64

pub record SegmentInfo (F64 : Type 0) : Type 0 where
  pub chunk_file : Text
  pub blake3_hash : Text
  pub start_time : Text
  pub duration_seconds : F64
  pub continuity_hash : Text

pub record HpkeSuite : Type 0 where
  pub kem : Text
  pub kdf : Text
  pub aead : Text

pub record RecipientEntry : Type 0 where
  pub recipient_id : Text
  pub recipient_pub : Text
  pub enc : Text
  pub wrapped_cek : Text

pub record EncryptionBlock : Type 0 where
  pub content_aead : Text
  pub hpke : HpkeSuite
  pub recipients : List RecipientEntry

pub record TrstManifest (F64 : Type 0) : Type 0 where
  pub trst_version : Text
  pub profile : Text
  pub device : DeviceInfo
  pub metadata : ProfileMetadata F64
  pub chunk : ChunkInfo F64
  pub segments : List (SegmentInfo F64)
  pub claims : List Text
  pub encryption : Option EncryptionBlock
  pub sequence : Option ℕ
  pub prev_archive_hash : Option Text
  pub signature : Option Text

unfoldable pub set_signature : {F64 : Type 0} → TrstManifest F64 → Text → TrstManifest F64
set_signature m signature = record m { signature = some signature }
