-- ===== src/Manifest/New.antt =====
-- The constructors of manifest.rs, one for each profile.
use sealedge.Base.{[], Text, str, none}
use sealedge.Manifest.{
  Floats, ProfileMetadata, cam_video, sensor, audio, log, generic, DeviceInfo, TrstManifest,
}

module _ (fl : Floats) where
  open fl use {F64, literal}

  abbrev new_device : Text → DeviceInfo
  new_device model = record {
    id = [];
    model = model;
    firmware_version = str "1.0.0";
    public_key = [];
    key_agreement_public = none;
    key_epoch = none;
  }

  -- What the five constructors share.
  abbrev new_profile : Text → Text → ProfileMetadata F64 → TrstManifest F64
  new_profile profile model metadata = record {
    trst_version = str "0.2.0";
    profile = profile;
    device = new_device model;
    metadata = metadata;
    chunk = record { size_bytes = 1_048_576; duration_seconds = literal 2 };
    segments = [];
    claims = [];
    encryption = none;
    sequence = none;
    prev_archive_hash = none;
    signature = none;
  }

  unfoldable pub new_generic : TrstManifest F64
  new_generic = new_profile (str "generic") (str "TrustEdgeRefCam") (
      generic (record {
        started_at = [];
        ended_at = [];
        data_type = none;
        source = none;
        description = none;
        mime_type = none;
        labels = [];
      }))

  unfoldable pub new_cam_video : TrstManifest F64
  new_cam_video = new_profile (str "cam.video") (str "TrustEdgeRefCam") (
      cam_video (record {
        started_at = [];
        ended_at = [];
        timezone = str "UTC";
        fps = literal 30;
        resolution = str "1920x1080";
        codec = str "raw";
      }))

  unfoldable pub new_sensor : TrstManifest F64
  new_sensor = new_profile (str "sensor") (str "TrustEdgeRefSensor") (
      sensor (record {
        started_at = [];
        ended_at = [];
        sample_rate_hz = literal 100;
        unit = [];
        sensor_model = [];
        latitude = none;
        longitude = none;
        altitude = none;
        labels = [];
      }))

  unfoldable pub new_audio : TrstManifest F64
  new_audio = new_profile (str "audio") (str "TrustEdgeRefAudio") (
      audio (record {
        started_at = [];
        ended_at = [];
        sample_rate_hz = 44100;
        bit_depth = 16;
        channels = 2;
        codec = str "pcm";
      }))

  unfoldable pub new_log : TrstManifest F64
  new_log = new_profile (str "log") (str "TrustEdgeRefLog") (
      log (record {
        started_at = [];
        ended_at = [];
        application = [];
        host = [];
        log_level = str "info";
        log_format = str "json";
      }))
