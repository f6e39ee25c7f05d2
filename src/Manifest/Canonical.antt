-- ===== src/Manifest/Canonical.antt =====
-- `TrstManifest::to_canonical_bytes`: the text that is signed. Each `push` function takes the text
-- that is pushed after it. `serde_json::to_string` of a string (`json_str`) and of a list of
-- strings (`json_list`) are parameters.
pub mod Cuts
pub mod Parts
pub mod Metadata
pub mod Variants
pub mod Signed
pub mod Unambiguous
use sealedge.Base.{
  ℕ, ◌+◌, zero, suc, List, [], ◌∷◌, ◌++◌, Bytes, Text, str, Bool, true, false, Option, none, some,
  decimal, ltb, if◌then◌else◌, Result, ok,
}
use sealedge.Manifest.{
  Floats, Labels, GenericMetadata, CamVideoMetadata, SensorMetadata, AudioMetadata, LogMetadata,
  ProfileMetadata, cam_video, sensor, audio, log, generic, DeviceInfo, ChunkInfo, SegmentInfo,
  HpkeSuite, RecipientEntry, EncryptionBlock, TrstManifest,
}

-- A number or string that is only there if it is present, behind its key.
abbrev pub push_opt {ℓ} : {A : Type ℓ} → (A → Text) → Text → Option A → Text → Text
push_opt show key none rest = rest
push_opt show key (some v) rest = key ++ (show v ++ rest)

-- The comma before every element but the first.
abbrev pub separated : ℕ → Text → Text
separated i rest = if ltb 0 i then b',' ∷ rest else rest

-- The epoch is pushed only if it is above 0.
abbrev pub push_epoch : Option ℕ → Text → Text
push_epoch none rest = rest
push_epoch (some epoch) rest =
    if ltb 0 epoch then str ",\"key_epoch\":" ++ (decimal epoch ++ rest) else rest

module _ (json_str : Text → Text) where
  unfoldable pub push_device : DeviceInfo → Text → Text
  push_device d rest =
      str ",\"device\":{\"id\":"
      ++ (json_str d.id
          ++ (str ",\"model\":"
              ++ (json_str d.model
                  ++ (str ",\"firmware_version\":"
                      ++ (json_str d.firmware_version
                          ++ (str ",\"public_key\":"
                              ++ (json_str d.public_key
                                  ++ push_opt json_str (str ",\"key_agreement_public\":")
                                      d.key_agreement_public
                                      (push_epoch d.key_epoch (b'}' ∷ rest)))))))))

  -- The loop over the labels, from entry `i` on.
  unfoldable pub push_entries : ℕ → Labels → Text → Text
  push_entries i [] rest = rest
  push_entries i ((k, v) ∷ labels) rest =
      separated i (json_str k ++ (b':' ∷ (json_str v ++ push_entries (i + 1) labels rest)))

  unfoldable pub push_labels : Labels → Text → Text
  push_labels [] rest = rest
  push_labels (e ∷ labels) rest = str ",\"labels\":{" ++ push_entries 0 (e ∷ labels) (b'}' ∷ rest)

  -- How every variant of the metadata begins.
  unfoldable pub push_times : Text → Text → Text → Text
  push_times started_at ended_at rest =
      str ",\"metadata\":{\"started_at\":"
      ++ (json_str started_at ++ (str ",\"ended_at\":" ++ (json_str ended_at ++ rest)))

  unfoldable pub push_audio : AudioMetadata → Text → Text
  push_audio m rest =
      str ",\"sample_rate_hz\":"
      ++ (decimal m.sample_rate_hz
          ++ (str ",\"bit_depth\":"
              ++ (decimal m.bit_depth
                  ++ (str ",\"channels\":"
                      ++ (decimal m.channels
                          ++ (str ",\"codec\":" ++ (json_str m.codec ++ b'}' ∷ rest)))))))

  unfoldable pub push_log : LogMetadata → Text → Text
  push_log m rest =
      str ",\"application\":"
      ++ (json_str m.application
          ++ (str ",\"host\":"
              ++ (json_str m.host
                  ++ (str ",\"log_level\":"
                      ++ (json_str m.log_level
                          ++ (str ",\"log_format\":" ++ (json_str m.log_format ++ b'}' ∷ rest)))))))

  unfoldable pub push_generic : GenericMetadata → Text → Text
  push_generic m rest = push_opt json_str (str ",\"data_type\":") m.data_type (
      push_opt json_str (str ",\"source\":") m.source (
        push_opt json_str (str ",\"description\":") m.description (
          push_opt json_str (str ",\"mime_type\":") m.mime_type
            (push_labels m.labels (b'}' ∷ rest)))))

  unfoldable pub push_recipient : RecipientEntry → Text → Text
  push_recipient r rest =
      str "{\"recipient_id\":"
      ++ (json_str r.recipient_id
          ++ (str ",\"recipient_pub\":"
              ++ (json_str r.recipient_pub
                  ++ (str ",\"enc\":"
                      ++ (json_str r.enc
                          ++ (str ",\"wrapped_cek\":"
                              ++ (json_str r.wrapped_cek ++ b'}' ∷ rest)))))))

  unfoldable pub push_recipients : ℕ → List RecipientEntry → Text → Text
  push_recipients i [] rest = rest
  push_recipients i (r ∷ recipients) rest =
      separated i (push_recipient r (push_recipients (i + 1) recipients rest))

  unfoldable pub push_encryption : EncryptionBlock → Text → Text
  push_encryption e rest =
      str ",\"encryption\":{\"content_aead\":"
      ++ (json_str e.content_aead
          ++ (str ",\"hpke\":{\"kem\":"
              ++ (json_str e.hpke.kem
                  ++ (str ",\"kdf\":"
                      ++ (json_str e.hpke.kdf
                          ++ (str ",\"aead\":"
                              ++ (json_str e.hpke.aead
                                  ++ (str "},\"recipients\":["
                                      ++ push_recipients 0 e.recipients (b']' ∷ b'}' ∷ rest)))))))))

  abbrev pub push_opt_encryption : Option EncryptionBlock → Text → Text
  push_opt_encryption none rest = rest
  push_opt_encryption (some e) rest = push_encryption e rest

  module _ (fl : Floats) where
    open fl use {F64, display}

    unfoldable pub push_cam_video : CamVideoMetadata F64 → Text → Text
    push_cam_video m rest =
        str ",\"timezone\":"
        ++ (json_str m.timezone
            ++ (str ",\"fps\":"
                ++ (display m.fps
                    ++ (str ",\"resolution\":"
                        ++ (json_str m.resolution
                            ++ (str ",\"codec\":" ++ (json_str m.codec ++ b'}' ∷ rest)))))))

    unfoldable pub push_sensor : SensorMetadata F64 → Text → Text
    push_sensor m rest =
        str ",\"sample_rate_hz\":"
        ++ (display m.sample_rate_hz
            ++ (str ",\"unit\":"
                ++ (json_str m.unit
                    ++ (str ",\"sensor_model\":"
                        ++ (json_str m.sensor_model
                            ++ push_opt display (str ",\"latitude\":") m.latitude (
                                push_opt display (str ",\"longitude\":") m.longitude (
                                  push_opt display (str ",\"altitude\":") m.altitude
                                    (push_labels m.labels (b'}' ∷ rest)))))))))

    unfoldable pub push_metadata : ProfileMetadata F64 → Text → Text
    push_metadata (cam_video m) rest = push_times m.started_at m.ended_at (push_cam_video m rest)
    push_metadata (sensor m) rest = push_times m.started_at m.ended_at (push_sensor m rest)
    push_metadata (audio m) rest = push_times m.started_at m.ended_at (push_audio m rest)
    push_metadata (log m) rest = push_times m.started_at m.ended_at (push_log m rest)
    push_metadata (generic m) rest = push_times m.started_at m.ended_at (push_generic m rest)

    unfoldable pub push_chunk : ChunkInfo F64 → Text → Text
    push_chunk c rest =
        str ",\"chunk\":{\"size_bytes\":"
        ++ (decimal c.size_bytes
            ++ (str ",\"duration_seconds\":" ++ (display c.duration_seconds ++ b'}' ∷ rest)))

    unfoldable pub push_segment : SegmentInfo F64 → Text → Text
    push_segment s rest =
        str "{\"chunk_file\":"
        ++ (json_str s.chunk_file
            ++ (str ",\"blake3_hash\":"
                ++ (json_str s.blake3_hash
                    ++ (str ",\"start_time\":"
                        ++ (json_str s.start_time
                            ++ (str ",\"duration_seconds\":"
                                ++ (display s.duration_seconds
                                    ++ (str ",\"continuity_hash\":"
                                        ++ (json_str s.continuity_hash ++ b'}' ∷ rest)))))))))

    -- The loop over the segments, from segment `i` on.
    unfoldable pub push_segments : ℕ → List (SegmentInfo F64) → Text → Text
    push_segments i [] rest = rest
    push_segments i (s ∷ segments) rest =
        separated i (push_segment s (push_segments (i + 1) segments rest))

    module _ (json_list : List Text → Text) where
      unfoldable pub serialize_canonical : TrstManifest F64 → Text
      serialize_canonical m =
          str "{\"trst_version\":"
          ++ (json_str m.trst_version
              ++ (str ",\"profile\":"
                  ++ (json_str m.profile
                      ++ push_device m.device (
                          push_metadata m.metadata (
                            push_chunk m.chunk (
                              str ",\"segments\":["
                              ++ push_segments 0 m.segments (
                                  str "],\"claims\":"
                                  ++ (json_list m.claims
                                      ++ push_opt_encryption m.encryption (
                                          push_opt decimal (str ",\"sequence\":") m.sequence (
                                            push_opt json_str (str ",\"prev_archive_hash\":")
                                              m.prev_archive_hash (str "}")))))))))))

      unfoldable pub to_canonical_bytes : TrstManifest F64 → Bytes
      to_canonical_bytes m = serialize_canonical (record m { signature = none })
