-- ===== src/Manifest/Tests.antt =====
-- A manifest at concrete inputs, over toy literals and numbers in place of floats.
use sealedge.Base.{
  ap, ℕ, ◌≡◌, ◌≢◌, ◌⊎◌, ◌↔◌, refl, str, [], ◌∷◌, ◌==◌, bytes_eq, strip_prefix, replicate, Option,
  none, some, ok, true, decimal, decimal-injective, ◌++◌, ◌>>=◌,
}
use sealedge.Json.Toy.{toy_json, toy_json_laws, toy_list, toy_list_laws}
use sealedge.Crypto.{sign_manifest, verify_manifest}
use sealedge.Crypto.Toy.{toy_crates, toy_laws, fit}
use sealedge.Crypto.Tests.{device, device-IsKeypair}
use sealedge.Chain.Tamper.{Collision}
use sealedge.Chain.{segment_hash}
use sealedge.Chronicle.{archive_digest}
use sealedge.Manifest.{Floats, audio, TrstManifest, set_signature}
use sealedge.Manifest.Canonical.{to_canonical_bytes}
use sealedge.Manifest.Canonical.Cuts.{FloatLaws, decimal-NoEnd}
use sealedge.Manifest.Canonical.Signed.{verify_manifest-set_signature}
use sealedge.Manifest.Canonical.Unambiguous.{archive_digest-injective}
use sealedge.Manifest.Validate.{
  validate, validate_metadata, validate_times, validate_segments, validate_chronicle,
  prev_well_formed, is_ascii_hexdigit,
}
use sealedge.Manifest.Validate.Correct.{IsWellFormed, validate-IsWellFormed}

abbrev pub toy_floats : Floats
toy_floats = record { F64 = ℕ; display = decimal; literal = λ n. n; le_zero = λ n. n == 0 }

toy_float_laws : FloatLaws toy_floats
toy_float_laws = record { no_end = decimal-NoEnd; shows = decimal-injective }

-- A recording of one segment, second in its chronicle.
abbrev pub recording : TrstManifest ℕ
recording = record {
  trst_version = str "0.2.0";
  profile = str "audio";
  device = record {
    id = str "mic-1";
    model = str "TrustEdgeRefAudio";
    firmware_version = str "1.0.0";
    public_key = device.public;
    key_agreement_public = none;
    key_epoch = some 1;
  };
  metadata = audio (record {
    started_at = str "t0";
    ended_at = str "t1";
    sample_rate_hz = 44100;
    bit_depth = 16;
    channels = 2;
    codec = str "pcm";
  });
  chunk = record { size_bytes = 1_048_576; duration_seconds = 2 };
  segments =
      record {
        chunk_file = str "00000.bin";
        blake3_hash = str "aa";
        start_time = str "0";
        duration_seconds = 2;
        continuity_hash = str "bb";
      }
      ∷ [];
  claims = str "location:unknown" ∷ [];
  encryption = none;
  sequence = some 1;
  prev_archive_hash = some (str "b3:" ++ replicate 64 b'a');
  signature = none;
}

abbrev signed_recording : TrstManifest ℕ
signed_recording = set_signature recording (str "ed25519:")

one_ne_zero : ◌≢◌ {A = Option ℕ} (some 1) (some 0)
one_ne_zero e = cc

abbrev refused : TrstManifest ℕ
refused = record recording { sequence = none }

recording-ok : validate toy_floats recording ≡ ok tt
unfolding validate validate_metadata validate_times validate_segments validate_chronicle
    prev_well_formed strip_prefix is_ascii_hexdigit bytes_eq
recording-ok = refl

signed_recording-ok : validate toy_floats signed_recording ≡ ok tt
unfolding set_signature validate
signed_recording-ok = recording-ok

validate-IsWellFormed_example :
    (validate toy_floats refused ≡ ok tt) ↔ IsWellFormed toy_floats refused
validate-IsWellFormed_example = validate-IsWellFormed toy_floats refused

same_bytes :
    to_canonical_bytes toy_json toy_floats toy_list recording
    ≡ to_canonical_bytes toy_json toy_floats toy_list signed_recording
unfolding to_canonical_bytes set_signature
same_bytes = refl

archive_digest-injective_example :
    (record recording { signature = some (str "ed25519:") } ≡ signed_recording) ⊎ Collision (fit 32)
unfolding set_signature archive_digest segment_hash
archive_digest-injective_example =
    archive_digest-injective toy_json toy_json_laws toy_floats toy_float_laws toy_list toy_list_laws
      (fit 32) recording signed_recording recording-ok signed_recording-ok (ap (fit 32) same_bytes)

verify_manifest-set_signature_example :
    (sign_manifest toy_crates device (to_canonical_bytes toy_json toy_floats toy_list recording)
      >>= λ s.
          verify_manifest toy_crates device.public
            (to_canonical_bytes toy_json toy_floats toy_list (set_signature recording s))
            s)
    ≡ ok true
verify_manifest-set_signature_example =
    verify_manifest-set_signature toy_json toy_floats toy_list toy_crates toy_laws device recording
      device-IsKeypair
