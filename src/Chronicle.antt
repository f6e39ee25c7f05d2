-- ===== src/Chronicle.antt =====
-- crates/core/src/chronicle.rs: rotation records and witness requests of a device chronicle, their
-- canonical bytes, and their signatures. Machine integers wrap as in a release build.
pub mod Rotation
pub mod Unambiguous
pub mod Tests
use sealedge.Base.{
  ℕ, ◌+◌, ◌%◌, ◌^◌, Bytes, Text, str, Bool, true, false, Option, none, some, List, [], ◌∷◌, ◌++◌,
  Result, ok, err, bytes_eq, decimal, ltb, ◌==◌, not, if◌then◌else◌, ◌>>=◌, ◌&&◌,
}
use sealedge.Crypto.{Crates, CryptoError, DeviceKeypair, sign_manifest, verify_manifest}
use sealedge.Chain.{segment_hash}
use sealedge.Manifest.{Floats, TrstManifest}
use sealedge.Manifest.Canonical.{to_canonical_bytes}

-- The `Result` of `to_canonical_bytes` is left out: `serde_json` does not fail on strings.
unfoldable pub archive_digest :
    (Text → Text)
    → (fl : Floats) → (List Text → Text)
    → (Bytes → Bytes)
    → TrstManifest fl.F64
    → Bytes
archive_digest json_str fl json_list blake3 manifest =
    segment_hash blake3 (to_canonical_bytes json_str fl json_list manifest)

-- `format!("b3:{}", hex::encode(digest))`
unfoldable pub format_archive_id : (Bytes → Text) → Bytes → Text
format_archive_id hex digest = str "b3:" ++ hex digest

pub record RotationOld : Type 0 where
  pub public_key : Text
  pub key_epoch : ℕ

pub record RotationNew : Type 0 where
  pub public_key : Text
  pub key_agreement_public : Text
  pub key_epoch : ℕ

pub record RotationRecord : Type 0 where
  pub trst_version : Text
  pub kind : Text
  pub sequence : ℕ
  pub prev_archive_hash : Text
  pub old : RotationOld
  pub new : RotationNew
  pub rotated_at : Text
  pub sig_old : Text
  pub sig_new : Text

abbrev pub rotation_kind : Text
rotation_kind = str "rotation"

-- keywrap.rs: the X25519 pair of a device, and the bundle of both pairs.
pub record KeyAgreementKeypair : Type 0 where
  pub secret : Bytes
  pub public : Bytes

pub record DeviceBundle : Type 0 where
  pub signing : DeviceKeypair
  pub key_agreement : KeyAgreementKeypair

unfoldable pub public_string : Crates → KeyAgreementKeypair → Text
public_string c kp = str "x25519:" ++ c.base64_encode kp.public

-- `unwrap_or(false)`
abbrev pub or_false : Result CryptoError Bool → Bool
or_false (ok b) = b
or_false (err e) = false

-- `u32::checked_add(1)`
unfoldable pub checked_add_one : ℕ → Option ℕ
checked_add_one n = if ltb (n + 1) (2 ^ 32) then some (n + 1) else none

-- `a == Some(b)`
abbrev pub is_some_eq : Option ℕ → ℕ → Bool
is_some_eq none b = false
is_some_eq (some a) b = a == b

module _ (json_str : Text → Text) where
  unfoldable pub rotation_signing_bytes : RotationRecord → Bytes
  rotation_signing_bytes r =
      str "{\"trst_version\":"
      ++ (json_str r.trst_version
          ++ (str ",\"kind\":"
              ++ (json_str r.kind
                  ++ (str ",\"sequence\":"
                      ++ (decimal r.sequence
                          ++ (str ",\"prev_archive_hash\":"
                              ++ (json_str r.prev_archive_hash
                                  ++ (str ",\"old\":{\"public_key\":"
                                      ++ (json_str r.old.public_key
                                          ++ (str ",\"key_epoch\":"
                                              ++ (decimal r.old.key_epoch
                                                  ++ (str "},\"new\":{\"public_key\":"
                                                      ++ (json_str r.new.public_key
                                                          ++ (str ",\"key_agreement_public\":"
                                                            ++ (json_str r.new.key_agreement_public
                                                            ++ (str ",\"key_epoch\":"
                                                            ++ (decimal r.new.key_epoch
                                                            ++ (str "},\"rotated_at\":"
                                                            ++ (json_str r.rotated_at
                                                            ++ str "}")))))))))))))))))))

  unfoldable pub rotation_digest : (Bytes → Bytes) → RotationRecord → Bytes
  rotation_digest blake3 r = segment_hash blake3 (rotation_signing_bytes r)

  module _ (c : Crates) where
    unsigned_rotation : DeviceKeypair → ℕ → DeviceBundle → ℕ → Text → Text → RotationRecord
    unsigned_rotation old_signing old_epoch new_bundle sequence prev_archive_hash rotated_at =
        record {
          trst_version = str "0.2.0";
          kind = rotation_kind;
          sequence = sequence;
          prev_archive_hash = prev_archive_hash;
          old = record { public_key = old_signing.public; key_epoch = old_epoch };
          new = record {
            public_key = new_bundle.signing.public;
            key_agreement_public = public_string c new_bundle.key_agreement;
            key_epoch = (old_epoch + 1) % 2 ^ 32;
          };
          rotated_at = rotated_at;
          sig_old = [];
          sig_new = [];
        }

    unfoldable pub create_signed_rotation :
        DeviceKeypair → ℕ → DeviceBundle → ℕ → Text → Text → Result CryptoError RotationRecord
    unfolding unsigned_rotation
    create_signed_rotation old_signing old_epoch new_bundle sequence prev_archive_hash rotated_at =
        let rec =
          unsigned_rotation old_signing old_epoch new_bundle sequence prev_archive_hash
            rotated_at in
        do
          sig_old ← sign_manifest c old_signing (rotation_signing_bytes rec)
          sig_new ← sign_manifest c new_bundle.signing (rotation_signing_bytes rec)
          ok (record rec { sig_old = sig_old; sig_new = sig_new })

    unfoldable pub verify_rotation : RotationRecord → Bool
    verify_rotation r =
        if not (bytes_eq r.kind rotation_kind)
        then false
        else if not (is_some_eq (checked_add_one r.old.key_epoch) r.new.key_epoch)
        then false
        else or_false (verify_manifest c r.old.public_key (rotation_signing_bytes r) r.sig_old)
          && or_false (verify_manifest c r.new.public_key (rotation_signing_bytes r) r.sig_new)

pub record WitnessRequest : Type 0 where
  pub device_pub : Text
  pub sequence : ℕ
  pub tip : Text
  pub signed_at : Text
  pub signature : Text
  pub rotation : Option RotationRecord

module _ (json_str : Text → Text) where
  unfoldable pub request_signing_bytes : WitnessRequest → Bytes
  request_signing_bytes r =
      str "{\"device_pub\":"
      ++ (json_str r.device_pub
          ++ (str ",\"sequence\":"
              ++ (decimal r.sequence
                  ++ (str ",\"tip\":"
                      ++ (json_str r.tip
                          ++ (str ",\"signed_at\":" ++ (json_str r.signed_at ++ str "}")))))))

  module _ (c : Crates) where
    unfoldable pub create_signed_request :
        DeviceKeypair → ℕ → Text → Text → Result CryptoError WitnessRequest
    create_signed_request signing sequence tip signed_at =
        let req : WitnessRequest = record {
          device_pub = signing.public;
          sequence = sequence;
          tip = tip;
          signed_at = signed_at;
          signature = [];
          rotation = none;
        } in
        do
          signature ← sign_manifest c signing (request_signing_bytes req)
          ok (record req { signature = signature })

    unfoldable pub verify_request : WitnessRequest → Bool
    verify_request r =
        or_false (verify_manifest c r.device_pub (request_signing_bytes r) r.signature)
