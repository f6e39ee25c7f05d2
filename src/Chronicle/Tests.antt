-- ===== src/Chronicle/Tests.antt =====
-- Rotations and witness requests at concrete inputs, over the toy crates and string literals.
use sealedge.Base.{
  ◌↔◌, ◌≡◌, ◌⊎◌, refl, arith, Bytes, str, ◌++◌, [], replicate, none, ok, true, ltb, ◌+◌, ◌^◌, ◌>>=◌,
}
use sealedge.Json.Toy.{toy_json, toy_json_laws}
use sealedge.Crypto.{sign_manifest}
use sealedge.Crypto.Toy.{toy_crates, toy_laws, fit}
use sealedge.Crypto.Tests.{device, successor, device-IsKeypair, successor-IsKeypair}
use sealedge.Chain.Tamper.{Collision}
use sealedge.Chronicle.{
  RotationRecord, DeviceBundle, WitnessRequest, rotation_kind, rotation_signing_bytes,
  rotation_digest, create_signed_rotation, unsigned_rotation, public_string, verify_rotation,
  create_signed_request, verify_request, request_signing_bytes,
}
use sealedge.Chronicle.Rotation.{
  IsAuthorized, verify_rotation_iff, verify_rotation-create_signed_rotation,
  verify_request-create_signed_request,
}
use sealedge.Chronicle.Unambiguous.{rotation_digest-injective, request_signing_bytes-injective}

abbrev pub toy_hash : Bytes → Bytes
toy_hash = fit 32

abbrev pub bundle : DeviceBundle
bundle = record {
  signing = successor;
  key_agreement = record { secret = replicate 32 4; public = replicate 32 5 };
}

abbrev unsigned : RotationRecord
unsigned = record {
  trst_version = str "0.2.0";
  kind = rotation_kind;
  sequence = 3;
  prev_archive_hash = str "b3:00";
  old = record { public_key = device.public; key_epoch = 0 };
  new = record {
    public_key = successor.public;
    key_agreement_public = str "x25519:" ++ replicate 32 5;
    key_epoch = 1;
  };
  rotated_at = str "2026-01-01T00:00:00Z";
  sig_old = [];
  sig_new = [];
}

abbrev pub rotation : RotationRecord
rotation = record unsigned {
  sig_old =
      str "ed25519:" ++ fit 64 (fit 32 device.secret ++ rotation_signing_bytes toy_json unsigned);
  sig_new =
      str "ed25519:"
      ++ fit 64 (fit 32 successor.secret ++ rotation_signing_bytes toy_json unsigned);
}

rotation-created :
    create_signed_rotation toy_json toy_crates device 0 bundle 3
      (str "b3:00")
      (str "2026-01-01T00:00:00Z")
    ≡ ok rotation
unfolding create_signed_rotation unsigned_rotation sign_manifest public_string
rotation-created = refl

pub rotation-ok : verify_rotation toy_json toy_crates rotation ≡ true
rotation-ok = ground (
  arith,
  rotation-created,
  verify_rotation-create_signed_rotation toy_json toy_crates toy_laws device 0 bundle 3
      (str "b3:00") (str "2026-01-01T00:00:00Z") device-IsKeypair successor-IsKeypair (omega arith),
)

abbrev resigned : RotationRecord
resigned = record rotation { sig_old = []; sig_new = [] }

verify_rotation_iff_example :
    (verify_rotation toy_json toy_crates rotation ≡ true)
    ↔ IsAuthorized toy_json toy_crates rotation
verify_rotation_iff_example = verify_rotation_iff toy_json toy_crates rotation

-- The last epoch of 32 bits has no successor.
verify_rotation-create_signed_rotation_example :
    (create_signed_rotation toy_json toy_crates device 4294967295 bundle 3 (str "b3:00") (str "now")
      >>= λ r. ok (verify_rotation toy_json toy_crates r))
    ≡ ok (ltb (4294967295 + 1) (2 ^ 32))
verify_rotation-create_signed_rotation_example =
    verify_rotation-create_signed_rotation toy_json toy_crates toy_laws device 4294967295 bundle 3
      (str "b3:00") (str "now") device-IsKeypair successor-IsKeypair (omega arith)

verify_request-create_signed_request_example :
    (create_signed_request toy_json toy_crates device 3 (str "b3:00") (str "now") >>= λ r.
    ok (verify_request toy_json toy_crates r))
    ≡ ok true
verify_request-create_signed_request_example =
    verify_request-create_signed_request toy_json toy_crates toy_laws device 3 (str "b3:00")
      (str "now") device-IsKeypair

same_bytes : rotation_signing_bytes toy_json rotation ≡ rotation_signing_bytes toy_json resigned
unfolding rotation_signing_bytes
same_bytes = refl

same_digest :
    rotation_digest toy_json toy_hash rotation ≡ rotation_digest toy_json toy_hash resigned
unfolding rotation_digest rotation_signing_bytes
same_digest = refl

rotation_digest-injective_example :
    (record rotation { sig_old = []; sig_new = [] } ≡ resigned) ⊎ Collision toy_hash
rotation_digest-injective_example =
    rotation_digest-injective toy_json toy_json_laws toy_hash rotation resigned same_digest

abbrev pub request : WitnessRequest
request = record {
  device_pub = device.public;
  sequence = 3;
  tip = str "b3:00";
  signed_at = str "now";
  signature = [];
  rotation = none;
}

abbrev signed_request : WitnessRequest
signed_request = record request { signature = str "ed25519:" }

same_request_bytes :
    request_signing_bytes toy_json request ≡ request_signing_bytes toy_json signed_request
unfolding request_signing_bytes
same_request_bytes = refl

request_signing_bytes-injective_example :
    record request { signature = str "ed25519:"; rotation = none } ≡ signed_request
request_signing_bytes-injective_example =
    request_signing_bytes-injective toy_json toy_json_laws request signed_request same_request_bytes
