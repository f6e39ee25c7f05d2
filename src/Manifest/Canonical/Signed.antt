-- ===== src/Manifest/Canonical/Signed.antt =====
-- `to_canonical_bytes` with `set_signature`, `sign_manifest` and `verify_manifest`.
use sealedge.Base.{◌≡◌, List, Text, ok, true, ◌>>=◌}
use sealedge.Crypto.{Crates, CratesLaws, DeviceKeypair, sign_manifest, verify_manifest}
use sealedge.Crypto.Keys.{IsKeypair, verify_manifest-sign_manifest}
use sealedge.Manifest.{Floats, TrstManifest, set_signature}
use sealedge.Manifest.Canonical.{to_canonical_bytes}

module _ (json_str : Text → Text) (fl : Floats) (json_list : List Text → Text) where
  open fl use {F64}

  -- A manifest signed by a keypair over its canonical bytes still has the bytes that were signed
  -- once it carries the signature: the signature verifies over the bytes of the signed manifest.
  pub verify_manifest-set_signature :
      (c : Crates)
      → CratesLaws c
      → (kp : DeviceKeypair) (m : TrstManifest F64) → IsKeypair c kp
      → (sign_manifest c kp (to_canonical_bytes json_str fl json_list m) >>= λ s.
          verify_manifest c kp.public
            (to_canonical_bytes json_str fl json_list (set_signature m s))
            s)
        ≡ ok true
  unfolding to_canonical_bytes set_signature
  verify_manifest-set_signature c laws kp m k =
      verify_manifest-sign_manifest c laws kp (to_canonical_bytes json_str fl json_list m) k
