-- ===== src/Chronicle/Rotation.antt =====
-- crates/core/src/chronicle.rs: `create_signed_rotation`, `verify_rotation`,
-- `create_signed_request` and `verify_request` against each other.
use sealedge.Base.{
  ◌↔◌, ℕ, ◌+◌, ◌^◌, ◌<◌, Bytes, Text, Bool, true, none, ◌≡◌, refl, Result, ok, err, bytes_eq_iff,
  bytes_eq_refl, arith, ltb, ◌>>=◌, ap, ◌++◌, [],
}
use sealedge.Crypto.{
  Crates, CratesLaws, CryptoError, DeviceKeypair, ed25519_prefix, sign_manifest, verify_manifest,
}
use sealedge.Crypto.Keys.{IsKeypair, verify_manifest-sign_manifest}
use sealedge.Chronicle.{
  RotationRecord, DeviceBundle, rotation_kind, rotation_signing_bytes, create_signed_rotation,
  unsigned_rotation, verify_rotation, create_signed_request, verify_request, or_false,
  checked_add_one, request_signing_bytes,
}

-- What a verified rotation is known to be.
pub record IsAuthorized (json_str : Text → Text) (c : Crates) (r : RotationRecord) : Type 0 where
  pub kind : r.kind ≡ rotation_kind
  pub next_epoch : r.new.key_epoch ≡ r.old.key_epoch + 1
  pub in_range : r.new.key_epoch < 2 ^ 32
  pub by_old :
      verify_manifest c r.old.public_key (rotation_signing_bytes json_str r) r.sig_old ≡ ok true
  pub by_new :
      verify_manifest c r.new.public_key (rotation_signing_bytes json_str r) r.sig_new ≡ ok true

or_false-true : (r : Result CryptoError Bool) → or_false r ≡ true → r ≡ ok true
or_false-true (ok b) h = ap ok h
or_false-true (err e) h = cc

signing_bytes_unsigned :
    (json_str : Text → Text) (r : RotationRecord) (a b : Text)
    → rotation_signing_bytes json_str (record r { sig_old = a; sig_new = b })
      ≡ rotation_signing_bytes json_str r
unfolding rotation_signing_bytes
signing_bytes_unsigned json_str r a b = refl

module _ (json_str : Text → Text) (c : Crates) where
  pub verify_rotation-IsAuthorized :
      (r : RotationRecord) → verify_rotation json_str c r ≡ true → IsAuthorized json_str c r
  unfolding verify_rotation checked_add_one
  verify_rotation-IsAuthorized r h =
      let by_old =
        verify_manifest c r.old.public_key (rotation_signing_bytes json_str r) r.sig_old in
      let by_new =
        verify_manifest c r.new.public_key (rotation_signing_bytes json_str r) r.sig_new in
      record {
        kind = (bytes_eq_iff r.kind rotation_kind).0 (ground arith);
        next_epoch = ground arith;
        in_range = ground arith;
        by_old = or_false-true by_old (ground arith);
        by_new = or_false-true by_new (ground arith);
      }

  IsAuthorized-verify_rotation :
      (r : RotationRecord) → IsAuthorized json_str c r → verify_rotation json_str c r ≡ true
  unfolding verify_rotation checked_add_one
  IsAuthorized-verify_rotation r a = ground (arith, bytes_eq_iff r.kind rotation_kind)

  -- A rotation verifies exactly when its kind is "rotation", its epoch is one above the old one and
  -- fits 32 bits, and both the old and the new key signed its canonical bytes.
  pub verify_rotation_iff :
      (r : RotationRecord) → (verify_rotation json_str c r ≡ true) ↔ IsAuthorized json_str c r
  verify_rotation_iff r = (verify_rotation-IsAuthorized r, IsAuthorized-verify_rotation r)

  module _ (laws : CratesLaws c) where
    -- A keypair's signature, in the text form that `sign_manifest` gives it.
    abbrev signature_of : DeviceKeypair → Bytes → Text
    signature_of kp message = ed25519_prefix ++ c.base64_encode (c.ed25519_sign kp.secret message)

    signature_verifies :
        (kp : DeviceKeypair) (message : Bytes)
        → IsKeypair c kp
        → verify_manifest c kp.public message (signature_of kp message) ≡ ok true
    signature_verifies kp message k =
        unfold sign_manifest in verify_manifest-sign_manifest c laws kp message k

    -- A rotation from one keypair to another is always created, and it verifies exactly when the
    -- new epoch fits 32 bits: the epoch that wraps to 0 is refused.
    pub verify_rotation-create_signed_rotation :
        (old_signing : DeviceKeypair) (old_epoch : ℕ) (new_bundle : DeviceBundle) (sequence : ℕ)
        (prev_archive_hash rotated_at : Text)
        → IsKeypair c old_signing
        → IsKeypair c new_bundle.signing
        → old_epoch < 2 ^ 32
        → (create_signed_rotation json_str c old_signing old_epoch new_bundle sequence
              prev_archive_hash rotated_at
            >>= λ r. ok (verify_rotation json_str c r))
          ≡ ok (ltb (old_epoch + 1) (2 ^ 32))
    unfolding create_signed_rotation sign_manifest verify_rotation checked_add_one
    verify_rotation-create_signed_rotation old_signing old_epoch new_bundle sequence prev rotated_at
          ko kn fits =
        let rec =
          unsigned_rotation json_str c old_signing old_epoch new_bundle sequence prev rotated_at in
        let bytes = rotation_signing_bytes json_str rec in
        let sig_old = signature_of old_signing bytes in
        let sig_new = signature_of new_bundle.signing bytes in
        ground (
          arith,
          bytes_eq_refl rotation_kind,
          signing_bytes_unsigned json_str rec sig_old sig_new,
          signature_verifies old_signing bytes ko,
          signature_verifies new_bundle.signing bytes kn,
        )

    -- A witness request that a keypair makes is always created, and verifies under its own key.
    pub verify_request-create_signed_request :
        (signing : DeviceKeypair) (sequence : ℕ) (tip signed_at : Text)
        → IsKeypair c signing
        → (create_signed_request json_str c signing sequence tip signed_at >>= λ r.
            ok (verify_request json_str c r))
          ≡ ok true
    unfolding create_signed_request sign_manifest verify_request request_signing_bytes
    verify_request-create_signed_request signing sequence tip signed_at k = ground (
      arith,
      signature_verifies signing
          (request_signing_bytes json_str (record {
            device_pub = signing.public;
            sequence = sequence;
            tip = tip;
            signed_at = signed_at;
            signature = [];
            rotation = none;
          }))
          k,
    )
