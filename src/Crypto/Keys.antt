-- ===== src/Crypto/Keys.antt =====
-- crates/core/src/crypto.rs: the text forms of keys, signatures and nonces, written and read.
use sealedge.Base.{
  Bytes, Text, true, ◌++◌, ◌≡◌, length, ok, starts_with-append, strip_prefix-append, drop-append,
  arith, ◌>>=◌,
}
use sealedge.Crypto.{
  Crates, CratesLaws, DeviceKeypair, ed25519_prefix, xchacha20_prefix, export_secret, import_secret,
  from_public, sign_manifest, verify_manifest, format_nonce, parse_nonce,
}

-- The invariant of a keypair: the public text belongs to the 32-byte secret.
pub record IsKeypair (c : Crates) (kp : DeviceKeypair) : Type 0 where
  pub size : length kp.secret ≡ 32
  pub derived : kp.public ≡ ed25519_prefix ++ c.base64_encode (c.ed25519_public kp.secret)

module _ (c : Crates) where
  -- Whatever `import_secret` accepts is a keypair: a 32-byte secret with its own public key.
  pub import_secret-IsKeypair :
      (s : Text) (kp : DeviceKeypair) → import_secret c s ≡ ok kp → IsKeypair c kp
  unfolding import_secret
  import_secret-IsKeypair s kp h = record { size = ground arith; derived = ground arith }

  module _ (laws : CratesLaws c) where
    -- Exporting a keypair's secret and importing the text gives the keypair back.
    pub import_secret-export_secret :
        (kp : DeviceKeypair) → IsKeypair c kp → import_secret c (export_secret c kp) ≡ ok kp
    unfolding import_secret export_secret
    import_secret-export_secret kp k = ground (
      arith,
      strip_prefix-append ed25519_prefix (c.base64_encode kp.secret),
      laws.decode-encode kp.secret,
    )

    pub from_public-keypair :
        (kp : DeviceKeypair)
        → IsKeypair c kp
        → from_public c kp.public ≡ ok (c.ed25519_public kp.secret)
    unfolding from_public
    from_public-keypair kp k =
        let text = c.base64_encode (c.ed25519_public kp.secret) in
        ground (
          arith,
          starts_with-append ed25519_prefix text,
          drop-append ed25519_prefix text,
          laws.decode-encode (c.ed25519_public kp.secret),
          laws.length-public kp.secret,
          laws.key-public kp.secret,
        )

    -- What a keypair signs verifies under its public text.
    pub verify_manifest-sign_manifest :
        (kp : DeviceKeypair) (message : Bytes)
        → IsKeypair c kp
        → (sign_manifest c kp message >>= λ s. verify_manifest c kp.public message s) ≡ ok true
    unfolding sign_manifest verify_manifest
    verify_manifest-sign_manifest kp message k =
        let signature = c.ed25519_sign kp.secret message in
        ground (
          arith,
          strip_prefix-append ed25519_prefix (c.base64_encode signature),
          from_public-keypair kp k,
          laws.decode-encode signature,
          laws.length-sign kp.secret message,
          laws.verify-sign kp.secret message,
        )

    -- A 24-byte nonce reads back from its text.
    pub parse_nonce-format_nonce :
        (nonce : Bytes) → length nonce ≡ 24 → parse_nonce c (format_nonce c nonce) ≡ ok nonce
    unfolding parse_nonce format_nonce
    parse_nonce-format_nonce nonce h = ground (
      arith,
      starts_with-append xchacha20_prefix (c.base64_encode nonce),
      drop-append xchacha20_prefix (c.base64_encode nonce),
      laws.decode-encode nonce,
    )
