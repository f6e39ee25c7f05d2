-- ===== src/Chronicle/Unambiguous.antt =====
-- crates/core/src/chronicle.rs: the canonical bytes of rotation records and witness requests, taken
-- apart field by field.
use sealedge.Base.{Bytes, Text, str, ◌≡◌, ◌⊎◌, inl, inr, arith, IsDigit}
use sealedge.Json.{JsonLaws, text_field, number_field}
use sealedge.Chain.{segment_hash}
use sealedge.Chain.Tamper.{Collision, digest-injective}
use sealedge.Chronicle.{
  RotationRecord, WitnessRequest, rotation_signing_bytes, rotation_digest, request_signing_bytes,
}

comma_ends : IsDigit b',' → ⊥
comma_ends h = omega arith

brace_ends : IsDigit b'}' → ⊥
brace_ends h = omega arith

module _ (json_str : Text → Text) (laws : JsonLaws json_str) where
  -- Two rotation records with the same canonical bytes agree in every field but the signatures.
  pub rotation_signing_bytes-injective :
      (r q : RotationRecord)
      → rotation_signing_bytes json_str r ≡ rotation_signing_bytes json_str q
      → record r { sig_old = q.sig_old; sig_new = q.sig_new } ≡ q
  unfolding rotation_signing_bytes
  rotation_signing_bytes-injective r q e0 =
      let (version, e1) = text_field json_str laws (str "{\"trst_version\":") e0 in
      let (kind, e2) = text_field json_str laws (str ",\"kind\":") e1 in
      let (sequence, e3) = number_field (str ",\"sequence\":") b',' b',' comma_ends comma_ends e2 in
      let (prev, e4) = text_field json_str laws (str ",\"prev_archive_hash\":") e3 in
      let (old_key, e5) = text_field json_str laws (str ",\"old\":{\"public_key\":") e4 in
      let (old_epoch, e6) =
        number_field (str ",\"key_epoch\":") b'}' b'}' brace_ends brace_ends e5 in
      let (new_key, e7) = text_field json_str laws (str "},\"new\":{\"public_key\":") e6 in
      let (agreement, e8) = text_field json_str laws (str ",\"key_agreement_public\":") e7 in
      let (new_epoch, e9) =
        number_field (str ",\"key_epoch\":") b'}' b'}' brace_ends brace_ends e8 in
      let (rotated, _) = text_field json_str laws (str "},\"rotated_at\":") e9 in
      cc (version, kind, sequence, prev, old_key, old_epoch, new_key, agreement, new_epoch, rotated)

  -- Two rotation records with one chronicle id agree in every field but the signatures, or the
  -- proof holds a collision of the hash.
  pub rotation_digest-injective :
      (blake3 : Bytes → Bytes) (r q : RotationRecord)
      → rotation_digest json_str blake3 r ≡ rotation_digest json_str blake3 q
      → (record r { sig_old = q.sig_old; sig_new = q.sig_new } ≡ q) ⊎ Collision blake3
  unfolding rotation_digest segment_hash
  rotation_digest-injective blake3 r q e = elim (digest-injective blake3 _ _ e) [
    | inl same ↦ inl (rotation_signing_bytes-injective r q same)
    | inr c ↦ inr c
  ]

  -- Two witness requests with the same signed bytes agree in key, sequence, tip and time: all but
  -- the signature and the attached rotation.
  pub request_signing_bytes-injective :
      (r q : WitnessRequest)
      → request_signing_bytes json_str r ≡ request_signing_bytes json_str q
      → record r { signature = q.signature; rotation = q.rotation } ≡ q
  unfolding request_signing_bytes
  request_signing_bytes-injective r q e0 =
      let (key, e1) = text_field json_str laws (str "{\"device_pub\":") e0 in
      let (sequence, e2) = number_field (str ",\"sequence\":") b',' b',' comma_ends comma_ends e1 in
      let (tip, e3) = text_field json_str laws (str ",\"tip\":") e2 in
      let (signed, _) = text_field json_str laws (str ",\"signed_at\":") e3 in
      cc (key, sequence, tip, signed)
