-- ===== src/Manifest/Canonical/Unambiguous.antt =====
-- `to_canonical_bytes` and `archive_digest` of two manifests.
use sealedge.Base.{
  ℕ, ◌≡◌, ◌≢◌, refl, ap, ◌⊎◌, inl, inr, List, Bytes, Text, str, false, Option, none, some, decimal,
  starts_with, starts_with-append, prefix_cut, ok,
}
use sealedge.Json.{JsonLaws, JsonListLaws, text_field}
use sealedge.Chain.{segment_hash}
use sealedge.Chain.Tamper.{Collision, digest-injective}
use sealedge.Chronicle.{archive_digest}
use sealedge.Manifest.{Floats, EncryptionBlock, TrstManifest}
use sealedge.Manifest.Canonical.{
  push_opt, push_encryption, push_opt_encryption, serialize_canonical, to_canonical_bytes,
}
use sealedge.Manifest.Canonical.Cuts.{
  FloatLaws, decimal-Delimited, string-Delimited, After, opt_cut, push_opt-keeps,
}
use sealedge.Manifest.Canonical.Parts.{device_cut, chunk_cut, segments_cut, encryption_cut}
use sealedge.Manifest.Canonical.Variants.{metadata_cut}
use sealedge.Manifest.Validate.{validate}
use sealedge.Manifest.Validate.Correct.{validate-IsWellFormed}

module _ (json_str : Text → Text) (laws : JsonLaws json_str) where
  -- The end of the text: the position in the chronicle.
  abbrev tail : Option ℕ → Option Text → Text
  tail sequence prev =
      push_opt decimal (str ",\"sequence\":") sequence
        (push_opt json_str (str ",\"prev_archive_hash\":") prev (str "}"))

  tail-no_encryption :
      (sequence : Option ℕ) (prev : Option Text)
      → starts_with (tail sequence prev) (str ",\"encryption\":{\"content_aead\":") ≡ false
  unfolding starts_with
  tail-no_encryption sequence prev =
      push_opt-keeps decimal (λ t. starts_with t (str ",\"encryption\":{\"content_aead\":") ≡ false)
        (str ",\"sequence\":") sequence _ (λ t. refl)
        (push_opt-keeps json_str
          (λ t. starts_with t (str ",\"encryption\":{\"content_aead\":") ≡ false)
          (str ",\"prev_archive_hash\":") prev _ (λ t. refl) refl)

  prev-After :
      (prev : Option Text)
      → After
          (str ",\"sequence\":")
          (push_opt json_str (str ",\"prev_archive_hash\":") prev (str "}"))
  unfolding starts_with
  prev-After prev =
      push_opt-keeps json_str (After (str ",\"sequence\":")) (str ",\"prev_archive_hash\":") prev
        (str "}") (λ t. (inl refl, refl)) (inr refl, refl)

  tail_cut : (q r : Option ℕ) (a b : Option Text) → tail q a ≡ tail r b → (q ≡ r) × (a ≡ b)
  unfolding starts_with
  tail_cut q r a b e =
      let (sequence, e1) =
        opt_cut decimal decimal-Delimited (str ",\"sequence\":") q r _ _ (prev-After a)
          (prev-After b) e in
      let (prev, _) =
        opt_cut json_str (string-Delimited json_str laws) (str ",\"prev_archive_hash\":") a b
          (str "}") (str "}") (inr refl, refl) (inr refl, refl) e1 in
      (sequence, prev)

  opt_encryption_cut :
      (x y : Option EncryptionBlock) (r s : Text)
      → starts_with r (str ",\"encryption\":{\"content_aead\":") ≡ false
      → starts_with s (str ",\"encryption\":{\"content_aead\":") ≡ false
      → push_opt_encryption json_str x r ≡ push_opt_encryption json_str y s
      → (x ≡ y) × (r ≡ s)
  unfolding push_encryption
  opt_encryption_cut none none r s hr hs e = (refl, e)
  opt_encryption_cut none (some b) r s hr hs e =
      absurd (cc (hr, e, starts_with-append (str ",\"encryption\":{\"content_aead\":") _))
  opt_encryption_cut (some a) none r s hr hs e =
      absurd (cc (hs, e, starts_with-append (str ",\"encryption\":{\"content_aead\":") _))
  opt_encryption_cut (some a) (some b) r s hr hs e =
      let (same, rest) = encryption_cut json_str laws a b r s e in (ap some same, rest)

  module _ (fl : Floats) (floats : FloatLaws fl) (json_list : List Text → Text)
      (lists : JsonListLaws json_list) where
    open fl use {F64}

    epoch_ne_zero : (m : TrstManifest F64) → validate fl m ≡ ok tt → m.device.key_epoch ≢ some 0
    epoch_ne_zero m v =
        let (_, (_, (_, (_, (_, (_, (_, (_, (_, epoch))))))))) = (validate-IsWellFormed fl m).0 v in
        epoch

    -- Two manifests with the same canonical bytes, neither of which gives its key epoch as an
    -- explicit 0, agree in every field but the signature.
    pub to_canonical_bytes-injective :
        (m n : TrstManifest F64)
        → m.device.key_epoch ≢ some 0
        → n.device.key_epoch ≢ some 0
        → to_canonical_bytes json_str fl json_list m ≡ to_canonical_bytes json_str fl json_list n
        → record m { signature = n.signature } ≡ n
    unfolding to_canonical_bytes serialize_canonical
    to_canonical_bytes-injective m n hm hn e0 =
        let (version, e1) = text_field json_str laws (str "{\"trst_version\":") e0 in
        let (profile, e2) = text_field json_str laws (str ",\"profile\":") e1 in
        let (device, e3) = device_cut json_str laws m.device n.device _ _ hm hn e2 in
        let (metadata, e4) = metadata_cut json_str laws fl floats m.metadata n.metadata _ _ e3 in
        let (chunk, e5) = chunk_cut json_str laws fl floats m.chunk n.chunk _ _ e4 in
        let (segments, e6) =
          segments_cut json_str laws fl floats 0 m.segments n.segments _ _
            (prefix_cut (str ",\"segments\":[") _ _ e5) in
        let (claims, e7) =
          lists.list_cut m.claims n.claims _ _ (prefix_cut (str ",\"claims\":") _ _ e6) in
        let (encryption, e8) =
          opt_encryption_cut m.encryption n.encryption _ _
            (tail-no_encryption m.sequence m.prev_archive_hash)
            (tail-no_encryption n.sequence n.prev_archive_hash) e7 in
        let (sequence, prev) =
          tail_cut m.sequence n.sequence m.prev_archive_hash n.prev_archive_hash e8 in
        cc (version, profile, device, metadata, chunk, segments, claims, encryption, sequence, prev)

    -- Two manifests that `validate` accepts and whose archives have one digest agree in every
    -- field but the signature, or the proof holds a collision of the hash.
    pub archive_digest-injective :
        (blake3 : Bytes → Bytes) (m n : TrstManifest F64)
        → validate fl m ≡ ok tt
        → validate fl n ≡ ok tt
        → archive_digest json_str fl json_list blake3 m
          ≡ archive_digest json_str fl json_list blake3 n
        → (record m { signature = n.signature } ≡ n) ⊎ Collision blake3
    unfolding archive_digest segment_hash
    archive_digest-injective blake3 m n vm vn e = elim (digest-injective blake3 _ _ e) [
      | inl same ↦
          inl (to_canonical_bytes-injective m n (epoch_ne_zero m vm) (epoch_ne_zero n vn) same)
      | inr c ↦ inr c
    ]
