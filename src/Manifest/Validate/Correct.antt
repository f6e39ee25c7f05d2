-- ===== src/Manifest/Validate/Correct.antt =====
-- `TrstManifest::validate` against a description of the well-formed manifests, given here on its own.
use sealedge.Base.{
  Bool-cases, Option-cases, sym, ℕ, zero, suc, ◌+◌, ◌≤◌, ◌≡◌, ◌≢◌, refl, ◌↔◌, ◌⊎◌, inl, inr, List,
  [], ◌∷◌, ◌++◌, Text, str, true, false, not, Option, none, some, ◌==◌, bytes_eq, bytes_eq_iff,
  strip_prefix, strip_prefix-some, strip_prefix-append, length, All, Has, ok, err, ◌>>◌, arith,
}
use sealedge.Manifest.{
  Floats, ProfileMetadata, cam_video, sensor, audio, log, generic, SegmentInfo, EncryptionBlock,
  TrstManifest,
}
use sealedge.Manifest.Validate.{
  Checked, require, is_empty, contains, profiles, validate_times, validate_metadata,
  validate_segments, recipients_present, is_ascii_hexdigit, all, prev_well_formed,
  validate_chronicle, epoch_present, validate,
}

module _ (fl : Floats) where
  open fl use {F64, le_zero}

  -- The timestamps and the fields that the variant demands are there.
  abbrev pub MetadataComplete : ProfileMetadata F64 → Type 0
  MetadataComplete (cam_video m) = (m.started_at ≢ []) × (m.ended_at ≢ [])
  MetadataComplete (sensor m) =
      ((m.started_at ≢ []) × (m.ended_at ≢ []))
      × ((le_zero m.sample_rate_hz ≡ false) × ((m.unit ≢ []) × ((m.sensor_model ≢ []))))
  MetadataComplete (audio m) =
      ((m.started_at ≢ []) × (m.ended_at ≢ []))
      × ((m.sample_rate_hz ≢ 0) × ((m.bit_depth ≢ 0) × ((m.channels ≢ 0) × ((m.codec ≢ [])))))
  MetadataComplete (log m) =
      ((m.started_at ≢ []) × (m.ended_at ≢ []))
      × ((m.application ≢ []) × ((m.host ≢ []) × ((m.log_level ≢ []) × ((m.log_format ≢ [])))))
  MetadataComplete (generic m) = (m.started_at ≢ []) × (m.ended_at ≢ [])

  abbrev pub SegmentComplete : SegmentInfo F64 → Type 0
  SegmentComplete s = (s.chunk_file ≢ []) × (s.blake3_hash ≢ []) × (s.continuity_hash ≢ [])

abbrev pub IsHexDigit : ℕ → Type 0
IsHexDigit b = ((48 ≤ b) × (b ≤ 57)) ⊎ ((97 ≤ b) × (b ≤ 102)) ⊎ ((65 ≤ b) × (b ≤ 70))

-- Standalone, genesis, or a successor that names a hash.
abbrev pub IsPosition : Option ℕ → Option Text → Type 0
IsPosition none none = Unit {0}
IsPosition none (some prev) = ⊥
IsPosition (some zero) none = Unit {0}
IsPosition (some zero) (some prev) = ⊥
IsPosition (some (suc n)) none = ⊥
IsPosition (some (suc n)) (some prev) =
    (h : Text) × (prev ≡ str "b3:" ++ h) × (length h ≡ 64) × All IsHexDigit h

abbrev pub HasRecipients : Option EncryptionBlock → Type 0
HasRecipients none = Unit {0}
HasRecipients (some e) = e.recipients ≢ []

module _ (fl : Floats) where
  open fl use {F64}

  abbrev pub IsWellFormed : TrstManifest F64 → Type 0
  IsWellFormed m =
      (m.trst_version ≢ [])
      × (Has m.profile profiles
          × ((m.device.id ≢ [])
              × ((m.device.public_key ≢ [])
                  × (MetadataComplete fl m.metadata
                      × ((m.segments ≢ [])
                          × (All (SegmentComplete fl) m.segments
                              × (HasRecipients m.encryption
                                  × (IsPosition m.sequence m.prev_archive_hash
                                      × ((m.device.key_epoch ≢ some 0))))))))))

-- Two checks pass in a row exactly if each passes.
both :
    {P Q : Type 0} {a b : Checked} → (a ≡ ok tt) ↔ P → (b ≡ ok tt) ↔ Q → (a >> b ≡ ok tt) ↔ (P × Q)
both {a = ok u} p q = (λ e. (p.0 refl, q.0 e), λ h. q.1 h.1)
both {a = err x} p q = (λ e. cc, λ h. absurd (cc (p.1 h.0)))

present {ℓ} :
    {A : Type ℓ} (message : Text) (t : List A)
    → (require (not (is_empty t)) message ≡ ok tt) ↔ (t ≢ [])
present message [] = (λ e. cc, λ n. absurd (n refl))
present message (x ∷ t) = (λ e n. cc, λ n. refl)

positive : (message : Text) (n : ℕ) → (require (not (n == 0)) message ≡ ok tt) ↔ (n ≢ 0)
positive message zero = (λ e. cc, λ n. absurd (n refl))
positive message (suc k) = (λ e n. omega arith, λ n. ground arith)

listed :
    (message : Text) (t : Text) (xs : List Text)
    → (require (contains xs t) message ≡ ok tt) ↔ Has t xs
listed message t [] = (λ e. cc, λ h. absurd h)
listed message t (x ∷ xs) = elim (Bool-cases (bytes_eq x t)) [
  | inl same ↦ rw same (λ e. inl (sym ((bytes_eq_iff x t).0 same)), λ h. refl)
  | inr other ↦ rw other (
    λ e. inr ((listed message t xs).0 e),
    λ h. elim h [
      | inl e ↦ absurd (cc ((bytes_eq_iff x t).1 (sym e)))
      | inr h ↦ (listed message t xs).1 h
    ],
  )
]

hex_digit : (b : ℕ) → (is_ascii_hexdigit b ≡ true) ↔ IsHexDigit b
unfolding is_ascii_hexdigit
hex_digit b = (λ e. ground arith, λ h. ground arith)

hex_digits : (h : Text) → (all is_ascii_hexdigit h ≡ true) ↔ All IsHexDigit h
hex_digits [] = (λ e. tt, λ u. refl)
hex_digits (b ∷ h) =
    (λ e. ground (arith, hex_digit b, hex_digits h), λ k. ground (arith, hex_digit b, hex_digits h))

rate :
    (fl : Floats) (message : Text) (x : fl.F64)
    → (require (not (fl.le_zero x)) message ≡ ok tt) ↔ (fl.le_zero x ≡ false)
rate fl message x = elim (Bool-cases (fl.le_zero x)) [
  | inl zero_or_less ↦ rw zero_or_less (λ e. cc, λ e. cc)
  | inr above ↦ rw above (λ e. refl, λ e. refl)
]

metadata :
    (fl : Floats) (m : ProfileMetadata fl.F64)
    → (validate_metadata fl m ≡ ok tt) ↔ MetadataComplete fl m
unfolding validate_metadata validate_times
metadata fl (cam_video m) = both (present _ m.started_at) (present _ m.ended_at)
metadata fl (sensor m) =
    both (both (present _ m.started_at) (present _ m.ended_at))
      (both (rate fl _ m.sample_rate_hz) (both (present _ m.unit) (present _ m.sensor_model)))
metadata fl (audio m) = both (both (present _ m.started_at) (present _ m.ended_at)) (
    both (positive _ m.sample_rate_hz)
      (both (positive _ m.bit_depth) (both (positive _ m.channels) (present _ m.codec))))
metadata fl (log m) = both (both (present _ m.started_at) (present _ m.ended_at)) (
    both (present _ m.application)
      (both (present _ m.host) (both (present _ m.log_level) (present _ m.log_format))))
metadata fl (generic m) = both (present _ m.started_at) (present _ m.ended_at)

segments_complete :
    (fl : Floats) (i : ℕ) (segments : List (SegmentInfo fl.F64))
    → (validate_segments fl i segments ≡ ok tt) ↔ All (SegmentComplete fl) segments
unfolding validate_segments
segments_complete fl i [] = (λ e. tt, λ u. refl)
segments_complete fl i (s ∷ rest) =
    let each : _ = both (present _ s.chunk_file) (
      both (present _ s.blake3_hash)
        (both (present _ s.continuity_hash) (segments_complete fl (i + 1) rest))) in
    (
      λ e. let (file, (hash, (link, tail))) = each.0 e in ((file, hash, link), tail),
      λ h. each.1 (h.0.0, (h.0.1, (h.0.2, h.1))),
    )

recipients :
    (message : Text) (e : Option EncryptionBlock)
    → (require (recipients_present e) message ≡ ok tt) ↔ HasRecipients e
recipients message none = (λ e. tt, λ u. refl)
recipients message (some e) = present message e.recipients

epoch : (message : Text) (e : Option ℕ) → (require (epoch_present e) message ≡ ok tt) ↔ (e ≢ some 0)
epoch message none = (λ e n. cc, λ n. refl)
epoch message (some zero) = (λ e. cc, λ n. absurd (n refl))
epoch message (some (suc k)) = (λ e n. ground arith, λ n. ground arith)

hash_text :
    (message prev : Text)
    → (require (prev_well_formed prev) message ≡ ok tt) ↔ IsPosition (some 1) (some prev)
unfolding prev_well_formed
hash_text message prev = elim (Option-cases (strip_prefix prev (str "b3:"))) [
  | inl bad ↦ rw bad (
    λ e. cc,
    λ k.
        let (h, shape, size, digits) = k in
        absurd (cc (bad, shape, strip_prefix-append (str "b3:") h)),
  )
  | inr good ↦
      let (h, e) = good in
      rw e (
        λ passed. (
          h,
          strip_prefix-some prev (str "b3:") h e,
          ground (arith, hex_digits h),
          ground (arith, hex_digits h),
        ),
        λ k.
            let (h', shape, size, digits) = k in
            let same : h ≡ h' = cc (e, shape, strip_prefix-append (str "b3:") h') in
            ground (arith, hex_digits h, hex_digits h', same),
      )
]

position :
    (sequence : Option ℕ) (prev : Option Text)
    → (validate_chronicle sequence prev ≡ ok tt) ↔ IsPosition sequence prev
unfolding validate_chronicle
position none none = (λ e. tt, λ u. refl)
position none (some p) = (λ e. cc, λ u. absurd u)
position (some zero) none = (λ e. tt, λ u. refl)
position (some zero) (some p) = (λ e. cc, λ u. absurd u)
position (some (suc n)) none = (λ e. cc, λ u. absurd u)
position (some (suc n)) (some p) = hash_text _ p

module _ (fl : Floats) where
  open fl use {F64}

  -- `validate` accepts a manifest exactly if it is well formed: the texts that must be there are,
  -- the profile is one of the five, a sensor's rate is not `<= 0.0` and the counts of audio are not
  -- 0, there is a segment and each names its file and hashes, an encryption block has a recipient,
  -- sequence and predecessor are those of a standalone archive, of a genesis or of a successor with
  -- a well-formed hash, and the key epoch is not an explicit 0.
  pub validate-IsWellFormed : (m : TrstManifest F64) → (validate fl m ≡ ok tt) ↔ IsWellFormed fl m
  unfolding validate
  validate-IsWellFormed m = both (present _ m.trst_version) (
      both (listed _ m.profile profiles) (
        both (present _ m.device.id) (
          both (present _ m.device.public_key) (
            both (metadata fl m.metadata) (
              both (present _ m.segments) (
                both (segments_complete fl 0 m.segments) (
                  both (recipients _ m.encryption) (
                    both (position m.sequence m.prev_archive_hash)
                      (epoch _ m.device.key_epoch)))))))))
