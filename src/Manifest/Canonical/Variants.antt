-- ===== src/Manifest/Canonical/Variants.antt =====
-- `serialize_canonical`: the variants of the metadata against each other.
use sealedge.Base.{
  ℕ, ◌≡◌, ◌≢◌, refl, ap, sym, ◌∙◌, [], ◌∷◌, inl, Text, str, starts_with, prefix_cut, arith, decimal,
  if◌then◌else◌,
}
use sealedge.Json.{JsonLaws, text_field}
use sealedge.Manifest.{
  Floats, GenericMetadata, SensorMetadata, AudioMetadata, ProfileMetadata, cam_video, sensor, audio,
  log, generic,
}
use sealedge.Manifest.Canonical.{
  push_labels, push_times, push_audio, push_log, push_generic, push_cam_video, push_sensor,
  push_metadata,
}
use sealedge.Manifest.Canonical.Cuts.{FloatLaws, decimal-NoEnd, runs_end, push_opts-keeps, differ}
use sealedge.Manifest.Canonical.Metadata.{
  labels-keeps, generic_cut, audio_cut, log_cut, cam_video_cut, sensor_cut,
}

-- How a variant's text goes on after the times, as a number.
abbrev tag : Text → ℕ
tag t =
    if starts_with t (str ",\"timezone\":")
    then 0
    else if starts_with t (str ",\"sample_rate_hz\":")
    then 1
    else if starts_with t (str ",\"application\":")
    then 2
    else 3

abbrev kind : {F64 : Type 0} → ProfileMetadata F64 → ℕ
kind (cam_video m) = 0
kind (sensor m) = 1
kind (audio m) = 1
kind (log m) = 2
kind (generic m) = 3

abbrev started : {F64 : Type 0} → ProfileMetadata F64 → Text
started (cam_video m) = m.started_at
started (sensor m) = m.started_at
started (audio m) = m.started_at
started (log m) = m.started_at
started (generic m) = m.started_at

abbrev ended : {F64 : Type 0} → ProfileMetadata F64 → Text
ended (cam_video m) = m.ended_at
ended (sensor m) = m.ended_at
ended (audio m) = m.ended_at
ended (log m) = m.ended_at
ended (generic m) = m.ended_at

module _ (json_str : Text → Text) (laws : JsonLaws json_str) where
  times_cut :
      (a b c d r s : Text)
      → push_times json_str a b r ≡ push_times json_str c d s
      → (a ≡ c) × (b ≡ d) × (r ≡ s)
  unfolding push_times
  times_cut a b c d r s e0 =
      let (started, e1) = text_field json_str laws (str ",\"metadata\":{\"started_at\":") e0 in
      let (ended, e2) = text_field json_str laws (str ",\"ended_at\":") e1 in (started, ended, e2)

  generic_tag : (m : GenericMetadata) (r : Text) → tag (push_generic json_str m r) ≡ 3
  unfolding push_generic starts_with
  generic_tag m r =
      push_opts-keeps json_str (λ t. tag t ≡ 3)
        (str ",\"data_type\":"
          ∷ str ",\"source\":"
          ∷ str ",\"description\":"
          ∷ str ",\"mime_type\":"
          ∷ [])
        (m.data_type ∷ m.source ∷ m.description ∷ m.mime_type ∷ [])
        (push_labels json_str m.labels (b'}' ∷ r))
        ((λ t. refl), ((λ t. refl), ((λ t. refl), ((λ t. refl), tt))))
        (labels-keeps json_str laws (λ t. tag t ≡ 3) m.labels r (λ t. refl) refl)

  module _ (fl : Floats) (floats : FloatLaws fl) where
    open fl use {F64, display}

    abbrev body : ProfileMetadata F64 → Text → Text
    body (cam_video m) r = push_cam_video json_str fl m r
    body (sensor m) r = push_sensor json_str fl m r
    body (audio m) r = push_audio json_str m r
    body (log m) r = push_log json_str m r
    body (generic m) r = push_generic json_str m r

    tag-body : (m : ProfileMetadata F64) (r : Text) → tag (body m r) ≡ kind m
    unfolding push_cam_video push_sensor push_audio push_log starts_with
    tag-body (cam_video m) r = refl
    tag-body (sensor m) r = refl
    tag-body (audio m) r = refl
    tag-body (log m) r = refl
    tag-body (generic m) r = generic_tag m r

    push_metadata-times :
        (m : ProfileMetadata F64) (r : Text)
        → push_metadata json_str fl m r ≡ push_times json_str (started m) (ended m) (body m r)
    unfolding push_metadata
    push_metadata-times (cam_video m) r = refl
    push_metadata-times (sensor m) r = refl
    push_metadata-times (audio m) r = refl
    push_metadata-times (log m) r = refl
    push_metadata-times (generic m) r = refl

    -- Two variants of different kinds never have one text.
    mixed : (m n : ProfileMetadata F64) (r s : Text) → kind m ≢ kind n → body m r ≡ body n s → ⊥
    mixed m n r s h e = h (sym (tag-body m r) ∙ ap tag e ∙ tag-body n s)

    -- A sensor goes on with its unit where audio goes on with its bit depth.
    sensor_audio :
        (m : SensorMetadata F64) (n : AudioMetadata) (r s : Text)
        → push_sensor json_str fl m r ≡ push_audio json_str n s
        → ⊥
    unfolding push_sensor push_audio
    sensor_audio m n r s e =
        let (_, e1) =
          runs_end (display m.sample_rate_hz) (decimal n.sample_rate_hz) _ _
            (floats.no_end m.sample_rate_hz) (decimal-NoEnd n.sample_rate_hz) (inl refl) (inl refl)
            (prefix_cut (str ",\"sample_rate_hz\":") _ _ e) in
        differ b'u' b'b' refl (prefix_cut (str ",\"") _ _ e1)

    variant_cut :
        (m n : ProfileMetadata F64) (r s : Text)
        → started m ≡ started n
        → ended m ≡ ended n
        → body m r ≡ body n s
        → (m ≡ n) × (r ≡ s)
    variant_cut (cam_video m) (cam_video n) r s hs he e =
        let (same, rest) = cam_video_cut json_str laws fl floats m n r s e in
        (cc (hs, he, same), rest)
    variant_cut (cam_video m) (sensor n) r s hs he e =
        absurd (mixed (cam_video m) (sensor n) r s (λ k. omega arith) e)
    variant_cut (cam_video m) (audio n) r s hs he e =
        absurd (mixed (cam_video m) (audio n) r s (λ k. omega arith) e)
    variant_cut (cam_video m) (log n) r s hs he e =
        absurd (mixed (cam_video m) (log n) r s (λ k. omega arith) e)
    variant_cut (cam_video m) (generic n) r s hs he e =
        absurd (mixed (cam_video m) (generic n) r s (λ k. omega arith) e)
    variant_cut (sensor m) (cam_video n) r s hs he e =
        absurd (mixed (sensor m) (cam_video n) r s (λ k. omega arith) e)
    variant_cut (sensor m) (sensor n) r s hs he e =
        let (same, rest) = sensor_cut json_str laws fl floats m n r s e in (cc (hs, he, same), rest)
    variant_cut (sensor m) (audio n) r s hs he e = absurd (sensor_audio m n r s e)
    variant_cut (sensor m) (log n) r s hs he e =
        absurd (mixed (sensor m) (log n) r s (λ k. omega arith) e)
    variant_cut (sensor m) (generic n) r s hs he e =
        absurd (mixed (sensor m) (generic n) r s (λ k. omega arith) e)
    variant_cut (audio m) (cam_video n) r s hs he e =
        absurd (mixed (audio m) (cam_video n) r s (λ k. omega arith) e)
    variant_cut (audio m) (sensor n) r s hs he e = absurd (sensor_audio n m s r (sym e))
    variant_cut (audio m) (audio n) r s hs he e =
        let (same, rest) = audio_cut json_str laws m n r s e in (cc (hs, he, same), rest)
    variant_cut (audio m) (log n) r s hs he e =
        absurd (mixed (audio m) (log n) r s (λ k. omega arith) e)
    variant_cut (audio m) (generic n) r s hs he e =
        absurd (mixed (audio m) (generic n) r s (λ k. omega arith) e)
    variant_cut (log m) (cam_video n) r s hs he e =
        absurd (mixed (log m) (cam_video n) r s (λ k. omega arith) e)
    variant_cut (log m) (sensor n) r s hs he e =
        absurd (mixed (log m) (sensor n) r s (λ k. omega arith) e)
    variant_cut (log m) (audio n) r s hs he e =
        absurd (mixed (log m) (audio n) r s (λ k. omega arith) e)
    variant_cut (log m) (log n) r s hs he e =
        let (same, rest) = log_cut json_str laws m n r s e in (cc (hs, he, same), rest)
    variant_cut (log m) (generic n) r s hs he e =
        absurd (mixed (log m) (generic n) r s (λ k. omega arith) e)
    variant_cut (generic m) (cam_video n) r s hs he e =
        absurd (mixed (generic m) (cam_video n) r s (λ k. omega arith) e)
    variant_cut (generic m) (sensor n) r s hs he e =
        absurd (mixed (generic m) (sensor n) r s (λ k. omega arith) e)
    variant_cut (generic m) (audio n) r s hs he e =
        absurd (mixed (generic m) (audio n) r s (λ k. omega arith) e)
    variant_cut (generic m) (log n) r s hs he e =
        absurd (mixed (generic m) (log n) r s (λ k. omega arith) e)
    variant_cut (generic m) (generic n) r s hs he e =
        let (same, rest) = generic_cut json_str laws m n r s e in (cc (hs, he, same), rest)

    pub metadata_cut :
        (m n : ProfileMetadata F64) (r s : Text)
        → push_metadata json_str fl m r ≡ push_metadata json_str fl n s
        → (m ≡ n) × (r ≡ s)
    metadata_cut m n r s e =
        let (hs, he, rest) =
          times_cut (started m) (ended m) (started n) (ended n) (body m r) (body n s)
            (sym (push_metadata-times m r) ∙ e ∙ push_metadata-times n s) in
        variant_cut m n r s hs he rest
