-- ===== src/Manifest/Canonical/Metadata.antt =====
-- `serialize_canonical`: the texts of the five variants of the metadata, taken apart.
use sealedge.Base.{◌≡◌, refl, [], ◌∷◌, ◌++◌, inl, inr, Text, str, starts_with}
use sealedge.Json.{JsonLaws, text_field}
use sealedge.Manifest.{
  Floats, Labels, GenericMetadata, CamVideoMetadata, SensorMetadata, AudioMetadata, LogMetadata,
}
use sealedge.Manifest.Canonical.{
  push_labels, push_audio, push_log, push_generic, push_cam_video, push_sensor,
}
use sealedge.Manifest.Canonical.Cuts.{
  FloatLaws, decimal-Delimited, display-Delimited, string-Delimited, After, opts_cut, byte_cut,
}
use sealedge.Manifest.Canonical.Parts.{labels_cut, value_field}

module _ (json_str : Text → Text) (laws : JsonLaws json_str) where
  pub labels-keeps :
      (P : Text → Type 0) (labels : Labels) (r : Text)
      → ((t : Text) → P (str ",\"labels\":{" ++ t))
      → P (b'}' ∷ r)
      → P (push_labels json_str labels (b'}' ∷ r))
  unfolding push_labels
  labels-keeps P [] r hl hr = hr
  labels-keeps P (l ∷ labels) r hl hr = hl _

  push_labels-After :
      (key : Text)
      → ((t : Text) → After key (str ",\"labels\":{" ++ t))
      → ((t : Text) → After key (b'}' ∷ t))
      → (a b : Labels) (r s : Text)
      → After key (push_labels json_str a (b'}' ∷ r))
        × After key (push_labels json_str b (b'}' ∷ s))
  push_labels-After key hl hb a b r s =
      (labels-keeps (After key) a r hl (hb r), labels-keeps (After key) b s hl (hb s))

  pub generic_cut :
      (a b : GenericMetadata) (r s : Text)
      → push_generic json_str a r ≡ push_generic json_str b s
      → (record a { started_at = b.started_at; ended_at = b.ended_at } ≡ b) × (r ≡ s)
  unfolding push_generic starts_with
  generic_cut a b r s e0 =
      let (values, e1) =
        opts_cut json_str (string-Delimited json_str laws)
          (str ",\"data_type\":"
            ∷ str ",\"source\":"
            ∷ str ",\"description\":"
            ∷ str ",\"mime_type\":"
            ∷ [])
          (a.data_type ∷ a.source ∷ a.description ∷ a.mime_type ∷ [])
          (b.data_type ∷ b.source ∷ b.description ∷ b.mime_type ∷ [])
          (push_labels json_str a.labels (b'}' ∷ r)) (push_labels json_str b.labels (b'}' ∷ s)) refl
          refl
          (
            ((λ t. (inl refl, refl)), ((λ t. (inl refl, refl)), ((λ t. (inl refl, refl)), tt))),
            (
              ((λ t. (inl refl, refl)), ((λ t. (inl refl, refl)), tt)),
              (((λ t. (inl refl, refl)), tt), (tt, tt)),
            ),
          )
          (
            push_labels-After (str ",\"data_type\":") (λ t. (inl refl, refl))
                (λ t. (inr refl, refl)) a.labels b.labels r s,
            (
              push_labels-After (str ",\"source\":") (λ t. (inl refl, refl)) (λ t. (inr refl, refl))
                  a.labels b.labels r s,
              (
                push_labels-After (str ",\"description\":") (λ t. (inl refl, refl))
                    (λ t. (inr refl, refl)) a.labels b.labels r s,
                (
                  push_labels-After (str ",\"mime_type\":") (λ t. (inl refl, refl))
                      (λ t. (inr refl, refl)) a.labels b.labels r s,
                  tt,
                ),
              ),
            ),
          )
          e0 in
      let (labels, rest) = labels_cut json_str laws a.labels b.labels r s e1 in
      (cc (values, labels), rest)

  pub audio_cut :
      (a b : AudioMetadata) (r s : Text)
      → push_audio json_str a r ≡ push_audio json_str b s
      → (record a { started_at = b.started_at; ended_at = b.ended_at } ≡ b) × (r ≡ s)
  unfolding push_audio
  audio_cut a b r s e0 =
      let (rate, e1) =
        value_field decimal-Delimited (str ",\"sample_rate_hz\":") (inl refl) (inl refl) e0 in
      let (depth, e2) =
        value_field decimal-Delimited (str ",\"bit_depth\":") (inl refl) (inl refl) e1 in
      let (channels, e3) =
        value_field decimal-Delimited (str ",\"channels\":") (inl refl) (inl refl) e2 in
      let (codec, e4) = text_field json_str laws (str ",\"codec\":") e3 in
      (cc (rate, depth, channels, codec), byte_cut b'}' e4)

  pub log_cut :
      (a b : LogMetadata) (r s : Text)
      → push_log json_str a r ≡ push_log json_str b s
      → (record a { started_at = b.started_at; ended_at = b.ended_at } ≡ b) × (r ≡ s)
  unfolding push_log
  log_cut a b r s e0 =
      let (application, e1) = text_field json_str laws (str ",\"application\":") e0 in
      let (host, e2) = text_field json_str laws (str ",\"host\":") e1 in
      let (level, e3) = text_field json_str laws (str ",\"log_level\":") e2 in
      let (format, e4) = text_field json_str laws (str ",\"log_format\":") e3 in
      (cc (application, host, level, format), byte_cut b'}' e4)

  module _ (fl : Floats) (floats : FloatLaws fl) where
    open fl use {F64, display}

    pub cam_video_cut :
        (a b : CamVideoMetadata F64) (r s : Text)
        → push_cam_video json_str fl a r ≡ push_cam_video json_str fl b s
        → (record a { started_at = b.started_at; ended_at = b.ended_at } ≡ b) × (r ≡ s)
    unfolding push_cam_video
    cam_video_cut a b r s e0 =
        let (zone, e1) = text_field json_str laws (str ",\"timezone\":") e0 in
        let (fps, e2) =
          value_field (display-Delimited fl floats) (str ",\"fps\":") (inl refl) (inl refl) e1 in
        let (resolution, e3) = text_field json_str laws (str ",\"resolution\":") e2 in
        let (codec, e4) = text_field json_str laws (str ",\"codec\":") e3 in
        (cc (zone, fps, resolution, codec), byte_cut b'}' e4)

    pub sensor_cut :
        (a b : SensorMetadata F64) (r s : Text)
        → push_sensor json_str fl a r ≡ push_sensor json_str fl b s
        → (record a { started_at = b.started_at; ended_at = b.ended_at } ≡ b) × (r ≡ s)
    unfolding push_sensor starts_with
    sensor_cut a b r s e0 =
        let (rate, e1) =
          value_field (display-Delimited fl floats) (str ",\"sample_rate_hz\":") (inl refl)
            (inl refl) e0 in
        let (unit, e2) = text_field json_str laws (str ",\"unit\":") e1 in
        let (model, e3) = text_field json_str laws (str ",\"sensor_model\":") e2 in
        let (values, e4) =
          opts_cut display (display-Delimited fl floats)
            (str ",\"latitude\":" ∷ str ",\"longitude\":" ∷ str ",\"altitude\":" ∷ [])
            (a.latitude ∷ a.longitude ∷ a.altitude ∷ [])
            (b.latitude ∷ b.longitude ∷ b.altitude ∷ []) (push_labels json_str a.labels (b'}' ∷ r))
            (push_labels json_str b.labels (b'}' ∷ s)) refl refl
            (
              ((λ t. (inl refl, refl)), ((λ t. (inl refl, refl)), tt)),
              (((λ t. (inl refl, refl)), tt), (tt, tt)),
            )
            (
              push_labels-After (str ",\"latitude\":") (λ t. (inl refl, refl))
                  (λ t. (inr refl, refl)) a.labels b.labels r s,
              (
                push_labels-After (str ",\"longitude\":") (λ t. (inl refl, refl))
                    (λ t. (inr refl, refl)) a.labels b.labels r s,
                (
                  push_labels-After (str ",\"altitude\":") (λ t. (inl refl, refl))
                      (λ t. (inr refl, refl)) a.labels b.labels r s,
                  tt,
                ),
              ),
            )
            e3 in
        let (labels, rest) = labels_cut json_str laws a.labels b.labels r s e4 in
        (cc (rate, unit, model, values, labels), rest)
