-- ===== src/Manifest/Canonical/Parts.antt =====
-- `serialize_canonical`: the texts of the device, the labels, the chunk, the segments and the
-- encryption block, taken apart.
use sealedge.Base.{
  ℕ, zero, suc, ◌+◌, ◌≡◌, ◌≢◌, refl, sym, ◌∙◌, inl, inr, List, [], ◌∷◌, ◌++◌, Text, str, true,
  Option, none, some, starts_with, prefix_cut, arith, ltb,
}
use sealedge.Json.{JsonLaws, text_field}
use sealedge.Manifest.{
  Floats, Labels, DeviceInfo, ChunkInfo, SegmentInfo, RecipientEntry, EncryptionBlock,
}
use sealedge.Manifest.Canonical.{
  push_epoch, separated, push_device, push_entries, push_labels, push_recipient, push_recipients,
  push_encryption, push_chunk, push_segment, push_segments,
}
use sealedge.Manifest.Canonical.Cuts.{
  IsEnd, Delimited, FloatLaws, decimal-Delimited, display-Delimited, string-Delimited, After,
  opt_cut, epoch_cut, separated_cut, differ, byte_cut,
}

separated-suc : (i : ℕ) (r : Text) → separated (suc i) r ≡ b',' ∷ r
separated-suc i r = ground arith

-- A key, then a value, then what ends it.
pub value_field :
    {A : Type 0} {show : A → Text} (c : Delimited show) (key : Text) {a b : A} {r s : Text}
    → IsEnd r
    → IsEnd s
    → key ++ (show a ++ r) ≡ key ++ (show b ++ s)
    → (a ≡ b) × (r ≡ s)
value_field {show = show} c key {a} {b} {r} {s} er es e =
    c.cut a b r s er es (prefix_cut key (show a ++ r) (show b ++ s) e)

module _ (json_str : Text → Text) (laws : JsonLaws json_str) where
  push_epoch-After :
      (o : Option ℕ) (r : Text) → After (str ",\"key_agreement_public\":") (push_epoch o (b'}' ∷ r))
  unfolding starts_with
  push_epoch-After none r = (inr refl, refl)
  push_epoch-After (some zero) r = (inr refl, refl)
  push_epoch-After (some (suc n)) r = (ground arith, ground arith)

  pub device_cut :
      (d f : DeviceInfo) (r s : Text)
      → d.key_epoch ≢ some 0
      → f.key_epoch ≢ some 0
      → push_device json_str d r ≡ push_device json_str f s
      → (d ≡ f) × (r ≡ s)
  unfolding push_device
  device_cut d f r s hd hf e0 =
      let (id, e1) = text_field json_str laws (str ",\"device\":{\"id\":") e0 in
      let (model, e2) = text_field json_str laws (str ",\"model\":") e1 in
      let (firmware, e3) = text_field json_str laws (str ",\"firmware_version\":") e2 in
      let (key, e4) = text_field json_str laws (str ",\"public_key\":") e3 in
      let (agreement, e5) =
        opt_cut json_str (string-Delimited json_str laws) (str ",\"key_agreement_public\":")
          d.key_agreement_public f.key_agreement_public (push_epoch d.key_epoch (b'}' ∷ r))
          (push_epoch f.key_epoch (b'}' ∷ s)) (push_epoch-After d.key_epoch r)
          (push_epoch-After f.key_epoch s) e4 in
      let (epoch, rest) = epoch_cut d.key_epoch f.key_epoch r s hd hf e5 in
      (cc (id, model, firmware, key, agreement, epoch), rest)

  entry_cut :
      (i : ℕ) (k l v w : Text) (a b : Labels) (r s : Text)
      → push_entries json_str i ((k, v) ∷ a) r ≡ push_entries json_str i ((l, w) ∷ b) s
      → (k ≡ l) × (v ≡ w) × (push_entries json_str (i + 1) a r ≡ push_entries json_str (i + 1) b s)
  unfolding push_entries
  entry_cut i k l v w a b r s e =
      let (key, e1) = laws.cut k l _ _ (separated_cut i _ _ e) in
      let (value, e2) = text_field json_str laws (str ":") e1 in (key, value, e2)

  -- The entries after the first: a closing brace against a comma.
  entries_cut :
      (i : ℕ) (a b : Labels) (r s : Text)
      → ltb 0 i ≡ true
      → push_entries json_str i a (b'}' ∷ r) ≡ push_entries json_str i b (b'}' ∷ s)
      → (a ≡ b) × (r ≡ s)
  unfolding push_entries
  entries_cut i [] [] r s h e = (refl, byte_cut _ e)
  entries_cut i [] ((l, w) ∷ b) r s h e = ground arith
  entries_cut i ((k, v) ∷ a) [] r s h e = ground arith
  entries_cut i ((k, v) ∷ a) ((l, w) ∷ b) r s h e =
      let (key, value, e1) = entry_cut i k l v w a b (b'}' ∷ r) (b'}' ∷ s) e in
      let (tail, rest) = entries_cut (i + 1) a b r s (ground arith) e1 in
      (cc (key, value, tail), rest)

  pub labels_cut :
      (a b : Labels) (r s : Text)
      → push_labels json_str a (b'}' ∷ r) ≡ push_labels json_str b (b'}' ∷ s)
      → (a ≡ b) × (r ≡ s)
  unfolding push_labels
  labels_cut [] [] r s e = (refl, byte_cut _ e)
  labels_cut [] (y ∷ b) r s e = absurd (differ b'}' b',' refl e)
  labels_cut (x ∷ a) [] r s e = absurd (differ b',' b'}' refl e)
  labels_cut ((k, v) ∷ a) ((l, w) ∷ b) r s e =
      let (key, value, e1) =
        entry_cut 0 k l v w a b (b'}' ∷ b'}' ∷ r) (b'}' ∷ b'}' ∷ s)
          (prefix_cut (str ",\"labels\":{") _ _ e) in
      let (tail, rest) = entries_cut 1 a b (b'}' ∷ r) (b'}' ∷ s) (ground arith) e1 in
      (cc (key, value, tail), byte_cut b'}' rest)

  recipient_cut :
      (q p : RecipientEntry) (r s : Text)
      → push_recipient json_str q r ≡ push_recipient json_str p s
      → (q ≡ p) × (r ≡ s)
  unfolding push_recipient
  recipient_cut q p r s e0 =
      let (id, e1) = text_field json_str laws (str "{\"recipient_id\":") e0 in
      let (key, e2) = text_field json_str laws (str ",\"recipient_pub\":") e1 in
      let (enc, e3) = text_field json_str laws (str ",\"enc\":") e2 in
      let (cek, e4) = text_field json_str laws (str ",\"wrapped_cek\":") e3 in
      (cc (id, key, enc, cek), byte_cut b'}' e4)

  recipients_cut :
      (i : ℕ) (a b : List RecipientEntry) (r s : Text)
      → push_recipients json_str i a (b']' ∷ r) ≡ push_recipients json_str i b (b']' ∷ s)
      → (a ≡ b) × (r ≡ s)
  unfolding push_recipients push_recipient
  recipients_cut i [] [] r s e = (refl, byte_cut _ e)
  recipients_cut zero [] (y ∷ b) r s e = absurd (differ b']' b'{' refl e)
  recipients_cut (suc i) [] (y ∷ b) r s e = absurd (differ b']' b',' refl (e ∙ separated-suc i _))
  recipients_cut zero (x ∷ a) [] r s e = absurd (differ b'{' b']' refl e)
  recipients_cut (suc i) (x ∷ a) [] r s e =
      absurd (differ b',' b']' refl (sym (separated-suc i _) ∙ e))
  recipients_cut i (x ∷ a) (y ∷ b) r s e =
      let (head, e1) = recipient_cut x y _ _ (separated_cut i _ _ e) in
      let (tail, rest) = recipients_cut (i + 1) a b r s e1 in (cc (head, tail), rest)

  pub encryption_cut :
      (a b : EncryptionBlock) (r s : Text)
      → push_encryption json_str a r ≡ push_encryption json_str b s
      → (a ≡ b) × (r ≡ s)
  unfolding push_encryption
  encryption_cut a b r s e0 =
      let (content, e1) = text_field json_str laws (str ",\"encryption\":{\"content_aead\":") e0 in
      let (kem, e2) = text_field json_str laws (str ",\"hpke\":{\"kem\":") e1 in
      let (kdf, e3) = text_field json_str laws (str ",\"kdf\":") e2 in
      let (aead, e4) = text_field json_str laws (str ",\"aead\":") e3 in
      let (recipients, e5) =
        recipients_cut 0 a.recipients b.recipients (b'}' ∷ r) (b'}' ∷ s)
          (prefix_cut (str "},\"recipients\":[") _ _ e4) in
      (cc (content, kem, kdf, aead, recipients), byte_cut b'}' e5)

  module _ (fl : Floats) (floats : FloatLaws fl) where
    open fl use {F64}

    pub chunk_cut :
        (a b : ChunkInfo F64) (r s : Text)
        → push_chunk json_str fl a r ≡ push_chunk json_str fl b s
        → (a ≡ b) × (r ≡ s)
    unfolding push_chunk
    chunk_cut a b r s e0 =
        let (size, e1) =
          value_field decimal-Delimited (str ",\"chunk\":{\"size_bytes\":") (inl refl) (inl refl)
            e0 in
        let (seconds, e2) =
          value_field (display-Delimited fl floats) (str ",\"duration_seconds\":") (inr refl)
            (inr refl) e1 in
        (cc (size, seconds), byte_cut b'}' e2)

    segment_cut :
        (a b : SegmentInfo F64) (r s : Text)
        → push_segment json_str fl a r ≡ push_segment json_str fl b s
        → (a ≡ b) × (r ≡ s)
    unfolding push_segment
    segment_cut a b r s e0 =
        let (file, e1) = text_field json_str laws (str "{\"chunk_file\":") e0 in
        let (hash, e2) = text_field json_str laws (str ",\"blake3_hash\":") e1 in
        let (start, e3) = text_field json_str laws (str ",\"start_time\":") e2 in
        let (seconds, e4) =
          value_field (display-Delimited fl floats) (str ",\"duration_seconds\":") (inl refl)
            (inl refl) e3 in
        let (link, e5) = text_field json_str laws (str ",\"continuity_hash\":") e4 in
        (cc (file, hash, start, seconds, link), byte_cut b'}' e5)

    pub segments_cut :
        (i : ℕ) (a b : List (SegmentInfo F64)) (r s : Text)
        → push_segments json_str fl i a (b']' ∷ r) ≡ push_segments json_str fl i b (b']' ∷ s)
        → (a ≡ b) × (r ≡ s)
    unfolding push_segments push_segment
    segments_cut i [] [] r s e = (refl, byte_cut _ e)
    segments_cut zero [] (y ∷ b) r s e = absurd (differ b']' b'{' refl e)
    segments_cut (suc i) [] (y ∷ b) r s e = absurd (differ b']' b',' refl (e ∙ separated-suc i _))
    segments_cut zero (x ∷ a) [] r s e = absurd (differ b'{' b']' refl e)
    segments_cut (suc i) (x ∷ a) [] r s e =
        absurd (differ b',' b']' refl (sym (separated-suc i _) ∙ e))
    segments_cut i (x ∷ a) (y ∷ b) r s e =
        let (head, e1) = segment_cut x y _ _ (separated_cut i _ _ e) in
        let (tail, rest) = segments_cut (i + 1) a b r s e1 in (cc (head, tail), rest)
