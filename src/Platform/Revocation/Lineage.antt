-- ===== src/Platform/Revocation/Lineage.antt =====
-- What `verify_lineage_rotation` binds a rotation to.
use sealedge.Base.{
  ℕ, ◌≡◌, ap, sym, ◌∙◌, ◌⊎◌, inl, inr, Bytes, Text, str, bytes_eq_iff, true, arith, prefix_cut,
}
use sealedge.Json.{JsonLaws}
use sealedge.Crypto.{Crates}
use sealedge.Chain.Tamper.{Collision}
use sealedge.Chronicle.{RotationRecord, verify_rotation, rotation_digest, format_archive_id}
use sealedge.Chronicle.Unambiguous.{rotation_digest-injective}
use sealedge.Platform.Revocation.{verify_lineage_rotation, bound}

module _ (json_str : Text → Text) (c : Crates) (blake3 : Bytes → Bytes) (hex : Bytes → Text) where
  -- What an accepted rotation is bound to.
  pub record IsBound (r : RotationRecord) (device_pub : Text) (sequence : ℕ) (tip old_pub : Text)
      (rotation_seq : ℕ) : Type 0 where
    pub verified : verify_rotation json_str c r ≡ true
    pub new_key : r.new.public_key ≡ device_pub
    pub at_sequence : r.sequence ≡ sequence
    pub is_tip : format_archive_id hex (rotation_digest json_str blake3 r) ≡ tip
    pub from_key : old_pub ≡ r.old.public_key
    pub at_seq : rotation_seq ≡ sequence

  -- A rotation that `verify_lineage_rotation` accepts verifies, its new key is the key of the
  -- request, its sequence is that of the request, its id is the witnessed tip, and what is answered
  -- is its old key and that sequence.
  pub verify_lineage_rotation-IsBound :
      (r : RotationRecord) (device_pub : Text) (sequence : ℕ) (tip old_pub : Text)
      (rotation_seq : ℕ)
      → verify_lineage_rotation json_str c blake3 hex r device_pub sequence tip
        ≡ bound old_pub rotation_seq
      → IsBound r device_pub sequence tip old_pub rotation_seq
  unfolding verify_lineage_rotation
  verify_lineage_rotation-IsBound r device_pub sequence tip old_pub rotation_seq h =
      let id = format_archive_id hex (rotation_digest json_str blake3 r) in
      record {
        verified = ground arith;
        new_key = ground (arith, bytes_eq_iff r.new.public_key device_pub);
        at_sequence = ground arith;
        is_tip = ground (arith, bytes_eq_iff id tip);
        from_key = ground arith;
        at_seq = ground arith;
      }

  -- One witnessed tip carries one rotation: if two rotation records are both accepted for the same
  -- request key, sequence and tip, they agree in every field but the signatures, and so name the
  -- same superseded key; or the proof holds a collision of the hash. The literal and hex encodings
  -- are injective.
  pub lineage_unique :
      JsonLaws json_str
      → ((a b : Bytes) → hex a ≡ hex b → a ≡ b)
      → (r q : RotationRecord) (device_pub : Text) (sequence : ℕ) (tip : Text)
      → (old_r old_q : Text) (seq_r seq_q : ℕ)
      → verify_lineage_rotation json_str c blake3 hex r device_pub sequence tip ≡ bound old_r seq_r
      → verify_lineage_rotation json_str c blake3 hex q device_pub sequence tip ≡ bound old_q seq_q
      → ((record r { sig_old = q.sig_old; sig_new = q.sig_new } ≡ q) × (old_r ≡ old_q))
        ⊎ Collision blake3
  unfolding format_archive_id
  lineage_unique laws hex_inj r q device_pub sequence tip old_r old_q seq_r seq_q hr hq =
      let b = verify_lineage_rotation-IsBound r device_pub sequence tip old_r seq_r hr in
      let d = verify_lineage_rotation-IsBound q device_pub sequence tip old_q seq_q hq in
      let same = prefix_cut (str "b3:") _ _ (b.is_tip ∙ sym d.is_tip) in
      elim (rotation_digest-injective json_str laws blake3 r q (hex_inj _ _ same)) [
        | inl p ↦
            inl (p, b.from_key ∙ ap (λ (x : RotationRecord). x.old.public_key) p ∙ sym d.from_key)
        | inr k ↦ inr k
      ]
