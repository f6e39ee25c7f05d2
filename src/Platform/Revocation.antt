-- ===== src/Platform/Revocation.antt =====
-- crates/platform/src/revocation.rs: the rules of revocation and of rotation lineage.
-- `DateTime::parse_from_rfc3339` (`parse`) is a parameter: the instant that a text stands for,
-- counted in the finest unit from the earliest instant that chrono can represent.
pub mod Monotone
pub mod Lineage
pub mod Tests
use sealedge.Base.{
  ℕ, List, [], ◌∷◌, ◌++◌, Bytes, Text, str, bytes_eq, Bool, true, false, not, Option, none, some,
  ◌==◌, leb, ltb, ◌&&◌, if◌then◌else◌, decimal,
}
use sealedge.Crypto.{Crates}
use sealedge.Chronicle.{RotationRecord, verify_rotation, rotation_digest, format_archive_id}
use sealedge.Platform.Witness.{WitnessDecision, recorded, replay, fork, rollback}

pub record RevocationState : Type 0 where
  pub revoked_at : Option Text
  pub min_epoch : Option ℕ

pub data RevokeOutcome : Type 0 where
  applied : Text → Option ℕ → RevokeOutcome
  rejected : Text → RevokeOutcome

abbrev malformed : Text → RevokeOutcome
malformed r = rejected (str "malformed revoked_at: " ++ r)

-- `min_epoch` never falls; left out, the floor stays.
unfoldable pub resolve_epoch : Text → Option ℕ → Option ℕ → RevokeOutcome
resolve_epoch revoked_at cur none = applied revoked_at cur
resolve_epoch revoked_at none (some r) = applied revoked_at (some r)
resolve_epoch revoked_at (some c) (some r) =
    if leb c r
    then applied revoked_at (some r)
    else rejected (
        str "min_epoch must be non-decreasing (current "
        ++ (decimal c ++ (str ", got " ++ (decimal r ++ str ")"))))

-- The instant moves earlier only: `cd` and `rd` are the current and the requested one.
unfoldable pub resolve_earlier : Text → Option ℕ → Option ℕ → (Text → RevokeOutcome) → RevokeOutcome
resolve_earlier r none rd next = malformed r
resolve_earlier r (some cd) none next = malformed r
resolve_earlier r (some cd) (some rd) next =
    if leb rd cd then next r else rejected (str "revoked_at may only move earlier, never later")

unfoldable pub resolve_first : Text → Option ℕ → (Text → RevokeOutcome) → RevokeOutcome
resolve_first r none next = malformed r
resolve_first r (some rd) next = next r

module _ (parse : Text → Option ℕ) where
  -- The match on the current and the requested `revoked_at`.
  unfoldable pub resolve_revoked_at :
      Option Text → Option Text → Text → (Text → RevokeOutcome) → RevokeOutcome
  resolve_revoked_at none none now next = next now
  resolve_revoked_at none (some r) now next = resolve_first r (parse r) next
  resolve_revoked_at (some c) none now next = next c
  resolve_revoked_at (some c) (some r) now next = resolve_earlier r (parse c) (parse r) next

  unfoldable pub decide_revoke : RevocationState → Option Text → Option ℕ → Text → RevokeOutcome
  unfolding resolve_revoked_at resolve_earlier resolve_first resolve_epoch
  decide_revoke current req_revoked_at req_min_epoch now =
      resolve_revoked_at current.revoked_at req_revoked_at now
        (λ revoked_at. resolve_epoch revoked_at current.min_epoch req_min_epoch)

unfoldable pub is_revoked : RevocationState → Bool
is_revoked state = elim state.revoked_at [ none ↦ false | some r ↦ true ]

unfoldable pub epoch_allowed : Option ℕ → ℕ → Bool
epoch_allowed none archive_epoch = true
epoch_allowed (some floor) archive_epoch = leb floor archive_epoch

-- `matches!(decision, WitnessDecision::Record { .. })`
abbrev pub is_record : WitnessDecision → Bool
is_record (recorded prev) = true
is_record (replay existing prev) = false
is_record (fork existing_tip) = false
is_record (rollback max_sequence) = false

unfoldable pub refuse_revoked_witness : Bool → WitnessDecision → Bool
refuse_revoked_witness revoked decision = revoked && is_record decision

unfoldable pub refuse_superseded : Option ℕ → ℕ → WitnessDecision → Bool
refuse_superseded none sequence decision = false
refuse_superseded (some rseq) sequence decision = ltb rseq sequence && is_record decision

pub data LineageCheck : Type 0 where
  bound : Text → ℕ → LineageCheck
  refused : Text → LineageCheck

module _ (json_str : Text → Text) (c : Crates) (blake3 : Bytes → Bytes) (hex : Bytes → Text) where
  unfoldable pub verify_lineage_rotation : RotationRecord → Text → ℕ → Text → LineageCheck
  verify_lineage_rotation rec req_device_pub req_sequence req_tip =
      if not (verify_rotation json_str c rec)
      then refused (str "rotation co-signature/epoch verification failed")
      else if not (bytes_eq rec.new.public_key req_device_pub)
      then refused (str "rotation new.public_key does not match the request device_pub")
      else if not (rec.sequence == req_sequence)
      then refused (
          str "rotation sequence "
          ++ (decimal rec.sequence
              ++ (str " does not match request sequence " ++ decimal req_sequence)))
      else if not (bytes_eq (format_archive_id hex (rotation_digest json_str blake3 rec)) req_tip)
      then refused (str "rotation digest does not match the witnessed tip")
      else bound rec.old.public_key rec.sequence
