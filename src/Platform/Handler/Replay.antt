-- ===== src/Platform/Handler/Replay.antt =====
-- `witness_check` and `witness_commit` of a tip that is decided as a replay.
use sealedge.Base.{Bool, ℕ, Bytes, Text, ◌≡◌, refl, true, false, Option, some, none, ok, arith}
use sealedge.Crypto.{Crates}
use sealedge.Chronicle.{WitnessRequest, verify_request}
use sealedge.Platform.Witness.{WitnessEntry, replay, decide, build}
use sealedge.Platform.Revocation.{refuse_revoked_witness, refuse_superseded}
use sealedge.Platform.Database.{
  lineage_rotation_seq, get_device_revocation_by_pub, Db, witness_entries,
}
use sealedge.Platform.Handler.{
  witness_commit, receipt_of, after_record, is_revoked, binding, Checked, witness_check, record_tip,
  attach_rotation,
}

refuse_revoked_witness-replay :
    (revoked : Bool) (e : WitnessEntry) (prev : Option WitnessEntry)
    → refuse_revoked_witness revoked (replay e prev) ≡ false
unfolding refuse_revoked_witness
refuse_revoked_witness-replay true e prev = refl
refuse_revoked_witness-replay false e prev = refl

refuse_superseded-replay :
    (superseded : Option ℕ) (sequence : ℕ) (e : WitnessEntry) (prev : Option WitnessEntry)
    → refuse_superseded superseded sequence (replay e prev) ≡ false
unfolding refuse_superseded
refuse_superseded-replay none sequence e prev = refl
refuse_superseded-replay (some r) sequence e prev = ground arith

module _ (json_str : Text → Text) (c : Crates) where
  -- A replay passes the check, whatever is known of the device.
  pub witness_check-replay :
      (db : Db) (req : WitnessRequest) (e : WitnessEntry) (prev : Option WitnessEntry)
      → verify_request json_str c req ≡ true
      → decide (witness_entries db req.device_pub) req.sequence req.tip ≡ replay e prev
      → (k : Checked) × (witness_check json_str c db req ≡ ok k)
        × (k.request ≡ req)
        × (k.decision ≡ replay e prev)
  unfolding witness_check
  witness_check-replay db req e prev signed d = (
    record {
      request = req;
      registered = (binding (get_device_revocation_by_pub db req.device_pub)).0;
      decision = replay e prev;
    },
    rw
        (
          signed,
          d,
          refuse_revoked_witness-replay
              (is_revoked (binding (get_device_revocation_by_pub db req.device_pub)).1) e prev,
          refuse_superseded-replay (lineage_rotation_seq db req.device_pub) req.sequence e prev,
        )
        refl,
    refl,
    refl,
  )

  module _ (blake3 : Bytes → Bytes) (hex : Bytes → Text) where
    -- A replay writes nothing, where the rotation of the request changes nothing.
    pub witness_commit-replay :
        (db : Db) (k : Checked) (e : WitnessEntry) (prev : Option WitnessEntry) (now jti : Text)
        → k.decision ≡ replay e prev
        → attach_rotation json_str c blake3 hex db k.request e.observed_at k.request.rotation
          ≡ (ok tt, db)
        → witness_commit json_str c blake3 hex db k now jti ≡ (
          ok (
              build k.request.device_pub k.registered k.request.sequence k.request.tip e.observed_at
                prev jti),
          db,
        )
    unfolding witness_commit record_tip after_record receipt_of
    witness_commit-replay db k e prev now jti d attached = rw (d, attached) refl
