-- ===== src/Platform/Handler.antt =====
-- crates/platform/src/http/handlers.rs: the witness and the revoke handler over the database.
-- The clock's text (`now`) and the receipt's id (`jti`) are arguments of a call. A handler returns
-- the database beside its answer: what was written before an error stays written.
pub mod Ledger
pub mod Sequential
pub mod Backed
pub mod Found
pub mod Lineage
pub mod Replay
pub mod Attached
pub mod Again
pub mod Kept
pub mod Rotated
pub mod Race
pub mod Revoke
pub mod Tests
use sealedge.Base.{
  ℕ, ◌+◌, ◌-◌, List, [], ◌∷◌, ◌++◌, Bytes, Text, str, bytes_eq, Bool, true, false, not, Option,
  none, some, Result, ok, err, ensure, ok_or, ltb, decimal, if◌then◌else◌, ◌>>=◌, ◌>>◌,
}
use sealedge.Crypto.{Crates}
use sealedge.Chronicle.{WitnessRequest, RotationRecord, verify_request}
use sealedge.Platform.Witness.{
  WitnessEntry, WitnessDecision, recorded, replay, fork, rollback, decide, WitnessReceipt, build,
}
use sealedge.Platform.Revocation.{
  RevocationState, RevokeOutcome, applied, rejected, decide_revoke, is_revoked,
  refuse_revoked_witness, refuse_superseded, verify_lineage_rotation, LineageCheck, bound, refused,
}
use sealedge.Platform.Database.{
  Db, LogRow, witness_entries, witness_insert, witness_entry_at, get_device_revocation_by_pub,
  get_device_revocation, set_device_revocation, lineage_rotation_seq, lineage_insert,
}

-- An HTTP status with the message of the body.
pub record Refusal : Type 0 where
  pub status : ℕ
  pub message : Text

abbrev pub refuse : ℕ → Text → Refusal
refuse status message = record { status = status; message = message }

abbrev unregistered : RevocationState
unregistered = record { revoked_at = none; min_epoch = none }

-- `(device_registered, revocation)`
binding : Option RevocationState → Bool × RevocationState
binding none = (false, unregistered)
binding (some state) = (true, state)

abbrev or_zero : Option ℕ → ℕ
or_zero none = 0
or_zero (some n) = n

-- What the first half of the witness handler hands to the second.
pub record Checked : Type 0 where
  pub request : WitnessRequest
  pub registered : Bool
  pub decision : WitnessDecision

abbrev pub log_row : WitnessRequest → Bool → Text → LogRow
log_row req registered now = record {
  device_pub = req.device_pub;
  sequence = req.sequence;
  tip = req.tip;
  observed_at = now;
  device_registered = registered;
  signed_at = req.signed_at;
}

-- The match on the decision: the timestamp of the receipt and the entry before it. The message of an
-- insert conflict ends before the database's own text.
unfoldable pub record_tip : Db → Checked → Text → Result Refusal (Text × Option WitnessEntry) × Db
record_tip db k now = elim k.decision [
  | fork existing_tip ↦ (
    err (
        refuse 409 (
          str "fork: sequence "
          ++ (decimal k.request.sequence
              ++ (str " already witnessed with a different tip (" ++ (existing_tip ++ str ")"))))),
    db,
  )
  | rollback max_sequence ↦ (
    err (
        refuse 409 (
          str "rollback: sequence "
          ++ (decimal k.request.sequence
              ++ (str " is at or below the last witnessed sequence " ++ decimal max_sequence)))),
    db,
  )
  | replay existing prev ↦ (ok (existing.observed_at, prev), db)
  | recorded prev ↦ elim (witness_insert db (log_row k.request k.registered now)) [
    | none ↦ (err (refuse 409 (str "witness ledger insert conflict")), db)
    | some db' ↦ (ok (now, prev), db')
  ]
]

-- The old key's witnessed predecessor, where there is one, is the rotation's.
predecessor_agrees : Db → RotationRecord → Text → ℕ → Bool
predecessor_agrees db rec old_pub rotation_seq =
    if ltb 0 rotation_seq
    then elim (witness_entry_at db old_pub (rotation_seq - 1)) [
      | none ↦ true
      | some prev_entry ↦ bytes_eq prev_entry.tip rec.prev_archive_hash
    ]
    else true

module _ (json_str : Text → Text) (c : Crates) where
  -- Up to the match on the decision: the handler only reads.
  unfoldable pub witness_check : Db → WitnessRequest → Result Refusal Checked
  unfolding binding
  witness_check db req =
      let registered = (binding (get_device_revocation_by_pub db req.device_pub)).0 in
      let revocation = (binding (get_device_revocation_by_pub db req.device_pub)).1 in
      let superseded_seq = lineage_rotation_seq db req.device_pub in
      let decision = decide (witness_entries db req.device_pub) req.sequence req.tip in
      do
        ensure (verify_request json_str c req)
            (refuse 401 (str "invalid witness request signature"))
        ensure (not (refuse_revoked_witness (is_revoked revocation) decision))
            (refuse 403 (str "device key is revoked; new chronicle tips are refused"))
        ensure (not (refuse_superseded superseded_seq req.sequence decision)) (
            refuse 409 (
              str "superseded: this key rotated away at sequence "
              ++ (decimal (or_zero superseded_seq) ++ str "; new tips beyond it are refused")))
        ok (record { request = req; registered = registered; decision = decision })

  module _ (blake3 : Bytes → Bytes) (hex : Bytes → Text) where
    unfoldable pub record_lineage :
        Db → WitnessRequest → Text → RotationRecord → Result Refusal (Unit {0}) × Db
    unfolding predecessor_agrees
    record_lineage db req observed_at rec =
        elim (verify_lineage_rotation json_str c blake3 hex rec req.device_pub req.sequence
          req.tip) [
            | refused msg ↦ (err (refuse 400 (str "rotation lineage rejected: " ++ msg)), db)
            | bound old_pub rotation_seq ↦
                if predecessor_agrees db rec old_pub rotation_seq
                then (
                  ok tt,
                  lineage_insert db (record {
                    new_pub = req.device_pub;
                    old_pub = old_pub;
                    rotation_seq = rotation_seq;
                    observed_at = observed_at;
                  }),
                )
                else (
                  err (
                      refuse 409 (
                        str
                          "rotation prev_archive_hash does not match the old key's witnessed chain")),
                  db,
                )
          ]

    unfoldable pub attach_rotation :
        Db → WitnessRequest → Text → Option RotationRecord → Result Refusal (Unit {0}) × Db
    attach_rotation db req observed_at none = (ok tt, db)
    attach_rotation db req observed_at (some rec) = record_lineage db req observed_at rec

    receipt_of :
        Checked
        → Text
        → Text
        → Option WitnessEntry
        → Result Refusal (Unit {0})
        → Result Refusal WitnessReceipt
    receipt_of k jti observed_at prev r = do
      r
      ok (
          build k.request.device_pub k.registered k.request.sequence k.request.tip observed_at prev
            jti)

    pub after_record :
        Checked
        → Text
        → Result Refusal (Text × Option WitnessEntry)
        → Db
        → Result Refusal WitnessReceipt × Db
    unfolding receipt_of
    after_record k jti (err e) db = (err e, db)
    after_record k jti (ok (observed_at, prev)) db =
        let (r, db') = attach_rotation db k.request observed_at k.request.rotation in
        (receipt_of k jti observed_at prev r, db')

    -- From the match on the decision to the receipt's body; the JWS over it is left out.
    unfoldable pub witness_commit : Db → Checked → Text → Text → Result Refusal WitnessReceipt × Db
    unfolding after_record
    witness_commit db k now jti = let (r, db') = record_tip db k now in after_record k jti r db'

    pub finish : Db → Text → Text → Result Refusal Checked → Result Refusal WitnessReceipt × Db
    finish db now jti (err e) = (err e, db)
    finish db now jti (ok k) = witness_commit db k now jti

    unfoldable pub witness_handler :
        Db → WitnessRequest → Text → Text → Result Refusal WitnessReceipt × Db
    unfolding finish
    witness_handler db req now jti = finish db now jti (witness_check db req)

-- The body of a revoke request and of its response.
pub record RevokeRequest : Type 0 where
  pub revoked_at : Option Text
  pub min_epoch : Option ℕ

pub record RevokeResponse : Type 0 where
  pub id : ℕ
  pub revoked_at : Text
  pub min_epoch : Option ℕ

abbrev no_such_device : Refusal
no_such_device = refuse 404 (str "no such device in this organization")

module _ (parse : Text → Option ℕ) where
  apply_outcome : Db → ℕ → ℕ → RevokeOutcome → Result Refusal RevokeResponse × Db
  apply_outcome db org_id id (rejected msg) = (err (refuse 409 msg), db)
  apply_outcome db org_id id (applied revoked_at min_epoch) =
      let (db', updated) = set_device_revocation db org_id id revoked_at min_epoch in
      if updated
      then (ok (record { id = id; revoked_at = revoked_at; min_epoch = min_epoch }), db')
      else (err no_such_device, db')

  revoke_found :
      Db
      → ℕ
      → ℕ
      → RevokeRequest
      → Text
      → Option RevocationState
      → Result Refusal RevokeResponse × Db
  unfolding apply_outcome
  revoke_found db org_id id req now none = (err no_such_device, db)
  revoke_found db org_id id req now (some current) =
      apply_outcome db org_id id (decide_revoke parse current req.revoked_at req.min_epoch now)

  unfoldable pub revoke_device_handler :
      Db → ℕ → ℕ → RevokeRequest → Text → Result Refusal RevokeResponse × Db
  unfolding revoke_found
  revoke_device_handler db org_id id req now =
      revoke_found db org_id id req now (get_device_revocation db org_id id)
