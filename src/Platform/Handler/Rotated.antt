-- ===== src/Platform/Handler/Rotated.antt =====
-- `witness_handler`: the rows of the lineage table, and the rotations they stand for.
use sealedge.Base.{
  ℕ, List, Bytes, Text, ◌≡◌, refl, ◌∙◌, sym, true, Bool-cases, Option, some, none, Result,
  Result-cases, ok, err, All, All-map, inl, inr, subst,
}
use sealedge.Crypto.{Crates}
use sealedge.Chronicle.{
  WitnessRequest, RotationRecord, verify_rotation, rotation_digest, format_archive_id,
}
use sealedge.Platform.Witness.{WitnessEntry}
use sealedge.Platform.Witness.Ledger.{Explains, decide-Explains}
use sealedge.Platform.Revocation.{verify_lineage_rotation}
use sealedge.Platform.Revocation.Lineage.{IsBound, verify_lineage_rotation-IsBound}
use sealedge.Platform.Database.{Db, LogRow, LineageRow, witness_entries}
use sealedge.Platform.Handler.{
  Refusal, Checked, witness_check, record_tip, record_lineage, predecessor_agrees, attach_rotation,
  after_record, witness_commit, finish, witness_handler,
}
use sealedge.Platform.Handler.Ledger.{Written-record_tip, log-attach_rotation}
use sealedge.Platform.Handler.Sequential.{FromCheck, witness_check-FromCheck}
use sealedge.Platform.Handler.Backed.{Witnessed, record_tip-Witnessed}
use sealedge.Platform.Handler.Lineage.{LineageCheck-cases, lineage_row}
use sealedge.Platform.Handler.Kept.{lineage-checked, Witnessed-Written, lineage_insert-All}

module _ (json_str : Text → Text) (c : Crates) (blake3 : Bytes → Bytes) (hex : Bytes → Text) where
  -- The rotation behind a row: signed by both keys, and witnessed by the new one, at that time.
  pub record IsRotation (log : List LogRow) (l : LineageRow) : Type 0 where
    pub rotation : RotationRecord
    pub verified : verify_rotation json_str c rotation ≡ true
    pub to_key : rotation.new.public_key ≡ l.new_pub
    pub from_key : rotation.old.public_key ≡ l.old_pub
    pub at_seq : rotation.sequence ≡ l.rotation_seq
    pub witnessed :
        Witnessed log l.new_pub l.rotation_seq
          (format_archive_id hex (rotation_digest json_str blake3 rotation))
          l.observed_at

  abbrev pub AreRotations : Db → Type 0
  AreRotations db = All (IsRotation db.witness_log) db.device_lineage

  bound-IsRotation :
      (log : List LogRow) (req : WitnessRequest) (observed_at : Text) (rec : RotationRecord)
      (old_pub : Text) (rotation_seq : ℕ)
      → IsBound json_str c blake3 hex rec req.device_pub req.sequence req.tip old_pub rotation_seq
      → Witnessed log req.device_pub req.sequence req.tip observed_at
      → IsRotation log (lineage_row req.device_pub old_pub rotation_seq observed_at)
  bound-IsRotation log req observed_at rec old_pub rotation_seq b w = record {
    rotation = rec;
    verified = b.verified;
    to_key = b.new_key;
    from_key = sym b.from_key;
    at_seq = b.at_sequence ∙ sym b.at_seq;
    witnessed = record {
      row = w.row;
      in_log = w.in_log;
      device = w.device;
      at = w.at ∙ sym b.at_seq;
      same_tip = w.same_tip ∙ sym b.is_tip;
      since = w.since;
    };
  }

  record_lineage-AreRotations :
      (db : Db) (req : WitnessRequest) (observed_at : Text) (rec : RotationRecord)
      → Witnessed db.witness_log req.device_pub req.sequence req.tip observed_at
      → AreRotations db
      → All
          (IsRotation db.witness_log)
          (record_lineage json_str c blake3 hex db req observed_at rec).1.device_lineage
  unfolding record_lineage
  record_lineage-AreRotations db req observed_at rec w a =
      elim (LineageCheck-cases
        (verify_lineage_rotation json_str c blake3 hex rec req.device_pub req.sequence req.tip)) [
          | inr (msg, x) ↦ rw (x, record_lineage) a
          | inl (old_pub, rotation_seq, x) ↦
              elim (Bool-cases (predecessor_agrees db rec old_pub rotation_seq)) [
                | inr differs ↦ rw (x, differs, record_lineage) a
                | inl agrees ↦
                    rw (x, agrees, record_lineage)
                      (lineage_insert-All (IsRotation db.witness_log) db
                        (lineage_row req.device_pub old_pub rotation_seq observed_at) a
                        (bound-IsRotation db.witness_log req observed_at rec old_pub rotation_seq
                          (verify_lineage_rotation-IsBound json_str c blake3 hex rec req.device_pub
                            req.sequence req.tip old_pub rotation_seq x)
                          w))
              ]
        ]

  attach_rotation-AreRotations :
      (db : Db) (req : WitnessRequest) (observed_at : Text) (rotation : Option RotationRecord)
      → Witnessed db.witness_log req.device_pub req.sequence req.tip observed_at
      → AreRotations db
      → AreRotations (attach_rotation json_str c blake3 hex db req observed_at rotation).1
  unfolding attach_rotation
  attach_rotation-AreRotations db req observed_at none w a = a
  attach_rotation-AreRotations db req observed_at (some rec) w a =
      subst
        (λ log.
          All (IsRotation log)
            (record_lineage json_str c blake3 hex db req observed_at rec).1.device_lineage)
        (sym (log-attach_rotation json_str c blake3 hex db req observed_at (some rec)))
        (record_lineage-AreRotations db req observed_at rec w a)

  after_record-AreRotations :
      (k : Checked) (jti : Text) (o : Result Refusal (Text × Option WitnessEntry)) (db : Db)
      → ((observed_at : Text) (prev : Option WitnessEntry)
          → o ≡ ok (observed_at, prev)
          → Witnessed db.witness_log k.request.device_pub k.request.sequence k.request.tip
              observed_at)
      → AreRotations db
      → AreRotations (after_record json_str c blake3 hex k jti o db).1
  unfolding after_record
  after_record-AreRotations k jti (err e) db w a = a
  after_record-AreRotations k jti (ok (observed_at, prev)) db w a =
      attach_rotation-AreRotations db k.request observed_at k.request.rotation
        (w observed_at prev refl) a

  record_tip-AreRotations :
      (db : Db) (k : Checked) (now : Text) → AreRotations db → AreRotations (record_tip db k now).1
  record_tip-AreRotations db k now a =
      let db' = (record_tip db k now).1 in
      subst (All (IsRotation db'.witness_log))
        (sym (lineage-checked db k.request k.registered k.decision now))
        (All-map
          (λ l r. record {
            rotation = r.rotation;
            verified = r.verified;
            to_key = r.to_key;
            from_key = r.from_key;
            at_seq = r.at_seq;
            witnessed =
                Witnessed-Written db k now db'.witness_log l.new_pub l.rotation_seq
                  (format_archive_id hex (rotation_digest json_str blake3 r.rotation)) l.observed_at
                  (Written-record_tip db k now) r.witnessed;
          })
          db.device_lineage a)

  commit-AreRotations :
      (db : Db) (req : WitnessRequest) (k : Checked) (now jti : Text)
      → FromCheck json_str c db req k
      → AreRotations db
      → AreRotations (witness_commit json_str c blake3 hex db k now jti).1
  unfolding witness_commit
  commit-AreRotations db req k now jti f a =
      let why : Explains (witness_entries db k.request.device_pub) k.request.sequence k.request.tip
          k.decision =
        subst
          (λ (q : WitnessRequest).
            Explains (witness_entries db q.device_pub) q.sequence q.tip k.decision)
          (sym f.request)
          (subst (Explains (witness_entries db req.device_pub) req.sequence req.tip)
            (sym f.decision)
            (decide-Explains (witness_entries db req.device_pub) req.sequence req.tip)) in
      after_record-AreRotations k jti (record_tip db k now).0 (record_tip db k now).1
        (λ observed_at prev e.
          record_tip-Witnessed db k.request k.registered k.decision now observed_at prev why e)
        (record_tip-AreRotations db k now a)

  -- If every lineage row stands for a rotation, then so it does after the witness handler, whatever
  -- the answer is. To stand for a rotation: the rotation's two signatures and its epoch step verify,
  -- it goes from the row's old key to its new key at the row's sequence, and the ledger holds its id
  -- as the tip that the new key witnessed at that sequence, at the row's time.
  pub witness_handler-AreRotations :
      (db : Db) (req : WitnessRequest) (now jti : Text)
      → AreRotations db
      → AreRotations (witness_handler json_str c blake3 hex db req now jti).1
  unfolding witness_handler finish
  witness_handler-AreRotations db req now jti a =
      elim (Result-cases (witness_check json_str c db req)) [
        | inl (k, e) ↦
            rw e (
              commit-AreRotations db req k now jti (witness_check-FromCheck json_str c db req k e)
                a)
        | inr (x, e) ↦ rw e a
      ]
