-- ===== src/Platform/Handler/Backed.antt =====
-- `witness_handler`: its receipts and the rows of the ledger.
use sealedge.Base.{
  ℕ, List, [], ◌∷◌, ◌++◌, Bytes, Text, ◌≡◌, refl, ap, ◌∙◌, sym, Bool, Option, Option-cases, Result,
  ok, err, Has, inl, inr, arith, subst,
}
use sealedge.Crypto.{Crates}
use sealedge.Chronicle.{WitnessRequest}
use sealedge.Platform.Witness.{
  WitnessEntry, WitnessDecision, recorded, replay, fork, rollback, WitnessReceipt, build,
}
use sealedge.Platform.Witness.Ledger.{Explains, decide-Explains}
use sealedge.Platform.Database.{Db, LogRow, witness_entries, witness_insert}
use sealedge.Platform.Database.Rows.{witness_entries-Row, witness_insert-some}
use sealedge.Platform.Handler.{
  Refusal, Checked, witness_check, log_row, record_tip, after_record, receipt_of, witness_commit,
  finish, witness_handler,
}
use sealedge.Platform.Handler.Ledger.{checked, log-after_record}
use sealedge.Platform.Handler.Sequential.{FromCheck, witness_check-FromCheck}

-- The row of a tip of a device, witnessed at `observed_at`.
pub record Witnessed (log : List LogRow) (device_pub : Text) (sequence : ℕ) (tip observed_at : Text)
    : Type 0 where
  pub row : LogRow
  pub in_log : Has row log
  pub device : row.device_pub ≡ device_pub
  pub at : row.sequence ≡ sequence
  pub same_tip : row.tip ≡ tip
  pub since : row.observed_at ≡ observed_at

Has-snoc : (log : List LogRow) (row : LogRow) → Has row (log ++ row ∷ [])
Has-snoc [] row = inl refl
Has-snoc (r ∷ log) row = inr (Has-snoc log row)

-- The decision of a check against this very database.
pub record_tip-Witnessed :
    (db : Db) (req : WitnessRequest) (registered : Bool) (d : WitnessDecision)
    (now observed_at : Text) (prev : Option WitnessEntry)
    → Explains (witness_entries db req.device_pub) req.sequence req.tip d
    → (record_tip db (checked req registered d) now).0 ≡ ok (observed_at, prev)
    → Witnessed
        (record_tip db (checked req registered d) now).1.witness_log
        req.device_pub
        req.sequence
        req.tip
        observed_at
unfolding record_tip
record_tip-Witnessed db req registered (fork t) now observed_at prev x h = cc
record_tip-Witnessed db req registered (rollback m) now observed_at prev x h = cc
record_tip-Witnessed db req registered (replay e p) now observed_at prev x h =
    let r = witness_entries-Row e db req.device_pub x.0 in
    record {
      row = r.row;
      in_log = r.in_log;
      device = r.of_device;
      at = ap (λ (y : WitnessEntry). y.sequence) r.same ∙ x.1;
      same_tip = ap (λ (y : WitnessEntry). y.tip) r.same ∙ x.2;
      since = ap (λ (y : WitnessEntry). y.observed_at) r.same ∙ ground arith;
    }
record_tip-Witnessed db req registered (recorded p) now observed_at prev x h =
    let row = log_row req registered now in
    elim (Option-cases (witness_insert db row)) [
      | inl taken ↦ absurd (cc (taken, h))
      | inr (db', done) ↦
          let (same, free) = witness_insert-some db db' row done in
          rw (done, record_tip)
            (record {
              row = row;
              in_log = rw same (Has-snoc db.witness_log row);
              device = refl;
              at = refl;
              same_tip = refl;
              since = ground (arith, done);
            })
    ]

module _ (json_str : Text → Text) (c : Crates) (blake3 : Bytes → Bytes) (hex : Bytes → Text) where
  abbrev IsReceiptOf : WitnessReceipt → WitnessRequest → Text → Type 0
  IsReceiptOf r req observed_at =
      (r.device_pub ≡ req.device_pub)
      × (r.sequence ≡ req.sequence)
      × (r.tip ≡ req.tip)
      × (r.observed_at ≡ observed_at)

  pub after_record-ok :
      (k : Checked) (jti : Text) (o : Result Refusal (Text × Option WitnessEntry)) (db : Db)
      (receipt : WitnessReceipt)
      → (after_record json_str c blake3 hex k jti o db).0 ≡ ok receipt
      → (observed_at : Text) × (prev : Option WitnessEntry) × (o ≡ ok (observed_at, prev))
        × IsReceiptOf receipt k.request observed_at
  unfolding after_record receipt_of build
  after_record-ok k jti (err e) db receipt h = cc
  after_record-ok k jti (ok (observed_at, prev)) db receipt h =
      (observed_at, prev, refl, ground arith)

  pub commit-Witnessed :
      (db : Db) (req : WitnessRequest) (k : Checked) (now jti : Text) (receipt : WitnessReceipt)
      → FromCheck json_str c db req k
      → (witness_commit json_str c blake3 hex db k now jti).0 ≡ ok receipt
      → Witnessed
          (witness_commit json_str c blake3 hex db k now jti).1.witness_log
          receipt.device_pub
          receipt.sequence
          receipt.tip
          receipt.observed_at
  unfolding witness_commit
  commit-Witnessed db req k now jti receipt f h =
      let o = (record_tip db k now).0 in
      let db' = (record_tip db k now).1 in
      let (observed_at, prev, e, r) = after_record-ok k jti o db' receipt h in
      let why : Explains (witness_entries db req.device_pub) req.sequence req.tip k.decision =
        subst (Explains (witness_entries db req.device_pub) req.sequence req.tip) (sym f.decision)
          (decide-Explains (witness_entries db req.device_pub) req.sequence req.tip) in
      let w =
        record_tip-Witnessed db k.request k.registered k.decision now observed_at prev
          (subst (λ q. Explains (witness_entries db q.device_pub) q.sequence q.tip k.decision)
            (sym f.request) why)
          e in
      record {
        row = w.row;
        in_log =
            subst (Has w.row) (sym (log-after_record json_str c blake3 hex k jti o db')) w.in_log;
        device = w.device ∙ sym r.0;
        at = w.at ∙ sym r.1;
        same_tip = w.same_tip ∙ sym r.2;
        since = w.since ∙ sym r.3;
      }

  finish-Witnessed :
      (db : Db) (req : WitnessRequest) (o : Result Refusal Checked) (now jti : Text)
      (receipt : WitnessReceipt)
      → witness_check json_str c db req ≡ o
      → (finish json_str c blake3 hex db now jti o).0 ≡ ok receipt
      → Witnessed
          (finish json_str c blake3 hex db now jti o).1.witness_log
          receipt.device_pub
          receipt.sequence
          receipt.tip
          receipt.observed_at
  unfolding finish
  finish-Witnessed db req (err x) now jti receipt e h = cc
  finish-Witnessed db req (ok k) now jti receipt e h =
      commit-Witnessed db req k now jti receipt (witness_check-FromCheck json_str c db req k e) h

  -- When the witness handler answers with a receipt, the ledger that it leaves holds a row of the
  -- receipt's device with the receipt's sequence, tip and timestamp.
  pub witness_handler-Witnessed :
      (db : Db) (req : WitnessRequest) (now jti : Text) (receipt : WitnessReceipt)
      → (witness_handler json_str c blake3 hex db req now jti).0 ≡ ok receipt
      → Witnessed
          (witness_handler json_str c blake3 hex db req now jti).1.witness_log
          receipt.device_pub
          receipt.sequence
          receipt.tip
          receipt.observed_at
  unfolding witness_handler
  witness_handler-Witnessed db req now jti receipt h =
      finish-Witnessed db req (witness_check json_str c db req) now jti receipt refl h
