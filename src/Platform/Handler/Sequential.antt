-- ===== src/Platform/Handler/Sequential.antt =====
-- `witness_handler`, when requests are handled one after the other.
use sealedge.Base.{
  ◌<◌, Bytes, Text, ◌≡◌, ◌∙◌, sym, true, Option, ok, Result-cases, All, inl, inr, arith,
}
use sealedge.Crypto.{Crates}
use sealedge.Chronicle.{WitnessRequest, verify_request}
use sealedge.Platform.Witness.{WitnessEntry, recorded, decide}
use sealedge.Platform.Witness.Ledger.{Explains, decide-Explains}
use sealedge.Platform.Database.{Db, witness_entries}
use sealedge.Platform.Database.Rows.{witness_entries-All}
use sealedge.Platform.Handler.{
  Checked, witness_check, log_row, witness_commit, finish, witness_handler,
}
use sealedge.Platform.Handler.Ledger.{
  Increasing, Increasing-snoc, unchanged, appended, Written-witness_commit,
}

-- What a passed check hands on.
pub record FromCheck (json_str : Text → Text) (c : Crates) (db : Db) (req : WitnessRequest)
    (k : Checked) : Type 0 where
  pub request : k.request ≡ req
  pub decision : k.decision ≡ decide (witness_entries db req.device_pub) req.sequence req.tip
  pub signed : verify_request json_str c req ≡ true

module _ (json_str : Text → Text) (c : Crates) where
  pub witness_check-FromCheck :
      (db : Db) (req : WitnessRequest) (k : Checked)
      → witness_check json_str c db req ≡ ok k
      → FromCheck json_str c db req k
  unfolding witness_check
  witness_check-FromCheck db req k h = record {
    request = ground arith;
    decision = ground arith;
    signed = ground arith;
  }

  -- A tip that is recorded lies above every row of its device.
  pub recorded-above :
      (db : Db) (req : WitnessRequest) (prev : Option WitnessEntry)
      → decide (witness_entries db req.device_pub) req.sequence req.tip ≡ recorded prev
      → All (λ r. r.device_pub ≡ req.device_pub → r.sequence < req.sequence) db.witness_log
  recorded-above db req prev e =
      let entries = witness_entries db req.device_pub in
      let why : Explains entries req.sequence req.tip (recorded prev) =
        rw e at (decide-Explains entries req.sequence req.tip) in
      witness_entries-All (λ x. x.sequence < req.sequence) db req.device_pub why.0

  module _ (blake3 : Bytes → Bytes) (hex : Bytes → Text) where
    commit-Increasing :
        (db : Db) (req : WitnessRequest) (k : Checked) (now jti : Text)
        → FromCheck json_str c db req k
        → Increasing db.witness_log
        → Increasing (witness_commit json_str c blake3 hex db k now jti).1.witness_log
    commit-Increasing db req k now jti f i =
        elim (Written-witness_commit json_str c blake3 hex db k now jti) [
          | unchanged e ↦ rw e i
          | appended prev d e free ↦ rw e (
              Increasing-snoc db.witness_log (log_row k.request k.registered now) i
                (rw f.request (recorded-above db req prev (sym f.decision ∙ d))))
        ]

    -- Handled one at a time, requests keep every device's ledger strictly increasing: each row of
    -- a device lies above all that were written before it, whatever the answer of the request is.
    pub witness_handler-Increasing :
        (db : Db) (req : WitnessRequest) (now jti : Text)
        → Increasing db.witness_log
        → Increasing (witness_handler json_str c blake3 hex db req now jti).1.witness_log
    unfolding witness_handler finish
    witness_handler-Increasing db req now jti i =
        elim (Result-cases (witness_check json_str c db req)) [
          | inl (k, e) ↦
              rw e (commit-Increasing db req k now jti (witness_check-FromCheck db req k e) i)
          | inr (x, e) ↦ rw e i
        ]
