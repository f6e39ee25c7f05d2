-- ===== src/Platform/Handler/Race.antt =====
-- `witness_check` and `witness_commit` of two requests of one device that interleave.
use sealedge.Base.{
  ◌<◌, List, [], ◌∷◌, ◌++◌, Bytes, Text, ◌≡◌, ap, ◌∙◌, sym, Bool, Option, ok, All, All-append,
  All-map, arith, subst,
}
use sealedge.Crypto.{Crates}
use sealedge.Chronicle.{WitnessRequest}
use sealedge.Platform.Witness.{WitnessEntry, recorded}
use sealedge.Platform.Database.{Db, LogRow, witness_insert}
use sealedge.Platform.Database.Rows.{NoKey, NoKey-has_key}
use sealedge.Platform.Handler.{Checked, witness_check, log_row, record_tip, witness_commit}
use sealedge.Platform.Handler.Ledger.{Increasing, checked, log-after_record}
use sealedge.Platform.Handler.Sequential.{FromCheck, witness_check-FromCheck, recorded-above}

record_tip-recorded :
    (db : Db) (req : WitnessRequest) (registered : Bool) (prev : Option WitnessEntry) (now : Text)
    → NoKey req.device_pub req.sequence db.witness_log
    → (record_tip db (checked req registered (recorded prev)) now).1.witness_log
      ≡ db.witness_log ++ log_row req registered now ∷ []
unfolding record_tip witness_insert
record_tip-recorded db req registered prev now free =
    rw (NoKey-has_key req.device_pub req.sequence db.witness_log free, record_tip)

not-Increasing :
    (log : List LogRow) (late early : LogRow)
    → early.device_pub ≡ late.device_pub
    → early.sequence < late.sequence
    → ¬ Increasing ((log ++ late ∷ []) ++ early ∷ [])
not-Increasing [] late early p lt i = omega (arith, i.0.0 p)
not-Increasing (r ∷ log) late early p lt i = not-Increasing log late early p lt i.1

module _ (json_str : Text → Text) (c : Crates) (blake3 : Bytes → Bytes) (hex : Bytes → Text) where
  commit-recorded :
      (db : Db) (k : Checked) (prev : Option WitnessEntry) (now jti : Text)
      → k.decision ≡ recorded prev
      → NoKey k.request.device_pub k.request.sequence db.witness_log
      → (witness_commit json_str c blake3 hex db k now jti).1.witness_log
        ≡ db.witness_log ++ log_row k.request k.registered now ∷ []
  unfolding witness_commit
  commit-recorded db k prev now jti d free =
      log-after_record json_str c blake3 hex k jti (record_tip db k now).0 (record_tip db k now).1
      ∙ ap (λ x. (record_tip db (checked k.request k.registered x) now).1.witness_log) d
      ∙ record_tip-recorded db k.request k.registered prev now free

  -- The primary key does not keep the ledger monotonic. Take any two requests of one device that
  -- are both checked against the same database and decided to be recorded, `low` below `high`.
  -- When the commit of `high` comes first, both commits write: the ledger ends in the row of `high`
  -- and then the row of `low`, and is not increasing.
  pub interleaved_rollback :
      (db : Db) (low high : WitnessRequest) (kl kh : Checked) (pl ph : Option WitnessEntry)
      (now_h jti_h now_l jti_l : Text)
      → low.device_pub ≡ high.device_pub
      → low.sequence < high.sequence
      → witness_check json_str c db low ≡ ok kl
      → witness_check json_str c db high ≡ ok kh
      → kl.decision ≡ recorded pl
      → kh.decision ≡ recorded ph
      → let first = (witness_commit json_str c blake3 hex db kh now_h jti_h).1 in
        let second = (witness_commit json_str c blake3 hex first kl now_l jti_l).1 in
        (second.witness_log
          ≡ (db.witness_log ++ log_row high kh.registered now_h ∷ [])
            ++ log_row low kl.registered now_l ∷ [])
        × (¬ Increasing second.witness_log)
  interleaved_rollback db low high kl kh pl ph now_h jti_h now_l jti_l p lt cl ch dl dh = (
    log_second,
    subst (λ l. ¬ Increasing l) (sym log_second)
        (not-Increasing db.witness_log (log_row high kh.registered now_h)
          (log_row low kl.registered now_l) p lt),
  )
    where
      fl : FromCheck json_str c db low kl
      fl = witness_check-FromCheck json_str c db low kl cl

      fh : FromCheck json_str c db high kh
      fh = witness_check-FromCheck json_str c db high kh ch

      below :
          (req : WitnessRequest)
          → All (λ r. r.device_pub ≡ req.device_pub → r.sequence < req.sequence) db.witness_log
          → NoKey req.device_pub req.sequence db.witness_log
      below req = All-map (λ r h q e. omega (arith, h q)) db.witness_log

      log_first :
          (witness_commit json_str c blake3 hex db kh now_h jti_h).1.witness_log
          ≡ db.witness_log ++ log_row high kh.registered now_h ∷ []
      log_first =
          commit-recorded db kh ph now_h jti_h dh (
            rw fh.request
              (below high (recorded-above json_str c db high ph (sym fh.decision ∙ dh))))
          ∙ ap (λ q. db.witness_log ++ log_row q kh.registered now_h ∷ []) fh.request

      free_low :
          NoKey low.device_pub low.sequence
            (witness_commit json_str c blake3 hex db kh now_h jti_h).1.witness_log
      free_low = rw log_first (
          All-append _ db.witness_log (log_row high kh.registered now_h ∷ [])
            (below low (recorded-above json_str c db low pl (sym fl.decision ∙ dl)))
            ((λ q e. omega arith), tt))

      log_second :
          (witness_commit json_str c blake3 hex
            (witness_commit json_str c blake3 hex db kh now_h jti_h).1
            kl
            now_l
            jti_l).1.witness_log
          ≡ (db.witness_log ++ log_row high kh.registered now_h ∷ [])
            ++ log_row low kl.registered now_l ∷ []
      log_second =
          commit-recorded (witness_commit json_str c blake3 hex db kh now_h jti_h).1 kl pl now_l
            jti_l dl (rw fl.request free_low)
          ∙ ap
              (λ q.
                (witness_commit json_str c blake3 hex db kh now_h jti_h).1.witness_log
                ++ log_row q kl.registered now_l ∷ [])
              fl.request
          ∙ ap (λ l. l ++ log_row low kl.registered now_l ∷ []) log_first
