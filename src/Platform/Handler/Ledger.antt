-- ===== src/Platform/Handler/Ledger.antt =====
-- `witness_commit`: what it writes to the ledger, whatever other requests have written since the check.
use sealedge.Base.{
  ◌<◌, List, [], ◌∷◌, ◌++◌, Bytes, Text, ◌≡◌, refl, ap, sym, Bool, Option, none, some, Option-cases,
  Result, ok, err, All, All-append, inl, inr, arith,
}
use sealedge.Crypto.{Crates}
use sealedge.Chronicle.{WitnessRequest, RotationRecord}
use sealedge.Platform.Witness.{WitnessEntry, WitnessDecision, recorded, replay, fork, rollback}
use sealedge.Platform.Database.{Db, LogRow, witness_insert, lineage_insert}
use sealedge.Platform.Database.Rows.{NoKey, witness_insert-some}
use sealedge.Platform.Handler.{
  Refusal, Checked, log_row, record_tip, record_lineage, attach_rotation, after_record,
  witness_commit,
}

-- The primary key: no two rows with one device and one sequence.
abbrev pub UniqueKeys : List LogRow → Type 0
UniqueKeys [] = Unit {0}
UniqueKeys (r ∷ rest) = NoKey r.device_pub r.sequence rest × UniqueKeys rest

-- Each row of a device lies above the rows that were inserted before it.
abbrev pub Increasing : List LogRow → Type 0
Increasing [] = Unit {0}
Increasing (r ∷ rest) =
    All (λ x. x.device_pub ≡ r.device_pub → r.sequence < x.sequence) rest × Increasing rest

UniqueKeys-snoc :
    (log : List LogRow) (row : LogRow)
    → UniqueKeys log
    → NoKey row.device_pub row.sequence log
    → UniqueKeys (log ++ row ∷ [])
UniqueKeys-snoc [] row u n = (tt, tt)
UniqueKeys-snoc (r ∷ log) row u n = (
  All-append _ log (row ∷ []) u.0 ((λ p q. n.0 (sym p) (sym q)), tt),
  UniqueKeys-snoc log row u.1 n.1,
)

pub Increasing-snoc :
    (log : List LogRow) (row : LogRow)
    → Increasing log
    → All (λ x. x.device_pub ≡ row.device_pub → x.sequence < row.sequence) log
    → Increasing (log ++ row ∷ [])
Increasing-snoc [] row u n = (tt, tt)
Increasing-snoc (r ∷ log) row u n =
    (All-append _ log (row ∷ []) u.0 ((λ p. n.0 (sym p)), tt), Increasing-snoc log row u.1 n.1)

-- The ledger after a commit: as it was, or with the row of a recorded tip at its end.
pub data Written (db : Db) (k : Checked) (now : Text) (log : List LogRow) : Type 0 where
  unchanged : log ≡ db.witness_log → Written db k now log
  appended :
      (prev : Option WitnessEntry)
      → k.decision ≡ recorded prev
      → log ≡ db.witness_log ++ log_row k.request k.registered now ∷ []
      → NoKey k.request.device_pub k.request.sequence db.witness_log
      → Written db k now log

abbrev pub checked : WitnessRequest → Bool → WitnessDecision → Checked
checked request registered decision = record {
  request = request;
  registered = registered;
  decision = decision;
}

Written-checked :
    (db : Db) (req : WitnessRequest) (registered : Bool) (d : WitnessDecision) (now : Text)
    → Written db
        (checked req registered d)
        now
        (record_tip db (checked req registered d) now).1.witness_log
unfolding record_tip
Written-checked db req registered (fork t) now = unchanged refl
Written-checked db req registered (rollback m) now = unchanged refl
Written-checked db req registered (replay x prev) now = unchanged refl
Written-checked db req registered (recorded prev) now =
    let row = log_row req registered now in
    elim (Option-cases (witness_insert db row)) [
      | inl taken ↦ rw (taken, record_tip) (unchanged refl)
      | inr (db', done) ↦
          let (same, free) = witness_insert-some db db' row done in
          rw (done, record_tip) (appended prev refl (ap (λ (d : Db). d.witness_log) same) free)
    ]

pub Written-record_tip :
    (db : Db) (k : Checked) (now : Text) → Written db k now (record_tip db k now).1.witness_log
Written-record_tip db k now = Written-checked db k.request k.registered k.decision now

module _ (json_str : Text → Text) (c : Crates) (blake3 : Bytes → Bytes) (hex : Bytes → Text) where
  pub log-attach_rotation :
      (db : Db) (req : WitnessRequest) (observed_at : Text) (rotation : Option RotationRecord)
      → (attach_rotation json_str c blake3 hex db req observed_at rotation).1.witness_log
        ≡ db.witness_log
  unfolding attach_rotation record_lineage lineage_insert
  log-attach_rotation db req observed_at none = refl
  log-attach_rotation db req observed_at (some rec) = ground arith

  pub log-after_record :
      (k : Checked) (jti : Text) (r : Result Refusal (Text × Option WitnessEntry)) (db : Db)
      → (after_record json_str c blake3 hex k jti r db).1.witness_log ≡ db.witness_log
  unfolding after_record
  log-after_record k jti (err e) db = refl
  log-after_record k jti (ok (observed_at, prev)) db =
      log-attach_rotation db k.request observed_at k.request.rotation

  -- A commit, whatever it was checked against, leaves the ledger as it is or appends one row.
  pub Written-witness_commit :
      (db : Db) (k : Checked) (now jti : Text)
      → Written db k now (witness_commit json_str c blake3 hex db k now jti).1.witness_log
  unfolding witness_commit
  Written-witness_commit db k now jti =
      let (r, db') = record_tip db k now in
      rw (log-after_record k jti r db') (Written-record_tip db k now)

  -- Every commit keeps the primary key unique, also when other requests have written to the ledger
  -- since it was checked: the decision that it carries may be any.
  pub witness_commit-UniqueKeys :
      (db : Db) (k : Checked) (now jti : Text)
      → UniqueKeys db.witness_log
      → UniqueKeys (witness_commit json_str c blake3 hex db k now jti).1.witness_log
  witness_commit-UniqueKeys db k now jti u = elim (Written-witness_commit db k now jti) [
    | unchanged e ↦ rw e u
    | appended prev d e free ↦
        rw e (UniqueKeys-snoc db.witness_log (log_row k.request k.registered now) u free)
  ]
