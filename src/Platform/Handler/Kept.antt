-- ===== src/Platform/Handler/Kept.antt =====
-- `record_tip` and `lineage_insert`: what they leave of the two tables.
use sealedge.Base.{
  Bool, ℕ, List, [], ◌∷◌, ◌++◌, Text, ◌≡◌, refl, ap, Bool-cases, Option-cases, Has, All, All-append,
  inl, inr,
}
use sealedge.Chronicle.{WitnessRequest}
use sealedge.Platform.Witness.{WitnessDecision, recorded, replay, fork, rollback}
use sealedge.Platform.Database.{Db, LogRow, LineageRow, has_new_pub, lineage_insert, witness_insert}
use sealedge.Platform.Database.Rows.{witness_insert-some}
use sealedge.Platform.Handler.{Checked, log_row, record_tip}
use sealedge.Platform.Handler.Ledger.{Written, unchanged, appended, checked}
use sealedge.Platform.Handler.Backed.{Witnessed}

pub lineage-checked :
    (db : Db) (req : WitnessRequest) (registered : Bool) (d : WitnessDecision) (now : Text)
    → (record_tip db (checked req registered d) now).1.device_lineage ≡ db.device_lineage
unfolding record_tip
lineage-checked db req registered (fork t) now = refl
lineage-checked db req registered (rollback m) now = refl
lineage-checked db req registered (replay x prev) now = refl
lineage-checked db req registered (recorded prev) now =
    let row = log_row req registered now in
    elim (Option-cases (witness_insert db row)) [
      | inl taken ↦ rw (taken, record_tip) refl
      | inr (db', done) ↦
          rw (done, record_tip)
            (ap (λ (d : Db). d.device_lineage) ((witness_insert-some db db' row done).0))
    ]

Has-append : (r : LogRow) (log more : List LogRow) → Has r log → Has r (log ++ more)
Has-append r [] more h = elim h [ ]
Has-append r (x ∷ log) more (inl e) = inl e
Has-append r (x ∷ log) more (inr h) = inr (Has-append r log more h)

-- What the ledger held it still holds.
pub Witnessed-Written :
    (db : Db) (k : Checked) (now : Text) (log : List LogRow) (device_pub : Text) (sequence : ℕ)
    (tip observed_at : Text)
    → Written db k now log
    → Witnessed db.witness_log device_pub sequence tip observed_at
    → Witnessed log device_pub sequence tip observed_at
Witnessed-Written db k now log device_pub sequence tip observed_at (unchanged e) w = rw e w
Witnessed-Written db k now log device_pub sequence tip observed_at (appended prev d e free) w =
    rw e (record {
      row = w.row;
      in_log = Has-append w.row db.witness_log (log_row k.request k.registered now ∷ []) w.in_log;
      device = w.device;
      at = w.at;
      same_tip = w.same_tip;
      since = w.since;
    })

pub lineage_insert-All :
    (P : LineageRow → Type 0) (db : Db) (row : LineageRow)
    → All P db.device_lineage
    → P row
    → All P (lineage_insert db row).device_lineage
unfolding lineage_insert
lineage_insert-All P db row a h = elim (Bool-cases (has_new_pub row.new_pub db.device_lineage)) [
  | inl taken ↦ rw taken a
  | inr free ↦ rw free (All-append P db.device_lineage (row ∷ []) a (h, tt))
]
