-- ===== src/Platform/Handler/Lineage.antt =====
-- `record_lineage`: a rotation that is attached, and attached again.
use sealedge.Base.{
  ℕ, List, [], ◌∷◌, ◌++◌, Bytes, Text, bytes_eq, bytes_eq_refl, ◌≡◌, refl, ap, ◌∙◌, true,
  Bool-cases, Option, some, none, ok, inl, inr, ◌⊎◌,
}
use sealedge.Crypto.{Crates}
use sealedge.Chronicle.{WitnessRequest, RotationRecord}
use sealedge.Platform.Revocation.{verify_lineage_rotation, LineageCheck, bound, refused}
use sealedge.Platform.Database.{witness_entry_at, Db, LineageRow, has_new_pub, lineage_insert}
use sealedge.Platform.Handler.{attach_rotation, record_lineage, predecessor_agrees}

has_new_pub-snoc :
    (log : List LineageRow) (row : LineageRow) → has_new_pub row.new_pub (log ++ row ∷ []) ≡ true
unfolding has_new_pub
has_new_pub-snoc [] row = rw (bytes_eq_refl row.new_pub) refl
has_new_pub-snoc (l ∷ log) row = elim (Bool-cases (bytes_eq l.new_pub row.new_pub)) [
  | inl mine ↦ rw mine refl
  | inr other ↦ rw other (has_new_pub-snoc log row)
]

-- A second row for the same new key is not inserted.
lineage_insert-again :
    (db : Db) (row again : LineageRow)
    → again.new_pub ≡ row.new_pub
    → lineage_insert (lineage_insert db row) again ≡ lineage_insert db row
unfolding lineage_insert
lineage_insert-again db row again same =
    elim (Bool-cases (has_new_pub row.new_pub db.device_lineage)) [
      | inl taken ↦ rw (taken, same, taken) refl
      | inr free ↦ rw (free, same, has_new_pub-snoc db.device_lineage row) refl
    ]

pub LineageCheck-cases :
    (x : LineageCheck)
    → ((old_pub : Text) × (rotation_seq : ℕ) × (x ≡ bound old_pub rotation_seq))
      ⊎ ((msg : Text) × (x ≡ refused msg))
LineageCheck-cases (bound old_pub rotation_seq) = inl (old_pub, rotation_seq, refl)
LineageCheck-cases (refused msg) = inr (msg, refl)

-- The predecessor is looked up in the ledger, which an insert of a lineage leaves alone.
predecessor_agrees-lineage_insert :
    (db : Db) (row : LineageRow) (rec : RotationRecord) (old_pub : Text) (rotation_seq : ℕ)
    → predecessor_agrees (lineage_insert db row) rec old_pub rotation_seq
      ≡ predecessor_agrees db rec old_pub rotation_seq
unfolding predecessor_agrees lineage_insert witness_entry_at
predecessor_agrees-lineage_insert db row rec old_pub rotation_seq =
    elim (Bool-cases (has_new_pub row.new_pub db.device_lineage)) [
      | inl taken ↦ rw taken refl
      | inr free ↦ rw free refl
    ]

abbrev pub lineage_row : Text → Text → ℕ → Text → LineageRow
lineage_row new_pub old_pub rotation_seq observed_at = record {
  new_pub = new_pub;
  old_pub = old_pub;
  rotation_seq = rotation_seq;
  observed_at = observed_at;
}

module _ (json_str : Text → Text) (c : Crates) (blake3 : Bytes → Bytes) (hex : Bytes → Text) where
  -- A rotation that passes both checks is inserted.
  record_lineage-bound :
      (db : Db) (req : WitnessRequest) (observed_at : Text) (rec : RotationRecord) (old_pub : Text)
      (rotation_seq : ℕ)
      → verify_lineage_rotation json_str c blake3 hex rec req.device_pub req.sequence req.tip
        ≡ bound old_pub rotation_seq
      → predecessor_agrees db rec old_pub rotation_seq ≡ true
      → record_lineage json_str c blake3 hex db req observed_at rec
        ≡ (ok tt, lineage_insert db (lineage_row req.device_pub old_pub rotation_seq observed_at))
  unfolding record_lineage
  record_lineage-bound db req observed_at rec old_pub rotation_seq x agrees =
      rw (x, agrees, record_lineage) refl

  record_lineage-ok :
      (db : Db) (req : WitnessRequest) (observed_at : Text) (rec : RotationRecord)
      → (record_lineage json_str c blake3 hex db req observed_at rec).0 ≡ ok tt
      → (old_pub : Text) × (rotation_seq : ℕ) × (verify_lineage_rotation json_str c blake3 hex rec
            req.device_pub req.sequence req.tip
          ≡ bound old_pub rotation_seq)
        × (predecessor_agrees db rec old_pub rotation_seq ≡ true)
  unfolding record_lineage
  record_lineage-ok db req observed_at rec h =
      elim (LineageCheck-cases
        (verify_lineage_rotation json_str c blake3 hex rec req.device_pub req.sequence req.tip)) [
          | inr (msg, x) ↦ absurd (cc (rw (x, record_lineage) at h))
          | inl (old_pub, rotation_seq, x) ↦
              elim (Bool-cases (predecessor_agrees db rec old_pub rotation_seq)) [
                | inr differs ↦ absurd (cc (rw (x, differs, record_lineage) at h))
                | inl agrees ↦ (old_pub, rotation_seq, x, agrees)
              ]
        ]

  -- A rotation that was attached is attached again, with no change.
  record_lineage-again :
      (db : Db) (req : WitnessRequest) (first again : Text) (rec : RotationRecord)
      → (record_lineage json_str c blake3 hex db req first rec).0 ≡ ok tt
      → record_lineage json_str c blake3 hex
          (record_lineage json_str c blake3 hex db req first rec).1
          req
          again
          rec
        ≡ (ok tt, (record_lineage json_str c blake3 hex db req first rec).1)
  record_lineage-again db req first again rec h =
      let (old_pub, rotation_seq, x, agrees) = record_lineage-ok db req first rec h in
      let row = lineage_row req.device_pub old_pub rotation_seq first in
      let row' = lineage_row req.device_pub old_pub rotation_seq again in
      let agrees' = predecessor_agrees-lineage_insert db row rec old_pub rotation_seq ∙ agrees in
      rw (record_lineage-bound db req first rec old_pub rotation_seq x agrees) (
        record_lineage-bound (lineage_insert db row) req again rec old_pub rotation_seq x agrees'
        ∙ ap (λ (d : Db). (ok tt, d)) (lineage_insert-again db row row' refl))

  pub attach_rotation-again :
      (db : Db) (req : WitnessRequest) (first again : Text) (rotation : Option RotationRecord)
      → (attach_rotation json_str c blake3 hex db req first rotation).0 ≡ ok tt
      → attach_rotation json_str c blake3 hex
          (attach_rotation json_str c blake3 hex db req first rotation).1
          req
          again
          rotation
        ≡ (ok tt, (attach_rotation json_str c blake3 hex db req first rotation).1)
  unfolding attach_rotation
  attach_rotation-again db req first again none h = refl
  attach_rotation-again db req first again (some rec) h =
      record_lineage-again db req first again rec h
