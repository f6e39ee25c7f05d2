-- ===== src/Platform/Database/Rows.antt =====
-- crates/platform/src/database/queries.rs: the rows that the queries over the witness log see.
use sealedge.Base.{
  ℕ, List, [], ◌∷◌, ◌++◌, Text, bytes_eq, bytes_eq_iff, ◌≡◌, refl, sym, false, some, ◌==◌, leb,
  ◌&&◌, All, Has, Bool-cases, inl, inr, ◌⊎◌, arith, ◌≢◌,
}
use sealedge.Platform.Witness.{WitnessEntry}
use sealedge.Platform.Database.{
  Db, LogRow, entry_of, rows_of, insert_entry, order_by_sequence, witness_entries, bigint_order,
  has_key, witness_insert,
}

insert_entry-All :
    (P : WitnessEntry → Type 0) (e : WitnessEntry) (l : List WitnessEntry)
    → All P (insert_entry e l)
    → P e × All P l
unfolding insert_entry
insert_entry-All P e [] h = h
insert_entry-All P e (x ∷ l) h =
    elim (Bool-cases (leb (bigint_order e.sequence) (bigint_order x.sequence))) [
      | inl first ↦ rw first at h
      | inr later ↦
          let k = rw later at h in let (he, hl) = insert_entry-All P e l k.1 in (he, (k.0, hl))
    ]

order_by_sequence-All :
    (P : WitnessEntry → Type 0) (l : List WitnessEntry) → All P (order_by_sequence l) → All P l
unfolding order_by_sequence
order_by_sequence-All P [] h = tt
order_by_sequence-All P (e ∷ l) h =
    let (he, hl) = insert_entry-All P e (order_by_sequence l) h in
    (he, order_by_sequence-All P l hl)

rows_of-All :
    (P : WitnessEntry → Type 0) (pub' : Text) (log : List LogRow)
    → All P (rows_of pub' log)
    → All (λ r. r.device_pub ≡ pub' → P (entry_of r)) log
unfolding rows_of
rows_of-All P pub' [] h = tt
rows_of-All P pub' (r ∷ log) h = elim (Bool-cases (bytes_eq r.device_pub pub')) [
  | inl mine ↦ let k = rw mine at h in (λ _. k.0, rows_of-All P pub' log k.1)
  | inr other ↦
      let k = rw other at h in
      (λ e. absurd (cc (other, (bytes_eq_iff r.device_pub pub').1 e)), rows_of-All P pub' log k)
]

-- What holds of every entry that the ledger query returns holds of every row of the device.
pub witness_entries-All :
    (P : WitnessEntry → Type 0) (db : Db) (pub' : Text)
    → All P (witness_entries db pub')
    → All (λ r. r.device_pub ≡ pub' → P (entry_of r)) db.witness_log
unfolding witness_entries
witness_entries-All P db pub' h =
    rows_of-All P pub' db.witness_log (order_by_sequence-All P (rows_of pub' db.witness_log) h)

insert_entry-Has :
    (e x : WitnessEntry) (l : List WitnessEntry) → Has e (insert_entry x l) → (e ≡ x) ⊎ Has e l
unfolding insert_entry
insert_entry-Has e x [] h = h
insert_entry-Has e x (y ∷ l) h = ground (arith, insert_entry-Has e x l)

order_by_sequence-Has :
    (e : WitnessEntry) (l : List WitnessEntry) → Has e (order_by_sequence l) → Has e l
unfolding order_by_sequence
order_by_sequence-Has e [] h = h
order_by_sequence-Has e (x ∷ l) h =
    ground (arith, insert_entry-Has e x (order_by_sequence l), order_by_sequence-Has e l)

-- The row of the log that an entry was read from.
pub record Row (log : List LogRow) (pub' : Text) (e : WitnessEntry) : Type 0 where
  pub row : LogRow
  pub in_log : Has row log
  pub of_device : row.device_pub ≡ pub'
  pub same : entry_of row ≡ e

Row-tail :
    (r : LogRow) (log : List LogRow) (pub' : Text) (e : WitnessEntry)
    → Row log pub' e
    → Row (r ∷ log) pub' e
Row-tail r log pub' e w = record {
  row = w.row;
  in_log = inr w.in_log;
  of_device = w.of_device;
  same = w.same;
}

rows_of-Row :
    (e : WitnessEntry) (pub' : Text) (log : List LogRow) → Has e (rows_of pub' log) → Row log pub' e
unfolding rows_of
rows_of-Row e pub' [] h = elim h [ ]
rows_of-Row e pub' (r ∷ log) h = elim (Bool-cases (bytes_eq r.device_pub pub')) [
  | inl mine ↦ elim (rw mine at h) [
    | inl here ↦ record {
      row = r;
      in_log = inl refl;
      of_device = (bytes_eq_iff r.device_pub pub').0 mine;
      same = sym here;
    }
    | inr there ↦ Row-tail r log pub' e (rows_of-Row e pub' log there)
  ]
  | inr other ↦ Row-tail r log pub' e (rows_of-Row e pub' log (rw other at h))
]

-- Every entry that the ledger query returns is a row of that device.
pub witness_entries-Row :
    (e : WitnessEntry) (db : Db) (pub' : Text)
    → Has e (witness_entries db pub')
    → Row db.witness_log pub' e
unfolding witness_entries
witness_entries-Row e db pub' h =
    rows_of-Row e pub' db.witness_log (order_by_sequence-Has e (rows_of pub' db.witness_log) h)

-- No row has the key.
abbrev pub NoKey : Text → ℕ → List LogRow → Type 0
NoKey pub' sequence = All (λ r. r.device_pub ≡ pub' → r.sequence ≢ sequence)

has_key-NoKey :
    (pub' : Text) (sequence : ℕ) (log : List LogRow)
    → has_key pub' sequence log ≡ false
    → NoKey pub' sequence log
unfolding has_key
has_key-NoKey pub' sequence [] h = tt
has_key-NoKey pub' sequence (r ∷ log) h = (
  λ p q. ground (arith, (bytes_eq_iff r.device_pub pub').1 p),
  has_key-NoKey pub' sequence log (ground arith),
)

pub NoKey-has_key :
    (pub' : Text) (sequence : ℕ) (log : List LogRow)
    → NoKey pub' sequence log
    → has_key pub' sequence log ≡ false
unfolding has_key
NoKey-has_key pub' sequence [] h = refl
NoKey-has_key pub' sequence (r ∷ log) h =
    elim (Bool-cases (bytes_eq r.device_pub pub' && r.sequence == sequence)) [
      | inl hit ↦ absurd (h.0 ((bytes_eq_iff r.device_pub pub').0 (ground arith)) (ground arith))
      | inr miss ↦ rw miss (NoKey-has_key pub' sequence log h.1)
    ]

-- An insert appends its row, and only where the key was free.
pub witness_insert-some :
    (db db' : Db) (row : LogRow)
    → witness_insert db row ≡ some db'
    → (db' ≡ record db { witness_log = db.witness_log ++ row ∷ [] })
      × NoKey row.device_pub row.sequence db.witness_log
unfolding witness_insert
witness_insert-some db db' row h =
    (ground arith, has_key-NoKey row.device_pub row.sequence db.witness_log (ground arith))
