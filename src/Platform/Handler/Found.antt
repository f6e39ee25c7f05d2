-- ===== src/Platform/Handler/Found.antt =====
-- `decide` on a tip that the ledger holds: what the ledger's query and `find` come to.
use sealedge.Base.{
  ℕ, List, [], ◌∷◌, Text, bytes_eq, bytes_eq_iff, ◌≡◌, refl, ap, ◌∙◌, sym, true, Bool-cases, Option,
  Option-cases, some, Has, All-Has, inl, inr, ◌⊎◌, arith, subst,
}
use sealedge.Platform.Witness.{
  WitnessEntry, replay, find_sequence, prev_entry, decide, decide_found,
}
use sealedge.Platform.Witness.Ledger.{find_sequence-Has, find_sequence-none}
use sealedge.Platform.Database.{
  Db, LogRow, entry_of, rows_of, insert_entry, order_by_sequence, witness_entries,
}
use sealedge.Platform.Database.Rows.{witness_entries-Row}
use sealedge.Platform.Handler.Ledger.{UniqueKeys}
use sealedge.Platform.Handler.Backed.{Witnessed}

-- The primary key finds one row.
UniqueKeys-same :
    (log : List LogRow) (a b : LogRow)
    → UniqueKeys log
    → Has a log
    → Has b log
    → a.device_pub ≡ b.device_pub
    → a.sequence ≡ b.sequence
    → a ≡ b
UniqueKeys-same [] a b u ha hb d s = elim ha [ ]
UniqueKeys-same (r ∷ log) a b u (inl p) (inl q) d s = p ∙ sym q
UniqueKeys-same (r ∷ log) a b u (inl p) (inr hb) d s =
    let other = All-Has _ log b u.0 hb in
    absurd (
      other (sym d ∙ ap (λ (x : LogRow). x.device_pub) p)
        (sym s ∙ ap (λ (x : LogRow). x.sequence) p))
UniqueKeys-same (r ∷ log) a b u (inr ha) (inl q) d s =
    let other = All-Has _ log a u.0 ha in
    absurd (other (d ∙ ap (λ (x : LogRow). x.device_pub) q) (s ∙ ap (λ (x : LogRow). x.sequence) q))
UniqueKeys-same (r ∷ log) a b u (inr ha) (inr hb) d s = UniqueKeys-same log a b u.1 ha hb d s

Has-insert_entry :
    (e x : WitnessEntry) (l : List WitnessEntry) → (e ≡ x) ⊎ Has e l → Has e (insert_entry x l)
unfolding insert_entry
Has-insert_entry e x [] h = h
Has-insert_entry e x (y ∷ l) h = ground (arith, Has-insert_entry e x l)

Has-order_by_sequence :
    (e : WitnessEntry) (l : List WitnessEntry) → Has e l → Has e (order_by_sequence l)
unfolding order_by_sequence
Has-order_by_sequence e [] h = h
Has-order_by_sequence e (x ∷ l) (inl p) = Has-insert_entry e x (order_by_sequence l) (inl p)
Has-order_by_sequence e (x ∷ l) (inr h) =
    Has-insert_entry e x (order_by_sequence l) (inr (Has-order_by_sequence e l h))

Has-rows_of :
    (r : LogRow) (log : List LogRow) → Has r log → Has (entry_of r) (rows_of r.device_pub log)
unfolding rows_of
Has-rows_of r [] h = elim h [ ]
Has-rows_of r (x ∷ log) (inl p) =
    let mine : bytes_eq x.device_pub r.device_pub ≡ true =
      (bytes_eq_iff x.device_pub r.device_pub).1 (ap (λ (y : LogRow). y.device_pub) (sym p)) in
    rw mine (inl (ap entry_of p))
Has-rows_of r (x ∷ log) (inr h) = elim (Bool-cases (bytes_eq x.device_pub r.device_pub)) [
  | inl mine ↦ rw mine (inr (Has-rows_of r log h))
  | inr other ↦ rw other (Has-rows_of r log h)
]

-- The query for a witnessed sequence finds the row that holds it.
find_sequence-Witnessed :
    (db : Db) (device_pub : Text) (sequence : ℕ) (tip observed_at : Text)
    → UniqueKeys db.witness_log
    → (w : Witnessed db.witness_log device_pub sequence tip observed_at)
    → find_sequence sequence (witness_entries db device_pub) ≡ some (entry_of w.row)
find_sequence-Witnessed db device_pub sequence tip observed_at u w =
    let entries = witness_entries db device_pub in
    let listed : Has (entry_of w.row) entries =
      unfold witness_entries in
      Has-order_by_sequence (entry_of w.row) (rows_of device_pub db.witness_log) (
        subst (λ d. Has (entry_of w.row) (rows_of d db.witness_log)) w.device
          (Has-rows_of w.row db.witness_log w.in_log)) in
    elim (Option-cases (find_sequence sequence entries)) [
      | inl missing ↦
          let absent = find_sequence-none sequence entries missing in
          absurd (All-Has _ entries (entry_of w.row) absent listed w.at)
      | inr (e, found) ↦
          let (m, at) = find_sequence-Has sequence entries e found in
          let r = witness_entries-Row e db device_pub m in
          let same =
            UniqueKeys-same db.witness_log r.row w.row u r.in_log w.in_log
              (r.of_device ∙ sym w.device)
              (ap (λ (x : WitnessEntry). x.sequence) r.same ∙ at ∙ sym w.at) in
          found ∙ ap some (sym r.same ∙ ap entry_of same)
    ]

-- A tip that is in the ledger is decided as a replay of its own row.
pub decide-Witnessed :
    (db : Db) (device_pub : Text) (sequence : ℕ) (tip observed_at : Text)
    → UniqueKeys db.witness_log
    → Witnessed db.witness_log device_pub sequence tip observed_at
    → (e : WitnessEntry) × (prev : Option WitnessEntry) × (decide
          (witness_entries db device_pub)
          sequence
          tip
        ≡ replay e prev)
      × (e.observed_at ≡ observed_at)
unfolding decide decide_found
decide-Witnessed db device_pub sequence tip observed_at u w =
    let found = find_sequence-Witnessed db device_pub sequence tip observed_at u w in
    let hit = (bytes_eq_iff w.row.tip tip).1 w.same_tip in
    (
      entry_of w.row,
      prev_entry (witness_entries db device_pub) sequence,
      rw (found, hit) refl,
      w.since,
    )
