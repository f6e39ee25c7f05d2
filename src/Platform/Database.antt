-- ===== src/Platform/Database.antt =====
-- crates/platform/src/database/queries.rs: the tables of the witness ledger and of revocation, and
-- the queries over them. A table is the list of its rows in order of insertion; a query that wants
-- one row takes the first that matches. The pool does not fail.
pub mod Rows
use sealedge.Base.{
  ℕ, ◌+◌, ◌%◌, ◌^◌, List, [], ◌∷◌, ◌++◌, Text, str, bytes_eq, Bool, true, false, Option, none, some,
  ◌==◌, leb, ◌&&◌, if◌then◌else◌,
}
use sealedge.Platform.Witness.{WitnessEntry}
use sealedge.Platform.Revocation.{RevocationState}

pub record LogRow : Type 0 where
  pub device_pub : Text
  pub sequence : ℕ
  pub tip : Text
  pub observed_at : Text
  pub device_registered : Bool
  pub signed_at : Text

pub record LineageRow : Type 0 where
  pub new_pub : Text
  pub old_pub : Text
  pub rotation_seq : ℕ
  pub observed_at : Text

pub record DeviceRow : Type 0 where
  pub id : ℕ
  pub org_id : ℕ
  pub device_pub : Text
  pub revoked_at : Option Text
  pub min_epoch : Option ℕ
  pub status : Text

pub record Db : Type 0 where
  pub devices : List DeviceRow
  pub witness_log : List LogRow
  pub device_lineage : List LineageRow

abbrev pub entry_of : LogRow → WitnessEntry
entry_of r = record { sequence = r.sequence; tip = r.tip; observed_at = r.observed_at }

-- `WHERE device_pub = $1`
unfoldable pub rows_of : Text → List LogRow → List WitnessEntry
rows_of device_pub [] = []
rows_of device_pub (r ∷ rest) =
    let others = rows_of device_pub rest in
    if bytes_eq r.device_pub device_pub then entry_of r ∷ others else others

-- A `u64` is stored as `i64`: numbers from 2 ^ 63 on are negative, and come first.
abbrev pub bigint_order : ℕ → ℕ
bigint_order sequence = (sequence + 2 ^ 63) % 2 ^ 64

unfoldable pub insert_entry : WitnessEntry → List WitnessEntry → List WitnessEntry
insert_entry e [] = e ∷ []
insert_entry e (x ∷ rest) =
    let later = x ∷ insert_entry e rest in
    if leb (bigint_order e.sequence) (bigint_order x.sequence) then e ∷ x ∷ rest else later

-- `ORDER BY sequence`
unfoldable pub order_by_sequence : List WitnessEntry → List WitnessEntry
unfolding insert_entry
order_by_sequence [] = []
order_by_sequence (e ∷ rest) = insert_entry e (order_by_sequence rest)

unfoldable pub witness_entries : Db → Text → List WitnessEntry
witness_entries db device_pub = order_by_sequence (rows_of device_pub db.witness_log)

unfoldable pub has_key : Text → ℕ → List LogRow → Bool
has_key device_pub sequence [] = false
has_key device_pub sequence (r ∷ rest) =
    if bytes_eq r.device_pub device_pub && r.sequence == sequence
    then true
    else has_key device_pub sequence rest

-- The insert fails when the primary key `(device_pub, sequence)` is taken.
unfoldable pub witness_insert : Db → LogRow → Option Db
witness_insert db row =
    if has_key row.device_pub row.sequence db.witness_log
    then none
    else some (record db { witness_log = db.witness_log ++ row ∷ [] })

unfoldable pub entry_at : Text → ℕ → List LogRow → Option WitnessEntry
entry_at device_pub sequence [] = none
entry_at device_pub sequence (r ∷ rest) =
    if bytes_eq r.device_pub device_pub && r.sequence == sequence
    then some (entry_of r)
    else entry_at device_pub sequence rest

unfoldable pub witness_entry_at : Db → Text → ℕ → Option WitnessEntry
witness_entry_at db device_pub sequence = entry_at device_pub sequence db.witness_log

unfoldable pub state_of : Text → List DeviceRow → Option RevocationState
state_of device_pub [] = none
state_of device_pub (d ∷ rest) =
    if bytes_eq d.device_pub device_pub
    then some (record { revoked_at = d.revoked_at; min_epoch = d.min_epoch })
    else state_of device_pub rest

unfoldable pub get_device_revocation_by_pub : Db → Text → Option RevocationState
get_device_revocation_by_pub db device_pub = state_of device_pub db.devices

unfoldable pub tenant_state : ℕ → ℕ → List DeviceRow → Option RevocationState
tenant_state org_id id [] = none
tenant_state org_id id (d ∷ rest) =
    if d.id == id && d.org_id == org_id
    then some (record { revoked_at = d.revoked_at; min_epoch = d.min_epoch })
    else tenant_state org_id id rest

unfoldable pub get_device_revocation : Db → ℕ → ℕ → Option RevocationState
get_device_revocation db org_id id = tenant_state org_id id db.devices

unfoldable pub update_rows : ℕ → ℕ → Text → Option ℕ → List DeviceRow → List DeviceRow × Bool
update_rows org_id id revoked_at min_epoch [] = ([], false)
update_rows org_id id revoked_at min_epoch (d ∷ rest) =
    let (others, any) = update_rows org_id id revoked_at min_epoch rest in
    if d.id == id && d.org_id == org_id
    then (
      record d { revoked_at = some revoked_at; min_epoch = min_epoch; status = str "revoked" }
          ∷ others,
      true,
    )
    else (d ∷ others, any)

-- The update of the revocation columns, and whether a row was changed.
unfoldable pub set_device_revocation : Db → ℕ → ℕ → Text → Option ℕ → Db × Bool
set_device_revocation db org_id id revoked_at min_epoch =
    let (devices, updated) = update_rows org_id id revoked_at min_epoch db.devices in
    (record db { devices = devices }, updated)

unfoldable pub rotated_away : Text → List LineageRow → Option ℕ
rotated_away old_pub [] = none
rotated_away old_pub (l ∷ rest) =
    if bytes_eq l.old_pub old_pub then some l.rotation_seq else rotated_away old_pub rest

unfoldable pub lineage_rotation_seq : Db → Text → Option ℕ
lineage_rotation_seq db old_pub = rotated_away old_pub db.device_lineage

unfoldable pub has_new_pub : Text → List LineageRow → Bool
has_new_pub new_pub [] = false
has_new_pub new_pub (l ∷ rest) =
    if bytes_eq l.new_pub new_pub then true else has_new_pub new_pub rest

-- `ON CONFLICT (new_pub) DO NOTHING`
unfoldable pub lineage_insert : Db → LineageRow → Db
lineage_insert db row =
    if has_new_pub row.new_pub db.device_lineage
    then db
    else record db { device_lineage = db.device_lineage ++ row ∷ [] }
