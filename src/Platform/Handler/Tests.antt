-- ===== src/Platform/Handler/Tests.antt =====
-- The handlers at a concrete database, over the toy crates.
use sealedge.Base.{
  ℕ, ◌≡◌, refl, inl, inr, arith, Bytes, Text, str, [], ◌∷◌, ◌++◌, true, false, Option, none, some,
  ok, bytes_eq,
}
use sealedge.Json.Toy.{toy_json}
use sealedge.Crypto.{sign_manifest}
use sealedge.Crypto.Toy.{toy_crates, toy_laws, fit}
use sealedge.Crypto.Tests.{device, device-IsKeypair}
use sealedge.Chronicle.{
  WitnessRequest, request_signing_bytes, create_signed_request, verify_request,
}
use sealedge.Chronicle.Rotation.{verify_request-create_signed_request}
use sealedge.Chronicle.Tests.{toy_hash}
use sealedge.Platform.Witness.{
  WitnessEntry, recorded, decide, decide_found, decide_new, find_sequence, max_sequence, max_from,
  prev_entry, prev_from, latest, build, WitnessReceipt,
}
use sealedge.Platform.Revocation.{is_revoked, refuse_revoked_witness, refuse_superseded}
use sealedge.Platform.Database.{
  Db, LogRow, LineageRow, witness_entries, order_by_sequence, insert_entry, rows_of,
  get_device_revocation_by_pub, state_of, lineage_rotation_seq, rotated_away, witness_insert,
  has_key,
}
use sealedge.Platform.Handler.{
  Checked, binding, log_row, witness_check, witness_commit, witness_handler, finish, after_record,
  attach_rotation, receipt_of, record_tip,
}
use sealedge.Platform.Handler.Ledger.{Increasing}
use sealedge.Platform.Handler.Again.{witness_handler-again}
use sealedge.Platform.Handler.Rotated.{IsRotation, AreRotations, witness_handler-AreRotations}
use sealedge.Platform.Revocation.Tests.{rotation_tip}
use sealedge.Chronicle.Tests.{rotation, rotation-ok}
use sealedge.Crypto.Tests.{successor}
use sealedge.Platform.Handler.Sequential.{witness_handler-Increasing}
use sealedge.Platform.Handler.Backed.{Witnessed, witness_handler-Witnessed}
use sealedge.Platform.Handler.Race.{interleaved_rollback}

abbrev toy_hex : Bytes → Text
toy_hex b = b

abbrev unsigned_request : ℕ → WitnessRequest
unsigned_request sequence = record {
  device_pub = device.public;
  sequence = sequence;
  tip = str "b3:01";
  signed_at = str "s";
  signature = [];
  rotation = none;
}

abbrev request : ℕ → WitnessRequest
request sequence = record (unsigned_request sequence) {
  signature =
      str "ed25519:"
      ++ fit 64
          (fit 32 device.secret ++ request_signing_bytes toy_json (unsigned_request sequence));
}

request-created :
    (sequence : ℕ)
    → create_signed_request toy_json toy_crates device sequence (str "b3:01") (str "s")
      ≡ ok (request sequence)
unfolding create_signed_request sign_manifest
request-created sequence = refl

request-ok : (sequence : ℕ) → verify_request toy_json toy_crates (request sequence) ≡ true
request-ok sequence = ground (
  arith,
  request-created sequence,
  verify_request-create_signed_request toy_json toy_crates toy_laws device sequence (str "b3:01")
      (str "s") device-IsKeypair,
)

abbrev row : LogRow
row = record {
  device_pub = device.public;
  sequence = 2;
  tip = str "b3:00";
  observed_at = str "t";
  device_registered = false;
  signed_at = str "s";
}

abbrev db : Db
db = record { devices = []; witness_log = row ∷ []; device_lineage = [] }

abbrev before : Option WitnessEntry
before = some (record { sequence = 2; tip = str "b3:00"; observed_at = str "t" })

abbrev checked_request : ℕ → Checked
checked_request sequence = record {
  request = request sequence;
  registered = false;
  decision = recorded before;
}

witness_handler-Increasing_example :
    Increasing
      (witness_handler toy_json toy_crates toy_hash toy_hex db
        (request 3)
        (str "now")
        (str "j")).1.witness_log
witness_handler-Increasing_example =
    witness_handler-Increasing toy_json toy_crates toy_hash toy_hex db (request 3) (str "now")
      (str "j") (tt, tt)

check-3 : witness_check toy_json toy_crates db (request 3) ≡ ok (checked_request 3)
unfolding witness_check binding get_device_revocation_by_pub state_of lineage_rotation_seq
    rotated_away witness_entries order_by_sequence insert_entry rows_of decide decide_found
    decide_new find_sequence max_sequence max_from prev_entry prev_from latest bytes_eq is_revoked
    refuse_revoked_witness refuse_superseded fit
check-3 = rw (request-ok 3) refl

check-4 : witness_check toy_json toy_crates db (request 4) ≡ ok (checked_request 4)
unfolding witness_check binding get_device_revocation_by_pub state_of lineage_rotation_seq
    rotated_away witness_entries order_by_sequence insert_entry rows_of decide decide_found
    decide_new find_sequence max_sequence max_from prev_entry prev_from latest bytes_eq is_revoked
    refuse_revoked_witness refuse_superseded fit
check-4 = rw (request-ok 4) refl

receipt-3 :
    (witness_handler toy_json toy_crates toy_hash toy_hex db (request 3) (str "now") (str "j")).0
    ≡ ok (build device.public false 3 (str "b3:01") (str "now") before (str "j"))
unfolding witness_handler finish witness_commit after_record attach_rotation receipt_of record_tip
    witness_insert has_key bytes_eq fit build
receipt-3 = rw check-3 refl

witness_handler-Witnessed_example :
    Witnessed
      (witness_handler toy_json toy_crates toy_hash toy_hex db
        (request 3)
        (str "now")
        (str "j")).1.witness_log
      device.public
      3
      (str "b3:01")
      (str "now")
unfolding build
witness_handler-Witnessed_example =
    witness_handler-Witnessed toy_json toy_crates toy_hash toy_hex db (request 3) (str "now")
      (str "j") (build device.public false 3 (str "b3:01") (str "now") before (str "j")) receipt-3

abbrev after_four : Db
after_four =
    (witness_commit toy_json toy_crates toy_hash toy_hex db (checked_request 4) (str "n4")
      (str "j4")).1

abbrev after_three : Db
after_three =
    (witness_commit toy_json toy_crates toy_hash toy_hex after_four (checked_request 3) (str "n3")
      (str "j3")).1

interleaved_rollback_example :
    (after_three.witness_log
      ≡ (db.witness_log ++ log_row (request 4) false (str "n4") ∷ [])
        ++ log_row (request 3) false (str "n3") ∷ [])
    × (¬ Increasing after_three.witness_log)
interleaved_rollback_example =
    interleaved_rollback toy_json toy_crates toy_hash toy_hex db (request 3) (request 4)
      (checked_request 3) (checked_request 4) before before (str "n4") (str "j4") (str "n3")
      (str "j3") refl (omega arith) check-3 check-4 refl refl

witness_handler-again_example :
    (again : WitnessReceipt) × (witness_handler toy_json toy_crates toy_hash toy_hex
        (witness_handler toy_json toy_crates toy_hash toy_hex db
          (request 3)
          (str "now")
          (str "j")).1
        (request 3)
        (str "later")
        (str "k")
      ≡ (
        ok again,
        (witness_handler toy_json toy_crates toy_hash toy_hex db
            (request 3)
            (str "now")
            (str "j")).1,
      ))
    × (again.device_pub ≡ device.public)
    × (again.sequence ≡ 3)
    × (again.tip ≡ str "b3:01")
    × (again.observed_at ≡ str "now")
    × (again.jti ≡ str "k")
unfolding build
witness_handler-again_example =
    witness_handler-again toy_json toy_crates toy_hash toy_hex db (request 3) (str "now") (str "j")
      (str "later") (str "k")
      (build device.public false 3 (str "b3:01") (str "now") before (str "j")) (tt, tt) receipt-3

-- The row of the rotation that the new key witnessed, and its lineage.
abbrev rotation_row : LogRow
rotation_row = record {
  device_pub = successor.public;
  sequence = 3;
  tip = rotation_tip;
  observed_at = str "t";
  device_registered = false;
  signed_at = str "s";
}

abbrev lineage : LineageRow
lineage = record {
  new_pub = successor.public;
  old_pub = device.public;
  rotation_seq = 3;
  observed_at = str "t";
}

abbrev rotated : Db
rotated = record {
  devices = [];
  witness_log = row ∷ rotation_row ∷ [];
  device_lineage = lineage ∷ [];
}

lineage-IsRotation : IsRotation toy_json toy_crates toy_hash toy_hex rotated.witness_log lineage
lineage-IsRotation = record {
  rotation = rotation;
  verified = rotation-ok;
  to_key = refl;
  from_key = refl;
  at_seq = refl;
  witnessed = record {
    row = rotation_row;
    in_log = inr (inl refl);
    device = refl;
    at = refl;
    same_tip = refl;
    since = refl;
  };
}

witness_handler-AreRotations_example :
    AreRotations toy_json toy_crates toy_hash toy_hex
      (witness_handler toy_json toy_crates toy_hash toy_hex rotated
        (request 3)
        (str "now")
        (str "j")).1
witness_handler-AreRotations_example =
    witness_handler-AreRotations toy_json toy_crates toy_hash toy_hex rotated (request 3)
      (str "now") (str "j") (lineage-IsRotation, tt)
