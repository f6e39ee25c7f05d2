-- ===== src/Platform/Revocation/Tests.antt =====
-- Revocation and lineage at concrete inputs, over the toy crates. A time is as late as its text is
-- long.
use sealedge.Base.{
  ℕ, ◌≡◌, ◌⊎◌, arith, Bytes, Text, str, List, [], ◌∷◌, Option, none, some, length, bytes_eq_refl,
}
use sealedge.Json.Toy.{toy_json, toy_json_laws}
use sealedge.Crypto.Toy.{toy_crates}
use sealedge.Crypto.Tests.{device, successor}
use sealedge.Chain.Tamper.{Collision}
use sealedge.Chronicle.{rotation_digest, format_archive_id}
use sealedge.Chronicle.Tests.{toy_hash, rotation, rotation-ok}
use sealedge.Platform.Revocation.{RevocationState, verify_lineage_rotation, bound}
use sealedge.Platform.Revocation.Monotone.{Request, run, Tighter, run-Tighter}
use sealedge.Platform.Revocation.Lineage.{lineage_unique}

abbrev toy_parse : Text → Option ℕ
toy_parse t = some (length t)

abbrev state : RevocationState
state = record { revoked_at = some (str "2026"); min_epoch = some 2 }

abbrev requests : List Request
requests =
    record { revoked_at = some (str "202"); min_epoch = some 3; now = str "now" }
    ∷ record { revoked_at = some (str "20266"); min_epoch = none; now = str "now" }
    ∷ record { revoked_at = none; min_epoch = some 1; now = str "now" }
    ∷ []

run-Tighter_example : Tighter toy_parse state (run toy_parse state requests)
run-Tighter_example = run-Tighter toy_parse state requests

abbrev toy_hex : Bytes → Text
toy_hex b = b

abbrev pub rotation_tip : Text
rotation_tip = format_archive_id toy_hex (rotation_digest toy_json toy_hash rotation)

pub rotation-bound :
    verify_lineage_rotation toy_json toy_crates toy_hash toy_hex rotation successor.public 3
      rotation_tip
    ≡ bound device.public 3
unfolding verify_lineage_rotation
rotation-bound =
    ground (arith, rotation-ok, bytes_eq_refl successor.public, bytes_eq_refl rotation_tip)

lineage_unique_example :
    ((record rotation { sig_old = rotation.sig_old; sig_new = rotation.sig_new } ≡ rotation)
      × (device.public ≡ device.public))
    ⊎ Collision toy_hash
lineage_unique_example =
    lineage_unique toy_json toy_crates toy_hash toy_hex toy_json_laws (λ a b e. e) rotation rotation
      successor.public 3 rotation_tip device.public device.public 3 3 rotation-bound rotation-bound
