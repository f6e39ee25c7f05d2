-- ===== src/Platform/Handler/Revoke/Tests.antt =====
-- The revoke handler at a concrete database. A time is as late as its text is long.
use sealedge.Base.{ℕ, ◌≡◌, refl, Text, str, [], ◌∷◌, Option, none, some, ok, length}
use sealedge.Platform.Revocation.{decide_revoke, resolve_revoked_at, resolve_earlier, resolve_epoch}
use sealedge.Platform.Database.{
  Db, DeviceRow, get_device_revocation, tenant_state, set_device_revocation, update_rows,
}
use sealedge.Platform.Handler.{
  RevokeRequest, RevokeResponse, revoke_device_handler, revoke_found, apply_outcome,
}
use sealedge.Platform.Handler.Revoke.{
  Kept, revoke_device_handler-Kept, revoke_device_handler-stored,
}

abbrev toy_parse : Text → Option ℕ
toy_parse t = some (length t)

abbrev device_row : DeviceRow
device_row = record {
  id = 1;
  org_id = 9;
  device_pub = str "ed25519:k";
  revoked_at = some (str "2026");
  min_epoch = some 2;
  status = str "active";
}

abbrev db : Db
db = record { devices = device_row ∷ []; witness_log = []; device_lineage = [] }

abbrev earlier : RevokeRequest
earlier = record { revoked_at = some (str "202"); min_epoch = none }

abbrev answer : RevokeResponse
answer = record { id = 1; revoked_at = str "202"; min_epoch = some 2 }

earlier-ok : (revoke_device_handler toy_parse db 9 1 earlier (str "now")).0 ≡ ok answer
unfolding revoke_device_handler revoke_found apply_outcome get_device_revocation tenant_state
    set_device_revocation update_rows decide_revoke resolve_revoked_at resolve_earlier resolve_epoch
earlier-ok = refl

revoke_device_handler-Kept_example :
    Kept toy_parse
      (get_device_revocation db 9 1)
      (get_device_revocation (revoke_device_handler toy_parse db 9 1 earlier (str "now")).1 9 1)
revoke_device_handler-Kept_example =
    revoke_device_handler-Kept toy_parse db 9 1 earlier (str "now") 9 1

revoke_device_handler-stored_example :
    get_device_revocation (revoke_device_handler toy_parse db 9 1 earlier (str "now")).1 9 1
    ≡ some (record { revoked_at = some (str "202"); min_epoch = some 2 })
revoke_device_handler-stored_example =
    revoke_device_handler-stored toy_parse db 9 1 earlier (str "now") answer earlier-ok
