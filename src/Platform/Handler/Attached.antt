-- ===== src/Platform/Handler/Attached.antt =====
-- `witness_commit` that answers with a receipt: the rotation of the request was attached.
use sealedge.Base.{sym, ap, ◌∙◌, subst, Bytes, Text, ◌≡◌, refl, Option, Result, ok, err}
use sealedge.Crypto.{Crates}
use sealedge.Platform.Witness.{WitnessEntry, WitnessReceipt}
use sealedge.Platform.Database.{Db}
use sealedge.Platform.Handler.{
  witness_commit, receipt_of, after_record, Refusal, Checked, record_tip, attach_rotation,
}
use sealedge.Platform.Handler.Lineage.{attach_rotation-again}
use sealedge.Platform.Handler.Backed.{after_record-ok}

module _ (json_str : Text → Text) (c : Crates) where
  module _ (blake3 : Bytes → Bytes) (hex : Bytes → Text) where
    receipt_of-ok :
        (k : Checked) (jti observed_at : Text) (prev : Option WitnessEntry)
        (r : Result Refusal (Unit {0})) (receipt : WitnessReceipt)
        → receipt_of json_str c blake3 hex k jti observed_at prev r ≡ ok receipt
        → r ≡ ok tt
    unfolding receipt_of
    receipt_of-ok k jti observed_at prev (ok tt) receipt h = refl
    receipt_of-ok k jti observed_at prev (err e) receipt h = cc

    -- A receipt is answered only after the rotation was attached.
    after_record-attached :
        (k : Checked) (jti : Text) (observed_at : Text) (prev : Option WitnessEntry) (db : Db)
        (receipt : WitnessReceipt)
        → (after_record json_str c blake3 hex k jti (ok (observed_at, prev)) db).0 ≡ ok receipt
        → ((attach_rotation json_str c blake3 hex db k.request observed_at k.request.rotation).0
            ≡ ok tt)
          × ((after_record json_str c blake3 hex k jti (ok (observed_at, prev)) db).1
              ≡ (attach_rotation json_str c blake3 hex db k.request observed_at
                  k.request.rotation).1)
    unfolding after_record
    after_record-attached k jti observed_at prev db receipt h = (
      receipt_of-ok k jti observed_at prev
          (attach_rotation json_str c blake3 hex db k.request observed_at k.request.rotation).0
          receipt h,
      refl,
    )

    -- After an answer with a receipt, the rotation of the request changes nothing more.
    pub witness_commit-attached :
        (db : Db) (k : Checked) (now jti again : Text) (receipt : WitnessReceipt)
        → (witness_commit json_str c blake3 hex db k now jti).0 ≡ ok receipt
        → (attach_rotation json_str c blake3 hex
              (witness_commit json_str c blake3 hex db k now jti).1
              k.request
              again
              k.request.rotation
            ≡ (ok tt, (witness_commit json_str c blake3 hex db k now jti).1))
          × (receipt.device_pub ≡ k.request.device_pub)
          × (receipt.sequence ≡ k.request.sequence)
          × (receipt.tip ≡ k.request.tip)
    unfolding witness_commit
    witness_commit-attached db k now jti again receipt h =
        let o = (record_tip db k now).0 in
        let db1 = (record_tip db k now).1 in
        let (observed_at, prev, e, r) =
          after_record-ok json_str c blake3 hex k jti o db1 receipt h in
        let (attached, same) =
          after_record-attached k jti observed_at prev db1 receipt
            (subst (λ x. (after_record json_str c blake3 hex k jti x db1).0 ≡ ok receipt) e h) in
        let left = ap (λ x. (after_record json_str c blake3 hex k jti x db1).1) e ∙ same in
        (
          subst
              (λ d.
                attach_rotation json_str c blake3 hex d k.request again k.request.rotation
                ≡ (ok tt, d))
              (sym left)
              (attach_rotation-again json_str c blake3 hex db1 k.request observed_at again
                k.request.rotation attached),
          r.0,
          r.1,
          r.2,
        )
