-- ===== src/Platform/Handler/Again.antt =====
-- `witness_handler`, when a request comes again that was answered with a receipt.
use sealedge.Base.{
  inl, sym, ap, inr, ◌∙◌, subst, Result-cases, Bytes, Text, ◌≡◌, refl, true, ok, err,
}
use sealedge.Crypto.{Crates}
use sealedge.Chronicle.{WitnessRequest, verify_request}
use sealedge.Platform.Witness.{WitnessReceipt, build}
use sealedge.Platform.Database.{Db}
use sealedge.Platform.Handler.{
  finish, witness_handler, witness_commit, Refusal, Checked, witness_check, attach_rotation,
}
use sealedge.Platform.Handler.Found.{decide-Witnessed}
use sealedge.Platform.Handler.Ledger.{UniqueKeys, witness_commit-UniqueKeys}
use sealedge.Platform.Handler.Sequential.{FromCheck, witness_check-FromCheck}
use sealedge.Platform.Handler.Backed.{Witnessed, commit-Witnessed}
use sealedge.Platform.Handler.Replay.{witness_check-replay, witness_commit-replay}
use sealedge.Platform.Handler.Attached.{witness_commit-attached}

module _ (json_str : Text → Text) (c : Crates) where
  module _ (blake3 : Bytes → Bytes) (hex : Bytes → Text) where
    handler-checked :
        (db : Db) (req : WitnessRequest) (k : Checked) (now jti : Text)
        → witness_check json_str c db req ≡ ok k
        → witness_handler json_str c blake3 hex db req now jti
          ≡ witness_commit json_str c blake3 hex db k now jti
    unfolding witness_handler finish
    handler-checked db req k now jti e = rw e refl

    handler-failed :
        (db : Db) (req : WitnessRequest) (x : Refusal) (now jti : Text)
        → witness_check json_str c db req ≡ err x
        → witness_handler json_str c blake3 hex db req now jti ≡ (err x, db)
    unfolding witness_handler finish
    handler-failed db req x now jti e = rw e refl

    -- The second request, given what the first one left.
    handler-replays :
        (db : Db) (req : WitnessRequest) (observed_at now jti : Text)
        → verify_request json_str c req ≡ true
        → UniqueKeys db.witness_log
        → Witnessed db.witness_log req.device_pub req.sequence req.tip observed_at
        → ((at : Text) → attach_rotation json_str c blake3 hex db req at req.rotation ≡ (ok tt, db))
        → (again : WitnessReceipt) × (witness_handler json_str c blake3 hex db req now jti
            ≡ (ok again, db))
          × (again.device_pub ≡ req.device_pub)
          × (again.sequence ≡ req.sequence)
          × (again.tip ≡ req.tip)
          × (again.observed_at ≡ observed_at)
          × (again.jti ≡ jti)
    unfolding build
    handler-replays db req observed_at now jti signed u w attached =
        let (e, prev, d, since) =
          decide-Witnessed db req.device_pub req.sequence req.tip observed_at u w in
        let (k, passed, same, decided) = witness_check-replay json_str c db req e prev signed d in
        let unchanged =
          subst
            (λ (r : WitnessRequest).
              attach_rotation json_str c blake3 hex db r e.observed_at r.rotation ≡ (ok tt, db))
            (sym same) (attached e.observed_at) in
        (
          build k.request.device_pub k.registered k.request.sequence k.request.tip e.observed_at
              prev jti,
          handler-checked db req k now jti passed
              ∙ witness_commit-replay json_str c blake3 hex db k e prev now jti decided unchanged,
          ap (λ (r : WitnessRequest). r.device_pub) same,
          ap (λ (r : WitnessRequest). r.sequence) same,
          ap (λ (r : WitnessRequest). r.tip) same,
          since,
          refl,
        )

    commit-again :
        (db : Db) (req : WitnessRequest) (k : Checked) (now jti now' jti' : Text)
        (receipt : WitnessReceipt)
        → FromCheck json_str c db req k
        → UniqueKeys db.witness_log
        → (witness_commit json_str c blake3 hex db k now jti).0 ≡ ok receipt
        → (again : WitnessReceipt) × (witness_handler json_str c blake3 hex
              (witness_commit json_str c blake3 hex db k now jti).1
              req
              now'
              jti'
            ≡ (ok again, (witness_commit json_str c blake3 hex db k now jti).1))
          × (again.device_pub ≡ receipt.device_pub)
          × (again.sequence ≡ receipt.sequence)
          × (again.tip ≡ receipt.tip)
          × (again.observed_at ≡ receipt.observed_at)
          × (again.jti ≡ jti')
    commit-again db req k now jti now' jti' receipt f u h =
        let db' = (witness_commit json_str c blake3 hex db k now jti).1 in
        let w = commit-Witnessed json_str c blake3 hex db req k now jti receipt f h in
        let (_, p, q, t) =
          witness_commit-attached json_str c blake3 hex db k now jti now receipt h in
        let p' = p ∙ ap (λ (r : WitnessRequest). r.device_pub) f.request in
        let q' = q ∙ ap (λ (r : WitnessRequest). r.sequence) f.request in
        let t' = t ∙ ap (λ (r : WitnessRequest). r.tip) f.request in
        let (again, e, d, n, tip, since, id) =
          handler-replays db' req receipt.observed_at now' jti' f.signed
            (witness_commit-UniqueKeys json_str c blake3 hex db k now jti u)
            (record {
              row = w.row;
              in_log = w.in_log;
              device = w.device ∙ p';
              at = w.at ∙ q';
              same_tip = w.same_tip ∙ t';
              since = w.since;
            })
            (λ at.
              subst
                (λ (r : WitnessRequest).
                  attach_rotation json_str c blake3 hex db' r at r.rotation ≡ (ok tt, db'))
                f.request
                ((witness_commit-attached json_str c blake3 hex db k now jti at receipt h).0)) in
        (again, e, d ∙ sym p', n ∙ sym q', tip ∙ sym t', since, id)

    -- A request that was answered with a receipt is answered again when it comes again, at whatever
    -- time, with the database as the first answer left it: the second receipt has the device,
    -- sequence, tip and timestamp of the first, and its own id, and nothing is written, neither to
    -- the ledger nor to the lineage. The first database has no two ledger rows of one device and
    -- sequence.
    pub witness_handler-again :
        (db : Db) (req : WitnessRequest) (now jti now' jti' : Text) (receipt : WitnessReceipt)
        → UniqueKeys db.witness_log
        → (witness_handler json_str c blake3 hex db req now jti).0 ≡ ok receipt
        → (again : WitnessReceipt) × (witness_handler json_str c blake3 hex
              (witness_handler json_str c blake3 hex db req now jti).1
              req
              now'
              jti'
            ≡ (ok again, (witness_handler json_str c blake3 hex db req now jti).1))
          × (again.device_pub ≡ receipt.device_pub)
          × (again.sequence ≡ receipt.sequence)
          × (again.tip ≡ receipt.tip)
          × (again.observed_at ≡ receipt.observed_at)
          × (again.jti ≡ jti')
    witness_handler-again db req now jti now' jti' receipt u h =
        elim (Result-cases (witness_check json_str c db req)) [
          | inr (x, failed) ↦ absurd (cc (rw (handler-failed db req x now jti failed) at h))
          | inl (k, passed) ↦
              let same = handler-checked db req k now jti passed in
              rw same (
                commit-again db req k now jti now' jti' receipt
                  (witness_check-FromCheck json_str c db req k passed) u (rw same at h))
        ]
