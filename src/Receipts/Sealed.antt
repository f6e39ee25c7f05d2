-- ===== src/Receipts/Sealed.antt =====
-- crates/core/src/applications/receipts/mod.rs: a receipt in an envelope that was sealed for its
-- beneficiary, as `extract_receipt` finds it.
use sealedge.Base.{
  ℕ, ◌+◌, ◌%◌, ◌^◌, ◌≤◌, ◌<◌, ◌≡◌, sym, Bytes, Text, str, true, not, ◌==◌, ltb, length, ok, map_err,
  bind-ok, ensure-ok, map_err-ok, arith, subst,
}
use sealedge.Envelope.{
  Envelope, Primitives, PrimitivesLaws, derive_shared_encryption_key, payload_chunks,
}
use sealedge.Envelope.Seal.{seal, seal_chunks, seal_metadata}
use sealedge.Envelope.Unseal.{unseal, beneficiary, issuer}
use sealedge.Envelope.Loops.{Contributory}
use sealedge.Envelope.RoundTrip.{unseal-seal}
use sealedge.Envelope.Nonces.{seal-small}
use sealedge.Receipts.{OwnershipReceipt, Json, Moment, validate_receipt, extract_receipt}
use sealedge.Receipts.Links.{IsOwned}

-- A receipt that is written reads back.
pub record JsonLaws (j : Json) : Type 0 where
  pub read : (r : OwnershipReceipt) (b : Bytes) → j.to_vec r ≡ ok b → j.from_slice b ≡ ok r

-- The call's clock is within 64 bits, and not over five minutes ahead of the check's.
pub record InTime (now : ℕ) (at : Moment) : Type 0 where
  pub sealed : at.sealed < 2 ^ 64
  pub stamped : at.stamped ≤ (now + 300) % 2 ^ 64

module _ (p : Primitives) (j : Json) (now : ℕ) where
  seal-parties :
      (timestamp : ℕ) (salt : Bytes) (clock : ℕ → ℕ) (payload secret their_public : Bytes)
      (env : Envelope)
      → seal p timestamp salt clock payload secret their_public ≡ ok env
      → (env.verifying_key_bytes ≡ p.dalek.ed25519_public secret)
        × (env.beneficiary_key_bytes ≡ their_public)
  unfolding seal
  seal-parties timestamp salt clock payload secret their_public env h =
      let derived = bind-ok (derive_shared_encryption_key p secret their_public salt) _ env h in
      let made =
        bind-ok
          (seal_chunks p clock secret derived.0.0 derived.0.1 (length (payload_chunks payload))
            (seal_metadata p timestamp payload) 0 (payload_chunks payload))
          _ env derived.2 in
      (cc (made.2), cc (made.2))

  -- The rules hold at the check as they did when the receipt was made.
  revalidated :
      (then' : ℕ) (r : OwnershipReceipt)
      → validate_receipt p j then' r ≡ ok tt
      → r.created_at ≤ (now + 300) % 2 ^ 64
      → validate_receipt p j now r ≡ ok tt
  unfolding validate_receipt
  revalidated then' r h early =
      let amount = ensure-ok (not (r.amount == 0)) _ _ tt h in
      let signer =
        bind-ok (map_err (λ (e : Text). str "Invalid issuer key") (p.dalek.ed25519_key r.issuer)) _
          tt amount.1 in
      let holder =
        bind-ok
          (map_err (λ (e : Text). str "Invalid beneficiary key")
            (p.dalek.ed25519_key r.beneficiary))
          _ tt signer.2 in
      let in_time : not (ltb ((now + 300) % 2 ^ 64) r.created_at) ≡ true = ground (arith, early) in
      rw (amount.0, signer.1, holder.1, in_time)

  -- A receipt that is extracted was read from what the envelope holds.
  pub extract_receipt-opened :
      (env : Envelope) (key : Bytes) (r : OwnershipReceipt)
      → extract_receipt p j now env key ≡ ok r
      → (b : Bytes) × (unseal p env key ≡ ok b) × (j.from_slice b ≡ ok r)
  unfolding extract_receipt
  extract_receipt-opened env key r h =
      let opened =
        bind-ok (map_err (λ (e : Text). str "Failed to unseal envelope") (unseal p env key)) _ r
          h in
      let parsed =
        bind-ok
          (map_err (λ (e : Text). str "Failed to deserialize receipt from payload")
            (j.from_slice opened.0))
          _ r opened.2 in
      let valid =
        bind-ok
          (map_err (λ (e : Text). str "Extracted receipt validation failed")
            (validate_receipt p j now parsed.0))
          _ r parsed.2 in
      let read = map_err-ok _ (j.from_slice opened.0) parsed.0 parsed.1 in
      (opened.0, map_err-ok _ (unseal p env key) opened.0 opened.1, cc (read, valid.2))

  module _ (laws : PrimitivesLaws p) (json : JsonLaws j) where
    -- A receipt that is sealed for its beneficiary is opened with the beneficiary's key.
    pub sealed-IsOwned :
        (at : Moment) (r : OwnershipReceipt) (secret their_secret payload : Bytes) (env : Envelope)
        → InTime now at
        → Contributory p secret (p.dalek.ed25519_public their_secret)
        → r.issuer ≡ p.dalek.ed25519_public secret
        → r.beneficiary ≡ p.dalek.ed25519_public their_secret
        → r.created_at ≡ at.stamped
        → validate_receipt p j at.checked r ≡ ok tt
        → j.to_vec r ≡ ok payload
        → seal p at.sealed at.salt at.chunk_times payload secret
            (p.dalek.ed25519_public their_secret)
          ≡ ok env
        → IsOwned p j now env their_secret r
    unfolding extract_receipt issuer beneficiary
    sealed-IsOwned at r secret their_secret payload env time nonzero by for stamp valid written
          made =
        let parties =
          seal-parties at.sealed at.salt at.chunk_times payload secret
            (p.dalek.ed25519_public their_secret) env made in
        let small =
          seal-small p laws at.sealed at.salt at.chunk_times payload secret
            (p.dalek.ed25519_public their_secret) env time.sealed nonzero made in
        let (env', made', good, opens) =
          unseal-seal p laws at.sealed at.salt at.chunk_times payload secret their_secret
            time.sealed small nonzero in
        let same : env' ≡ env = cc (made, made') in
        let opened : unseal p env their_secret ≡ ok payload = cc (opens, same) in
        let checked =
          revalidated at.checked r valid
            (subst (λ c. c ≤ (now + 300) % 2 ^ 64) (sym stamp) time.stamped) in
        record {
          extracted = rw (opened, json.read r payload written, checked);
          signer = rw (parties.0, laws.dalek.key-public secret, by);
          holder = rw (parties.1, laws.dalek.key-public their_secret, for);
        }
