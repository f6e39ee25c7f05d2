-- ===== src/Receipts/Issued.antt =====
-- crates/core/src/applications/receipts/mod.rs: a chain that `create_receipt` begins and
-- `assign_receipt` continues.
use sealedge.Base.{
  ℕ, ◌≡◌, refl, ap, sym, ◌∙◌, List, [], ◌∷◌, Bytes, Text, str, Option, bytes_eq, bytes_eq_iff, ok,
  map_err, bind-ok, ensure-ok, map_err-ok,
}
use sealedge.Envelope.{Envelope, Primitives, PrimitivesLaws}
use sealedge.Envelope.Seal.{seal}
use sealedge.Envelope.Unseal.{verify, unseal, hash, beneficiary}
use sealedge.Envelope.Loops.{Contributory}
use sealedge.Receipts.{
  OwnershipReceipt, Json, Moment, new_origin, new_assignment, validate_receipt, create_receipt,
  assign_receipt, verify_receipt_chain_with_keys,
}
use sealedge.Receipts.Links.{IsOwned, Follows, AreOwned, AreLinked}
use sealedge.Receipts.Verified.{IsOwnershipChain-verify}
use sealedge.Receipts.Sealed.{JsonLaws, InTime, sealed-IsOwned, extract_receipt-opened}

module _ (p : Primitives) (j : Json) (now : ℕ) where
  -- Owners who hand the claim on, from an envelope and its beneficiary's key.
  pub data Assigned : Envelope → Bytes → List Envelope → List Bytes → Type 0 where
    kept : {env : Envelope} {key : Bytes} → Assigned env key [] []
    assigned :
        {env next : Envelope} {key their_key : Bytes} {envs : List Envelope} {keys : List Bytes}
        → (at : Moment) (description : Option Text) → InTime now at
        → Contributory p key (p.dalek.ed25519_public their_key)
        → assign_receipt p j at env key (p.dalek.ed25519_public their_key) description ≡ ok next
        → Assigned next their_key envs keys
        → Assigned env key (next ∷ envs) (their_key ∷ keys)

  module _ (laws : PrimitivesLaws p) (json : JsonLaws j) where
    create_receipt-IsOwned :
        (at : Moment) (secret their_secret : Bytes) (amount : ℕ) (description : Option Text)
        (env : Envelope)
        → InTime now at
        → Contributory p secret (p.dalek.ed25519_public their_secret)
        → create_receipt p j at secret (p.dalek.ed25519_public their_secret) amount description
          ≡ ok env
        → IsOwned p j now env their_secret (
            new_origin p j at.stamped secret
              (p.dalek.ed25519_public their_secret)
              amount
              description)
    unfolding create_receipt new_origin
    create_receipt-IsOwned at secret their_secret amount description env time nonzero h =
        let r =
          new_origin p j at.stamped secret (p.dalek.ed25519_public their_secret) amount
            description in
        let valid =
          bind-ok
            (map_err (λ (e : Text). str "OwnershipReceipt validation failed")
              (validate_receipt p j at.checked r))
            _ env h in
        let written =
          bind-ok (map_err (λ (e : Text). str "Failed to serialize receipt") (j.to_vec r)) _ env
            valid.2 in
        sealed-IsOwned p j now laws json at r secret their_secret written.0 env time nonzero refl
          refl refl (map_err-ok _ (validate_receipt p j at.checked r) tt valid.1)
          (map_err-ok _ (j.to_vec r) written.0 written.1)
          (map_err-ok _
            (seal p at.sealed at.salt at.chunk_times written.0 secret
              (p.dalek.ed25519_public their_secret))
            env written.2)

    -- An assignment of an owned receipt follows it, and is owned by the new beneficiary.
    assign_receipt-Follows :
        (at : Moment) (prev_env env : Envelope) (secret their_secret : Bytes)
        (prev : OwnershipReceipt) (description : Option Text)
        → InTime now at
        → Contributory p secret (p.dalek.ed25519_public their_secret)
        → IsOwned p j now prev_env secret prev
        → assign_receipt p j at prev_env secret (p.dalek.ed25519_public their_secret) description
          ≡ ok env
        → (r : OwnershipReceipt) × IsOwned p j now env their_secret r
          × Follows p j now prev_env prev r
    unfolding assign_receipt new_assignment
    assign_receipt-Follows at prev_env env secret their_secret prev description time nonzero owned
          h =
        let their_public = p.dalek.ed25519_public their_secret in
        let verified = ensure-ok (verify p prev_env) _ _ env h in
        let holder = bind-ok (beneficiary p prev_env) _ env verified.1 in
        let right =
          ensure-ok (bytes_eq holder.0 (p.dalek.ed25519_public secret)) _ _ env holder.2 in
        let opened =
          bind-ok
            (map_err
              (λ (e : Text). str "Failed to unseal previous envelope - assigner key may be invalid")
              (unseal p prev_env secret))
            _ env right.1 in
        let parsed =
          bind-ok
            (map_err (λ (e : Text). str "Failed to deserialize previous receipt")
              (j.from_slice opened.0))
            _ env opened.2 in
        let hashed = bind-ok (hash p prev_env) _ env parsed.2 in
        let r =
          new_assignment p j at.stamped secret their_public parsed.0.amount hashed.0 description in
        let valid =
          bind-ok
            (map_err (λ (e : Text). str "Assignment receipt validation failed")
              (validate_receipt p j at.checked r))
            _ env hashed.2 in
        let written =
          bind-ok
            (map_err (λ (e : Text). str "Failed to serialize assignment receipt") (j.to_vec r)) _
            env valid.2 in
        -- What the check extracts is what the assigner read.
        let again = extract_receipt-opened p j now prev_env secret prev owned.extracted in
        let first = map_err-ok _ (unseal p prev_env secret) opened.0 opened.1 in
        let read = map_err-ok _ (j.from_slice opened.0) parsed.0 parsed.1 in
        let payload : opened.0 ≡ again.0 = cc (first, again.1) in
        let same : parsed.0 ≡ prev = cc (payload, read, again.2) in
        (
          r,
          sealed-IsOwned p j now laws json at r secret their_secret written.0 env time nonzero refl
              refl refl (map_err-ok _ (validate_receipt p j at.checked r) tt valid.1)
              (map_err-ok _ (j.to_vec r) written.0 written.1)
              (map_err-ok _ (seal p at.sealed at.salt at.chunk_times written.0 secret their_public)
                env written.2),
          record {
            prev_hash = hashed.0;
            hashed = hashed.1;
            named = refl;
            transferred =
                sym ((bytes_eq_iff holder.0 (p.dalek.ed25519_public secret)).0 right.0)
                ∙ cc (holder.1, owned.holder);
            kept = ap (λ (x : OwnershipReceipt). x.amount) same;
          },
        )

    -- The receipts of the owners, each following the one before.
    Assigned-linked :
        (env : Envelope) (key : Bytes) (r : OwnershipReceipt) (envs : List Envelope)
        (keys : List Bytes)
        → Assigned env key envs keys
        → IsOwned p j now env key r
        → (rs : List OwnershipReceipt) × AreOwned p j now envs keys rs
          × AreLinked p j now env r envs rs
    Assigned-linked env key r envs keys kept owned = ([], tt, tt)
    Assigned-linked env key r (next ∷ envs) (their_key ∷ keys)
          (assigned at description time nonzero made rest) owned =
        let (r', owned', follows) =
          assign_receipt-Follows at env next key their_key r description time nonzero owned made in
        let (rs, all_owned, linked) = Assigned-linked next their_key r' envs keys rest owned' in
        (r' ∷ rs, (owned', all_owned), (follows, linked))

    -- A chain that begins with a receipt from `create_receipt` and goes on by any number of
    -- `assign_receipt` calls, each by the beneficiary of the envelope before, is accepted with the
    -- beneficiaries' keys: the clock of each call is within 64 bits and not more than five minutes
    -- ahead of the check, and no two parties of a step share a secret of zeros; a receipt that is
    -- serialized reads back.
    pub verify_receipt_chain_with_keys-Assigned :
        (at : Moment) (secret key : Bytes) (amount : ℕ) (description : Option Text) (env : Envelope)
        (envs : List Envelope) (keys : List Bytes)
        → InTime now at
        → Contributory p secret (p.dalek.ed25519_public key)
        → create_receipt p j at secret (p.dalek.ed25519_public key) amount description ≡ ok env
        → Assigned env key envs keys
        → verify_receipt_chain_with_keys p j now (env ∷ envs) (key ∷ keys) ≡ ok tt
    unfolding new_origin
    verify_receipt_chain_with_keys-Assigned at secret key amount description env envs keys time
          nonzero made chain =
        let r = new_origin p j at.stamped secret (p.dalek.ed25519_public key) amount description in
        let owned = create_receipt-IsOwned at secret key amount description env time nonzero made in
        let (rs, all_owned, linked) = Assigned-linked env key r envs keys chain owned in
        IsOwnershipChain-verify p j now env envs key keys (record {
          first = r;
          rest = rs;
          owned = (owned, all_owned);
          origin = refl;
          linked = linked;
        })
