-- ===== src/Receipts.antt =====
-- crates/core/src/applications/receipts/mod.rs: ownership receipts in sealed envelopes. `serde_json` on a
-- receipt is a record of parameters; what the clock and the random source give is an argument.
pub mod Sealed
pub mod Links
pub mod Issued
pub mod Verified
pub mod Tests
use sealedge.Base.{
  ℕ, suc, ◌+◌, ◌-◌, ◌%◌, ◌^◌, ◌≡◌, List, [], ◌∷◌, ◌++◌, Bytes, Text, str, Bool, true, false, not,
  ◌&&◌, Option, none, some, bytes_eq, decimal, ltb, ◌==◌, length, Result, ok, err, ensure, map_err,
  ◌>>=◌, ◌>>◌, if◌then◌else◌,
}
use sealedge.Manifest.Validate.{all}
use sealedge.Envelope.{Envelope, Primitives}
use sealedge.Envelope.Seal.{seal}
use sealedge.Envelope.Unseal.{verify, unseal, hash, beneficiary, issuer}

pub record OwnershipReceipt : Type 0 where
  pub issuer : Bytes
  pub beneficiary : Bytes
  pub amount : ℕ
  pub prev_envelope_hash : Option Bytes
  pub description : Option Text
  pub created_at : ℕ

-- `serde_json::to_vec` and `serde_json::from_slice` of a receipt
pub record Json : Type 0 where
  pub to_vec : OwnershipReceipt → Result Text Bytes
  pub from_slice : Bytes → Result Text OwnershipReceipt

-- What one call reads of the clock, in the order of the code, and its random salt.
pub record Moment : Type 0 where
  pub stamped : ℕ
  pub checked : ℕ
  pub sealed : ℕ
  pub salt : Bytes
  pub chunk_times : ℕ → ℕ

abbrev pub is_origin : OwnershipReceipt → Bool
is_origin r = elim r.prev_envelope_hash [ none ↦ true | some h ↦ false ]

abbrev pub at_envelope : ℕ → Text → Text
at_envelope i message = str "envelope " ++ (decimal i ++ (str ": " ++ message))

abbrev pub names_hash : Option Bytes → Bytes → Bool
names_hash none prev_hash = false
names_hash (some h) prev_hash = bytes_eq h prev_hash

module _ (p : Primitives) (j : Json) where
  unfoldable pub new_origin : ℕ → Bytes → Bytes → ℕ → Option Text → OwnershipReceipt
  new_origin now issuer_key beneficiary_key amount description = record {
    issuer = p.dalek.ed25519_public issuer_key;
    beneficiary = beneficiary_key;
    amount = amount;
    prev_envelope_hash = none;
    description = description;
    created_at = now;
  }

  unfoldable pub new_assignment : ℕ → Bytes → Bytes → ℕ → Bytes → Option Text → OwnershipReceipt
  new_assignment now issuer_key beneficiary_key amount prev_envelope_hash description = record {
    issuer = p.dalek.ed25519_public issuer_key;
    beneficiary = beneficiary_key;
    amount = amount;
    prev_envelope_hash = some prev_envelope_hash;
    description = description;
    created_at = now;
  }

  unfoldable pub validate_receipt : ℕ → OwnershipReceipt → Result Text (Unit {0})
  validate_receipt now r = do
    ensure (not (r.amount == 0)) (str "OwnershipReceipt amount cannot be zero")
    map_err (λ e. str "Invalid issuer key") (p.dalek.ed25519_key r.issuer)
    map_err (λ e. str "Invalid beneficiary key") (p.dalek.ed25519_key r.beneficiary)
    ensure (not (ltb ((now + 300) % 2 ^ 64) r.created_at))
        (str "OwnershipReceipt timestamp is too far in the future")

  unfoldable pub create_receipt : Moment → Bytes → Bytes → ℕ → Option Text → Result Text Envelope
  create_receipt at issuer_key beneficiary_key amount description =
      let receipt = new_origin at.stamped issuer_key beneficiary_key amount description in
      do
        map_err (λ e. str "OwnershipReceipt validation failed")
            (validate_receipt at.checked receipt)
        payload ← map_err (λ e. str "Failed to serialize receipt") (j.to_vec receipt)
        map_err (λ e. str "Failed to seal receipt in envelope")
            (seal p at.sealed at.salt at.chunk_times payload issuer_key beneficiary_key)

  unfoldable pub assign_receipt :
      Moment → Envelope → Bytes → Bytes → Option Text → Result Text Envelope
  assign_receipt at previous_envelope assigner_key new_beneficiary_key description = do
    ensure (verify p previous_envelope) (str "Previous envelope signature is invalid")
    previous_beneficiary ← beneficiary p previous_envelope
    ensure (bytes_eq previous_beneficiary (p.dalek.ed25519_public assigner_key))
        (str "Assigner key does not match previous beneficiary")
    previous_payload ←
        map_err (λ e. str "Failed to unseal previous envelope - assigner key may be invalid")
          (unseal p previous_envelope assigner_key)
    previous_receipt ←
        map_err (λ e. str "Failed to deserialize previous receipt") (j.from_slice previous_payload)
    prev_hash ← hash p previous_envelope
    let assignment_receipt =
        new_assignment at.stamped assigner_key new_beneficiary_key previous_receipt.amount prev_hash
          description
    map_err (λ e. str "Assignment receipt validation failed")
        (validate_receipt at.checked assignment_receipt)
    payload ←
        map_err (λ e. str "Failed to serialize assignment receipt") (j.to_vec assignment_receipt)
    map_err (λ e. str "Failed to seal assignment receipt in envelope")
        (seal p at.sealed at.salt at.chunk_times payload assigner_key new_beneficiary_key)

  unfoldable pub extract_receipt : ℕ → Envelope → Bytes → Result Text OwnershipReceipt
  extract_receipt now envelope decryption_key = do
    payload ← map_err (λ e. str "Failed to unseal envelope") (unseal p envelope decryption_key)
    receipt ← map_err (λ e. str "Failed to deserialize receipt from payload") (j.from_slice payload)
    map_err (λ e. str "Extracted receipt validation failed") (validate_receipt now receipt)
    ok receipt

  abbrev same_key : Result Text Bytes → Result Text Bytes → Bool
  same_key (ok current_issuer) (ok prev_beneficiary) = bytes_eq current_issuer prev_beneficiary
  same_key (ok current_issuer) (err e) = false
  same_key (err e) other = false

  -- The loop over the links, with the envelope before.
  unfoldable pub check_owners : Envelope → List Envelope → Bool
  check_owners prev_envelope [] = true
  check_owners prev_envelope (current_envelope ∷ rest) =
      same_key (issuer p current_envelope) (beneficiary p prev_envelope)
      && check_owners current_envelope rest

  unfoldable pub verify_signature_chain : List Envelope → Bool
  verify_signature_chain [] = false
  verify_signature_chain (first ∷ rest) = all (verify p) (first ∷ rest) && check_owners first rest

  -- The `map` and `collect` over envelopes and keys, from position `i` on.
  unfoldable pub extract_all :
      ℕ → ℕ → List Envelope → List Bytes → Result Text (List OwnershipReceipt)
  extract_all now i [] keys = ok []
  extract_all now i (env ∷ envelopes) [] = ok []
  extract_all now i (env ∷ envelopes) (key ∷ keys) = do
    receipt ←
        map_err (λ e. at_envelope i (str "unseal/extract failed")) (extract_receipt now env key)
    receipts ← extract_all now (i + 1) envelopes keys
    ok (receipt ∷ receipts)

  -- The loop over the links at positions from `i` on, with the envelope and the receipt before.
  unfoldable pub check_links :
      ℕ
      → Envelope
      → OwnershipReceipt
      → List Envelope
      → List OwnershipReceipt
      → Result Text (Unit {0})
  check_links i prev_env prev [] receipts = ok tt
  check_links i prev_env prev (env ∷ envelopes) [] = ok tt
  check_links i prev_env prev (env ∷ envelopes) (receipt ∷ receipts) = do
    prev_hash ← map_err (λ e. at_envelope (i - 1) (str "hash failed")) (hash p prev_env)
    ensure (names_hash receipt.prev_envelope_hash prev_hash) (
        at_envelope i
          (str "prev_envelope_hash does not match envelope " ++ (decimal (i - 1) ++ str "'s hash")))
    ensure (bytes_eq receipt.issuer prev.beneficiary)
        (at_envelope i (str "issuer does not match previous beneficiary"))
    ensure (receipt.amount == prev.amount) (
        at_envelope i (
          str "amount "
          ++ (decimal receipt.amount ++ (str " != previous amount " ++ decimal prev.amount))))
    check_links (i + 1) env receipt envelopes receipts

  unfoldable pub check_parties : ℕ → List Envelope → List OwnershipReceipt → Result Text (Unit {0})
  check_parties i [] receipts = ok tt
  check_parties i (env ∷ envelopes) [] = ok tt
  check_parties i (env ∷ envelopes) (receipt ∷ receipts) = do
    signer ← map_err (λ e. at_envelope i (str "invalid issuer key")) (issuer p env)
    ensure (bytes_eq receipt.issuer signer)
        (at_envelope i (str "receipt issuer does not match the signing key"))
    holder ← map_err (λ e. at_envelope i (str "invalid beneficiary key")) (beneficiary p env)
    ensure (bytes_eq receipt.beneficiary holder)
        (at_envelope i (str "receipt beneficiary does not match the envelope beneficiary"))
    check_parties (i + 1) envelopes receipts

  abbrev pub first_checks : List Envelope → List OwnershipReceipt → Result Text (Unit {0})
  first_checks (env ∷ envelopes) (receipt ∷ receipts) = do
    ensure (is_origin receipt)
        (str "envelope 0 is not an origin receipt (prev_envelope_hash must be None)")
    check_links 1 env receipt envelopes receipts
    check_parties 0 (env ∷ envelopes) (receipt ∷ receipts)
  first_checks envelopes receipts = ok tt

  unfoldable pub verify_receipt_chain_with_keys :
      ℕ → List Envelope → List Bytes → Result Text (Unit {0})
  verify_receipt_chain_with_keys now [] keys = err (str "empty receipt chain")
  verify_receipt_chain_with_keys now (env ∷ envelopes) keys = do
    ensure (length keys == length (env ∷ envelopes)) (
        str "need one beneficiary key per envelope: "
        ++ (decimal (length keys)
            ++ (str " keys for " ++ (decimal (length (env ∷ envelopes)) ++ str " envelopes"))))
    receipts ← extract_all now 0 (env ∷ envelopes) keys
    first_checks (env ∷ envelopes) receipts
