-- ===== src/Receipts/Tests.antt =====
-- A receipt from Alice to Bob, assigned to Carol, with the envelope's toy primitives.
use sealedge.Base.{
  zero, suc, ◌≡◌, refl, ap, sym, ◌∙◌, ◌↔◌, [], ◌∷◌, ◌++◌, Bytes, Text, str, Option, none, some,
  length, take, drop, take-append, drop-append, bytes_eq, strip_prefix, Result, ok, err, arith,
}
use sealedge.Crypto.Toy.{toy_crates, fit}
use sealedge.Format.{be32, be64, build_aad}
use sealedge.Envelope.{Envelope, derive_shared_encryption_key, chunk_nonce, pieces, payload_chunks}
use sealedge.Envelope.Seal.{
  chunk_manifest, create_encrypted_chunk, seal_chunks, seal_metadata, seal,
}
use sealedge.Envelope.Unseal.{
  verify, unseal, hash, beneficiary, insert_number, sort_numbers, insert_chunk, sort_chunks,
  numbered, verify_chunk_sequence, verify_chunk_signature, decrypt_chunk_v2, unseal_chunks,
}
use sealedge.Envelope.Loops.{Contributory}
use sealedge.Envelope.Tests.{toy, toy-PrimitivesLaws, alice, bob, contributory}
use sealedge.Receipts.{
  OwnershipReceipt, Json, Moment, new_origin, new_assignment, validate_receipt, create_receipt,
  assign_receipt, verify_receipt_chain_with_keys,
}
use sealedge.Receipts.Verified.{IsOwnershipChain, verify_receipt_chain_with_keys_iff}
use sealedge.Receipts.Sealed.{JsonLaws, InTime}
use sealedge.Receipts.Issued.{assigned, kept, verify_receipt_chain_with_keys-Assigned}

abbrev pub print_option : Option Bytes → Bytes
print_option none = 0 ∷ []
print_option (some b) = 1 ∷ b

abbrev pub read_option : Bytes → Option Bytes
read_option [] = none
read_option (zero ∷ b) = none
read_option (suc n ∷ b) = some b

pub read_option-print_option : (o : Option Bytes) → read_option (print_option o) ≡ o
read_option-print_option none = refl
read_option-print_option (some b) = refl

-- The lengths of the parts, then the parts.
abbrev print : OwnershipReceipt → Bytes
print r =
    r.amount
    ∷ r.created_at
    ∷ length r.issuer
    ∷ length r.beneficiary
    ∷ length (print_option r.prev_envelope_hash)
    ∷ (r.issuer
        ++ (r.beneficiary ++ (print_option r.prev_envelope_hash ++ print_option r.description)))

abbrev parse : Bytes → Result Text OwnershipReceipt
parse (amount ∷ created_at ∷ i ∷ b ∷ h ∷ rest) = ok (record {
  issuer = take i rest;
  beneficiary = take b (drop i rest);
  amount = amount;
  prev_envelope_hash = read_option (take h (drop b (drop i rest)));
  description = read_option (drop h (drop b (drop i rest)));
  created_at = created_at;
})
parse other = err (str "EOF while parsing")

parse-print : (r : OwnershipReceipt) → parse (print r) ≡ ok r
parse-print r =
    let h = print_option r.prev_envelope_hash in
    let d = print_option r.description in
    rw (
      take-append r.issuer (r.beneficiary ++ (h ++ d)),
      drop-append r.issuer (r.beneficiary ++ (h ++ d)),
      take-append r.beneficiary (h ++ d),
      drop-append r.beneficiary (h ++ d),
      take-append h d,
      drop-append h d,
      read_option-print_option r.prev_envelope_hash,
      read_option-print_option r.description,
    )

abbrev toy_json : Json
toy_json = record { to_vec = λ r. ok (print r); from_slice = parse }

toy-JsonLaws : JsonLaws toy_json
toy-JsonLaws = record {
  read = λ r b h. let same : print r ≡ b = cc (h) in ap parse (sym same) ∙ parse-print r;
}

abbrev carol : Bytes
carol = 3 ∷ []

abbrev noon : Moment
noon = record { stamped = 1000; checked = 1000; sealed = 1000; salt = []; chunk_times = λ i. 1000 }

noon-InTime : InTime 1000 noon
noon-InTime = record { sealed = omega arith; stamped = omega arith }

abbrev value : Envelope → Result Text Envelope → Envelope
value default (ok env) = env
value default (err e) = default

abbrev nothing : Envelope
nothing = record {
  version = 0;
  hkdf_salt = [];
  chunks = [];
  verifying_key_bytes = [];
  beneficiary_key_bytes = [];
  metadata = record {
    created_at = 0;
    payload_size = 0;
    chunk_count = 0;
    aead_algorithm = 0;
    signature_algorithm = 0;
    hash_algorithm = 0;
  };
}

abbrev created : Envelope
created =
    value nothing (create_receipt toy toy_json noon alice (toy_crates.ed25519_public bob) 500 none)

created-ok :
    create_receipt toy toy_json noon alice (toy_crates.ed25519_public bob) 500 none ≡ ok created
unfolding create_receipt new_origin validate_receipt seal seal_metadata seal_chunks
    create_encrypted_chunk chunk_manifest chunk_nonce payload_chunks pieces
    derive_shared_encryption_key fit
created-ok = refl

abbrev handed_on : Envelope
handed_on =
    value nothing
      (assign_receipt toy toy_json noon created bob (toy_crates.ed25519_public carol) none)

handed_on-ok :
    assign_receipt toy toy_json noon created bob (toy_crates.ed25519_public carol) none
    ≡ ok handed_on
unfolding create_receipt new_origin validate_receipt seal seal_metadata seal_chunks
    create_encrypted_chunk chunk_manifest chunk_nonce payload_chunks pieces
    derive_shared_encryption_key fit assign_receipt new_assignment verify unseal hash beneficiary
    insert_number sort_numbers insert_chunk sort_chunks numbered verify_chunk_sequence
    verify_chunk_signature decrypt_chunk_v2 unseal_chunks build_aad be32 be64 bytes_eq strip_prefix
handed_on-ok = refl

to_carol : Contributory toy bob (toy_crates.ed25519_public carol)
unfolding fit
to_carol = refl

verify_receipt_chain_with_keys-Assigned_example :
    verify_receipt_chain_with_keys toy toy_json 1000 (created ∷ handed_on ∷ []) (bob ∷ carol ∷ [])
    ≡ ok tt
verify_receipt_chain_with_keys-Assigned_example =
    verify_receipt_chain_with_keys-Assigned toy toy_json 1000 toy-PrimitivesLaws toy-JsonLaws noon
      alice bob 500 none created (handed_on ∷ []) (carol ∷ []) noon-InTime contributory created-ok
      (assigned noon none noon-InTime to_carol handed_on-ok kept)

verify_receipt_chain_with_keys_iff_example :
    (verify_receipt_chain_with_keys toy toy_json 1000 (created ∷ handed_on ∷ []) (bob ∷ carol ∷ [])
      ≡ ok tt)
    ↔ IsOwnershipChain toy toy_json 1000 created (handed_on ∷ []) bob (carol ∷ [])
verify_receipt_chain_with_keys_iff_example =
    verify_receipt_chain_with_keys_iff toy toy_json 1000 created (handed_on ∷ []) bob (carol ∷ [])
