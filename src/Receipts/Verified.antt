-- ===== src/Receipts/Verified.antt =====
-- crates/core/src/applications/receipts/mod.rs: the chains that `verify_receipt_chain_with_keys` accepts.
use sealedge.Base.{
  ℕ, suc, ◌+◌, ◌≡◌, refl, ap, sym, ◌∙◌, ◌↔◌, List, [], ◌∷◌, Bytes, Text, str, true, false, Option,
  none, some, bytes_eq, bytes_eq_iff, bytes_eq_refl, ◌==◌, length, ok, map_err, bind-ok, ensure-ok,
  map_err-ok, arith, subst,
}
use sealedge.Envelope.{Envelope, Primitives}
use sealedge.Envelope.Unseal.{beneficiary, issuer}
use sealedge.Receipts.{
  OwnershipReceipt, Json, is_origin, extract_receipt, at_envelope, extract_all, check_links,
  check_parties, first_checks, verify_receipt_chain_with_keys,
}
use sealedge.Receipts.Links.{AreOwned, AreLinked, check_links-AreLinked, AreLinked-check_links}

module _ (p : Primitives) (j : Json) (now : ℕ) where
  -- From an origin on, each owner hands the claim to the next.
  pub record IsOwnershipChain (env : Envelope) (envs : List Envelope) (key : Bytes)
      (keys : List Bytes) : Type 0 where
    pub first : OwnershipReceipt
    pub rest : List OwnershipReceipt
    pub owned : AreOwned p j now (env ∷ envs) (key ∷ keys) (first ∷ rest)
    pub origin : first.prev_envelope_hash ≡ none
    pub linked : AreLinked p j now env first envs rest

  -- The two loops over all envelopes come to one condition on each.
  loops-AreOwned :
      (i k : ℕ) (envs : List Envelope) (keys : List Bytes) (rs : List OwnershipReceipt)
      → length keys ≡ length envs
      → extract_all p j now i envs keys ≡ ok rs
      → check_parties p j k envs rs ≡ ok tt
      → AreOwned p j now envs keys rs
  unfolding extract_all check_parties
  loops-AreOwned i k [] [] [] n x h = tt
  loops-AreOwned i k [] [] (r ∷ rs) n x h = absurd (cc)
  loops-AreOwned i k [] (key ∷ keys) rs n x h = absurd (omega arith)
  loops-AreOwned i k (env ∷ envs) [] rs n x h = absurd (omega arith)
  loops-AreOwned i k (env ∷ envs) (key ∷ keys) rs n x h =
      let one =
        bind-ok
          (map_err (λ (e : Text). at_envelope i (str "unseal/extract failed"))
            (extract_receipt p j now env key))
          _ rs x in
      let others = bind-ok (extract_all p j now (i + 1) envs keys) _ rs one.2 in
      let whole : one.0 ∷ others.0 ≡ rs = cc (others.2) in
      let h' = subst (λ l. check_parties p j k (env ∷ envs) l ≡ ok tt) (sym whole) h in
      let signer =
        bind-ok (map_err (λ (e : Text). at_envelope k (str "invalid issuer key")) (issuer p env)) _
          tt h' in
      let signed = ensure-ok (bytes_eq one.0.issuer signer.0) _ _ tt signer.2 in
      let holder =
        bind-ok
          (map_err (λ (e : Text). at_envelope k (str "invalid beneficiary key"))
            (beneficiary p env))
          _ tt signed.1 in
      let held = ensure-ok (bytes_eq one.0.beneficiary holder.0) _ _ tt holder.2 in
      subst (AreOwned p j now (env ∷ envs) (key ∷ keys)) whole (
        record {
          extracted = map_err-ok _ (extract_receipt p j now env key) one.0 one.1;
          signer =
              map_err-ok _ (issuer p env) signer.0 signer.1
              ∙ ap ok (sym ((bytes_eq_iff one.0.issuer signer.0).0 signed.0));
          holder =
              map_err-ok _ (beneficiary p env) holder.0 holder.1
              ∙ ap ok (sym ((bytes_eq_iff one.0.beneficiary holder.0).0 held.0));
        },
        loops-AreOwned (i + 1) (k + 1) envs keys others.0 (omega (arith, n)) others.1 held.1,
      )

  AreOwned-extract_all :
      (i : ℕ) (envs : List Envelope) (keys : List Bytes) (rs : List OwnershipReceipt)
      → AreOwned p j now envs keys rs
      → extract_all p j now i envs keys ≡ ok rs
  unfolding extract_all
  AreOwned-extract_all i [] [] [] o = refl
  AreOwned-extract_all i [] [] (r ∷ rs) o = elim o [ ]
  AreOwned-extract_all i [] (key ∷ keys) rs o = elim o [ ]
  AreOwned-extract_all i (env ∷ envs) [] rs o = elim o [ ]
  AreOwned-extract_all i (env ∷ envs) (key ∷ keys) [] o = elim o [ ]
  AreOwned-extract_all i (env ∷ envs) (key ∷ keys) (r ∷ rs) o =
      rw (o.0.extracted, AreOwned-extract_all (i + 1) envs keys rs o.1)

  AreOwned-check_parties :
      (i : ℕ) (envs : List Envelope) (keys : List Bytes) (rs : List OwnershipReceipt)
      → AreOwned p j now envs keys rs
      → check_parties p j i envs rs ≡ ok tt
  unfolding check_parties
  AreOwned-check_parties i [] [] [] o = refl
  AreOwned-check_parties i [] [] (r ∷ rs) o = elim o [ ]
  AreOwned-check_parties i [] (key ∷ keys) rs o = elim o [ ]
  AreOwned-check_parties i (env ∷ envs) [] rs o = elim o [ ]
  AreOwned-check_parties i (env ∷ envs) (key ∷ keys) [] o = elim o [ ]
  AreOwned-check_parties i (env ∷ envs) (key ∷ keys) (r ∷ rs) o =
      rw (o.0.signer, bytes_eq_refl r.issuer, o.0.holder, bytes_eq_refl r.beneficiary)
        (AreOwned-check_parties (i + 1) envs keys rs o.1)

  AreOwned-length :
      (envs : List Envelope) (keys : List Bytes) (rs : List OwnershipReceipt)
      → AreOwned p j now envs keys rs
      → (length keys ≡ length envs) × (length rs ≡ length envs)
  AreOwned-length [] [] [] o = (refl, refl)
  AreOwned-length [] [] (r ∷ rs) o = elim o [ ]
  AreOwned-length [] (key ∷ keys) rs o = elim o [ ]
  AreOwned-length (env ∷ envs) [] rs o = elim o [ ]
  AreOwned-length (env ∷ envs) (key ∷ keys) [] o = elim o [ ]
  AreOwned-length (env ∷ envs) (key ∷ keys) (r ∷ rs) o =
      let ih = AreOwned-length envs keys rs o.1 in (ap suc (ih.0), ap suc (ih.1))

  checks-IsOwnershipChain :
      (env : Envelope) (envs : List Envelope) (key : Bytes) (keys : List Bytes)
      (rs : List OwnershipReceipt)
      → length (key ∷ keys) ≡ length (env ∷ envs)
      → extract_all p j now 0 (env ∷ envs) (key ∷ keys) ≡ ok rs
      → first_checks p j (env ∷ envs) rs ≡ ok tt
      → IsOwnershipChain env envs key keys
  unfolding extract_all
  checks-IsOwnershipChain env envs key keys [] n x h =
      let one =
        bind-ok
          (map_err (λ (e : Text). at_envelope 0 (str "unseal/extract failed"))
            (extract_receipt p j now env key))
          _ [] x in
      let others = bind-ok (extract_all p j now 1 envs keys) _ [] one.2 in absurd (cc (others.2))
  checks-IsOwnershipChain env envs key keys (r ∷ rs) n x h =
      let genuine = ensure-ok (is_origin r) _ _ tt h in
      let links = bind-ok (check_links p j 1 env r envs rs) _ tt genuine.1 in
      let owned = loops-AreOwned 0 0 (env ∷ envs) (key ∷ keys) (r ∷ rs) n x links.2 in
      record {
        first = r;
        rest = rs;
        owned = owned;
        origin = no_link r.prev_envelope_hash genuine.0;
        linked =
            check_links-AreLinked p j now 1 env r envs rs (AreOwned-length envs keys rs owned.1).1
              links.1;
      }
    where
      no_link : (o : Option Bytes) → elim o [ none ↦ true | some b ↦ false ] ≡ true → o ≡ none
      no_link none e = refl
      no_link (some b) e = absurd (cc)

  verify-IsOwnershipChain :
      (env : Envelope) (envs : List Envelope) (key : Bytes) (keys : List Bytes)
      → verify_receipt_chain_with_keys p j now (env ∷ envs) (key ∷ keys) ≡ ok tt
      → IsOwnershipChain env envs key keys
  unfolding verify_receipt_chain_with_keys
  verify-IsOwnershipChain env envs key keys h =
      let counted = ensure-ok (length (key ∷ keys) == length (env ∷ envs)) _ _ tt h in
      let sizes : length (key ∷ keys) ≡ length (env ∷ envs) = ground (arith, counted.0) in
      let opened = bind-ok (extract_all p j now 0 (env ∷ envs) (key ∷ keys)) _ tt counted.1 in
      checks-IsOwnershipChain env envs key keys opened.0 sizes opened.1 opened.2

  pub IsOwnershipChain-verify :
      (env : Envelope) (envs : List Envelope) (key : Bytes) (keys : List Bytes)
      → IsOwnershipChain env envs key keys
      → verify_receipt_chain_with_keys p j now (env ∷ envs) (key ∷ keys) ≡ ok tt
  unfolding verify_receipt_chain_with_keys
  IsOwnershipChain-verify env envs key keys c =
      let counted : (length (key ∷ keys) == length (env ∷ envs)) ≡ true =
        ground (arith, (AreOwned-length (env ∷ envs) (key ∷ keys) (c.first ∷ c.rest) c.owned).0) in
      rw (
        counted,
        AreOwned-extract_all 0 (env ∷ envs) (key ∷ keys) (c.first ∷ c.rest) c.owned,
        AreLinked-check_links p j now 1 env c.first envs c.rest c.linked,
        AreOwned-check_parties 0 (env ∷ envs) (key ∷ keys) (c.first ∷ c.rest) c.owned,
        c.origin,
      )

  -- A chain of at least one envelope and one key is accepted exactly when there is a receipt for each
  -- envelope, which its key opens at the time of the check and which names the envelope's signer
  -- and beneficiary; the first names no envelope before; and each later one names the hash of the
  -- envelope before it, is issued by that one's beneficiary, and keeps its amount.
  pub verify_receipt_chain_with_keys_iff :
      (env : Envelope) (envs : List Envelope) (key : Bytes) (keys : List Bytes)
      → (verify_receipt_chain_with_keys p j now (env ∷ envs) (key ∷ keys) ≡ ok tt)
        ↔ IsOwnershipChain env envs key keys
  verify_receipt_chain_with_keys_iff env envs key keys =
      (verify-IsOwnershipChain env envs key keys, IsOwnershipChain-verify env envs key keys)
