-- ===== src/Receipts/Links.antt =====
-- crates/core/src/applications/receipts/mod.rs: what an envelope and its receipt must be, when one receipt
-- follows another, and the loop that checks it.
use sealedge.Base.{
  ℕ, ◌+◌, ◌≡◌, refl, ap, ◌∙◌, List, [], ◌∷◌, Bytes, Text, str, true, Option, none, some, bytes_eq,
  bytes_eq_iff, bytes_eq_refl, ◌-◌, ◌==◌, length, ok, map_err, bind-ok, ensure-ok, map_err-ok,
  arith,
}
use sealedge.Envelope.{Envelope, Primitives}
use sealedge.Envelope.Unseal.{hash, beneficiary, issuer}
use sealedge.Receipts.{
  OwnershipReceipt, Json, extract_receipt, at_envelope, names_hash, check_links,
}

module _ (p : Primitives) (j : Json) (now : ℕ) where
  -- The key opens the envelope to a receipt that names the signer and the envelope's beneficiary.
  pub record IsOwned (env : Envelope) (key : Bytes) (r : OwnershipReceipt) : Type 0 where
    pub extracted : extract_receipt p j now env key ≡ ok r
    pub signer : issuer p env ≡ ok r.issuer
    pub holder : beneficiary p env ≡ ok r.beneficiary

  -- A receipt names the hash of the envelope before, is issued by its beneficiary, and keeps the amount.
  pub record Follows (prev_env : Envelope) (prev r : OwnershipReceipt) : Type 0 where
    pub prev_hash : Bytes
    pub hashed : hash p prev_env ≡ ok prev_hash
    pub named : r.prev_envelope_hash ≡ some prev_hash
    pub transferred : r.issuer ≡ prev.beneficiary
    pub kept : r.amount ≡ prev.amount

  abbrev pub AreOwned : List Envelope → List Bytes → List OwnershipReceipt → Type 0
  AreOwned [] [] [] = Unit {0}
  AreOwned (env ∷ envs) (key ∷ keys) (r ∷ rs) = IsOwned env key r × AreOwned envs keys rs
  AreOwned _ _ _ = ⊥

  abbrev pub AreLinked :
      Envelope → OwnershipReceipt → List Envelope → List OwnershipReceipt → Type 0
  AreLinked prev_env prev [] [] = Unit {0}
  AreLinked prev_env prev (env ∷ envs) (r ∷ rs) = Follows prev_env prev r × AreLinked env r envs rs
  AreLinked _ _ _ _ = ⊥

  pub check_links-AreLinked :
      (i : ℕ) (prev_env : Envelope) (prev : OwnershipReceipt) (envs : List Envelope)
      (rs : List OwnershipReceipt)
      → length rs ≡ length envs
      → check_links p j i prev_env prev envs rs ≡ ok tt
      → AreLinked prev_env prev envs rs
  unfolding check_links
  check_links-AreLinked i prev_env prev [] [] n h = tt
  check_links-AreLinked i prev_env prev [] (r ∷ rs) n h = absurd (omega arith)
  check_links-AreLinked i prev_env prev (env ∷ envs) [] n h = absurd (omega arith)
  check_links-AreLinked i prev_env prev (env ∷ envs) (r ∷ rs) n h =
      let hashed =
        bind-ok (map_err (λ (e : Text). at_envelope (i - 1) (str "hash failed")) (hash p prev_env))
          _ tt h in
      let named = ensure-ok (names_hash r.prev_envelope_hash hashed.0) _ _ tt hashed.2 in
      let transferred = ensure-ok (bytes_eq r.issuer prev.beneficiary) _ _ tt named.1 in
      let kept = ensure-ok (r.amount == prev.amount) _ _ tt transferred.1 in
      (
        record {
          prev_hash = hashed.0;
          hashed = map_err-ok _ (hash p prev_env) hashed.0 hashed.1;
          named = names r.prev_envelope_hash hashed.0 named.0;
          transferred = (bytes_eq_iff r.issuer prev.beneficiary).0 transferred.0;
          kept = ground (arith, kept.0);
        },
        check_links-AreLinked (i + 1) env r envs rs (omega (arith, n)) kept.1,
      )
    where
      names : (o : Option Bytes) (b : Bytes) → names_hash o b ≡ true → o ≡ some b
      names none b e = absurd (cc)
      names (some a) b e = ap some ((bytes_eq_iff a b).0 e)

  pub AreLinked-check_links :
      (i : ℕ) (prev_env : Envelope) (prev : OwnershipReceipt) (envs : List Envelope)
      (rs : List OwnershipReceipt)
      → AreLinked prev_env prev envs rs
      → check_links p j i prev_env prev envs rs ≡ ok tt
  unfolding check_links
  AreLinked-check_links i prev_env prev [] [] l = refl
  AreLinked-check_links i prev_env prev [] (r ∷ rs) l = elim l [ ]
  AreLinked-check_links i prev_env prev (env ∷ envs) [] l = elim l [ ]
  AreLinked-check_links i prev_env prev (env ∷ envs) (r ∷ rs) l =
      let f = l.0 in
      let named : names_hash r.prev_envelope_hash f.prev_hash ≡ true =
        ap (λ o. names_hash o f.prev_hash) f.named ∙ bytes_eq_refl f.prev_hash in
      let kept : (r.amount == prev.amount) ≡ true = ground (arith, f.kept) in
      rw (f.hashed, named, (bytes_eq_iff r.issuer prev.beneficiary).1 f.transferred, kept)
        (AreLinked-check_links (i + 1) env r envs rs l.1)
