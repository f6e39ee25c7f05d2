-- ===== src/Platform/Handler/Revoke.antt =====
-- `revoke_device_handler`: what it does to the devices of the database.
pub mod Tests
use sealedge.Base.{
  ℕ, ◌≡◌, refl, ap, sym, ◌∙◌, ◌==◌, ◌&&◌, List, [], ◌∷◌, Text, Bool, true, false, Bool-cases,
  Option, none, some, Option-cases, inl, inr, arith, ok, Result, subst,
}
use sealedge.Platform.Revocation.{RevocationState, RevokeOutcome, applied, rejected, decide_revoke}
use sealedge.Platform.Revocation.Monotone.{
  Request, after, Tighter, after-Tighter, Earlier-refl, Raised-refl,
}
use sealedge.Platform.Database.{
  Db, DeviceRow, tenant_state, get_device_revocation, update_rows, set_device_revocation,
}
use sealedge.Platform.Handler.{
  Refusal, RevokeRequest, RevokeResponse, apply_outcome, revoke_found, revoke_device_handler,
}

-- The row of device `id` in organization `org_id`.
abbrev is_row : ℕ → ℕ → DeviceRow → Bool
is_row org_id id d = d.id == id && d.org_id == org_id

abbrev state_in : DeviceRow → RevocationState
state_in d = record { revoked_at = d.revoked_at; min_epoch = d.min_epoch }

module _ (parse : Text → Option ℕ) where
  -- The device is still there, and at least as strictly revoked.
  abbrev pub Kept : Option RevocationState → Option RevocationState → Type 0
  Kept none none = Unit {0}
  Kept none (some b) = ⊥
  Kept (some a) none = ⊥
  Kept (some a) (some b) = Tighter parse a b

  Kept-refl : (o : Option RevocationState) → Kept o o
  Kept-refl none = tt
  Kept-refl (some a) = record {
    earlier = Earlier-refl parse a.revoked_at;
    raised = Raised-refl parse a.min_epoch;
  }

-- An update does not reach another device.
update_rows-other :
    (org_id id : ℕ) (r : Text) (m : Option ℕ) (org id' : ℕ) (rows : List DeviceRow)
    → (id' == id && org == org_id) ≡ false
    → tenant_state org id' (update_rows org_id id r m rows).0 ≡ tenant_state org id' rows
unfolding tenant_state update_rows
update_rows-other org_id id r m org id' [] h = refl
update_rows-other org_id id r m org id' (d ∷ rest) h =
    ground (arith, update_rows-other org_id id r m org id' rest h)

module _ (parse : Text → Option ℕ) where
  update_rows-Kept :
      (org_id id : ℕ) (r : Text) (m : Option ℕ) (org id' : ℕ) (rows : List DeviceRow)
      → ((a : RevocationState)
          → tenant_state org_id id rows ≡ some a
          → Tighter parse a (record { revoked_at = some r; min_epoch = m }))
      → Kept parse
          (tenant_state org id' rows)
          (tenant_state org id' (update_rows org_id id r m rows).0)
  unfolding tenant_state update_rows
  update_rows-Kept org_id id r m org id' [] h = tt
  update_rows-Kept org_id id r m org id' (d ∷ rest) h = elim (Bool-cases (is_row org_id id d)) [
    | inl x ↦ elim (Bool-cases (is_row org id' d)) [
      | inl y ↦ rw x (rw y (h (state_in d) (rw x refl)))
      | inr y ↦ rw x (
          rw y (
            rw (update_rows-other org_id id r m org id' rest (ground (arith, x, y)))
              (Kept-refl parse _)))
    ]
    | inr x ↦ elim (Bool-cases (is_row org id' d)) [
      | inl y ↦ rw x (rw y (Kept-refl parse (some (state_in d))))
      | inr y ↦ rw x (rw y (update_rows-Kept org_id id r m org id' rest (λ a e. h a (rw x e))))
    ]
  ]

  apply_outcome-Kept :
      (db : Db) (org_id id : ℕ) (outcome : RevokeOutcome) (org id' : ℕ)
      → ((a : RevocationState)
          → get_device_revocation db org_id id ≡ some a
          → Tighter parse a (after parse a outcome))
      → Kept parse
          (get_device_revocation db org id')
          (get_device_revocation (apply_outcome parse db org_id id outcome).1 org id')
  unfolding apply_outcome set_device_revocation get_device_revocation after
  apply_outcome-Kept db org_id id (rejected msg) org id' h = Kept-refl parse _
  apply_outcome-Kept db org_id id (applied r m) org id' h =
      elim (Bool-cases ((update_rows org_id id r m db.devices).1)) [
        | inl u ↦ rw u (update_rows-Kept org_id id r m org id' db.devices h)
        | inr u ↦ rw u (update_rows-Kept org_id id r m org id' db.devices h)
      ]

  state_is : {a b : RevocationState} {o : Option RevocationState} → o ≡ some a → o ≡ some b → b ≡ a
  state_is p q = cc

  -- Whatever a revoke request asks, for whichever device and organization, and whatever is
  -- answered: every device of every organization is still there afterwards, not revoked from a later
  -- instant, with an epoch floor that is not lower, and revoked if it was.
  pub revoke_device_handler-Kept :
      (db : Db) (org_id id : ℕ) (req : RevokeRequest) (now : Text) (org id' : ℕ)
      → Kept parse
          (get_device_revocation db org id')
          (get_device_revocation (revoke_device_handler parse db org_id id req now).1 org id')
  unfolding revoke_device_handler revoke_found
  revoke_device_handler-Kept db org_id id req now org id' =
      elim (Option-cases (get_device_revocation db org_id id)) [
        | inl absent ↦ rw absent (Kept-refl parse _)
        | inr found ↦
            let (state, e) = found in
            let request : Request = record {
              revoked_at = req.revoked_at;
              min_epoch = req.min_epoch;
              now = now;
            } in
            rw e (
              apply_outcome-Kept db org_id id
                (decide_revoke parse state req.revoked_at req.min_epoch now) org id'
                (λ a p.
                  subst
                    (λ (s : RevocationState).
                      Tighter parse a
                        (after parse a (decide_revoke parse s req.revoked_at req.min_epoch now)))
                    (state_is e p) (after-Tighter parse a request)))
      ]

  update_rows-found :
      (org_id id : ℕ) (r : Text) (m : Option ℕ) (rows : List DeviceRow)
      → (update_rows org_id id r m rows).1 ≡ true
      → tenant_state org_id id (update_rows org_id id r m rows).0
        ≡ some (record { revoked_at = some r; min_epoch = m })
  unfolding tenant_state update_rows
  update_rows-found org_id id r m [] h = cc
  update_rows-found org_id id r m (d ∷ rest) h =
      ground (arith, update_rows-found org_id id r m rest)

  apply_outcome-stored :
      (db : Db) (org_id id : ℕ) (outcome : RevokeOutcome) (response : RevokeResponse)
      → (apply_outcome parse db org_id id outcome).0 ≡ ok response
      → get_device_revocation (apply_outcome parse db org_id id outcome).1 org_id id
        ≡ some (record { revoked_at = some response.revoked_at; min_epoch = response.min_epoch })
  unfolding apply_outcome set_device_revocation get_device_revocation
  apply_outcome-stored db org_id id (rejected msg) response h = cc
  apply_outcome-stored db org_id id (applied r m) response h =
      ground (arith, update_rows-found org_id id r m db.devices)

  revoke_found-stored :
      (db : Db) (org_id id : ℕ) (req : RevokeRequest) (now : Text) (response : RevokeResponse)
      (o : Option RevocationState)
      → (revoke_found parse db org_id id req now o).0 ≡ ok response
      → get_device_revocation (revoke_found parse db org_id id req now o).1 org_id id
        ≡ some (record { revoked_at = some response.revoked_at; min_epoch = response.min_epoch })
  unfolding revoke_found
  revoke_found-stored db org_id id req now response none h = cc
  revoke_found-stored db org_id id req now response (some state) h =
      apply_outcome-stored db org_id id (decide_revoke parse state req.revoked_at req.min_epoch now)
        response h

  -- When the revoke handler answers with a state, the database holds that state for the device
  -- afterwards.
  pub revoke_device_handler-stored :
      (db : Db) (org_id id : ℕ) (req : RevokeRequest) (now : Text) (response : RevokeResponse)
      → (revoke_device_handler parse db org_id id req now).0 ≡ ok response
      → get_device_revocation (revoke_device_handler parse db org_id id req now).1 org_id id
        ≡ some (record { revoked_at = some response.revoked_at; min_epoch = response.min_epoch })
  unfolding revoke_device_handler
  revoke_device_handler-stored db org_id id req now response h =
      revoke_found-stored db org_id id req now response (get_device_revocation db org_id id) h
