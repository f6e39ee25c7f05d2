-- ===== src/Platform/Revocation/Monotone.antt =====
-- Sequences of revoke requests, as `decide_revoke` answers them.
use sealedge.Base.{
  ℕ, ◌≤◌, ◌≡◌, refl, ap, sym, ◌∙◌, List, [], ◌∷◌, Text, Option, none, some, ◌⊎◌, inl, inr, arith,
  leb, leb→le, Option-cases, Bool-cases,
}
use sealedge.Platform.Revocation.{
  RevocationState, RevokeOutcome, applied, rejected, decide_revoke, resolve_epoch, resolve_earlier,
  resolve_first, resolve_revoked_at,
}

-- One admin request: the instant and the floor asked for, and the clock when it is handled.
pub record Request : Type 0 where
  pub revoked_at : Option Text
  pub min_epoch : Option ℕ
  pub now : Text

module _ (parse : Text → Option ℕ) where
  -- The row after a request, as `revoke_device_handler` writes it: a rejected one changes nothing.
  unfoldable pub after : RevocationState → RevokeOutcome → RevocationState
  after state (applied revoked_at min_epoch) = record {
    revoked_at = some revoked_at;
    min_epoch = min_epoch;
  }
  after state (rejected message) = state

  unfoldable pub run : RevocationState → List Request → RevocationState
  run state [] = state
  run state (r ∷ rest) =
      run (after state (decide_revoke parse state r.revoked_at r.min_epoch r.now)) rest

  -- The instant `d` takes the place of `c`: it is the same text, or one that is not later.
  abbrev pub NotLater : Text → Text → Type 0
  NotLater c d = (c ≡ d) ⊎ ((x : ℕ) × (y : ℕ) × (parse d ≡ some x) × (parse c ≡ some y) × (x ≤ y))

  abbrev pub Earlier : Option Text → Option Text → Type 0
  Earlier none d = Unit {0}
  Earlier (some c) none = ⊥
  Earlier (some c) (some d) = NotLater c d

  abbrev pub Raised : Option ℕ → Option ℕ → Type 0
  Raised none n = Unit {0}
  Raised (some m) none = ⊥
  Raised (some m) (some n) = m ≤ n

  -- `b` is at least as strict as `a`: still revoked if `a` was, not from a later instant, and with
  -- a floor that is not lower.
  pub record Tighter (a b : RevocationState) : Type 0 where
    pub earlier : Earlier a.revoked_at b.revoked_at
    pub raised : Raised a.min_epoch b.min_epoch

  NotLater-trans : (a b c : Text) → NotLater a b → NotLater b c → NotLater a c
  NotLater-trans a b c (inl p) (inl q) = inl (p ∙ q)
  NotLater-trans a b c (inl p) (inr (x, y, hx, hy, le)) = inr (x, y, hx, ap parse p ∙ hy, le)
  NotLater-trans a b c (inr (x, y, hx, hy, le)) (inl q) = inr (x, y, ap parse (sym q) ∙ hx, hy, le)
  NotLater-trans a b c (inr (x, y, hx, hy, le)) (inr (u, v, hu, hv, le')) =
      inr (u, y, hu, hy, ground arith)

  Earlier-trans : (a b c : Option Text) → Earlier a b → Earlier b c → Earlier a c
  Earlier-trans none b c h k = tt
  Earlier-trans (some a) none c h k = elim h [ ]
  Earlier-trans (some a) (some b) none h k = elim k [ ]
  Earlier-trans (some a) (some b) (some c) h k = NotLater-trans a b c h k

  Raised-trans : (a b c : Option ℕ) → Raised a b → Raised b c → Raised a c
  Raised-trans none b c h k = tt
  Raised-trans (some a) none c h k = elim h [ ]
  Raised-trans (some a) (some b) none h k = elim k [ ]
  Raised-trans (some a) (some b) (some c) h k = omega arith

  pub Earlier-refl : (a : Option Text) → Earlier a a
  Earlier-refl none = tt
  Earlier-refl (some a) = inl refl

  pub Raised-refl : (a : Option ℕ) → Raised a a
  Raised-refl none = tt
  Raised-refl (some a) = omega arith

  resolve_epoch-cases :
      (x : Text) (m n : Option ℕ)
      → ((k : Option ℕ) × (resolve_epoch x m n ≡ applied x k) × Raised m k)
        ⊎ ((t : Text) × (resolve_epoch x m n ≡ rejected t))
  unfolding resolve_epoch
  resolve_epoch-cases x m none = inl (m, refl, Raised-refl m)
  resolve_epoch-cases x none (some r) = inl (some r, refl, tt)
  resolve_epoch-cases x (some c) (some r) = elim (Bool-cases (leb c r)) [
    | inl up ↦ rw up (inl (some r, refl, leb→le c r up))
    | inr down ↦ rw down (inr (_, refl))
  ]

  -- A resolved instant is written with a floor that is not lower, or nothing is.
  resolve_epoch-Tighter :
      (state : RevocationState) (x : Text) (n : Option ℕ)
      → Earlier state.revoked_at (some x)
      → Tighter state (after state (resolve_epoch x state.min_epoch n))
  unfolding after
  resolve_epoch-Tighter state x n h = elim (resolve_epoch-cases x state.min_epoch n) [
    | inl (k, e, up) ↦ rw e (record { earlier = h; raised = up })
    | inr (t, e) ↦
        rw e
          (record { earlier = Earlier-refl state.revoked_at; raised = Raised-refl state.min_epoch })
  ]

  rejected-Tighter : (state : RevocationState) (t : Text) → Tighter state (after state (rejected t))
  unfolding after
  rejected-Tighter state t = record {
    earlier = Earlier-refl state.revoked_at;
    raised = Raised-refl state.min_epoch;
  }

  resolve_earlier-Tighter :
      (state : RevocationState) (c r : Text) (n : Option ℕ)
      → state.revoked_at ≡ some c
      → Tighter state (
          after state
            (resolve_earlier r (parse c) (parse r) (λ x. resolve_epoch x state.min_epoch n)))
  unfolding resolve_earlier
  resolve_earlier-Tighter state c r n h = elim (Option-cases (parse c)) [
    | inl bad ↦ rw bad (rejected-Tighter state _)
    | inr (cd, pc) ↦ elim (Option-cases (parse r)) [
      | inl bad ↦ rw (pc, bad) (rejected-Tighter state _)
      | inr (rd, pr) ↦ elim (Bool-cases (leb rd cd)) [
        | inl le ↦
            rw (pc, pr, le)
              (resolve_epoch-Tighter state r n (rw h (inr (rd, cd, pr, pc, leb→le rd cd le))))
        | inr late ↦ rw (pc, pr, late) (rejected-Tighter state _)
      ]
    ]
  ]

  resolve_first-Tighter :
      (state : RevocationState) (r : Text) (n : Option ℕ)
      → state.revoked_at ≡ none
      → Tighter state
          (after state (resolve_first r (parse r) (λ x. resolve_epoch x state.min_epoch n)))
  unfolding resolve_first
  resolve_first-Tighter state r n h = elim (Option-cases (parse r)) [
    | inl bad ↦ rw bad (rejected-Tighter state _)
    | inr (rd, pr) ↦ rw pr (resolve_epoch-Tighter state r n (rw h tt))
  ]

  resolve_revoked_at-Tighter :
      (state : RevocationState) (cur req : Option Text) (n : Option ℕ) (now : Text)
      → state.revoked_at ≡ cur
      → Tighter state (
          after state
            (resolve_revoked_at parse cur req now (λ x. resolve_epoch x state.min_epoch n)))
  unfolding resolve_revoked_at
  resolve_revoked_at-Tighter state none none n now h = resolve_epoch-Tighter state now n (rw h tt)
  resolve_revoked_at-Tighter state none (some r) n now h = resolve_first-Tighter state r n h
  resolve_revoked_at-Tighter state (some c) none n now h =
      resolve_epoch-Tighter state c n (rw h (inl refl))
  resolve_revoked_at-Tighter state (some c) (some r) n now h = resolve_earlier-Tighter state c r n h

  pub after-Tighter :
      (state : RevocationState) (r : Request)
      → Tighter state (after state (decide_revoke parse state r.revoked_at r.min_epoch r.now))
  unfolding decide_revoke
  after-Tighter state r =
      resolve_revoked_at-Tighter state state.revoked_at r.revoked_at r.min_epoch r.now refl

  -- Over any sequence of admin requests, accepted or not, revocation only tightens: an instant is
  -- never cleared, and its place is taken only by one that is not later; the epoch floor is never
  -- cleared and never falls.
  pub run-Tighter :
      (state : RevocationState) (requests : List Request) → Tighter state (run state requests)
  unfolding run
  run-Tighter state [] = record {
    earlier = Earlier-refl state.revoked_at;
    raised = Raised-refl state.min_epoch;
  }
  run-Tighter state (r ∷ rest) =
      let next = after state (decide_revoke parse state r.revoked_at r.min_epoch r.now) in
      let ih = run-Tighter next rest in
      record {
        earlier =
            Earlier-trans state.revoked_at next.revoked_at (run next rest).revoked_at
              (after-Tighter state r).earlier ih.earlier;
        raised =
            Raised-trans state.min_epoch next.min_epoch (run next rest).min_epoch
              (after-Tighter state r).raised ih.raised;
      }
