-- ===== src/Auth/Key.antt =====
-- crates/core/src/auth.rs: the session key on both sides.
use sealedge.Base.{◌≡◌, refl, ◌⊎◌, inl, inr, [], ◌∷◌, Bytes, true, false, ltb, Bool-cases, arith}
use sealedge.Envelope.{Primitives, PrimitivesLaws}
use sealedge.Auth.{Wire, bytes_lt}
use sealedge.Auth.Manager.{ordered, derive_session_key}

-- One of two arrays is less, or they are equal.
bytes_lt-cases :
    (a b : Bytes)
    → ((bytes_lt a b ≡ true) × (bytes_lt b a ≡ false))
      ⊎ (((bytes_lt a b ≡ false) × (bytes_lt b a ≡ true)) ⊎ (a ≡ b))
unfolding bytes_lt
bytes_lt-cases [] [] = inr (inr refl)
bytes_lt-cases [] (y ∷ b) = inl (refl, refl)
bytes_lt-cases (x ∷ a) [] = inr (inl (refl, refl))
bytes_lt-cases (x ∷ a) (y ∷ b) = elim (Bool-cases (ltb x y)) [
  | inl less ↦ inl (ground (arith, less), ground (arith, less))
  | inr not_less ↦ elim (Bool-cases (ltb y x)) [
    | inl more ↦ inr (inl (ground (arith, more), ground (arith, more)))
    | inr not_more ↦
        let same : x ≡ y = ground (arith, not_less, not_more) in
        elim (bytes_lt-cases a b) [
          | inl (l, r) ↦ inl (ground (arith, l, same), ground (arith, r, same))
          | inr (inl (l, r)) ↦ inr (inl (ground (arith, l, same), ground (arith, r, same)))
          | inr (inr e) ↦ inr (inr (cc (same, e)))
        ]
  ]
]

module _ (p : Primitives) (w : Wire) where
  ordered_comm : (a b : Bytes) → ordered p w a b ≡ ordered p w b a
  unfolding ordered
  ordered_comm a b = elim (bytes_lt-cases a b) [
    | inl (l, r) ↦ rw (l, r)
    | inr (inl (l, r)) ↦ rw (l, r)
    | inr (inr e) ↦ rw e
  ]

  -- Either side, from its own secret key and the other's public key, comes to the same session key or
  -- the same refusal.
  pub derive_session_key-symmetric :
      PrimitivesLaws p
      → (a b challenge : Bytes)
      → derive_session_key p w a (p.dalek.ed25519_public b) challenge
        ≡ derive_session_key p w b (p.dalek.ed25519_public a) challenge
  unfolding derive_session_key
  derive_session_key-symmetric laws a b challenge =
      rw (laws.shared a b, ordered_comm (p.dalek.ed25519_public a) (p.dalek.ed25519_public b))
