-- ===== src/Auth/Invariant.antt =====
-- crates/core/src/auth.rs: the managers that the operations lead to.
use sealedge.Base.{
  ℕ, ◌+◌, ◌%◌, ◌^◌, ◌≡◌, refl, sym, subst, [], ◌∷◌, Bytes, Text, true, false, none, bytes_eq,
  bytes_eq_iff, Bool-cases, inl, inr, ltb, Result-cases, ok, arith,
}
use sealedge.Envelope.{Primitives}
use sealedge.Auth.{
  session_timeout, AuthChallenge, ClientAuthResponse, SessionInfo, Sessions, SessionManager, Wire,
  get, insert, remove, retain_current,
}
use sealedge.Auth.Manager.{
  with_signing_key, new_session, authenticate_client, cleanup_expired_sessions, remove_session,
  validate_session,
}
use sealedge.Auth.Authentic.{new_session-IsAuthentic}
use sealedge.Auth.Sessions.{IsNew, UniqueIds, get-retain_current-none}

-- What holds of each kept session: it stands under its own id, is authenticated, and was given its time.
pub record IsSession (id : Bytes) (s : SessionInfo) : Type 0 where
  pub own_id : s.session_id ≡ id
  pub authenticated : s.authenticated ≡ true
  pub lifetime : s.expires_at ≡ (s.created_at + session_timeout) % 2 ^ 64

abbrev pub AreSessions : Sessions → Type 0
AreSessions [] = Unit {0}
AreSessions ((k, s) ∷ rest) = IsSession k s × IsNew k rest × AreSessions rest

AreSessions-UniqueIds : (l : Sessions) → AreSessions l → UniqueIds l
AreSessions-UniqueIds [] a = tt
AreSessions-UniqueIds ((k, s) ∷ rest) a = (a.1, AreSessions-UniqueIds rest a.2)

get-insert-none :
    (k id : Bytes) (s : SessionInfo) (l : Sessions)
    → bytes_eq id k ≡ false
    → get k l ≡ none
    → get k (insert id s l) ≡ none
unfolding get insert
get-insert-none k id s [] ne h = rw ne
get-insert-none k id s ((j, t) ∷ rest) ne h = elim (Bool-cases (bytes_eq j id)) [
  | inl same ↦ elim (Bool-cases (bytes_eq j k)) [
    | inl hit ↦ absurd (ground (arith, hit, h))
    | inr miss ↦ rw (same, ne) (ground (arith, miss, h))
  ]
  | inr other ↦ elim (Bool-cases (bytes_eq j k)) [
    | inl hit ↦ absurd (ground (arith, hit, h))
    | inr miss ↦ rw (other, miss) (get-insert-none k id s rest ne (ground (arith, miss, h)))
  ]
]

insert-AreSessions :
    (id : Bytes) (s : SessionInfo) (l : Sessions)
    → IsSession id s
    → AreSessions l
    → AreSessions (insert id s l)
unfolding insert
insert-AreSessions id s [] h a = (h, unfold get in refl, tt)
insert-AreSessions id s ((k, t) ∷ rest) h a = elim (Bool-cases (bytes_eq k id)) [
  | inl same ↦ rw same (h, subst (λ x. IsNew x rest) ((bytes_eq_iff k id).0 same) a.1, a.2)
  | inr other ↦ rw other (
    a.0,
    get-insert-none k id s rest (flipped k id other) a.1,
    insert-AreSessions id s rest h a.2,
  )
]
  where
    flipped : (k id : Bytes) → bytes_eq k id ≡ false → bytes_eq id k ≡ false
    flipped k id e = elim (Bool-cases (bytes_eq id k)) [
      | inl same ↦ absurd (cc (e, (bytes_eq_iff k id).1 (sym ((bytes_eq_iff id k).0 same))))
      | inr other ↦ other
    ]

get-remove-none : (k id : Bytes) (l : Sessions) → get k l ≡ none → get k (remove id l) ≡ none
unfolding get remove
get-remove-none k id [] h = refl
get-remove-none k id ((j, t) ∷ rest) h = elim (Bool-cases (bytes_eq j k)) [
  | inl hit ↦ absurd (ground (arith, hit, h))
  | inr miss ↦
      let ih = get-remove-none k id rest (ground (arith, miss, h)) in
      elim (Bool-cases (bytes_eq j id)) [ inl gone ↦ rw gone ih | inr kept ↦ rw (kept, miss) ih ]
]

remove-AreSessions : (id : Bytes) (l : Sessions) → AreSessions l → AreSessions (remove id l)
unfolding remove
remove-AreSessions id [] a = tt
remove-AreSessions id ((k, s) ∷ rest) a =
    let ih = remove-AreSessions id rest a.2 in
    elim (Bool-cases (bytes_eq k id)) [
      | inl gone ↦ rw gone ih
      | inr kept ↦ rw kept (a.0, get-remove-none k id rest a.1, ih)
    ]

retain_current-AreSessions :
    (now : ℕ) (l : Sessions) → AreSessions l → AreSessions (retain_current now l)
unfolding retain_current
retain_current-AreSessions now [] a = tt
retain_current-AreSessions now ((k, s) ∷ rest) a =
    let ih = retain_current-AreSessions now rest a.2 in
    elim (Bool-cases (ltb now s.expires_at)) [
      | inl current ↦ rw current (a.0, get-retain_current-none now k rest a.1, ih)
      | inr expired ↦ rw expired ih
    ]

module _ (p : Primitives) (w : Wire) where
  -- What a sequence of calls makes of a manager, from one with a given key.
  pub data Reached : SessionManager → Type 0 where
    begun :
        (now : ℕ) (identity : Text) (key : Bytes) → Reached (with_signing_key p w now identity key)
    authenticated :
        {m : SessionManager} (now : ℕ) (session_id : Bytes) (challenge : AuthChallenge)
        (response : ClientAuthResponse)
        → Reached m
        → Reached ((authenticate_client p w now session_id m challenge response).1)
    validated :
        {m : SessionManager} (now later : ℕ) (session_id : Bytes)
        → Reached m
        → Reached ((validate_session now later m session_id).1)
    removed :
        {m : SessionManager} (session_id : Bytes)
        → Reached m
        → Reached (remove_session m session_id)
    cleaned : {m : SessionManager} (now : ℕ) → Reached m → Reached (cleanup_expired_sessions now m)

  new_session-IsSession :
      (now : ℕ) (session_id : Bytes) (m : SessionManager) (challenge : AuthChallenge)
      (response : ClientAuthResponse) (s : SessionInfo)
      → new_session p w now session_id m challenge response ≡ ok s
      → IsSession s.session_id s
  new_session-IsSession now session_id m challenge response s h =
      let a = new_session-IsAuthentic p w now session_id m challenge response s h in
      record { own_id = refl; authenticated = cc (a.session); lifetime = cc (a.session) }

  authenticate_client-AreSessions :
      (now : ℕ) (session_id : Bytes) (m : SessionManager) (challenge : AuthChallenge)
      (response : ClientAuthResponse)
      → AreSessions m.sessions
      → AreSessions ((authenticate_client p w now session_id m challenge response).1.sessions)
  unfolding authenticate_client
  authenticate_client-AreSessions now session_id m challenge response a =
      elim (Result-cases (new_session p w now session_id m challenge response)) [
        | inl (s, made) ↦ rw made (
            insert-AreSessions s.session_id s m.sessions
              (new_session-IsSession now session_id m challenge response s made) a)
        | inr (e, failed) ↦ rw failed a
      ]

  -- Whatever calls are made, in whatever order and at whatever times, with whatever session ids: each
  -- session that a manager keeps stands under its own id, once, is authenticated, and expires 1800
  -- seconds after it was created.
  pub Reached-AreSessions : (m : SessionManager) → Reached m → AreSessions m.sessions
  unfolding with_signing_key validate_session cleanup_expired_sessions remove_session
  Reached-AreSessions m (begun now identity key) = tt
  Reached-AreSessions m (authenticated {m = before} now session_id challenge response r) =
      authenticate_client-AreSessions now session_id before challenge response
        (Reached-AreSessions before r)
  Reached-AreSessions m (validated {m = before} now later session_id r) =
      retain_current-AreSessions now before.sessions (Reached-AreSessions before r)
  Reached-AreSessions m (removed {m = before} session_id r) =
      remove-AreSessions session_id before.sessions (Reached-AreSessions before r)
  Reached-AreSessions m (cleaned {m = before} now r) =
      retain_current-AreSessions now before.sessions (Reached-AreSessions before r)
