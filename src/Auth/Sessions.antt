-- ===== src/Auth/Sessions.antt =====
-- crates/core/src/auth.rs: the sessions that a manager keeps, and those that it accepts.
use sealedge.Base.{
  ℕ, ◌<◌, ◌≡◌, refl, ap, sym, ◌∙◌, subst, ◌↔◌, [], ◌∷◌, Bytes, str, Bool, true, false, ◌&&◌, none,
  some, Option-cases, bytes_eq, bytes_eq_iff, bytes_eq_refl, Bool-cases, inl, inr, ltb, ltb→lt, ok,
  ok_or, bind-ok, ensure-ok, ok_or-ok, if◌then◌else◌, arith,
}
use sealedge.Auth.{
  SessionInfo, Sessions, SessionManager, get, insert, remove, retain_current, is_valid,
}
use sealedge.Auth.Manager.{cleanup_expired_sessions, validate_session}

pub get-insert-same :
    (id : Bytes) (s : SessionInfo) (l : Sessions) → get id (insert id s l) ≡ some s
unfolding get insert
get-insert-same id s [] = rw (bytes_eq_refl id)
get-insert-same id s ((k, t) ∷ rest) = elim (Bool-cases (bytes_eq k id)) [
  | inl same ↦ rw (same, bytes_eq_refl id)
  | inr other ↦ rw (other, other, get-insert-same id s rest)
]

get-remove : (id : Bytes) (l : Sessions) → get id (remove id l) ≡ none
unfolding get remove
get-remove id [] = refl
get-remove id ((k, t) ∷ rest) = elim (Bool-cases (bytes_eq k id)) [
  | inl same ↦ rw same (get-remove id rest)
  | inr other ↦ rw (other, other, get-remove id rest)
]

-- No id stands for two sessions.
abbrev pub IsNew : Bytes → Sessions → Type 0
IsNew id l = get id l ≡ none

abbrev pub UniqueIds : Sessions → Type 0
UniqueIds [] = Unit {0}
UniqueIds ((k, s) ∷ rest) = IsNew k rest × UniqueIds rest

pub get-retain_current-none :
    (now : ℕ) (id : Bytes) (l : Sessions) → get id l ≡ none → get id (retain_current now l) ≡ none
unfolding get retain_current
get-retain_current-none now id [] h = refl
get-retain_current-none now id ((k, s) ∷ rest) h = elim (Bool-cases (bytes_eq k id)) [
  | inl same ↦ absurd (ground (arith, same, h))
  | inr other ↦
      let ih = get-retain_current-none now id rest (ground (arith, other, h)) in
      elim (Bool-cases (ltb now s.expires_at)) [
        | inl current ↦ rw (current, other, ih)
        | inr expired ↦ rw (expired, ih)
      ]
]

-- After the cleaning a session is found as before, if it has not expired.
get-retain_current :
    (now : ℕ) (id : Bytes) (l : Sessions) (s : SessionInfo)
    → UniqueIds l
    → get id l ≡ some s
    → get id (retain_current now l) ≡ (if ltb now s.expires_at then some s else none)
unfolding get retain_current
get-retain_current now id [] s u h = absurd (cc)
get-retain_current now id ((k, t) ∷ rest) s u h = elim (Bool-cases (bytes_eq k id)) [
  | inl hit ↦
      let same : t ≡ s = cc (rw hit at h) in
      let key : k ≡ id = (bytes_eq_iff k id).0 hit in
      elim (Bool-cases (ltb now t.expires_at)) [
        | inl current ↦
            subst
              (λ (x : SessionInfo).
                get id (retain_current now ((k, t) ∷ rest))
                ≡ (if ltb now x.expires_at then some x else none))
              same (rw (current, hit))
        | inr expired ↦
            subst
              (λ (x : SessionInfo).
                get id (retain_current now ((k, t) ∷ rest))
                ≡ (if ltb now x.expires_at then some x else none))
              same
              (rw expired (get-retain_current-none now id rest (subst (λ x. IsNew x rest) key u.0)))
      ]
  | inr other ↦
      let ih = get-retain_current now id rest s u.1 (rw other at h) in
      elim (Bool-cases (ltb now t.expires_at)) [
        | inl current ↦ rw (current, other) ih
        | inr expired ↦ rw expired ih
      ]
]

retained :
    (test : Bool) (t s : SessionInfo)
    → (if test then some t else none) ≡ some s
    → (test ≡ true) × (t ≡ s)
retained true t s h = (refl, cc)
retained false t s h = absurd (cc)

both : (a b : Bool) → (a && b) ≡ true → (a ≡ true) × (b ≡ true)
both true b h = (refl, h)
both false b h = absurd (cc)

-- A session is accepted exactly when it is kept under the id, is authenticated, and has expired neither
-- at the cleaning nor at its own test a moment later: where each id has one session.
pub validate_session_iff :
    (now later : ℕ) (m : SessionManager) (id : Bytes) (s : SessionInfo)
    → UniqueIds m.sessions
    → ((validate_session now later m id).0 ≡ ok s) ↔ (
        (get id m.sessions ≡ some s)
        × (now < s.expires_at)
        × (later < s.expires_at)
        × (s.authenticated ≡ true))
unfolding validate_session cleanup_expired_sessions is_valid
validate_session_iff now later m id s u = (accepted, accepts)
  where
    accepted :
        (validate_session now later m id).0 ≡ ok s
        → (get id m.sessions ≡ some s)
          × (now < s.expires_at)
          × (later < s.expires_at)
          × (s.authenticated ≡ true)
    accepted h =
        let opened =
          bind-ok (ok_or (get id (retain_current now m.sessions)) (str "Session not found")) _ s
            h in
        let valid =
          ensure-ok (opened.0.authenticated && ltb later opened.0.expires_at) _ _ s opened.2 in
        let same : opened.0 ≡ s = cc (valid.1) in
        let kept : get id (retain_current now m.sessions) ≡ some s =
          ok_or-ok _ _ opened.0 opened.1 ∙ ap some same in
        elim (Option-cases (get id m.sessions)) [
          | inl missing ↦ absurd (cc (kept, get-retain_current-none now id m.sessions missing))
          | inr (t, found) ↦
              let back =
                retained (ltb now t.expires_at) t s
                  (sym (get-retain_current now id m.sessions t u found) ∙ kept) in
              let parts = both opened.0.authenticated (ltb later opened.0.expires_at) valid.0 in
              (
                found ∙ ap some back.1,
                subst (λ (x : SessionInfo). now < x.expires_at) back.1
                    (ltb→lt now t.expires_at back.0),
                subst (λ (x : SessionInfo). later < x.expires_at) same
                    (ltb→lt later opened.0.expires_at parts.1),
                cc (parts.0, same),
              )
        ]

    accepts :
        (get id m.sessions ≡ some s)
          × (now < s.expires_at)
          × (later < s.expires_at)
          × (s.authenticated ≡ true)
        → (validate_session now later m id).0 ≡ ok s
    accepts (found, current, still, auth) =
        let c : ltb now s.expires_at ≡ true = ground (arith, current) in
        let l : ltb later s.expires_at ≡ true = ground (arith, still) in
        rw (get-retain_current now id m.sessions s u found, c, auth, l)
