-- ===== src/Auth/Authentic.antt =====
-- crates/core/src/auth.rs: the responses that `authenticate_client` accepts.
use sealedge.Base.{
  ℕ, ◌+◌, ◌-◌, ◌%◌, ◌^◌, ◌≤◌, ◌≡◌, ap, sym, ◌∙◌, ◌↔◌, Bytes, Text, str, ◌++◌, true, not, ltb,
  Result-cases, ok, map_err, bind-ok, ensure-ok, map_err-ok, arith, inl, inr,
}
use sealedge.Envelope.{Primitives}
use sealedge.Auth.{
  session_timeout, AuthChallenge, ClientAuthResponse, SessionInfo, SessionManager, Wire,
}
use sealedge.Auth.Manager.{new_session, authenticate_client, derive_session_key}

module _ (p : Primitives) (w : Wire) where
  -- The session that comes of a response.
  abbrev pub session_of : ℕ → Bytes → ClientAuthResponse → Bytes → SessionInfo
  session_of now session_id response session_key = record {
    session_id = session_id;
    client_public_key = response.client_public_key;
    client_identity = response.client_identity;
    created_at = now;
    expires_at = (now + session_timeout) % 2 ^ 64;
    authenticated = true;
    session_key = session_key;
  }

  -- The response is in time and signs the challenge with the client's key.
  pub record IsAuthentic (now : ℕ) (session_id : Bytes) (m : SessionManager)
      (challenge : AuthChallenge) (response : ClientAuthResponse) (s : SessionInfo) : Type 0 where
    pub key : Bytes
    pub session_key : Bytes
    pub not_ahead : response.timestamp ≤ (now + 5) % 2 ^ 64
    pub recent : now - response.timestamp ≤ 300
    pub parsed : p.dalek.ed25519_key response.client_public_key ≡ ok key
    pub signed : p.dalek.ed25519_verify key challenge.challenge response.challenge_signature ≡ true
    pub derived :
        derive_session_key p w m.server_signing_key key challenge.challenge ≡ ok session_key
    pub session : s ≡ session_of now session_id response session_key

  module _ (now : ℕ) (session_id : Bytes) (m : SessionManager) (challenge : AuthChallenge)
      (response : ClientAuthResponse) (s : SessionInfo) where
    pub new_session-IsAuthentic :
        new_session p w now session_id m challenge response ≡ ok s
        → IsAuthentic now session_id m challenge response s
    unfolding new_session
    new_session-IsAuthentic h =
        let ahead = ensure-ok (not (ltb ((now + 5) % 2 ^ 64) response.timestamp)) _ _ s h in
        let old = ensure-ok (not (ltb 300 (now - response.timestamp))) _ _ s ahead.1 in
        let parsed =
          bind-ok
            (map_err (λ (e : Text). str "Invalid client public key: " ++ e)
              (p.dalek.ed25519_key response.client_public_key))
            _ s old.1 in
        let signed =
          ensure-ok
            (p.dalek.ed25519_verify parsed.0 challenge.challenge response.challenge_signature) _ _ s
            parsed.2 in
        let derived =
          bind-ok (derive_session_key p w m.server_signing_key parsed.0 challenge.challenge) _ s
            signed.1 in
        record {
          key = parsed.0;
          session_key = derived.0;
          not_ahead = ground (arith, ahead.0);
          recent = ground (arith, old.0);
          parsed = map_err-ok _ (p.dalek.ed25519_key response.client_public_key) parsed.0 parsed.1;
          signed = signed.0;
          derived = derived.1;
          session = cc (derived.2);
        }

    pub IsAuthentic-new_session :
        IsAuthentic now session_id m challenge response s
        → new_session p w now session_id m challenge response ≡ ok s
    unfolding new_session
    IsAuthentic-new_session a =
        let ahead : not (ltb ((now + 5) % 2 ^ 64) response.timestamp) ≡ true =
          ground (arith, a.not_ahead) in
        let old : not (ltb 300 (now - response.timestamp)) ≡ true = ground (arith, a.recent) in
        rw (ahead, old, a.parsed, a.signed, a.derived) (ap ok (sym a.session))

    -- A client is authenticated exactly when its response is at most 5 seconds ahead of the clock and at
    -- most 300 behind it, the key that it names signed this challenge, and a session key comes of
    -- that key; the session is then the client's, for 1800 seconds, under that key.
    pub authenticate_client_iff :
        ((authenticate_client p w now session_id m challenge response).0 ≡ ok s)
        ↔ IsAuthentic now session_id m challenge response s
    unfolding authenticate_client
    authenticate_client_iff =
        (λ h. new_session-IsAuthentic (same h), λ a. rw (IsAuthentic-new_session a))
      where
        same :
            (authenticate_client p w now session_id m challenge response).0 ≡ ok s
            → new_session p w now session_id m challenge response ≡ ok s
        same h = elim (Result-cases (new_session p w now session_id m challenge response)) [
          | inl (t, made) ↦ made ∙ rw made at h
          | inr (e, failed) ↦ absurd (cc (rw failed at h))
        ]
