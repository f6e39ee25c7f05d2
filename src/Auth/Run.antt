-- ===== src/Auth/Run.antt =====
-- crates/core/src/auth.rs: `client_authenticate` and `server_authenticate` against each other, message
-- by message.
use sealedge.Base.{
  subst, [], ℕ, ◌≤◌, ◌≡◌, Bytes, Text, true, not, Option, length, ltb, Result, ok, err, ◌>>=◌,
  arith,
}
use sealedge.Envelope.{Primitives}
use sealedge.Auth.{
  AuthMessageType, AuthMessage, Codec, RoundTrip, Wire, SessionInfo, SessionManager,
}
use sealedge.Auth.Handshake.{
  ClientAuthResult, new_message, read_message, client_start, server_on_hello, client_on_challenge,
  server_on_auth, client_on_answer,
}

-- What is sent, nothing on a failure.
abbrev pub frame : Result Text Bytes → Bytes
frame (ok b) = b
frame (err e) = []

-- The clock at the steps of a run that read it.
pub record Times : Type 0 where
  pub challenged : ℕ
  pub checked : ℕ
  pub answered : ℕ
  pub authenticated : ℕ

module _ (p : Primitives) (w : Wire) where
  -- Each message arrives as it was sent, and each side goes on as long as it gets what it waits for.
  abbrev pub run :
      Times
      → SessionManager
      → Bytes
      → Bytes
      → Bytes
      → Option Text
      → Bytes
      → Result Text (SessionInfo × ClientAuthResult × SessionManager)
  run at m random session_id client_key identity pinned = do
    hello_bytes ← client_start p w
    (challenge, challenge_bytes) ← server_on_hello p w at.challenged random m hello_bytes
    (seen, auth_bytes) ←
        client_on_challenge p w at.checked at.answered client_key identity pinned challenge_bytes
    (answered, answer_bytes) ←
        (server_on_auth p w at.authenticated session_id m challenge auth_bytes).0
    session ← answered
    result ← client_on_answer p w client_key seen answer_bytes
    ok (session, result, (server_on_auth p w at.authenticated session_id m challenge auth_bytes).1)

  pub message_round :
      {A : Type 0} (codec : Codec A)
      → RoundTrip w.message
      → RoundTrip codec
      → (ty : AuthMessageType) (a : A) (what name : Text)
      → length (frame (new_message p w codec ty a)) ≤ 8192
      → (b payload : Bytes) × (new_message p w codec ty a ≡ ok b)
        × (read_message p w what name b ≡ ok (record { msg_type = ty; payload = payload }))
        × (codec.deserialize payload ≡ ok a)
  unfolding new_message read_message
  message_round codec messages payloads ty a what name small =
      let (payload, sealed, opened) = payloads a in
      let msg : AuthMessage = record { msg_type = ty; payload = payload } in
      let (b, sent, received) = messages msg in
      let made : new_message p w codec ty a ≡ ok b = rw (sealed, sent) in
      let size : length b ≤ 8192 = subst (λ r. length (frame r) ≤ 8192) made small in
      let fits : not (ltb 8192 (length b)) ≡ true = ground (arith, size) in
      (b, payload, made, rw (fits, received), opened)
