-- ===== src/Auth/Handshake.antt =====
-- crates/core/src/auth.rs: `server_authenticate` and `client_authenticate`, cut where they wait for a
-- message. A message travels behind its length; what arrives is its bytes.
use sealedge.Base.{
  ℕ, ◌++◌, Bytes, Text, str, Bool, true, false, not, Option, length, ltb, Result, ok, err, ensure,
  map_err, ◌>>=◌, ◌>>◌,
}
use sealedge.Envelope.{Primitives}
use sealedge.Auth.{
  AuthMessageType, client_hello, server_challenge, client_auth, server_confirm, auth_error,
  AuthChallenge, ClientAuthResponse, ServerCertificate, AuthMessage, Codec, Wire, SessionInfo,
  SessionManager,
}
use sealedge.Auth.Manager.{
  verify_certificate, verify_pinned, derive_session_key, create_challenge, authenticate_client,
  session_data, create_auth_confirm,
}

abbrev pub is_type : AuthMessageType → AuthMessageType → Bool
is_type client_hello client_hello = true
is_type server_challenge server_challenge = true
is_type client_auth client_auth = true
is_type server_confirm server_confirm = true
is_type auth_error auth_error = true
is_type _ _ = false

pub record ClientAuthResult : Type 0 where
  pub session_id : Bytes
  pub server_certificate : ServerCertificate
  pub session_key : Bytes

module _ (p : Primitives) (w : Wire) where
  -- `AuthMessage::new`, serialized.
  unfoldable pub new_message : {A : Type 0} → Codec A → AuthMessageType → A → Result Text Bytes
  new_message codec msg_type payload = do
    payload_bytes ←
        map_err (λ e. str "Failed to serialize auth message payload") (codec.serialize payload)
    w.message.serialize (record { msg_type = msg_type; payload = payload_bytes })

  -- The length is checked before the message is read.
  unfoldable pub read_message : Text → Text → Bytes → Result Text AuthMessage
  read_message what name bytes = do
    ensure (not (ltb 8192 (length bytes))) (what ++ str " message too large")
    map_err (λ e. str "Failed to deserialize " ++ name) (w.message.deserialize bytes)

  unfoldable pub deserialize_payload : {A : Type 0} → Codec A → AuthMessage → Result Text A
  deserialize_payload codec m =
      map_err (λ e. str "Failed to deserialize auth message payload") (codec.deserialize m.payload)

  unfoldable pub client_start : Result Text Bytes
  client_start = new_message w.text client_hello (str "Sealedge Client v1.0")

  unfoldable pub server_on_hello :
      ℕ → Bytes → SessionManager → Bytes → Result Text (AuthChallenge × Bytes)
  server_on_hello now random m hello_bytes = do
    hello ← read_message (str "Client hello") (str "client hello") hello_bytes
    ensure (is_type hello.msg_type client_hello) (str "Expected ClientHello message")
    let challenge = create_challenge p w now random m
    challenge_bytes ← new_message w.challenge server_challenge challenge
    ok (challenge, challenge_bytes)

  unfoldable pub client_on_challenge :
      ℕ → ℕ → Bytes → Option Text → Bytes → Bytes → Result Text (AuthChallenge × Bytes)
  client_on_challenge checked now client_signing_key client_identity server_pubkey challenge_bytes =
      do
        challenge_msg ←
            read_message (str "Server challenge") (str "server challenge") challenge_bytes
        ensure (is_type challenge_msg.msg_type server_challenge)
            (str "Expected ServerChallenge message")
        challenge ← deserialize_payload w.challenge challenge_msg
        map_err (λ e. str "Server certificate verification failed")
            (verify_certificate p w checked challenge.server_cert)
        map_err (λ e. str "Server public key pinning failed")
            (verify_pinned p w challenge.server_cert server_pubkey)
        auth_bytes ← new_message w.response client_auth (record {
          client_public_key = p.dalek.ed25519_public client_signing_key;
          challenge_signature = p.dalek.ed25519_sign client_signing_key challenge.challenge;
          client_identity = client_identity;
          timestamp = now;
        })
        ok (challenge, auth_bytes)

  -- The response is read, or the server gives up without an answer.
  unfoldable pub read_response : Bytes → Result Text ClientAuthResponse
  read_response auth_bytes = do
    client_auth_msg ← read_message (str "Client auth") (str "client auth") auth_bytes
    ensure (is_type client_auth_msg.msg_type client_auth) (str "Expected ClientAuth message")
    deserialize_payload w.response client_auth_msg

  -- What is sent after the client was authenticated or refused, with what the call returns.
  abbrev pub answer :
      SessionManager → Result Text SessionInfo → Result Text (Result Text SessionInfo × Bytes)
  answer m (ok session) = do
    confirm_bytes ← new_message w.confirm server_confirm (create_auth_confirm p w m session)
    ok (ok session, confirm_bytes)
  answer m (err e) = do error_bytes ← new_message w.text auth_error e; ok (err e, error_bytes)

  abbrev pub on_response :
      ℕ
      → Bytes
      → SessionManager
      → AuthChallenge
      → Result Text ClientAuthResponse
      → Result Text (Result Text SessionInfo × Bytes) × SessionManager
  on_response now session_id m challenge (err e) = (err e, m)
  on_response now session_id m challenge (ok response) =
      let done = authenticate_client p w now session_id m challenge response in
      (answer (done.1) (done.0), done.1)

  -- The answer's bytes with the call's result, and the sessions; `err` outside is a failure in which
  -- nothing was sent.
  unfoldable pub server_on_auth :
      ℕ
      → Bytes
      → SessionManager
      → AuthChallenge
      → Bytes
      → Result Text (Result Text SessionInfo × Bytes) × SessionManager
  server_on_auth now session_id m challenge auth_bytes =
      on_response now session_id m challenge (read_response auth_bytes)

  abbrev pub finish :
      Bytes → AuthChallenge → AuthMessage → AuthMessageType → Result Text ClientAuthResult
  finish client_signing_key challenge msg server_confirm = do
    confirm ← deserialize_payload w.confirm msg
    server_verifying_key ← p.dalek.ed25519_key challenge.server_cert.public_key
    ensure
        (p.dalek.ed25519_verify server_verifying_key
          (session_data p w confirm.session_id (p.dalek.ed25519_public client_signing_key)
            confirm.session_expires_at)
          confirm.session_signature)
        (str "Server session signature verification failed")
    session_key ← derive_session_key p w client_signing_key server_verifying_key challenge.challenge
    ok (record {
      session_id = confirm.session_id;
      server_certificate = challenge.server_cert;
      session_key = session_key;
    })
  finish client_signing_key challenge msg auth_error = do
    error_msg ← deserialize_payload w.text msg
    err (str "Authentication failed: " ++ error_msg)
  finish client_signing_key challenge msg _ = err (str "Unexpected server response type")

  unfoldable pub client_on_answer : Bytes → AuthChallenge → Bytes → Result Text ClientAuthResult
  client_on_answer client_signing_key challenge answer_bytes = do
    msg ← read_message (str "Server response") (str "server response") answer_bytes
    finish client_signing_key challenge msg msg.msg_type
