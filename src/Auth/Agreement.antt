-- ===== src/Auth/Agreement.antt =====
-- crates/core/src/auth.rs: what a run of the handshake comes to.
use sealedge.Base.{
  [], ℕ, ◌+◌, ◌-◌, ◌*◌, ◌%◌, ◌^◌, ◌≤◌, ◌≡◌, refl, sym, ◌∙◌, ◌++◌, Bytes, Text, str, true, not, ◌||◌,
  Option, some, length, ltb, bytes_eq_refl, ok, arith,
}
use sealedge.Envelope.{Primitives, PrimitivesLaws}
use sealedge.Envelope.Loops.{Contributory}
use sealedge.Auth.{
  client_hello, server_challenge, client_auth, server_confirm, AuthChallenge, ClientAuthResponse,
  Wire, WireLaws, SessionInfo, Sessions, SessionManager, get, insert,
}
use sealedge.Auth.Manager.{
  new_self_signed, verify_certificate, verify_pinned, ordered, derive_session_key, create_challenge,
  authenticate_client, session_data, create_auth_confirm,
}
use sealedge.Auth.Key.{derive_session_key-symmetric}
use sealedge.Auth.Sessions.{get-insert-same}
use sealedge.Auth.Authentic.{session_of, IsAuthentic-new_session}
use sealedge.Auth.Handshake.{
  ClientAuthResult, new_message, deserialize_payload, client_start, server_on_hello,
  client_on_challenge, read_response, server_on_auth, client_on_answer,
}
use sealedge.Auth.Run.{frame, Times, run, message_round}

module _ (p : Primitives) (w : Wire) (at : Times) (begun days : ℕ) (name : Text)
    (server_key client_key : Bytes) (sessions : Sessions) (random session_id : Bytes)
    (identity : Option Text) where
  -- A manager whose certificate was made with its key.
  abbrev pub server : SessionManager
  server = record {
    sessions = sessions;
    server_signing_key = server_key;
    server_certificate = new_self_signed p w begun name server_key days;
  }

  abbrev pub sent_challenge : AuthChallenge
  sent_challenge = create_challenge p w at.challenged random server

  abbrev pub sent_response : ClientAuthResponse
  sent_response = record {
    client_public_key = p.dalek.ed25519_public client_key;
    challenge_signature = p.dalek.ed25519_sign client_key random;
    client_identity = identity;
    timestamp = at.answered;
  }

  module _ (laws : PrimitivesLaws p) (wire : WireLaws w) where
    certificate-valid :
        begun ≤ at.checked
        → at.checked ≤ (begun + (days * 24 * 3600)) % 2 ^ 64
        → verify_certificate p w at.checked server.server_certificate ≡ ok tt
    unfolding verify_certificate new_self_signed
    certificate-valid from until =
        let in_time : not
              (ltb at.checked begun || ltb ((begun + (days * 24 * 3600)) % 2 ^ 64) at.checked)
            ≡ true =
          ground (arith, from, until) in
        rw (in_time, laws.dalek.key-public server_key, laws.dalek.verify-sign server_key _)

    session_key_exists :
        Contributory p server_key (p.dalek.ed25519_public client_key)
        → (key : Bytes) × (derive_session_key p w server_key
              (p.dalek.ed25519_public client_key)
              random
            ≡ ok key)
    unfolding derive_session_key
    session_key_exists nonzero =
        let shared =
          p.diffie_hellman (p.to_scalar_bytes server_key)
            (p.to_montgomery (p.dalek.ed25519_public client_key)) in
        (
          w.derive_key (str "SEALEDGE_SESSION_KEY_V1") (
              shared
              ++ (random
                  ++ ordered p w (p.dalek.ed25519_public server_key)
                      (p.dalek.ed25519_public client_key))),
          rw nonzero,
        )

    certificate_key : server.server_certificate.public_key ≡ p.dalek.ed25519_public server_key
    unfolding new_self_signed
    certificate_key = refl

    pinned_lem :
        verify_pinned p w server.server_certificate (p.dalek.ed25519_public server_key) ≡ ok tt
    unfolding verify_pinned new_self_signed
    pinned_lem = rw (bytes_eq_refl (p.dalek.ed25519_public server_key))

    -- The handshake of a client with a server whose key it has pinned, each message arriving as it was
    -- sent, ends with a session on both sides: the client holds the id and the key of the session
    -- that the server stored, the session is that of the client's public key, and the client holds
    -- the server's certificate. The certificate is within its time when it is checked, the response
    -- at most 5 seconds ahead of the server's clock and 300 behind it, the shared secret is not all
    -- zeros, and the four messages are at most 8192 bytes long.
    pub run-agrees :
        begun ≤ at.checked
        → at.checked ≤ (begun + (days * 24 * 3600)) % 2 ^ 64
        → at.answered ≤ (at.authenticated + 5) % 2 ^ 64
        → at.authenticated - at.answered ≤ 300
        → Contributory p server_key (p.dalek.ed25519_public client_key)
        → length (frame (client_start p w)) ≤ 8192
        → length (frame (new_message p w w.challenge server_challenge sent_challenge)) ≤ 8192
        → length (frame (new_message p w w.response client_auth sent_response)) ≤ 8192
        → length (
            frame (
              new_message p w w.confirm server_confirm (
                create_auth_confirm p w server
                  (session_of p w at.authenticated session_id sent_response []))))
          ≤ 8192
        → (session : SessionInfo) × (result : ClientAuthResult) × (m : SessionManager) × (run p w at
              server random session_id client_key identity
              (p.dalek.ed25519_public server_key)
            ≡ ok (session, result, m))
          × (get result.session_id m.sessions ≡ some session)
          × (result.session_key ≡ session.session_key)
          × (session.client_public_key ≡ p.dalek.ed25519_public client_key)
          × (result.server_certificate ≡ server.server_certificate)
    unfolding client_start server_on_hello client_on_challenge read_response server_on_auth
        client_on_answer authenticate_client deserialize_payload create_challenge
        create_auth_confirm
    run-agrees from until ahead recent nonzero small1 small2 small3 small4 =
        let (hello, hello_payload, hello_sent, hello_read, hello_opened) =
          message_round p w w.text wire.message wire.text client_hello (str "Sealedge Client v1.0")
            (str "Client hello") (str "client hello") small1 in
        let (b2, p2, sent2, read2, opened2) =
          message_round p w w.challenge wire.message wire.challenge server_challenge sent_challenge
            (str "Server challenge") (str "server challenge") small2 in
        let (b3, p3, sent3, read3, opened3) =
          message_round p w w.response wire.message wire.response client_auth sent_response
            (str "Client auth") (str "client auth") small3 in
        let (key, derived) = session_key_exists nonzero in
        let session = session_of p w at.authenticated session_id sent_response key in
        let authentic =
          IsAuthentic-new_session p w at.authenticated session_id server sent_challenge
            sent_response session
            (record {
              key = p.dalek.ed25519_public client_key;
              session_key = key;
              not_ahead = ahead;
              recent = recent;
              parsed = laws.dalek.key-public client_key;
              signed = laws.dalek.verify-sign client_key random;
              derived = derived;
              session = refl;
            }) in
        let (b4, p4, sent4, read4, opened4) =
          message_round p w w.confirm wire.message wire.confirm server_confirm
            (create_auth_confirm p w server session) (str "Server response") (str "server response")
            small4 in
        let pinned : verify_pinned p w server.server_certificate (p.dalek.ed25519_public server_key)
            ≡ ok tt =
          pinned_lem in
        let theirs =
          sym (derive_session_key-symmetric p w laws server_key client_key random) ∙ derived in
        let certified = certificate-valid from until in
        (
          session,
          record {
            session_id = session_id;
            server_certificate = server.server_certificate;
            session_key = key;
          },
          record server { sessions = insert session_id session sessions },
          rw (
            hello_sent,
            hello_read,
            sent2,
            read2,
            opened2,
            certified,
            pinned,
            sent3,
            read3,
            opened3,
            authentic,
            sent4,
            read4,
            opened4,
            certificate_key,
            laws.dalek.key-public server_key,
            laws.dalek.verify-sign server_key (
                session_data p w session_id (p.dalek.ed25519_public client_key) session.expires_at),
            theirs,
          ),
          get-insert-same session_id session sessions,
          refl,
          refl,
          refl,
        )
