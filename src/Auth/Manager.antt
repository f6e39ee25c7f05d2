-- ===== src/Auth/Manager.antt =====
-- crates/core/src/auth.rs: certificates, the session key, and the session manager. Ed25519 and X25519
-- are those of the envelope's parameters. The clock and the random source are arguments.
use sealedge.Base.{
  ℕ, ◌+◌, ◌-◌, ◌*◌, ◌%◌, ◌^◌, [], ◌++◌, Bytes, Text, str, true, not, ◌||◌, bytes_eq, decimal, ltb,
  ◌==◌, Result, ok, err, ensure, ok_or, map_err, ◌>>=◌, ◌>>◌, if◌then◌else◌,
}
use sealedge.Manifest.Validate.{all}
use sealedge.Envelope.{Primitives}
use sealedge.Auth.{
  AuthChallenge, ClientAuthResponse, ServerAuthConfirm, ServerCertificate, SessionInfo,
  SessionManager, Wire, bytes_lt, get, insert, is_valid, remove, retain_current, session_timeout,
}

module _ (p : Primitives) (w : Wire) where
  -- The text that a certificate signs.
  abbrev pub cert_data : Text → Bytes → ℕ → ℕ → Text
  cert_data identity public_key valid_from valid_until =
      identity
      ++ (str ":"
          ++ (w.hex public_key
              ++ (str ":" ++ (decimal valid_from ++ (str ":" ++ decimal valid_until)))))

  unfoldable pub new_self_signed : ℕ → Text → Bytes → ℕ → ServerCertificate
  new_self_signed now identity signing_key validity_days =
      let valid_until = (now + (validity_days * 24 * 3600)) % 2 ^ 64 in
      let public_key = p.dalek.ed25519_public signing_key in
      record {
        identity = identity;
        public_key = public_key;
        valid_from = now;
        valid_until = valid_until;
        signature =
            p.dalek.ed25519_sign signing_key (cert_data identity public_key now valid_until);
      }

  unfoldable pub verify_certificate : ℕ → ServerCertificate → Result Text (Unit {0})
  verify_certificate now cert = do
    ensure (not (ltb now cert.valid_from || ltb cert.valid_until now))
        (str "Certificate expired or not yet valid")
    verifying_key ←
        map_err (λ e. str "Invalid public key: " ++ e) (p.dalek.ed25519_key cert.public_key)
    ensure
        (p.dalek.ed25519_verify verifying_key
          (cert_data cert.identity cert.public_key cert.valid_from cert.valid_until) cert.signature)
        (str "Certificate signature verification failed: signature error")

  unfoldable pub verify_pinned : ServerCertificate → Bytes → Result Text (Unit {0})
  verify_pinned cert expected_pubkey = ensure (bytes_eq cert.public_key expected_pubkey) (
      str
        "Server public key mismatch: certificate key does not match pinned key. Possible Man-in-the-Middle attack.")

  -- The two keys of a session in one order for both sides.
  unfoldable pub ordered : Bytes → Bytes → Bytes
  ordered my_pub their_pub =
      if bytes_lt my_pub their_pub then my_pub ++ their_pub else their_pub ++ my_pub

  unfoldable pub derive_session_key : Bytes → Bytes → Bytes → Result Text Bytes
  derive_session_key my_signing_key their_public_key challenge =
      let shared_secret =
        p.diffie_hellman (p.to_scalar_bytes my_signing_key) (p.to_montgomery their_public_key) in
      do
        ensure (not (all (λ b. b == 0) shared_secret)) (str "ECDH produced zero shared secret")
        ok (
            w.derive_key (str "SEALEDGE_SESSION_KEY_V1") (
              shared_secret
              ++ (challenge ++ ordered (p.dalek.ed25519_public my_signing_key) their_public_key)))

  unfoldable pub with_signing_key : ℕ → Text → Bytes → SessionManager
  with_signing_key now server_identity signing_key = record {
    sessions = [];
    server_signing_key = signing_key;
    server_certificate = new_self_signed now server_identity signing_key 365;
  }

  unfoldable pub create_challenge : ℕ → Bytes → SessionManager → AuthChallenge
  create_challenge now challenge m = record {
    challenge = challenge;
    server_cert = m.server_certificate;
    timestamp = now;
  }

  -- The checks, up to the session that is stored.
  unfoldable pub new_session :
      ℕ → Bytes → SessionManager → AuthChallenge → ClientAuthResponse → Result Text SessionInfo
  new_session now session_id m challenge response = do
    ensure (not (ltb ((now + 5) % 2 ^ 64) response.timestamp)) (
        str "Authentication response timestamp too far in the future (response="
        ++ (decimal response.timestamp ++ (str ", now=" ++ (decimal now ++ str ")"))))
    ensure (not (ltb 300 (now - response.timestamp))) (
        str "Authentication response timestamp too old (response="
        ++ (decimal response.timestamp ++ (str ", now=" ++ (decimal now ++ str ")"))))
    client_verifying_key ←
        map_err (λ e. str "Invalid client public key: " ++ e)
          (p.dalek.ed25519_key response.client_public_key)
    ensure
        (p.dalek.ed25519_verify client_verifying_key challenge.challenge
          response.challenge_signature)
        (str "Client challenge signature verification failed: signature error")
    session_key ← derive_session_key m.server_signing_key client_verifying_key challenge.challenge
    ok (record {
      session_id = session_id;
      client_public_key = response.client_public_key;
      client_identity = response.client_identity;
      created_at = now;
      expires_at = (now + session_timeout) % 2 ^ 64;
      authenticated = true;
      session_key = session_key;
    })

  abbrev stored :
      SessionManager → Result Text SessionInfo → Result Text SessionInfo × SessionManager
  stored m (ok session) =
      (ok session, record m { sessions = insert session.session_id session m.sessions })
  stored m (err e) = (err e, m)

  unfoldable pub authenticate_client :
      ℕ
      → Bytes
      → SessionManager
      → AuthChallenge
      → ClientAuthResponse
      → Result Text SessionInfo × SessionManager
  authenticate_client now session_id m challenge response =
      stored m (new_session now session_id m challenge response)

  abbrev pub session_data : Bytes → Bytes → ℕ → Text
  session_data session_id client_public_key expires_at =
      w.hex session_id ++ (str ":" ++ (w.hex client_public_key ++ (str ":" ++ decimal expires_at)))

  unfoldable pub create_auth_confirm : SessionManager → SessionInfo → ServerAuthConfirm
  create_auth_confirm m session = record {
    session_id = session.session_id;
    session_expires_at = session.expires_at;
    session_signature =
        p.dalek.ed25519_sign m.server_signing_key
          (session_data session.session_id session.client_public_key session.expires_at);
  }

unfoldable pub cleanup_expired_sessions : ℕ → SessionManager → SessionManager
cleanup_expired_sessions now m = record m { sessions = retain_current now m.sessions }

unfoldable pub remove_session : SessionManager → Bytes → SessionManager
remove_session m session_id = record m { sessions = remove session_id m.sessions }

-- `now` is read for the cleaning, `later` for the session's own test.
unfoldable pub validate_session :
    ℕ → ℕ → SessionManager → Bytes → Result Text SessionInfo × SessionManager
validate_session now later m session_id =
    let cleaned = cleanup_expired_sessions now m in
    (
      (do
        session ← ok_or (get session_id cleaned.sessions) (str "Session not found")
        ensure (is_valid later session) (str "Session expired or invalid")
        ok session),
      cleaned,
    )
