-- ===== src/Auth/Tests.antt =====
-- A client and a server with the envelope's toy primitives and toy codecs.
use sealedge.Base.{
  ◌≤◌, ◌<◌, ◌≡◌, refl, ◌↔◌, [], ◌∷◌, Bytes, str, true, none, some, length, decimal, ok, arith,
}
use sealedge.Crypto.Toy.{toy_crates, fit}
use sealedge.Envelope.Loops.{Contributory}
use sealedge.Envelope.Tests.{toy, toy-PrimitivesLaws, alice, bob}
use sealedge.Auth.{
  server_challenge, client_auth, server_confirm, AuthChallenge, ClientAuthResponse, SessionInfo,
  SessionManager, get,
}
use sealedge.Auth.Manager.{
  with_signing_key, new_self_signed, create_challenge, create_auth_confirm, authenticate_client,
  validate_session,
}
use sealedge.Auth.Authentic.{session_of, IsAuthentic, authenticate_client_iff}
use sealedge.Auth.Sessions.{validate_session_iff, UniqueIds}
use sealedge.Auth.Invariant.{AreSessions, Reached, begun, authenticated, Reached-AreSessions}
use sealedge.Auth.Handshake.{ClientAuthResult, new_message, client_start}
use sealedge.Auth.Run.{frame, Times, run}
use sealedge.Auth.Agreement.{server, sent_challenge, sent_response, run-agrees}
use sealedge.Auth.Toy.{wire, wire-WireLaws}

abbrev times : Times
times = record { challenged = 1000; checked = 1001; answered = 1002; authenticated = 1003 }

abbrev here : SessionManager
here = server toy wire times 900 365 (str "s") alice bob [] (7 ∷ []) (9 ∷ []) none

abbrev key_of : Bytes → Bytes
key_of = toy_crates.ed25519_public

to_client : Contributory toy alice (key_of bob)
unfolding fit
to_client = refl

abbrev response : ClientAuthResponse
response = sent_response toy wire times 900 365 (str "s") alice bob [] (7 ∷ []) (9 ∷ []) none

abbrev challenge : AuthChallenge
challenge = sent_challenge toy wire times 900 365 (str "s") alice bob [] (7 ∷ []) (9 ∷ []) none

short1 : length (frame (client_start toy wire)) ≤ 8192
unfolding client_start new_message
short1 = omega arith

short2 : length (frame (new_message toy wire wire.challenge server_challenge challenge)) ≤ 8192
unfolding new_message create_challenge new_self_signed fit decimal
short2 = omega arith

short3 : length (frame (new_message toy wire wire.response client_auth response)) ≤ 8192
unfolding new_message fit
short3 = omega arith

short4 :
    length (
      frame (
        new_message toy wire wire.confirm server_confirm
          (create_auth_confirm toy wire here (session_of toy wire 1003 (9 ∷ []) response []))))
    ≤ 8192
unfolding new_message create_auth_confirm fit decimal
short4 = omega arith

run-agrees_example :
    (session : SessionInfo) × (result : ClientAuthResult) × (m : SessionManager) × (run toy wire
        times here
        (7 ∷ [])
        (9 ∷ [])
        bob
        none
        (key_of alice)
      ≡ ok (session, result, m))
    × (get result.session_id m.sessions ≡ some session)
    × (result.session_key ≡ session.session_key)
    × (session.client_public_key ≡ key_of bob)
    × (result.server_certificate ≡ here.server_certificate)
run-agrees_example =
    run-agrees toy wire times 900 365 (str "s") alice bob [] (7 ∷ []) (9 ∷ []) none
      toy-PrimitivesLaws wire-WireLaws (omega arith) (omega arith) (omega arith) (omega arith)
      to_client short1 short2 short3 short4

abbrev late : SessionInfo
late = session_of toy wire 1003 (9 ∷ []) response []

authenticate_client_iff_example :
    ((authenticate_client toy wire 1003 (9 ∷ []) here challenge response).0 ≡ ok late)
    ↔ IsAuthentic toy wire 1003 (9 ∷ []) here challenge response late
authenticate_client_iff_example =
    authenticate_client_iff toy wire 1003 (9 ∷ []) here challenge response late

abbrev start : SessionManager
start = with_signing_key toy wire 900 (str "s") alice

abbrev after : SessionManager
after = (authenticate_client toy wire 1003 (9 ∷ []) start challenge response).1

after-Reached : Reached toy wire after
after-Reached = authenticated 1003 (9 ∷ []) challenge response (begun 900 (str "s") alice)

Reached-AreSessions_example : AreSessions after.sessions
Reached-AreSessions_example = Reached-AreSessions toy wire after after-Reached

abbrev kept : SessionManager
kept = record here { sessions = (9 ∷ [], late) ∷ [] }

kept-UniqueIds : UniqueIds kept.sessions
unfolding get
kept-UniqueIds = (refl, tt)

validate_session_iff_example : ((validate_session 2000 2001 kept (9 ∷ [])).0 ≡ ok late) ↔ (
    (get (9 ∷ []) kept.sessions ≡ some late)
    × (2000 < late.expires_at)
    × (2001 < late.expires_at)
    × (late.authenticated ≡ true))
validate_session_iff_example = validate_session_iff 2000 2001 kept (9 ∷ []) late kept-UniqueIds
