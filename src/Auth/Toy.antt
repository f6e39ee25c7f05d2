-- ===== src/Auth/Toy.antt =====
-- Toy codecs of the handshake's messages: the numbers of a message's parts, then the parts.
use sealedge.Base.{
  ℕ, zero, suc, ◌≡◌, refl, [], ◌∷◌, ◌++◌, Bytes, Text, str, length, take, drop, take-append,
  drop-append, Result, ok, err,
}
use sealedge.Crypto.Toy.{fit}
use sealedge.Receipts.Tests.{print_option, read_option, read_option-print_option}
use sealedge.Auth.{
  AuthMessageType, client_hello, server_challenge, client_auth, server_confirm, auth_error,
  AuthChallenge, ClientAuthResponse, ServerAuthConfirm, AuthMessage, Wire, WireLaws,
}

abbrev pub code : AuthMessageType → ℕ
code client_hello = 0
code server_challenge = 1
code client_auth = 2
code server_confirm = 3
code auth_error = 4

abbrev pub type_of : ℕ → AuthMessageType
type_of zero = client_hello
type_of (suc zero) = server_challenge
type_of (suc (suc zero)) = client_auth
type_of (suc (suc (suc zero))) = server_confirm
type_of (suc (suc (suc (suc n)))) = auth_error

type_of-code : (ty : AuthMessageType) → type_of (code ty) ≡ ty
type_of-code client_hello = refl
type_of-code server_challenge = refl
type_of-code client_auth = refl
type_of-code server_confirm = refl
type_of-code auth_error = refl

abbrev pub end : Text
end = str "end of input"

abbrev pub read_msg : Bytes → Result Text AuthMessage
read_msg [] = err end
read_msg (n ∷ payload) = ok (record { msg_type = type_of n; payload = payload })

abbrev pub read_challenge : Bytes → Result Text AuthChallenge
read_challenge (c ∷ i ∷ k ∷ from ∷ until ∷ timestamp ∷ rest) = ok (record {
  challenge = take c rest;
  server_cert = record {
    identity = take i (drop c rest);
    public_key = take k (drop i (drop c rest));
    valid_from = from;
    valid_until = until;
    signature = drop k (drop i (drop c rest));
  };
  timestamp = timestamp;
})
read_challenge other = err end

abbrev pub print_challenge : AuthChallenge → Bytes
print_challenge a =
    let cert = a.server_cert in
    length a.challenge
    ∷ length cert.identity
    ∷ length cert.public_key
    ∷ cert.valid_from
    ∷ cert.valid_until
    ∷ a.timestamp
    ∷ (a.challenge ++ (cert.identity ++ (cert.public_key ++ cert.signature)))

challenge_round : (a : AuthChallenge) → read_challenge (print_challenge a) ≡ ok a
challenge_round a =
    let cert = a.server_cert in
    let tail = cert.identity ++ (cert.public_key ++ cert.signature) in
    rw (
      take-append a.challenge tail,
      drop-append a.challenge tail,
      take-append cert.identity (cert.public_key ++ cert.signature),
      drop-append cert.identity (cert.public_key ++ cert.signature),
      take-append cert.public_key cert.signature,
      drop-append cert.public_key cert.signature,
    )

abbrev pub read_resp : Bytes → Result Text ClientAuthResponse
read_resp (k ∷ s ∷ timestamp ∷ rest) = ok (record {
  client_public_key = take k rest;
  challenge_signature = take s (drop k rest);
  client_identity = read_option (drop s (drop k rest));
  timestamp = timestamp;
})
read_resp other = err end

abbrev pub print_resp : ClientAuthResponse → Bytes
print_resp r =
    length r.client_public_key
    ∷ length r.challenge_signature
    ∷ r.timestamp
    ∷ (r.client_public_key ++ (r.challenge_signature ++ print_option r.client_identity))

response_round : (r : ClientAuthResponse) → read_resp (print_resp r) ≡ ok r
response_round r =
    let o = print_option r.client_identity in
    rw (
      take-append r.client_public_key (r.challenge_signature ++ o),
      drop-append r.client_public_key (r.challenge_signature ++ o),
      take-append r.challenge_signature o,
      drop-append r.challenge_signature o,
      read_option-print_option r.client_identity,
    )

abbrev pub read_confirm : Bytes → Result Text ServerAuthConfirm
read_confirm (n ∷ expires ∷ rest) = ok (record {
  session_id = take n rest;
  session_expires_at = expires;
  session_signature = drop n rest;
})
read_confirm other = err end

abbrev pub print_confirm : ServerAuthConfirm → Bytes
print_confirm c = length c.session_id ∷ c.session_expires_at ∷ (c.session_id ++ c.session_signature)

confirm_round : (c : ServerAuthConfirm) → read_confirm (print_confirm c) ≡ ok c
confirm_round c =
    rw (take-append c.session_id c.session_signature, drop-append c.session_id c.session_signature)

abbrev pub wire : Wire
wire = record {
  derive_key = λ context material. fit 32 (context ++ material);
  hex = λ b. b;
  message = record { serialize = λ m. ok (code m.msg_type ∷ m.payload); deserialize = read_msg };
  challenge = record { serialize = λ a. ok (print_challenge a); deserialize = read_challenge };
  response = record { serialize = λ r. ok (print_resp r); deserialize = read_resp };
  confirm = record { serialize = λ c. ok (print_confirm c); deserialize = read_confirm };
  text = record { serialize = λ t. ok t; deserialize = λ b. ok b };
}

pub wire-WireLaws : WireLaws wire
wire-WireLaws = record {
  message = λ m. (code m.msg_type ∷ m.payload, refl, rw (type_of-code m.msg_type));
  challenge = λ a. (print_challenge a, refl, challenge_round a);
  response = λ r. (print_resp r, refl, response_round r);
  confirm = λ c. (print_confirm c, refl, confirm_round c);
  text = λ t. (t, refl, refl);
}
