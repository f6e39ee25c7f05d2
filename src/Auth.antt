-- ===== src/Auth.antt =====
-- crates/core/src/auth.rs: the messages, the sessions and the map that keeps them. BLAKE3's key
-- derivation, `hex` and bincode are a record here.
pub mod Manager
pub mod Handshake
pub mod Key
pub mod Run
pub mod Agreement
pub mod Sessions
pub mod Authentic
pub mod Invariant
pub mod Toy
pub mod Tests
use sealedge.Base.{
  ℕ, suc, ◌+◌, ◌-◌, ◌*◌, ◌%◌, ◌^◌, ◌≡◌, List, [], ◌∷◌, ◌++◌, Bytes, Text, str, Bool, true, false,
  not, ◌&&◌, ◌||◌, Option, none, some, bytes_eq, decimal, ltb, leb, ◌==◌, length, Result, ok, err,
  ensure, ok_or, map_err, ◌>>=◌, ◌>>◌, if◌then◌else◌,
}
use sealedge.Manifest.Validate.{all}
use sealedge.Envelope.{Primitives}

abbrev pub session_timeout : ℕ
session_timeout = 1800

pub data AuthMessageType : Type 0 where
  client_hello : AuthMessageType
  server_challenge : AuthMessageType
  client_auth : AuthMessageType
  server_confirm : AuthMessageType
  auth_error : AuthMessageType

pub record ServerCertificate : Type 0 where
  pub identity : Text
  pub public_key : Bytes
  pub valid_from : ℕ
  pub valid_until : ℕ
  pub signature : Bytes

pub record AuthChallenge : Type 0 where
  pub challenge : Bytes
  pub server_cert : ServerCertificate
  pub timestamp : ℕ

pub record ClientAuthResponse : Type 0 where
  pub client_public_key : Bytes
  pub challenge_signature : Bytes
  pub client_identity : Option Text
  pub timestamp : ℕ

pub record ServerAuthConfirm : Type 0 where
  pub session_id : Bytes
  pub session_expires_at : ℕ
  pub session_signature : Bytes

pub record AuthMessage : Type 0 where
  pub msg_type : AuthMessageType
  pub payload : Bytes

-- bincode's `serialize` and `deserialize` of one type, and that the one undoes the other.
pub record Codec (A : Type 0) : Type 0 where
  pub serialize : A → Result Text Bytes
  pub deserialize : Bytes → Result Text A

abbrev pub RoundTrip : {A : Type 0} → Codec A → Type 0
RoundTrip {A} c = (a : A) → (b : Bytes) × (c.serialize a ≡ ok b) × (c.deserialize b ≡ ok a)

pub record Wire : Type 0 where
  -- `blake3::derive_key` under a context
  pub derive_key : Text → Bytes → Bytes
  pub hex : Bytes → Text
  pub message : Codec AuthMessage
  pub challenge : Codec AuthChallenge
  pub response : Codec ClientAuthResponse
  pub confirm : Codec ServerAuthConfirm
  pub text : Codec Text

pub record WireLaws (w : Wire) : Type 0 where
  pub message : RoundTrip w.message
  pub challenge : RoundTrip w.challenge
  pub response : RoundTrip w.response
  pub confirm : RoundTrip w.confirm
  pub text : RoundTrip w.text

pub record SessionInfo : Type 0 where
  pub session_id : Bytes
  pub client_public_key : Bytes
  pub client_identity : Option Text
  pub created_at : ℕ
  pub expires_at : ℕ
  pub authenticated : Bool
  pub session_key : Bytes

-- The map of the sessions is a list of entries with different ids.
abbrev pub Sessions : Type 0
Sessions = List (Bytes × SessionInfo)

pub record SessionManager : Type 0 where
  pub sessions : Sessions
  pub server_signing_key : Bytes
  pub server_certificate : ServerCertificate

unfoldable pub get : Bytes → Sessions → Option SessionInfo
get id [] = none
get id ((k, s) ∷ rest) = if bytes_eq k id then some s else get id rest

unfoldable pub insert : Bytes → SessionInfo → Sessions → Sessions
insert id session [] = (id, session) ∷ []
insert id session ((k, s) ∷ rest) =
    if bytes_eq k id then (id, session) ∷ rest else (k, s) ∷ insert id session rest

unfoldable pub remove : Bytes → Sessions → Sessions
remove id [] = []
remove id ((k, s) ∷ rest) = if bytes_eq k id then remove id rest else (k, s) ∷ remove id rest

unfoldable pub retain_current : ℕ → Sessions → Sessions
retain_current now [] = []
retain_current now ((k, s) ∷ rest) =
    if ltb now s.expires_at then (k, s) ∷ retain_current now rest else retain_current now rest

-- `<` on arrays of bytes
unfoldable pub bytes_lt : Bytes → Bytes → Bool
bytes_lt [] [] = false
bytes_lt [] (y ∷ ys) = true
bytes_lt (x ∷ xs) [] = false
bytes_lt (x ∷ xs) (y ∷ ys) = ltb x y || (x == y && bytes_lt xs ys)

unfoldable pub is_valid : ℕ → SessionInfo → Bool
is_valid now s = s.authenticated && ltb now s.expires_at

unfoldable pub is_expired : ℕ → SessionInfo → Bool
is_expired now s = leb s.expires_at now
