-- ===== src/Crypto/Toy.antt =====
-- A concrete instance of the crates that meets their laws: it shows that the hypotheses can hold.
use sealedge.Base.{
  ℕ, Bytes, ◌++◌, ◌≡◌, refl, length, take, replicate, length-take, length-append, length-replicate,
  arith, bytes_eq, bytes_eq_refl, ok,
}
use sealedge.Crypto.{Crates, CratesLaws}

-- A block of `n` bytes: the message cut off, or filled up with zeros.
unfoldable pub fit : ℕ → Bytes → Bytes
fit n b = take n (b ++ replicate n 0)

pub length-fit : (n : ℕ) (b : Bytes) → length (fit n b) ≡ n
unfolding fit
length-fit n b =
    length-take n (b ++ replicate n 0)
      (omega (arith, length-append b (replicate n 0), length-replicate {A = ℕ} n 0))

abbrev pub toy_crates : Crates
toy_crates = record {
  base64_encode = λ b. b;
  base64_decode = λ t. ok t;
  hex_decode = λ t. ok t;
  ed25519_public = fit 32;
  ed25519_sign = λ secret message. fit 64 (fit 32 secret ++ message);
  ed25519_key = λ k. ok k;
  ed25519_verify = λ key message signature. bytes_eq signature (fit 64 (key ++ message));
  p256_key = λ k. ok k;
  p256_signature = λ s. ok s;
  p256_verify = λ key message signature. bytes_eq signature (key ++ message);
}

pub toy_laws : CratesLaws toy_crates
toy_laws = record {
  decode-encode = λ b. refl;
  length-public = λ secret. length-fit 32 secret;
  length-sign = λ secret message. length-fit 64 (fit 32 secret ++ message);
  key-public = λ secret. refl;
  verify-sign = λ secret message. bytes_eq_refl _;
}
