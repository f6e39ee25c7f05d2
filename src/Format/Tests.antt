-- ===== src/Format/Tests.antt =====
-- The envelope's header at concrete inputs.
use sealedge.Base.{
  ℕ, zero, suc, ◌<◌, ◌≡◌, refl, arith, take, ◌∷◌, [], ok, ◌++◌, Bytes, replicate, All,
}
use sealedge.Crypto.Toy.{fit}
use sealedge.Format.{
  FileHeader, StreamHeader, aead_algorithm, signature_algorithm, hash_algorithm, kdf_algorithm,
  from_bytes, to_bytes, from_be32, migrate_v1_to_v2, aes256_gcm, chacha20_poly1305, ed25519, blake3,
  argon2id,
}
use sealedge.Format.Header.{IsHeader, IsSupported, from_bytes-to_bytes}
use sealedge.Format.Reencode.{to_bytes-from_bytes}
use sealedge.Format.Aad.{AadSized, build_aad-injective}
use sealedge.Format.Migration.{v1_layout, with_defaults, migrate_v1_to_v2_reads}

abbrev header : FileHeader
header = record {
  version = 2;
  aead_alg = 2;
  sig_alg = 1;
  hash_alg = 1;
  kdf_alg = 2;
  reserved = replicate 3 0;
  key_id = replicate 16 5;
  device_id_hash = replicate 32 6;
  nonce_prefix = replicate 4 7;
  chunk_size = 1_048_577;
}

header-IsHeader : IsHeader header
header-IsHeader = record {
  reserved_size = refl;
  key_id_size = refl;
  device_id_hash_size = refl;
  nonce_prefix_size = refl;
  chunk_size_range = omega arith;
}

header-IsSupported : IsSupported header
unfolding aead_algorithm signature_algorithm hash_algorithm kdf_algorithm
header-IsSupported = record {
  aead = chacha20_poly1305;
  signature = ed25519;
  hash = blake3;
  kdf = argon2id;
  aead_known = refl;
  signature_known = refl;
  hash_known = refl;
  kdf_known = refl;
}

from_bytes-to_bytes_example : from_bytes (to_bytes header) ≡ ok header
from_bytes-to_bytes_example = from_bytes-to_bytes header header-IsHeader header-IsSupported

abbrev digest : Bytes
digest = replicate 32 1

abbrev nonce : Bytes
nonce = replicate 12 2

abbrev place : ℕ
place = 7

abbrev chunk_len : ℕ
chunk_len = 4096

sizes-AadSized : AadSized digest place nonce digest chunk_len
sizes-AadSized = record {
  header_hash_size = refl;
  seq_range = omega arith;
  nonce_size = refl;
  manifest_hash_size = refl;
  chunk_len_range = omega arith;
}

build_aad-injective_example :
    (digest ≡ digest)
    × (place ≡ place)
    × (nonce ≡ nonce)
    × (digest ≡ digest)
    × (chunk_len ≡ chunk_len)
build_aad-injective_example =
    build_aad-injective digest digest place place nonce nonce digest digest chunk_len chunk_len
      sizes-AadSized sizes-AadSized refl

ones : (n : ℕ) → All (λ c. c < 256) (replicate n 1)
ones zero = tt
ones (suc n) = (omega arith, ones n)

gcm : aead_algorithm 1 ≡ ok aes256_gcm
unfolding aead_algorithm
gcm = refl

migrate_v1_to_v2_reads_example :
    (v2 : StreamHeader) × (migrate_v1_to_v2 (fit 32) (record {
      v = 1;
      header = v1_layout 1 1 (replicate 16 2) (replicate 32 3) (replicate 4 4) 65537;
      header_hash = digest;
    })
      ≡ ok v2)
    × (v2.v ≡ 2)
    × (v2.header_hash ≡ fit 32 v2.header)
    × (from_bytes v2.header
        ≡ ok (with_defaults 1 (replicate 16 2) (replicate 32 3) (replicate 4 4) 65537))
migrate_v1_to_v2_reads_example =
    migrate_v1_to_v2_reads 1 1 (replicate 16 2) (replicate 32 3) (replicate 4 4) 65537 refl refl
      refl (omega arith) (fit 32) 1 digest aes256_gcm gcm

abbrev ones_header : FileHeader
ones_header = record {
  version = 1;
  aead_alg = 1;
  sig_alg = 1;
  hash_alg = 1;
  kdf_alg = 1;
  reserved = replicate 3 1;
  key_id = replicate 16 1;
  device_id_hash = replicate 32 1;
  nonce_prefix = replicate 4 1;
  chunk_size = 16_843_009;
}

ones_header-ok : from_bytes (replicate 66 1) ≡ ok ones_header
unfolding from_bytes aead_algorithm signature_algorithm hash_algorithm kdf_algorithm from_be32
ones_header-ok = refl

to_bytes-from_bytes_example : to_bytes ones_header ≡ take 64 (replicate 66 1) ++ 0 ∷ 0 ∷ []
to_bytes-from_bytes_example =
    to_bytes-from_bytes (replicate 66 1) ones_header refl (ones 66) ones_header-ok
