-- ===== src/Crypto/Tests.antt =====
-- Keys and signatures at concrete inputs, over the toy crates.
use sealedge.Base.{refl, Bytes, replicate, ◌++◌}
use sealedge.Crypto.{DeviceKeypair, ed25519_prefix}
use sealedge.Crypto.Keys.{IsKeypair}
use sealedge.Crypto.Toy.{toy_crates, fit}

-- A keypair from a secret of 32 bytes.
abbrev pub keypair : Bytes → DeviceKeypair
keypair secret = record { public = ed25519_prefix ++ fit 32 secret; secret = secret }

abbrev pub device : DeviceKeypair
device = keypair (replicate 32 7)

abbrev pub successor : DeviceKeypair
successor = keypair (replicate 32 9)

pub device-IsKeypair : IsKeypair toy_crates device
device-IsKeypair = record { size = refl; derived = refl }

pub successor-IsKeypair : IsKeypair toy_crates successor
successor-IsKeypair = record { size = refl; derived = refl }
