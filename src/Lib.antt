-- ===== src/Lib.antt =====
-- sealedge: tamper-evident archives of a device, its chronicle of archives, and the platform that
-- witnesses the chronicle.
--
-- A device cuts a recording into segments. The BLAKE3 continuity chain links the segments, a manifest
-- describes them, and the device's key signs the manifest's canonical bytes. The digest of the
-- canonical bytes is the archive's id, which the next archive of the device's chronicle names. A
-- rotation record hands the chronicle to a new key. The platform witnesses the chronicle: it keeps a
-- ledger of the tips that devices present, answers with receipts, and refuses forks and rollbacks. An
-- administrator may revoke a key, and a recorded rotation limits the old key's ledger.
--
-- Files, and the code that each models:
--   Base, Base/*          Rust's lists, strings, `Result` and `Display`, and lemmas on them
--   Chain, Chain/*        crates/core/src/chain.rs: `genesis`, `chain_next`, `validate_chain`
--   Crypto, Crypto/*      crates/core/src/crypto.rs: keys in text form, `sign_manifest`,
--                         `verify_manifest` with Ed25519 and P-256, nonces
--   Json, Json/*          JSON string literals, as the canonical forms use them
--   Manifest              crates/seal-protocols/src/archive/manifest.rs: the types
--   Manifest/New          the constructors of the five profiles
--   Manifest/Canonical    `to_canonical_bytes`, one `push` function for each block of
--                         `serialize_canonical`; the modules below it cut the blocks off again
--   Manifest/Validate     `validate`, and the well-formed manifests that it accepts
--   Chronicle, its tree   crates/core/src/chronicle.rs: `archive_digest`, rotation records, witness
--                         requests; the types of crates/core/src/keywrap.rs that they name
--   Platform/Witness      crates/platform/src/witness.rs: `decide`, `prev_entry`, the receipt
--   Platform/Revocation   crates/platform/src/revocation.rs: `decide_revoke`,
--                         `verify_lineage_rotation` and the refusals
--   Platform/Database     crates/platform/src/database/queries.rs: tables as lists of rows, and the
--                         queries that the handlers make
--   Platform/Handler      crates/platform/src/http/handlers.rs: the witness and the revoke handler; its
--                         ledger (Ledger, Sequential, Backed, Race), a request that comes again
--                         (Found, Replay, Attached, Again), the lineage table (Lineage, Kept, Rotated)
--   Format, Format/*      crates/core/src/format.rs: the binary envelope's header, the associated
--                         data of a chunk, the migration of version 1 headers
--   Archive, its tree     crates/core/src/archive.rs: the disk, `ArchiveWriter` and `write_archive`
--                         (Writer), the readers (Reader), a valid archive without the readers'
--                         control flow (Valid), the writer's disk (Written, RoundTrip)
--   Envelope, its tree    crates/core/src/envelope.rs: `seal`, `verify`, `unseal`; the chunk record
--                         of crates/core/src/lib.rs, `SignedManifest` of format.rs
--   Receipts, its tree    crates/core/src/applications/receipts/mod.rs: ownership receipts in
--                         envelopes, one and the next (Links), the accepted chains (Verified),
--                         an envelope as made (Sealed), chains as issued (Issued)
--   Auth, its tree        crates/core/src/auth.rs: messages and sessions, certificates and the
--                         session manager (Manager), the two sides of the handshake cut where they
--                         wait (Handshake), a run of it (Run, Agreement)
--   */Toy, */Tests        concrete instances of the parameters, and runs at concrete inputs
--
-- State is passed: a handler takes the database and gives the answer beside the new database. The
-- witness handler is two functions, `witness_check` up to the decision, which only reads, and
-- `witness_commit` from there, which writes, so that requests that interleave are sequences of halves;
-- `witness_handler` is one after the other. A `do` block is a chain of `?`.
--
-- Parameters stand for what is not in the repository: BLAKE3 and `hex::encode` are functions; the
-- `base64`, `hex`, `ed25519-dalek` and `p256` crates are the record `Crates`, with their documented
-- behaviour in `CratesLaws`; `serde_json::to_string` of a string and of a list of strings end where
-- they end (`JsonLaws`, `JsonListLaws`); `f64` with its `Display` is the record `Floats`, with
-- `FloatLaws`; parsing of RFC 3339 times is a function.
-- The archive's `Tools` are `serde_json` on a manifest, lossy UTF-8, BLAKE3, `hex` and how a read is cut
-- into blocks; the receipts' `Json` is `serde_json` on a receipt, which reads back what it wrote; the
-- envelope's `Primitives` are X25519, HKDF, AES-256-GCM and bincode, with the law that
-- decryption undoes encryption. A handshake message's bincode codecs are the record
-- `Wire`. The disk is three folders of files by name; a missing file or folder is
-- the only I/O error. Time and randomness are arguments. No parameter is assumed to be free of
-- collisions: a theorem that needs it shows a collision in the other case.
--
-- Bounds and fuel: machine integers wrap as in a release build where the code adds without a check;
-- a `u64` sequence is ordered as the database's `bigint` is. The only loop on fuel writes decimal
-- digits, `n + 1` rounds for `n`, and the digits are shown to read back as `n`.
--
-- The pieces of a payload are cut with the payload's length as fuel, since each round takes a byte at
-- least; they are shown to make up the payload.
--
-- Not modelled: the JWS over receipts, random ids (the receipt's id and the clock are arguments),
-- failures of the database pool, I/O errors other than a missing file, HTTP framing, serde's derived
-- formats, key generation, zeroizing, key wrapping, certificate files, transports (a handshake
-- message arrives whole or not at all), and the command lines.
pub mod Base
pub mod Chain
pub mod Crypto
pub mod Json
pub mod Manifest
pub mod Chronicle
pub mod Platform
pub mod Format
pub mod Archive
pub mod Envelope
pub mod Receipts
pub mod Auth
