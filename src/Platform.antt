-- ===== src/Platform.antt =====
-- crates/platform: the decisions of the witness ledger, of revocation, and the handlers over them.
pub mod Witness
pub mod Revocation
pub mod Database
pub mod Handler
