-- ===== src/Recovery.antt =====
-- crates/emi-core/src/recovery.rs: offline unlock tokens.
pub mod Bytes
pub mod Token
pub mod Verify
pub mod Accepted
pub mod RoundTrip
pub mod Key
pub mod Counter
