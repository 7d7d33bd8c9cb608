-- ===== src/Auth.antt =====
-- src/auth.rs and src/cose.rs: the records that a node trusts, and the guard against old versions.
pub mod Naming
pub mod Cose
pub mod Documents
pub mod Versions
pub mod Equality
pub mod Trust
pub mod Keys
pub mod Rollback
pub mod Roundtrip
