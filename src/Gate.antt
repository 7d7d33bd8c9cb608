-- ===== src/Gate.antt =====
-- src/controller/auth_gate.rs: which record of the DHT is used, and who may call a service.
pub mod Select
pub mod Best
pub mod Chosen
pub mod Authorize
pub mod Admission
pub mod Reload
