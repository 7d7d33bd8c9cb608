-- ===== src/Registry/Planned.antt =====
-- What `plan` starts: how many jobs, for which services, and why.
pub mod Bounds
pub mod Distinct
pub mod Justified
pub mod Progress
pub mod Started
