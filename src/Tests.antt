-- ===== src/Tests.antt =====
-- The theorems at concrete inputs, one module for each part.
mod Data
mod Registry
mod Auth
mod Gate
mod Cache
mod Peers
mod Sidecar
mod Signing
mod Swarm
mod Addr
mod Dispatcher
mod Command
