-- ===== src/Swarm.antt =====
-- src/network/actor.rs: the actor that owns the libp2p swarm, as far as its own state goes: the
-- waiters of its queries and requests, what it knows of its peers, and how it protects a request.
-- The swarm, post-quantum cryptography and the size of an encoding are parameters; a query or a
-- request is known by its number. Log lines are left out.
pub mod Types
pub mod Encoding
pub mod Security
pub mod Queries
pub mod Waiters
pub mod Answered
pub mod Gathered
pub mod Peers
pub mod Identities
pub mod Requests
pub mod Guarded
pub mod Service
pub mod Admitted
