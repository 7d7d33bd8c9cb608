-- ===== src/Dispatcher.antt =====
-- src/service_dispatcher.rs, with the types of src/service_protocol.rs: the router between the node
-- and one task for each local backend. A reply channel is a number, its identity. TCP, the codec's
-- stream, the clock and fresh UUIDs are inputs of the steps. Log lines are left out.
pub mod Types
pub mod Timeouts
pub mod Routing
pub mod Replies
pub mod Task
pub mod Step
pub mod Runs
pub mod Conserved
pub mod Serving
pub mod Kept
pub mod Promises
pub mod Sound
pub mod Router
pub mod Control
pub mod Answers
pub mod Routed
pub mod System
pub mod Tells
pub mod Readiness
pub mod Published
pub mod Drained
pub mod Delay
pub mod Configured
