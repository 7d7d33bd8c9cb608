-- ===== src/Command.antt =====
-- src/controller/command.rs, with the invalidation of src/controller/node_controller.rs: the commands of
-- a backend that write to the DHT, and a request to a service. What the network, the caches and CBOR
-- answer are parameters; a command is its result and the calls that it makes, in their order.
pub mod Keys
pub mod Writes
pub mod Permitted
pub mod Service
pub mod Remote
pub mod Dispatch
pub mod Permits
pub mod Same
