-- ===== src/Lib.antt =====
-- NexusNet, a peer-to-peer node that announces local services on a Kademlia DHT, reserves relays, and
-- lets peers call its services if a signed whitelist names them: a model of its control logic.
--
-- The parts and the files. Paths on the left are from the root of the repository.
--
-- - src/config.rs, src/limits.rs: Config. Config.Schema has the records of `NodeConfig` and their
--   defaults, Config.Validate has `validate`, Config.Access the accessors that compute.
-- - src/auth.rs, src/cose.rs: Auth. Auth.Naming has the valid names, Auth.Cose `sign_ed25519` and
--   `verify_ed25519`, Auth.Documents the documents with `verify_index` and `verify_whitelist`,
--   Auth.Versions the rollback guard `AuthVersions`.
--   Auth.Trust, Auth.Keys, Auth.Rollback and Auth.Roundtrip hold the proofs.
-- - src/controller/service_registry.rs: Registry. Registry.State has `RegistryState` and its messages,
--   Registry.Commands `handle` and `replace_backend_ready`, Registry.Plan `plan`, Registry.Apply
--   `apply` and `snapshot`, Registry.Types the type index, and Registry.Actor the actor: `pump`, and
--   the branches of the `select!` in `run` as a step relation. The proofs about plans
--   are in Registry.Planned, those about invariants in Registry.Scheduled, Registry.Synced and
--   Registry.Generations, those about results of old jobs in Registry.Stale.
-- - src/controller/peer_tracker.rs: Tracker. src/controller/relay_manager.rs: Relay.
-- - src/dht_cache.rs: Cache. Cache.Entries has the entries, `store` and `evict`, Cache.Operations the
--   calls, Cache.Runs sequences of calls and of the last steps of refreshes: no lock covers the
--   comparison of generations and the store, so that calls may come in between.
-- - src/controller/auth_gate.rs: Gate. Gate.Select has `select_index` and `select_whitelist`,
--   Gate.Authorize `authorize`, Gate.Reload `reload`.
-- - src/sidecar_protocol.rs: Sidecar. Sidecar.Message has the messages, Sidecar.Codec the frames.
-- - src/service_dispatcher.rs, src/service_protocol.rs: Dispatcher. Dispatcher.Task and Dispatcher.Step
--   have `backend_task`, `handshake` and `wait_backoff` as steps of a state machine with effects,
--   Dispatcher.Runs its runs, Dispatcher.Router `ServiceDispatcher::new` and the branches of `run`,
--   Dispatcher.Control `forward_control` and `forward_local`, Dispatcher.Routing `route_local`,
--   Dispatcher.Timeouts `command_timeout`, Dispatcher.System the router with its tasks and their
--   events. Dispatcher.Promises, Drained, Published, Answers, Routed, Delay and Configured hold the
--   proofs.
-- - src/network/actor.rs: Swarm. Swarm.Queries has `KadPending` and what a result does to an entry,
--   Swarm.Waiters the table `pending_kad` with the Kademlia branches of `handle_command` and
--   `handle_kad_event`, Swarm.Peers `on_identify_peer` and `handle_pq_identity`, Swarm.Security
--   `send_security`, Swarm.Requests `ServiceSendRequest`, Swarm.Service the inbound requests and their
--   responses, Swarm.Encoding `encode_request` and its kin. Swarm.Answered, Gathered, Identities,
--   Guarded and Admitted hold the proofs.
-- - src/controller/command.rs: Command. Command.Keys has the tests on keys and sizes, Command.Writes
--   `cmd_add_key`, `cmd_remove_key` and the `AddKey` of the DHT worker with the calls that they make,
--   Command.Service `request_service` with its attempts, Command.Dispatch `dispatch_command` with the
--   permits of its workers. Command.Permitted, Remote, Permits and Same hold the
--   proofs.
-- - src/network/addr.rs: Addr. The public addresses of the host and the update of the configuration.
-- - Base has what the Rust code uses of its standard library, and Tests the theorems at concrete
--   inputs.
--
-- How the parts interact. The controller loads a valid configuration and hands it to the registry, to
-- the relay manager and to the gate. The registry asks the DHT by jobs, whose results come back in any
-- order; the relay manager tells it how many relays are active, the dispatcher which backends are
-- ready. The gate reads its records through two caches, whose fetchers choose among the records of the
-- DHT by `select_index` and `select_whitelist`, and these verify each record by Auth.
--
-- Conventions. An `Instant` or a `Duration` is a number of nanoseconds, an argument of the call that
-- reads the clock. `HashSet` and `HashMap` are lists and association lists, whose order stands for the
-- unspecified order of iteration; `String` is its bytes. Arithmetic on `u32` and `u64` wraps or
-- saturates where the code says so. COSE, Ed25519, CBOR, SHA-256, base64 and serde_json are records of
-- functions that the definitions take as arguments. Log lines are left out.
--
-- Bounds and fuel. The search of `encode_types_limited` runs on the length of the list as fuel: each
-- round makes its interval shorter, which is as long as the list at first. The loop of `evict` runs on
-- the number of entries as fuel: each round but the last removes an entry. All other loops are structural.
--
-- Not modelled: the libp2p swarm, what the actor only passes on to it (listen, dial, the local store of
-- records), post-quantum cryptography and identity files (src/network/pq.rs, identity.rs, builder.rs);
-- the commands that only report and the event loop of the controller; logging and the files of the configuration.
pub mod Base
pub mod Config
pub mod Auth
pub mod Registry
pub mod Tracker
pub mod Relay
pub mod Cache
pub mod Gate
pub mod Addr
pub mod Command
pub mod Dispatcher
pub mod Sidecar
pub mod Swarm
pub mod Tests
