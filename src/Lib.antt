-- ===== src/Lib.antt =====
-- A verification library for bns-node: the distributed hash table of crates/core, a Chord ring of
-- nodes that know each other by fingers and successors and store virtual nodes for each other.
--
-- The parts, and how they interact:
--   * Did: identifiers and their ring (crates/core/src/dht/did.rs). `Did` is a number below
--     2 ^ 160, `IsDid`; `BiasId` and the arithmetic wrap round as in the source. Did/Rotate and
--     Did/Sort are the rotations for copies and the sort from an origin.
--   * Finger: `FingerTable` (crates/core/src/dht/finger.rs), an array of optional identifiers. An
--     index out of range is `panic`; the loops run over the table's size.
--   * Successor: `SuccessorSeq` (crates/core/src/dht/successor.rs). `min` and `max` are called
--     `min_succ` and `max_succ`; `should_insert`, `update`, `extend` and `remove` as in the source.
--   * Subring and VNode: crates/core/src/dht/subring.rs and vnode.rs. The field `data` of a virtual
--     node is `entries` here; `overwrite`, `extend`, `touch` and `join_subring` of a virtual node
--     are `overwrite_with`, `extend_with`, `touch_with` and `join_subring_with`.
--   * Action: what an operation asks of other nodes (`PeerRingAction`, `RemoteAction`).
--   * Storage: the interface `KvStorageInterface` (crates/core/src/storage/mod.rs) as a record of
--     operations, `IsStorage` with what a working store promises, and in Storage/Memory the store
--     of crates/core/src/storage/memory.rs over a concurrent map of a library.
--   * Chord: `PeerRing` (crates/core/src/dht/chord.rs), which joins a finger table, a list of
--     successors, a predecessor and two stores. Chord/Vnodes has the storage of virtual nodes and
--     Chord/Correct the operations of Zave's version of Chord. Chord/Route asks one node after the
--     other, as the callers of `find_successor` do.
--   * Relay: `MessageRelay` and `has_infinite_loop` (crates/core/src/message/protocols/relay.rs).
--   * Chunk: the chunk pool (crates/core/src/chunk.rs). A uuid and a byte are numbers, and the time
--     of a call is an argument.
--   * Measure: the periodic counters of crates/node/src/measure.rs and the tests of
--     crates/core/src/measure.rs.
--   * Effect: the shape of the stateful code below, `Effect W A = W → W × Result A`: an operation
--     takes the state and returns it beside a value, an error or a panic, and what it did before an
--     error stays done. `attempt` and `logged` catch an error, `unwrap` makes a panic of it.
--   * Session and Verification: crates/core/src/session.rs and message/protocols/verify.rs. A time is
--     an argument, a sum of u128 that does not fit is a panic.
--   * Message and Payload: crates/core/src/message/types.rs and message/payload.rs. Messages that
--     hold one value only have no record of their own.
--   * Swarm: `SwarmTransport` (crates/core/src/swarm/transport.rs) with its connections; Swarm/Send
--     has the operations of `PayloadSender` (message/payload.rs), which find the next hop, sign,
--     cut into chunks and send. The state holds the node's `PeerRing` and the transport.
--   * Handlers: crates/core/src/message/handlers/mod.rs, with connection.rs and custom.rs in
--     Handlers/Connection, stabilization.rs in Handlers/Stabilization, storage.rs and subring.rs in
--     Handlers/Vnodes. A handler of a message is called `handle_` and the message's name.
--   * Connections: the pools of crates/transport/src/core/pool.rs and pool.rs, and notifier.rs. The
--     swarm does not use them here: its transport is a parameter. The entries of the pool of
--     connections are the association list of Connections/Entries.
--   * Facade: `Swarm` (crates/core/src/swarm/mod.rs), what a node offers to its application, with the
--     offers and answers by which two nodes connect. Facade/Request lists what is asked of a node.
--   * Callback: crates/core/src/swarm/callback.rs, where a node receives: `on_message` verifies a
--     payload, gathers chunks and calls the handler of its message. There is one callback to a
--     connection, with a pool of chunks and the lock of that; a call that waits for the lock for good
--     ends with `waits`. Callback/Sound has a node with all its callbacks.
--   * Stabilizer: the rounds of crates/core/src/dht/stabilization.rs over a `SwarmTransport`.
--   * Examples: concrete rings, tables and stores, to which the theorems are applied.
-- Each operation takes the state and returns it beside its `Result`: a value, an error or a panic.
-- Common has the list functions, the Boolean tests and the errors that all parts share.
--
-- Bounds and fuel: loops are recursions on lists or on counters that the source bounds (the 160
-- entries of a table, the copies of a virtual node). Fuel is spent by
-- `Chord.Route.route`, the hops, for which the clockwise distance to the target is enough, for every
-- hop shortens it; `Callback.on_message`, for a message may complete another one out of chunks, where
-- two are enough, for a chunk inside that one waits for the lock of the pool; `Chunk.pieces_of`,
-- whose fuel is the number of bytes; and `Session.digits`, one for each of the at most 39 digits of a
-- u128. Angles are u16 and list lengths usize, which the bounds in force
-- do not exceed; where a cast to u8 or u32 can cut something off, the remainder is written out.
--
-- Parameters: hashing, JSON, base58 and the hexadecimal form of an identifier are the fields of
-- `Subring.External`; the signatures of crates/core/src/ecc those of `Session.Signers`; bincode those
-- of `Payload.Codec`; the connections of crates/transport, the clock and the uuids those of
-- `Swarm.TransportInterface`; DashMap is `Storage.Memory.DashMap`, and what it documents
-- `IsDashMap`; the application's callbacks are those of `Callback.SwarmCallback`. A theorem names
-- what it needs of them. `Swarm.Env` joins the first four with the store, and its `experimental` is
-- the feature of that name.
--
-- Not modelled: locks, other than that of a pool of chunks, which only fail after a panic in another
-- thread; how the tasks of one node interleave within an operation, and that jobs which are joined
-- run at the same time: here they run one after the other; the timers of stabilization, the builder
-- of the swarm, persistent stores, remote procedure calls, the command line and the proof systems.
pub mod Common
pub mod Did
pub mod Finger
pub mod Successor
pub mod Subring
pub mod VNode
pub mod Action
pub mod Storage
pub mod Chord
pub mod Relay
pub mod Chunk
pub mod Measure
pub mod Effect
pub mod Session
pub mod Verification
pub mod Message
pub mod Payload
pub mod Swarm
pub mod Handlers
pub mod Connections
pub mod Facade
pub mod Callback
pub mod Stabilizer
pub mod Examples
