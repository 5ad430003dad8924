-- ===== src/Lib.antt =====
-- The peer-to-peer network of Subsquid: gateways send queries to workers, workers answer them and
-- publish pings and query logs, a scheduler answers pings, and a logs collector gathers the logs.
-- Which nodes take part is read from a chain. The program is a library of messages (messages/), a
-- client of the contracts (contract-client/) and the transport over libp2p (transport/).
--
-- Which file models which part (a file's children are in the folder of its name):
--   Base              shared names: tests, lists, equality, maps and sets.
--   RangeSet          messages/src/range.rs: `extend`, with the sort and the loop that merges in place
--                     by two indices, and the binary search of `has` and `includes`.
--   Messages          messages/proto/messages.proto and messages/src/lib.rs: the message types and the
--                     conversions between them.
--   DataChunk         messages/src/data_chunk.rs: chunk names as texts.
--   Signatures        messages/src/signatures.rs: `SignedMessage` and its three implementations.
--   Bundle            transport/src/behaviour/base.rs: `bundle_messages`.
--   Pubsub            transport/src/behaviour/pubsub.rs: `PubsubBehaviour`.
--   Timeouts          the map of timeouts of futures-bounded, as the code uses it.
--   RequestClient     transport/src/behaviour/request_client.rs: `ClientBehaviour`.
--   Protocol          transport/src/protocol.rs: topics, protocols and limits.
--   Addresses         transport/src/util.rs (`addr_is_reachable`) and
--                     transport/src/behaviour/addr_cache.rs (`AddressCache`).
--   BaseBehaviour     transport/src/behaviour/base.rs: connections, probes and lookups; Nodes has
--                     `on_nodes_update`, Topics what is published and decoded, Whole the constructor,
--                     where each event goes, and the poll.
--   Wrapped           transport/src/behaviour/wrapped.rs: `Wrapped`, around a behaviour and its wrapper.
--   RequestServer     transport/src/behaviour/request_server.rs: `ServerBehaviour`.
--   Queue             transport/src/util/queue.rs: the bounded queues.
--   Codec             transport/src/codec.rs: `ProtoCodec` and its limits.
--   Gateway, Worker, LogsCollector, Observer
--                     transport/src/actors/gateway.rs, worker.rs, logs_collector.rs and observer.rs:
--                     the handlers.
--   Scheduler         transport/src/actors/scheduler.rs: the handlers.
--   Transport         transport/src/actors/: the transport loops of these actors, and their handles.
--   Answering         transport/src/actors/gateway.rs and worker.rs together: a query and its result.
--   TaskManager       transport/src/util/task_manager.rs: the tasks that the loops run in.
--   Cli               transport/src/cli.rs and contract-client/src/cli.rs: boot nodes as texts, and the
--                     addresses of the contracts.
--   Builder           transport/src/builder.rs: what the swarm is told to do, and the wait of a worker.
--   Bootnode          transport/src/bin/bootnode.rs: whom it allows, and its loop.
--   Joining           the configurations and what the constructors of these actors do at first.
--   ContractClient    contract-client/src/client.rs: what is read from the chain, page by page;
--                     Epoch has the epochs and the ID of a worker.
--
-- A method that changes its object gives the changed record, and one that also returns something a
-- pair. A handler's events are its result. Where the source's text and the model differ in a name:
-- `data` is `content`, `QueueFull` is `none` or `queue_full`, and `drop` and `put` are the removal
-- and the insertion of a `HashSet`. Where two handlers of one object share nothing, its state is cut:
-- `BaseBehaviour` has the fields that connections and lookups use, `NodesState` those of the
-- registered nodes, and `PubsubBehaviour` those of the topics; `Whole` has the first two together.
--
-- What is not in the repository is a parameter: libp2p (gossipsub, Kademlia, request-response, the
-- list of allowed peers, keys and peer IDs), prost (the encoding of messages), the LRU cache, the map
-- of timeouts and the contracts. Each is a record of the calls that the code makes, with laws from
-- the documentation where a theorem needs them; the modules named Sample and Examples fill them.
-- The clock and the environment are arguments.
--
-- Numbers are unbounded where the source's cannot overflow in use, and wrap where they can: the ends
-- of ranges at 2^32, the sum of the window of sequence numbers at 2^64, the connection counters at
-- 2^32. Lengths (`usize`) are not bounded. The loops on fuel are the bundles (each round takes a
-- message, so as many rounds as messages, and one, are enough), the binary search (each round halves
-- what is left, so as many as ranges, and one) and the pages read from the chain (the first page that
-- is not full ends the loop, so one more than the list fills). The loop that polls a wrapped behaviour
-- ends only if no more is ready; its fuel is a number of rounds, and a run without a result is one
-- that needs more.
--
-- The wait of a worker has a round of fuel for each answer of the chain that names no registration. A
-- round of a transport's loop is what its `select!` picks, and so a history is a list of picks.
--
-- Not modelled: the construction of libp2p's objects in the builder and in the constructors of the
-- behaviours, the parsing of arguments, key files, metrics and generated bindings.

pub mod Base
pub mod RangeSet
pub mod Bundle
pub mod Messages
pub mod Signatures
pub mod Pubsub
pub mod Timeouts
pub mod RequestClient
pub mod Protocol
pub mod Addresses
pub mod BaseBehaviour
pub mod Gateway
pub mod RequestServer
pub mod Worker
pub mod Queue
pub mod Scheduler
pub mod LogsCollector
pub mod Observer
pub mod Joining
pub mod ContractClient
pub mod Wrapped
pub mod DataChunk
pub mod Transport
pub mod Cli
pub mod Builder
pub mod Bootnode
pub mod Codec
pub mod Answering
pub mod TaskManager
