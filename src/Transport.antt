-- ===== src/Transport.antt =====
-- transport/src/actors/: the loops around the actors, and the handles by which the program's user talks
-- to them.
pub mod Gateway
pub mod Worker
pub mod LogsCollector
pub mod Observer
pub mod Scheduler
mod Examples
use subsquid_network.Base.{Option, none, some}
use subsquid_network.Queue.{Channel, send_lossy}

-- The body of every `on_swarm_event`: an event of the behaviour goes to the user, if there is room.
abbrev pub deliver : {E : Type 0} (events : Channel E) → events.Inner → Option E → events.Inner
deliver events events_tx none = events_tx
deliver events events_tx (some ev) = send_lossy events events_tx ev
