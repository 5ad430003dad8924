-- ===== src/Observer.antt =====
-- transport/src/actors/observer.rs: the observer, which passes on what is published.
use subsquid_network.Base.{ℕ, Option, none, some, if◌then◌else◌, eq_of_nat, ◌==◌}
use subsquid_network.Messages.{PeerId, Ping, QueryLogs, LogsCollected}
use subsquid_network.Pubsub.{Gossipsub, PubsubBehaviour}
use subsquid_network.BaseBehaviour.{
  BaseBehaviourEvent, ping, worker_query_logs, logs_collected, peer_probed, peer_protocols,
}
use subsquid_network.BaseBehaviour.Topics.{
  subscribe_pings, subscribe_worker_logs, subscribe_logs_collected,
}

pub data ObserverEvent : Type 0 where
  pinged : PeerId → Ping → ObserverEvent
  logged : PeerId → QueryLogs → ObserverEvent
  collected : LogsCollected → ObserverEvent

-- The subscriptions that `ObserverBehaviour::new` makes.
pub observe : (g : Gossipsub) → ℕ → PubsubBehaviour g → PubsubBehaviour g
unfolding subscribe_pings subscribe_worker_logs subscribe_logs_collected
observe g now b =
    subscribe_logs_collected g now (subscribe_worker_logs g now (subscribe_pings g now b))

-- The collector's messages count only from the collector's own peer ID.
pub on_observed : (logs_collector_id : PeerId) → BaseBehaviourEvent → Option ObserverEvent
on_observed logs_collector_id (logs_collected peer_id msg) =
    if peer_id == logs_collector_id then some (collected msg) else none
on_observed logs_collector_id (ping peer_id msg) = some (pinged peer_id msg)
on_observed logs_collector_id (worker_query_logs peer_id logs) = some (logged peer_id logs)
on_observed logs_collector_id (peer_probed peer_id reachable) = none
on_observed logs_collector_id (peer_protocols peer_id protocols) = none
