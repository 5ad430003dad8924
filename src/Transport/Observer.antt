-- ===== src/Transport/Observer.antt =====
-- transport/src/actors/observer.rs: the configuration, what the constructor does to the base
-- behaviour, and the transport loop of the observer.
use subsquid_network.Base.{ℕ, Option, none}
use subsquid_network.Messages.{PeerId}
use subsquid_network.Pubsub.{Gossipsub}
use subsquid_network.BaseBehaviour.{BaseBehaviourEvent}
use subsquid_network.BaseBehaviour.Nodes.{AllowList, allow_peer}
use subsquid_network.Queue.{Channel, new_queue}
use subsquid_network.Observer.{ObserverEvent, observe, on_observed}
use subsquid_network.Joining.{Joined}
use subsquid_network.Transport.{deliver}

pub record ObserverConfig : Type 0 where
  pub logs_collector_id : PeerId
  pub events_queue_size : ℕ

pub new_observer_config : PeerId → ObserverConfig
new_observer_config logs_collector_id = record {
  logs_collector_id = logs_collector_id;
  events_queue_size = 100;
}

-- `ObserverBehaviour::new`
pub join_observer : (g : Gossipsub) (a : AllowList) → ℕ → Joined g a → PeerId → Joined g a
unfolding allow_peer
join_observer g a now base logs_collector_id = record {
  pubsub = observe g now base.pubsub;
  nodes = allow_peer a base.nodes logs_collector_id;
}

module _ (events : Channel ObserverEvent) where
  -- Of its behaviour the transport reads the ID of the logs collector alone.
  pub record ObserverTransport : Type 0 where
    pub logs_collector_id : PeerId
    pub events_tx : events.Inner

  pub start_transport : ObserverConfig → ObserverTransport
  start_transport config = record {
    logs_collector_id = config.logs_collector_id;
    events_tx = new_queue events config.events_queue_size;
  }

  unfoldable pub on_swarm_event : ObserverTransport → Option ObserverEvent → ObserverTransport
  on_swarm_event s ev = record s { events_tx = deliver events s.events_tx ev }

  pub data Selected : Type 0 where
    behaviour_event : BaseBehaviourEvent → Selected
    swarm_event : Selected

  unfoldable pub round : ObserverTransport → Selected → ObserverTransport
  unfolding on_swarm_event
  round s (behaviour_event ev) = on_swarm_event s (on_observed s.logs_collector_id ev)
  round s swarm_event = on_swarm_event s none
