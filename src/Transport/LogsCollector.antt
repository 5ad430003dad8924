-- ===== src/Transport/LogsCollector.antt =====
-- transport/src/actors/logs_collector.rs: the configuration, the transport loop and the handle of the
-- logs collector.
use subsquid_network.Base.{ℕ, Bool, Option, none, some}
use subsquid_network.Messages.{LogsCollected}
use subsquid_network.Protocol.{max_gateway_log_size}
use subsquid_network.Queue.{Channel, new_queue, try_send, recv}
use subsquid_network.LogsCollector.{
  Parts, LogsCollectorBehaviour, LogsCollectorEvent, CollectorInnerEvent, on_inner_event,
  publish_collected,
}
use subsquid_network.Transport.{deliver}

pub record LogsCollectorConfig : Type 0 where
  pub max_gateway_log_size_limit : ℕ
  pub logs_collected_queue_size : ℕ
  pub events_queue_size : ℕ

pub default_collector_config : LogsCollectorConfig
default_collector_config = record {
  max_gateway_log_size_limit = max_gateway_log_size;
  logs_collected_queue_size = 100;
  events_queue_size = 100;
}

module _ (p : Parts) (collected : Channel LogsCollected) (events : Channel LogsCollectorEvent) where
  pub record LogsCollectorTransport : Type 0 where
    pub behaviour : LogsCollectorBehaviour p
    pub logs_collected_rx : collected.Inner
    pub events_tx : events.Inner

  pub start_transport : LogsCollectorBehaviour p → LogsCollectorConfig → LogsCollectorTransport
  start_transport behaviour config = record {
    behaviour = behaviour;
    logs_collected_rx = new_queue collected config.logs_collected_queue_size;
    events_tx = new_queue events config.events_queue_size;
  }

  -- `LogsCollectorTransportHandle::logs_collected`
  unfoldable pub queue_collected :
      LogsCollectorTransport → LogsCollected → Bool × LogsCollectorTransport
  queue_collected s msg =
      let (sent, logs_collected_rx') = try_send collected s.logs_collected_rx msg in
      (sent, record s { logs_collected_rx = logs_collected_rx' })

  unfoldable pub on_swarm_event :
      LogsCollectorTransport → Option LogsCollectorEvent → LogsCollectorTransport
  on_swarm_event s ev = record s { events_tx = deliver events s.events_tx ev }

  -- The branches of the loop, at a time of the clock.
  pub data Selected : Type 0 where
    behaviour_event : CollectorInnerEvent p → Selected
    swarm_event : Selected
    collected_queued : (now : ℕ) → Selected

  unfoldable pub on_collected_queued :
      ℕ → LogsCollectorTransport → Option (LogsCollected × collected.Inner) → LogsCollectorTransport
  on_collected_queued now s none = s
  on_collected_queued now s (some (msg, logs_collected_rx')) = record s {
    behaviour = publish_collected p now s.behaviour msg;
    logs_collected_rx = logs_collected_rx';
  }

  unfoldable pub round : LogsCollectorTransport → Selected → LogsCollectorTransport
  unfolding on_swarm_event on_collected_queued
  round s (behaviour_event ev) =
      let (out, behaviour') = on_inner_event p s.behaviour ev in
      on_swarm_event (record s { behaviour = behaviour' }) out
  round s swarm_event = on_swarm_event s none
  round s (collected_queued now) = on_collected_queued now s (recv collected s.logs_collected_rx)
