-- ===== src/Transport/Gateway.antt =====
-- transport/src/actors/gateway.rs: the transport loop of the gateway and its handle.
pub mod Refine
use subsquid_network.Base.{Bool, Option, none, some, List, [], ◌∷◌}
use subsquid_network.Messages.{
  PeerId, Query, QuerySubmitted, QueryFinished, GatewayLogMsg, gateway_log_from, query_submitted,
  query_finished,
}
use subsquid_network.Queue.{Channel, new_queue, try_send, recv}
use subsquid_network.Gateway.{
  Parts, GatewayBehaviour, GatewayEvent, GatewayInnerEvent, on_inner_event, send_query,
  send_log_msg,
}
use subsquid_network.Joining.{GatewayConfig}
use subsquid_network.Transport.{deliver}

pub record GatewayQueues : Type 1 where
  pub queries : Channel (PeerId × Query)
  pub logs : Channel GatewayLogMsg
  pub events : Channel GatewayEvent

-- The branches of the loop. One that waits for a queue does nothing while the queue is empty. An
-- event of the swarm is one that the behaviour made of an inner event, or one of the swarm itself.
pub data Selected : Type 0 where
  behaviour_event : GatewayInnerEvent → Selected
  swarm_event query_queued log_queued : Selected

module _ (p : Parts) (q : GatewayQueues) where
  -- The transport, with the other ends of its queues.
  pub record GatewayTransport : Type 0 where
    pub behaviour : GatewayBehaviour p
    pub queries_rx : q.queries.Inner
    pub logs_rx : q.logs.Inner
    pub events_tx : q.events.Inner

  pub start_transport : GatewayBehaviour p → GatewayConfig → GatewayTransport
  start_transport behaviour config = record {
    behaviour = behaviour;
    queries_rx = new_queue q.queries config.queries_queue_size;
    logs_rx = new_queue q.logs config.logs_queue_size;
    events_tx = new_queue q.events config.events_queue_size;
  }

  -- `GatewayTransportHandle::send_query`
  unfoldable pub queue_query : GatewayTransport → PeerId → Query → Bool × GatewayTransport
  queue_query s peer_id query =
      let (sent, queries_rx') = try_send q.queries s.queries_rx (peer_id, query) in
      (sent, record s { queries_rx = queries_rx' })

  unfoldable pub queue_log : GatewayTransport → GatewayLogMsg → Bool × GatewayTransport
  queue_log s msg =
      let (sent, logs_rx') = try_send q.logs s.logs_rx msg in
      (sent, record s { logs_rx = logs_rx' })

  -- `GatewayTransportHandle::query_submitted`
  unfoldable pub queue_submitted : GatewayTransport → QuerySubmitted → Bool × GatewayTransport
  unfolding queue_log
  queue_submitted s msg = queue_log s (gateway_log_from (query_submitted msg))

  -- `GatewayTransportHandle::query_finished`
  unfoldable pub queue_finished : GatewayTransport → QueryFinished → Bool × GatewayTransport
  unfolding queue_log
  queue_finished s msg = queue_log s (gateway_log_from (query_finished msg))

  unfoldable pub on_swarm_event : GatewayTransport → Option GatewayEvent → GatewayTransport
  on_swarm_event s ev = record s { events_tx = deliver q.events s.events_tx ev }

  unfoldable pub on_query_queued :
      GatewayTransport → Option ((PeerId × Query) × q.queries.Inner) → GatewayTransport
  on_query_queued s none = s
  on_query_queued s (some ((peer_id, query), queries_rx')) = record s {
    behaviour = send_query p s.behaviour peer_id query;
    queries_rx = queries_rx';
  }

  unfoldable pub on_log_queued :
      GatewayTransport → Option (GatewayLogMsg × q.logs.Inner) → GatewayTransport
  on_log_queued s none = s
  on_log_queued s (some (msg, logs_rx')) = record s {
    behaviour = send_log_msg p s.behaviour msg;
    logs_rx = logs_rx';
  }

  unfoldable pub round : GatewayTransport → Selected → GatewayTransport
  unfolding on_swarm_event on_query_queued on_log_queued
  round s (behaviour_event ev) =
      let (out, behaviour') = on_inner_event p s.behaviour ev in
      on_swarm_event (record s { behaviour = behaviour' }) out
  round s swarm_event = on_swarm_event s none
  round s query_queued = on_query_queued s (recv q.queries s.queries_rx)
  round s log_queued = on_log_queued s (recv q.logs s.logs_rx)
