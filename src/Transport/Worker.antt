-- ===== src/Transport/Worker.antt =====
-- transport/src/actors/worker.rs: the transport loop of the worker and its handle.
use subsquid_network.Base.{ℕ, Bool, Option, none, some, List}
use subsquid_network.Messages.{Ping, QueryResult, QueryExecuted}
use subsquid_network.Queue.{Channel, new_queue, try_send, recv}
use subsquid_network.Worker.{
  Parts, WorkerBehaviour, WorkerEvent, WorkerInnerEvent, on_inner_event, send_ping,
  send_query_result, send_logs,
}
use subsquid_network.Joining.{WorkerConfig}
use subsquid_network.Transport.{deliver}

pub record WorkerQueues : Type 1 where
  pub pings : Channel Ping
  pub query_results : Channel QueryResult
  pub logs : Channel (List QueryExecuted)
  pub events : Channel WorkerEvent

module _ (p : Parts) (q : WorkerQueues) where
  pub record WorkerTransport : Type 0 where
    pub behaviour : WorkerBehaviour p
    pub pings_rx : q.pings.Inner
    pub query_results_rx : q.query_results.Inner
    pub logs_rx : q.logs.Inner
    pub events_tx : q.events.Inner

  pub start_transport : WorkerBehaviour p → WorkerConfig → WorkerTransport
  start_transport behaviour config = record {
    behaviour = behaviour;
    pings_rx = new_queue q.pings config.pings_queue_size;
    query_results_rx = new_queue q.query_results config.query_results_queue_size;
    logs_rx = new_queue q.logs config.logs_queue_size;
    events_tx = new_queue q.events config.events_queue_size;
  }

  -- `WorkerTransportHandle::send_ping`
  unfoldable pub queue_ping : WorkerTransport → Ping → Bool × WorkerTransport
  queue_ping s ping =
      let (sent, pings_rx') = try_send q.pings s.pings_rx ping in
      (sent, record s { pings_rx = pings_rx' })

  -- `WorkerTransportHandle::send_query_result`
  unfoldable pub queue_result : WorkerTransport → QueryResult → Bool × WorkerTransport
  queue_result s result =
      let (sent, query_results_rx') = try_send q.query_results s.query_results_rx result in
      (sent, record s { query_results_rx = query_results_rx' })

  -- `WorkerTransportHandle::send_logs`
  unfoldable pub queue_logs : WorkerTransport → List QueryExecuted → Bool × WorkerTransport
  queue_logs s logs =
      let (sent, logs_rx') = try_send q.logs s.logs_rx logs in
      (sent, record s { logs_rx = logs_rx' })

  unfoldable pub on_swarm_event : WorkerTransport → Option WorkerEvent → WorkerTransport
  on_swarm_event s ev = record s { events_tx = deliver q.events s.events_tx ev }

  -- The branches of the loop, at a time of the clock.
  pub data Selected : Type 0 where
    behaviour_event : WorkerInnerEvent p → Selected
    swarm_event result_queued : Selected
    ping_queued logs_queued : (now : ℕ) → Selected

  unfoldable pub on_ping_queued :
      ℕ → WorkerTransport → Option (Ping × q.pings.Inner) → WorkerTransport
  on_ping_queued now s none = s
  on_ping_queued now s (some (ping, pings_rx')) = record s {
    behaviour = send_ping p now s.behaviour ping;
    pings_rx = pings_rx';
  }

  unfoldable pub on_result_queued :
      WorkerTransport → Option (QueryResult × q.query_results.Inner) → WorkerTransport
  on_result_queued s none = s
  on_result_queued s (some (result, query_results_rx')) = record s {
    behaviour = send_query_result p s.behaviour result;
    query_results_rx = query_results_rx';
  }

  unfoldable pub on_logs_queued :
      ℕ → WorkerTransport → Option (List QueryExecuted × q.logs.Inner) → WorkerTransport
  on_logs_queued now s none = s
  on_logs_queued now s (some (logs, logs_rx')) = record s {
    behaviour = send_logs p now s.behaviour logs;
    logs_rx = logs_rx';
  }

  unfoldable pub round : WorkerTransport → Selected → WorkerTransport
  unfolding on_swarm_event on_ping_queued on_result_queued on_logs_queued
  round s (behaviour_event ev) =
      let (out, behaviour') = on_inner_event p s.behaviour ev in
      on_swarm_event (record s { behaviour = behaviour' }) out
  round s swarm_event = on_swarm_event s none
  round s (ping_queued now) = on_ping_queued now s (recv q.pings s.pings_rx)
  round s result_queued = on_result_queued s (recv q.query_results s.query_results_rx)
  round s (logs_queued now) = on_logs_queued now s (recv q.logs s.logs_rx)
