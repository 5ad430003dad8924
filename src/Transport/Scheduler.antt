-- ===== src/Transport/Scheduler.antt =====
-- transport/src/actors/scheduler.rs: the transport loop of the scheduler and its handle.
use subsquid_network.Base.{Bool, true, Option, none, some}
use subsquid_network.Messages.{PeerId, Pong}
use subsquid_network.BaseBehaviour.{Probe, connected, scheduled, queue_full}
use subsquid_network.Queue.{Channel, new_queue, try_send, send_lossy, recv}
use subsquid_network.Scheduler.{
  Parts, SchedulerBehaviour, SchedulerEvent, probed, SchedulerInnerEvent, on_inner_event, send_pong,
  probe,
}
use subsquid_network.Joining.{SchedulerConfig}
use subsquid_network.Transport.{deliver}

pub record SchedulerQueues : Type 1 where
  pub pongs : Channel (PeerId × Pong)
  pub probes : Channel PeerId
  pub events : Channel SchedulerEvent

-- The branches of the loop. An event of the swarm is one that the behaviour made of an inner event, or
-- one of the swarm itself.
pub data Selected : Type 0 where
  behaviour_event : SchedulerInnerEvent → Selected
  swarm_event pong_queued probe_queued : Selected

module _ (p : Parts) (q : SchedulerQueues) where
  pub record SchedulerTransport : Type 0 where
    pub behaviour : SchedulerBehaviour p
    pub pongs_rx : q.pongs.Inner
    pub probes_rx : q.probes.Inner
    pub events_tx : q.events.Inner

  pub start_transport : SchedulerBehaviour p → SchedulerConfig → SchedulerTransport
  start_transport behaviour config = record {
    behaviour = behaviour;
    pongs_rx = new_queue q.pongs config.pongs_queue_size;
    probes_rx = new_queue q.probes config.probes_queue_size;
    events_tx = new_queue q.events config.events_queue_size;
  }

  -- `SchedulerTransportHandle::send_pong`
  unfoldable pub queue_pong : SchedulerTransport → PeerId → Pong → Bool × SchedulerTransport
  queue_pong s peer_id pong =
      let (sent, pongs_rx') = try_send q.pongs s.pongs_rx (peer_id, pong) in
      (sent, record s { pongs_rx = pongs_rx' })

  -- `SchedulerTransportHandle::probe_peer`
  unfoldable pub queue_probe : SchedulerTransport → PeerId → Bool × SchedulerTransport
  queue_probe s peer_id =
      let (sent, probes_rx') = try_send q.probes s.probes_rx peer_id in
      (sent, record s { probes_rx = probes_rx' })

  unfoldable pub on_swarm_event : SchedulerTransport → Option SchedulerEvent → SchedulerTransport
  on_swarm_event s ev = record s { events_tx = deliver q.events s.events_tx ev }

  -- What follows the answer to a probe.
  unfoldable pub probe_answered : q.events.Inner → PeerId → Probe → q.events.Inner
  probe_answered events_tx peer_id connected = send_lossy q.events events_tx (probed peer_id true)
  probe_answered events_tx peer_id scheduled = events_tx
  probe_answered events_tx peer_id queue_full = events_tx

  unfoldable pub probe_peer : SchedulerTransport → PeerId → SchedulerTransport
  unfolding probe probe_answered
  probe_peer s peer_id =
      let (answer, behaviour') = probe p s.behaviour peer_id in
      record s { behaviour = behaviour'; events_tx = probe_answered s.events_tx peer_id answer }

  unfoldable pub on_pong_queued :
      SchedulerTransport → Option ((PeerId × Pong) × q.pongs.Inner) → SchedulerTransport
  unfolding send_pong
  on_pong_queued s none = s
  on_pong_queued s (some ((peer_id, pong), pongs_rx')) = record s {
    behaviour = send_pong p s.behaviour peer_id pong;
    pongs_rx = pongs_rx';
  }

  unfoldable pub on_probe_queued :
      SchedulerTransport → Option (PeerId × q.probes.Inner) → SchedulerTransport
  unfolding probe_peer
  on_probe_queued s none = s
  on_probe_queued s (some (peer_id, probes_rx')) =
      probe_peer (record s { probes_rx = probes_rx' }) peer_id

  unfoldable pub round : SchedulerTransport → Selected → SchedulerTransport
  unfolding on_inner_event on_swarm_event on_pong_queued on_probe_queued
  round s (behaviour_event ev) =
      let (out, behaviour') = on_inner_event p s.behaviour ev in
      on_swarm_event (record s { behaviour = behaviour' }) out
  round s swarm_event = on_swarm_event s none
  round s pong_queued = on_pong_queued s (recv q.pongs s.pongs_rx)
  round s probe_queued = on_probe_queued s (recv q.probes s.probes_rx)
