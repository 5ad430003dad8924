-- ===== src/Scheduler.antt =====
-- transport/src/actors/scheduler.rs: the scheduler, which gets pings, answers with pongs and probes
-- peers. The parts below it are parameters.
use subsquid_network.Base.{ℕ, Bool, Option, none, some, if◌then◌else◌, eq_of_nat, ◌==◌}
use subsquid_network.Messages.{PeerId, Ping, Pong}
use subsquid_network.Signatures.{Identity}
use subsquid_network.Timeouts.{Timeouts}
use subsquid_network.Addresses.{Lru}
use subsquid_network.RequestClient.{
  Requests, ClientBehaviour, ClientEvent, response, peer_unknown, timeout, try_send_request,
}
use subsquid_network.BaseBehaviour.{
  Kademlia, BaseBehaviour, BaseBehaviourEvent, ping, worker_query_logs, logs_collected, peer_probed,
  peer_protocols, find_and_dial, Probe, try_probe_peer,
}

pub data SchedulerEvent : Type 0 where
  pinged : PeerId → Ping → SchedulerEvent
  probed : PeerId → (reachable : Bool) → SchedulerEvent

-- `InnerBehaviourEvent`
pub data SchedulerInnerEvent : Type 0 where
  base_event : BaseBehaviourEvent → SchedulerInnerEvent
  pong_event : ClientEvent ℕ → SchedulerInnerEvent

pub record Parts : Type 1 where
  pub k : Kademlia
  pub t : Timeouts
  pub l : Lru
  pub id : Identity
  pub pong_requests : Requests Pong

module _ (p : Parts) where
  pub record SchedulerBehaviour : Type 0 where
    pub base : BaseBehaviour p.k p.t p.l
    pub pong : ClientBehaviour p.pong_requests p.t

  -- The worker ID in the ping, parsed, must be the sender's.
  unfoldable pub on_ping : PeerId → Ping → Option SchedulerEvent
  on_ping peer_id msg = elim msg.worker_id [
    | none ↦ none
    | some worker_id ↦ elim (p.id.parse worker_id) [
      | none ↦ none
      | some named ↦ if named == peer_id then some (pinged peer_id msg) else none
    ]
  ]

  unfoldable pub on_base_event : BaseBehaviourEvent → Option SchedulerEvent
  unfolding on_ping
  on_base_event (ping peer_id msg) = on_ping peer_id msg
  on_base_event (peer_probed peer_id reachable) = some (probed peer_id reachable)
  on_base_event (worker_query_logs peer_id logs) = none
  on_base_event (logs_collected peer_id collected) = none
  on_base_event (peer_protocols peer_id protocols) = none

  unfoldable pub on_pong_event :
      SchedulerBehaviour → ClientEvent ℕ → Option SchedulerEvent × SchedulerBehaviour
  on_pong_event s (response peer_id req_id ack) = (none, s)
  on_pong_event s (peer_unknown peer_id) =
      (none, record s { base = find_and_dial p.k p.t p.l s.base peer_id })
  on_pong_event s (timeout peer_id req_id) = (none, s)

  unfoldable pub send_pong : SchedulerBehaviour → PeerId → Pong → SchedulerBehaviour
  send_pong s peer_id msg = record s {
    pong = (try_send_request p.pong_requests p.t s.pong peer_id msg).1;
  }

  unfoldable pub probe : SchedulerBehaviour → PeerId → Probe × SchedulerBehaviour
  probe s peer_id =
      let (answer, base') = try_probe_peer p.k p.t p.l s.base peer_id in
      (answer, record s { base = base' })

  unfoldable pub on_inner_event :
      SchedulerBehaviour → SchedulerInnerEvent → Option SchedulerEvent × SchedulerBehaviour
  unfolding on_base_event on_pong_event
  on_inner_event s (base_event ev) = (on_base_event ev, s)
  on_inner_event s (pong_event ev) = on_pong_event s ev
