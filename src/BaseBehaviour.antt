-- ===== src/BaseBehaviour.antt =====
-- transport/src/behaviour/base.rs: the behaviour that every kind of node has. Its connections,
-- lookups and probes are here; Nodes has the registered nodes, Topics what goes over pub-sub. The
-- parts that it drives (Kademlia, the timeouts, the cache) are parameters.
pub mod Nodes
pub mod Whole
pub mod Topics
pub mod Connections
pub mod Probes
pub mod Delivery
pub mod Lookups
pub mod Sample
mod Examples
pub mod TopicSample
mod TopicExamples
use subsquid_network.Base.{
  ℕ, ◌+◌, ◌-◌, ◌*◌, ◌%◌, ◌^◌, ◌≡◌, Bool, true, false, Option, none, some, String, List, [], ◌∷◌,
  if◌then◌else◌, eqb, ltb, Result, ok, err, or_else, lookup, insert, remove, has_key, keep,
  eq_of_nat, ◌==◌,
}
use subsquid_network.Messages.{PeerId, Ping, QueryLogs, LogsCollected}
use subsquid_network.Timeouts.{Timeouts, Pushed, pushed, beyond_capacity, replaced}
use subsquid_network.Addresses.{Multiaddr, Lru, put_addrs, addr_is_reachable}

abbrev pub QueryId : Type 0
QueryId = ℕ

-- What the code calls of Kademlia.
pub record Kademlia : Type 1 where
  pub Inner : Type 0
  pub get_closest_peers : Inner → PeerId → Inner × QueryId
  pub add_address : Inner → PeerId → Multiaddr → Inner

pub data ConnectedPoint : Type 0 where
  dialer listener : ConnectedPoint

-- `kad::PeerInfo`
pub record PeerInfo : Type 0 where
  pub peer_id : PeerId
  pub addrs : List Multiaddr

pub data ClosestPeers : Type 0 where
  found timed_out : List PeerInfo → ClosestPeers

pub data KademliaEvent : Type 0 where
  closest_peers : QueryId → ClosestPeers → KademliaEvent
  other_kademlia_event : KademliaEvent

pub data IdentifyEvent : Type 0 where
  received : PeerId → List Multiaddr → List String → IdentifyEvent
  other_identify_event : IdentifyEvent

pub data BaseBehaviourEvent : Type 0 where
  ping : PeerId → Ping → BaseBehaviourEvent
  worker_query_logs : PeerId → QueryLogs → BaseBehaviourEvent
  logs_collected : PeerId → LogsCollected → BaseBehaviourEvent
  peer_probed : PeerId → (reachable : Bool) → BaseBehaviourEvent
  peer_protocols : PeerId → List String → BaseBehaviourEvent

-- What the behaviour gives to the swarm.
pub data ToSwarm : Type 0 where
  generate_event : BaseBehaviourEvent → ToSwarm
  dial : PeerId → ToSwarm

-- `BiHashMap::insert` takes out the pairs that share a side with the new one.
pub bimap_insert : PeerId → QueryId → List (PeerId × QueryId) → List (PeerId × QueryId)
bimap_insert peer_id query_id pairs =
    (peer_id, query_id)
    ∷ keep (λ p. if p.0 == peer_id then false else if p.1 == query_id then false else true) pairs

-- `get_by_right`
pub peer_of_query : QueryId → List (PeerId × QueryId) → Option PeerId
peer_of_query query_id [] = none
peer_of_query query_id ((p, q) ∷ pairs) =
    if q == query_id then some p else peer_of_query query_id pairs

-- `remove_by_right`
pub remove_query : QueryId → List (PeerId × QueryId) → List (PeerId × QueryId)
remove_query query_id pairs = keep (λ p. if p.1 == query_id then false else true) pairs

-- `into_iter().find(|p| p.peer_id == peer_id)`
pub find_peer : PeerId → List PeerInfo → Option PeerInfo
find_peer peer_id [] = none
find_peer peer_id (p ∷ peers) = if p.peer_id == peer_id then some p else find_peer peer_id peers

pub peers_of : ClosestPeers → List PeerInfo
peers_of (found peers) = peers
peers_of (timed_out peers) = peers

pub data Probe : Type 0 where
  connected scheduled queue_full : Probe

module _ (k : Kademlia) (t : Timeouts) (l : Lru) where
  -- The parts that connections, lookups and probes use.
  pub record BaseBehaviour : Type 0 where
    pub kademlia : k.Inner
    pub address_cache : l.Cache
    pub ongoing_queries : List (PeerId × QueryId)
    pub outbound_conns : List (PeerId × ℕ)
    pub probe_timeouts : t.Map

  unfoldable pub find_and_dial : BaseBehaviour → PeerId → BaseBehaviour
  unfolding bimap_insert
  find_and_dial b peer_id =
      if has_key peer_id b.ongoing_queries
      then b
      else (let (kademlia', query_id) = k.get_closest_peers b.kademlia peer_id in
          record b {
            kademlia = kademlia';
            ongoing_queries = bimap_insert peer_id query_id b.ongoing_queries;
          })

  unfoldable pub is_connected : BaseBehaviour → PeerId → Bool
  is_connected b peer_id = ltb 0 (or_else (lookup peer_id b.outbound_conns) 0)

  -- The push, and what follows it: any error of it is `QueueFull`.
  unfoldable pub schedule_probe : BaseBehaviour → PeerId → t.Map × Pushed → Probe × BaseBehaviour
  unfolding find_and_dial
  schedule_probe b peer_id (timeouts, pushed) =
      (scheduled, find_and_dial (record b { probe_timeouts = timeouts }) peer_id)
  schedule_probe b peer_id (timeouts, beyond_capacity) =
      (queue_full, record b { probe_timeouts = timeouts })
  schedule_probe b peer_id (timeouts, replaced) =
      (queue_full, record b { probe_timeouts = timeouts })

  unfoldable pub try_probe_peer : BaseBehaviour → PeerId → Probe × BaseBehaviour
  unfolding is_connected schedule_probe
  try_probe_peer b peer_id =
      if is_connected b peer_id
      then (connected, b)
      else if t.contains b.probe_timeouts peer_id
      then (scheduled, b)
      else schedule_probe b peer_id (t.try_push b.probe_timeouts peer_id)

  -- The counter is a u32.
  unfoldable pub on_connection_established :
      BaseBehaviour → PeerId → ConnectedPoint → Option ToSwarm × BaseBehaviour
  on_connection_established b peer_id listener = (none, b)
  on_connection_established b peer_id dialer =
      let conns =
        insert peer_id ((or_else (lookup peer_id b.outbound_conns) 0 + 1) % 2 ^ 32)
          b.outbound_conns in
      let (timeouts, probed) = t.remove b.probe_timeouts peer_id in
      (
        if probed then some (generate_event (peer_probed peer_id true)) else none,
        record b { outbound_conns = conns; probe_timeouts = timeouts },
      )

  -- The subtraction wraps as a u32 does in a build without overflow checks.
  unfoldable pub on_connection_closed : BaseBehaviour → PeerId → ConnectedPoint → BaseBehaviour
  on_connection_closed b peer_id listener = b
  on_connection_closed b peer_id dialer = elim (lookup peer_id b.outbound_conns) [
    | none ↦ b
    | some x ↦ record b {
      outbound_conns = insert peer_id ((x + (2 ^ 32 - 1)) % 2 ^ 32) b.outbound_conns;
    }
  ]

  -- `poll` on a probe that timed out.
  unfoldable pub on_probe_timeout : BaseBehaviour → PeerId → ToSwarm × BaseBehaviour
  on_probe_timeout b peer_id = (
    generate_event (peer_probed peer_id false),
    record b { probe_timeouts = t.expired b.probe_timeouts peer_id },
  )

  unfoldable pub add_addresses : k.Inner → PeerId → List Multiaddr → k.Inner
  add_addresses kademlia peer_id [] = kademlia
  add_addresses kademlia peer_id (addr ∷ addrs) =
      add_addresses (k.add_address kademlia peer_id addr) peer_id addrs

  unfoldable pub on_identify_event :
      (private_network : Bool) → BaseBehaviour → IdentifyEvent → Option ToSwarm × BaseBehaviour
  unfolding add_addresses
  on_identify_event private_network b (received peer_id listen_addrs protocols) =
      let addrs = keep (addr_is_reachable private_network) listen_addrs in
      (
        some (generate_event (peer_protocols peer_id protocols)),
        record b {
          address_cache = put_addrs l b.address_cache peer_id addrs;
          kademlia = add_addresses b.kademlia peer_id addrs;
        },
      )
  on_identify_event private_network b other_identify_event = (none, b)

  -- The end of a query for a peer: its addresses are cached, and it is dialled.
  unfoldable pub peer_found :
      BaseBehaviour → PeerId → QueryId → PeerInfo → Option ToSwarm × BaseBehaviour
  unfolding remove_query
  peer_found b peer_id query_id peer_info = (
    some (dial peer_id),
    record b {
      address_cache = put_addrs l b.address_cache peer_id peer_info.addrs;
      ongoing_queries = remove_query query_id b.ongoing_queries;
    },
  )

  unfoldable pub on_kademlia_event : BaseBehaviour → KademliaEvent → Option ToSwarm × BaseBehaviour
  unfolding peer_found peer_of_query find_peer peers_of
  on_kademlia_event b (closest_peers query_id result) =
      elim (peer_of_query query_id b.ongoing_queries) [
        | none ↦ (none, b)
        | some peer_id ↦ elim (find_peer peer_id (peers_of result)) [
          | none ↦ (none, b)
          | some peer_info ↦ peer_found b peer_id query_id peer_info
        ]
      ]
  on_kademlia_event b other_kademlia_event = (none, b)
