-- ===== src/BaseBehaviour/Whole.antt =====
-- transport/src/behaviour/base.rs: the behaviour with all its parts: how it is made, and which handler
-- an event goes to.
pub mod Registered
mod Examples
use subsquid_network.Base.{ℕ, ◌*◌, Bool, String, Option, none, some, List, [], ◌∷◌, map, Result}
use subsquid_network.Messages.{PeerId}
use subsquid_network.Protocol.{max_pubsub_msg_size}
use subsquid_network.Signatures.{Identity}
use subsquid_network.Timeouts.{Timeouts}
use subsquid_network.Addresses.{Lru, Multiaddr}
use subsquid_network.Pubsub.{PubsubMsg}
use subsquid_network.Cli.{BootNode}
use subsquid_network.BaseBehaviour.{
  Kademlia, BaseBehaviour, ToSwarm, generate_event, BaseBehaviourEvent, ConnectedPoint,
  IdentifyEvent, KademliaEvent, on_connection_established, on_connection_closed, on_identify_event,
  on_kademlia_event, on_probe_timeout,
}
use subsquid_network.BaseBehaviour.Nodes.{AllowList, NodesState, start_nodes, on_nodes_update}
use subsquid_network.BaseBehaviour.Topics.{Codecs, on_pubsub_event}

-- Durations are in milliseconds.
pub record BaseConfig : Type 0 where
  pub nodes_update_interval : ℕ
  pub autonat_timeout : ℕ
  pub identify_interval : ℕ
  pub request_timeout : ℕ
  pub probe_timeout : ℕ
  pub max_concurrent_probes : ℕ
  pub max_pubsub_msg_size_limit : ℕ
  pub addr_cache_size : ℕ

pub default_base_config : BaseConfig
default_base_config = record {
  nodes_update_interval = 300 * 1000;
  autonat_timeout = 60 * 1000;
  identify_interval = 60 * 1000;
  request_timeout = 60 * 1000;
  probe_timeout = 60 * 1000;
  max_concurrent_probes = 1000;
  max_pubsub_msg_size_limit = max_pubsub_msg_size;
  addr_cache_size = 1024;
}

-- What is not in the repository. `add_server` is that of autonat.
pub record Parts : Type 1 where
  pub k : Kademlia
  pub t : Timeouts
  pub l : Lru
  pub a : AllowList
  pub id : Identity
  pub codecs : Codecs
  pub Autonat : Type 0
  pub add_server : Autonat → PeerId → Option Multiaddr → Autonat

-- `FromSwarm`
pub data SwarmEvent : Type 0 where
  connection_established connection_closed : PeerId → ConnectedPoint → SwarmEvent
  dial_failure : Option PeerId → SwarmEvent
  other_swarm_event : SwarmEvent

-- `InnerBehaviourEvent`
pub data InnerEvent : Type 0 where
  identify : IdentifyEvent → InnerEvent
  kademlia : KademliaEvent → InnerEvent
  pubsub : PubsubMsg → InnerEvent
  autonat ping dcutr other_inner_event : InnerEvent

module _ (p : Parts) where
  pub record Whole : Type 0 where
    pub peers : BaseBehaviour p.k p.t p.l
    pub nodes : NodesState p.a
    pub autonat_state : p.Autonat

  -- The second half of the loop over the boot nodes.
  unfoldable pub add_servers : p.Autonat → List BootNode → p.Autonat
  add_servers state [] = state
  add_servers state (bn ∷ boot_nodes) =
      add_servers (p.add_server state bn.peer_id (some bn.address)) boot_nodes

  -- `BaseBehaviour::new`
  unfoldable pub new_base : BaseConfig → p.k.Inner → p.a.Inner → p.Autonat → List BootNode → Whole
  unfolding add_servers start_nodes
  new_base config kad allow autonat_state boot_nodes = record {
    peers = record {
      kademlia = kad;
      address_cache = p.l.start config.addr_cache_size;
      ongoing_queries = [];
      outbound_conns = [];
      probe_timeouts = p.t.start config.probe_timeout config.max_concurrent_probes;
    };
    nodes = start_nodes p.a allow (map (λ bn. bn.peer_id) boot_nodes);
    autonat_state = add_servers autonat_state boot_nodes;
  }

  unfoldable pub with_peers :
      Whole → Option ToSwarm × BaseBehaviour p.k p.t p.l → Option ToSwarm × Whole
  with_peers s (out, peers') = (out, record s { peers = peers' })

  unfoldable pub on_swarm_event : Whole → SwarmEvent → Option ToSwarm × Whole
  unfolding on_connection_established on_connection_closed with_peers
  on_swarm_event s (connection_established peer_id endpoint) =
      with_peers s (on_connection_established p.k p.t p.l s.peers peer_id endpoint)
  on_swarm_event s (connection_closed peer_id endpoint) =
      with_peers s (none, on_connection_closed p.k p.t p.l s.peers peer_id endpoint)
  on_swarm_event s (dial_failure peer_id) = (none, s)
  on_swarm_event s other_swarm_event = (none, s)

  abbrev pub as_event : Option BaseBehaviourEvent → Option ToSwarm
  as_event none = none
  as_event (some ev) = some (generate_event ev)

  -- Autonat's events are logged.
  unfoldable pub on_inner_event :
      (private_network : Bool) → Whole → InnerEvent → Option ToSwarm × Whole
  unfolding on_identify_event on_kademlia_event on_pubsub_event with_peers
  on_inner_event private_network s (identify ev) =
      with_peers s (on_identify_event p.k p.t p.l private_network s.peers ev)
  on_inner_event private_network s (kademlia ev) =
      with_peers s (on_kademlia_event p.k p.t p.l s.peers ev)
  on_inner_event private_network s (pubsub msg) = (as_event (on_pubsub_event p.id p.codecs msg), s)
  on_inner_event private_network s autonat = (none, s)
  on_inner_event private_network s ping = (none, s)
  on_inner_event private_network s dcutr = (none, s)
  on_inner_event private_network s other_inner_event = (none, s)

  -- What the probes give once the stream of nodes has nothing more.
  unfoldable pub poll_probes : Whole → Option PeerId → Option ToSwarm × Whole
  unfolding on_probe_timeout
  poll_probes s none = (none, s)
  poll_probes s (some peer_id) =
      let (out, peers') = on_probe_timeout p.k p.t p.l s.peers peer_id in
      (some out, record s { peers = peers' })

  -- A poll, when the stream has these answers ready and the probe of this peer timed out, if any.
  unfoldable pub poll :
      Whole → List (Result String (List PeerId)) → Option PeerId → Option ToSwarm × Whole
  unfolding on_nodes_update poll_probes
  poll s [] expired = poll_probes s expired
  poll s (res ∷ ready) expired =
      poll (record s { nodes = on_nodes_update p.a s.nodes res }) ready expired
