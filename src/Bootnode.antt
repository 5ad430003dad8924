-- ===== src/Bootnode.antt =====
-- transport/src/bin/bootnode.rs: whom the boot node allows to connect, and which addresses it names.
-- libp2p and the client of the contracts are parameters.
pub mod Standing
mod Examples
use subsquid_network.Base.{
  Bool, true, false, not, String, Option, none, some, List, [], ◌∷◌, if◌then◌else◌, keep,
  difference, Result, ok, err, eq_of_nat, ◌==◌,
}
use subsquid_network.Messages.{PeerId}
use subsquid_network.Addresses.{Multiaddr, addr_is_reachable}
use subsquid_network.BaseBehaviour.{Kademlia, IdentifyEvent, received, other_identify_event}
use subsquid_network.BaseBehaviour.Nodes.{AllowList, same_set}
use subsquid_network.Cli.{BootNode}
use subsquid_network.Builder.{Swarm, and_then}

abbrev pub other_boot_nodes : PeerId → List BootNode → List BootNode
other_boot_nodes local_peer_id nodes = keep (λ node. not (node.peer_id == local_peer_id)) nodes

module _ (w : Swarm) (k : Kademlia) (a : AllowList) where
  pub record Bootnode : Type 0 where
    pub swarm : w.Inner
    pub kademlia : k.Inner
    pub allow : a.Inner
    pub registered_nodes : List PeerId

  -- Before the loop: to connect to the other boot nodes. `none` is an error of a call.
  unfoldable pub connect_all : w.Inner → a.Inner → List BootNode → Option (w.Inner × a.Inner)
  connect_all swarm allow [] = some (swarm, allow)
  connect_all swarm allow (node ∷ nodes) =
      let allow' = a.allow_peer allow node.peer_id in
      and_then (w.dial swarm node.peer_id []) λ swarm'. connect_all swarm' allow' nodes

  unfoldable pub allow_nodes : a.Inner → List PeerId → a.Inner
  allow_nodes allow [] = allow
  allow_nodes allow (peer_id ∷ peers) = allow_nodes (a.allow_peer allow peer_id) peers

  unfoldable pub block_nodes : a.Inner → List PeerId → a.Inner
  block_nodes allow [] = allow
  block_nodes allow (peer_id ∷ peers) = block_nodes (a.disallow_peer allow peer_id) peers

  unfoldable pub start_bootnode :
      w.Inner
      → k.Inner
      → a.Inner
      → PeerId
      → List BootNode
      → (allowed_nodes : List PeerId) → Option Bootnode
  unfolding connect_all allow_nodes
  start_bootnode swarm kademlia allow local_peer_id boot_nodes allowed_nodes =
      and_then (connect_all swarm allow (other_boot_nodes local_peer_id boot_nodes)) λ connected.
        some (record {
          swarm = connected.0;
          kademlia = kademlia;
          allow = allow_nodes connected.1 allowed_nodes;
          registered_nodes = [];
        })

  unfoldable pub on_nodes : Bootnode → Result String (List PeerId) → Bootnode
  unfolding block_nodes allow_nodes same_set
  on_nodes s (err e) = s
  on_nodes s (ok nodes) = if same_set nodes s.registered_nodes then s else record s {
    allow =
        allow_nodes (block_nodes s.allow (difference s.registered_nodes nodes))
          (difference nodes s.registered_nodes);
    registered_nodes = nodes;
  }

  unfoldable pub name_all : k.Inner → PeerId → List Multiaddr → k.Inner
  name_all kademlia peer_id [] = kademlia
  name_all kademlia peer_id (addr ∷ addrs) =
      name_all (k.add_address kademlia peer_id addr) peer_id addrs

  unfoldable pub on_identified : (private_network : Bool) → Bootnode → IdentifyEvent → Bootnode
  unfolding name_all
  on_identified private_network s (received peer_id listen_addrs protocols) = record s {
    kademlia = name_all s.kademlia peer_id (keep (addr_is_reachable private_network) listen_addrs);
  }
  on_identified private_network s other_identify_event = s

  -- The branches of the loop.
  pub data Selected : Type 0 where
    identify_event : IdentifyEvent → Selected
    swarm_event : Selected
    nodes_read : Result String (List PeerId) → Selected

  unfoldable pub round : (private_network : Bool) → Bootnode → Selected → Bootnode
  unfolding on_nodes on_identified
  round private_network s (identify_event ev) = on_identified private_network s ev
  round private_network s swarm_event = s
  round private_network s (nodes_read result) = on_nodes s result

  -- The loop, until a signal ends it.
  unfoldable pub run : (private_network : Bool) → Bootnode → List Selected → Bootnode
  unfolding round
  run private_network s [] = s
  run private_network s (selected ∷ more) =
      run private_network (round private_network s selected) more
