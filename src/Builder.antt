-- ===== src/Builder.antt =====
-- transport/src/builder.rs: what a transport is set up with, and what its swarm is told to do at first.
-- The swarm of libp2p is a parameter.
pub mod Planning
pub mod Waiting
mod Examples
use subsquid_network.Base.{
  ℕ, zero, suc, ◌+◌, ◌-◌, ◌*◌, ◌≡◌, Bool, true, false, ◌&&◌, String, Option, none, some, List, [],
  ◌∷◌, ◌++◌, map, if◌then◌else◌, ltb, leb, Result, ok, err,
}
use subsquid_network.Messages.{PeerId}
use subsquid_network.Addresses.{Multiaddr, Protocol, p2p, p2p_circuit}
use subsquid_network.Cli.{BootNode}

-- `Swarm`; `none` is an error of the call.
pub record Swarm : Type 1 where
  pub Inner : Type 0
  pub listen_on : Inner → Multiaddr → Option Inner
  pub add_external_address : Inner → Multiaddr → Inner
  pub dial : Inner → PeerId → List Multiaddr → Option Inner

-- `P2PTransportBuilder`, but for the keys, the QUIC configuration and the clients.
pub record P2pTransportBuilder : Type 0 where
  pub listen_addrs : List Multiaddr
  pub public_addrs : List Multiaddr
  pub boot_nodes : List BootNode
  pub relay_addrs : List Multiaddr
  pub relay : Bool

pub from_cli : List Multiaddr → List Multiaddr → List BootNode → P2pTransportBuilder
from_cli listen_addrs public_addrs boot_nodes = record {
  listen_addrs = listen_addrs;
  public_addrs = public_addrs;
  boot_nodes = boot_nodes;
  relay_addrs = [];
  relay = false;
}

abbrev pub with_listen_addrs : P2pTransportBuilder → List Multiaddr → P2pTransportBuilder
with_listen_addrs s addrs = record s { listen_addrs = s.listen_addrs ++ addrs }

abbrev pub with_public_addrs : P2pTransportBuilder → List Multiaddr → P2pTransportBuilder
with_public_addrs s addrs = record s { public_addrs = s.public_addrs ++ addrs }

abbrev pub with_boot_nodes : P2pTransportBuilder → List BootNode → P2pTransportBuilder
with_boot_nodes s nodes = record s { boot_nodes = s.boot_nodes ++ nodes }

abbrev pub with_relay : P2pTransportBuilder → Bool → P2pTransportBuilder
with_relay s relay = record s { relay = relay }

abbrev pub with_relay_addrs : P2pTransportBuilder → List Multiaddr → P2pTransportBuilder
with_relay_addrs s addrs = record s { relay_addrs = s.relay_addrs ++ addrs; relay = true }

abbrev pub is_empty : {A : Type 0} → List A → Bool
is_empty [] = true
is_empty (x ∷ xs) = false

abbrev pub and_then : {A B : Type 0} → Option A → (A → Option B) → Option B
and_then none f = none
and_then (some a) f = f a

-- The boot nodes, where a relay is asked for and none is named.
unfoldable pub chosen_relays : P2pTransportBuilder → List Multiaddr
chosen_relays s =
    if s.relay && is_empty s.relay_addrs
    then map (λ bn. bn.address ++ p2p bn.peer_id ∷ []) s.boot_nodes
    else s.relay_addrs

module _ (w : Swarm) where
  -- The four loops.
  unfoldable pub listen_all : w.Inner → List Multiaddr → Option w.Inner
  listen_all swarm [] = some swarm
  listen_all swarm (addr ∷ addrs) =
      and_then (w.listen_on swarm addr) λ swarm'. listen_all swarm' addrs

  unfoldable pub register_all : w.Inner → List Multiaddr → w.Inner
  register_all swarm [] = swarm
  register_all swarm (addr ∷ addrs) = register_all (w.add_external_address swarm addr) addrs

  unfoldable pub dial_all : w.Inner → List BootNode → Option w.Inner
  dial_all swarm [] = some swarm
  dial_all swarm (bn ∷ nodes) =
      and_then (w.dial swarm bn.peer_id (bn.address ∷ [])) λ swarm'. dial_all swarm' nodes

  unfoldable pub listen_relayed : w.Inner → List Multiaddr → Option w.Inner
  listen_relayed swarm [] = some swarm
  listen_relayed swarm (addr ∷ addrs) =
      and_then (w.listen_on swarm (addr ++ p2p_circuit ∷ [])) λ swarm'. listen_relayed swarm' addrs

  -- `build_swarm`, once the swarm is there.
  unfoldable pub build_swarm : P2pTransportBuilder → w.Inner → Option w.Inner
  unfolding listen_all register_all dial_all listen_relayed chosen_relays
  build_swarm s swarm = and_then (listen_all swarm s.listen_addrs) λ listening.
      and_then (dial_all (register_all listening s.public_addrs) s.boot_nodes)
        λ dialled. if s.relay then listen_relayed dialled (chosen_relays s) else some dialled

-- How a round of the loop in `build_worker` ends: at a time, with an error, or not.
pub data Waited : Type 0 where
  ready : (now : ℕ) → Waited
  failed : String → Waited
  waits : (now : ℕ) → Waited

-- A round, at `now`, when the chain gives this time of the registration. A time in the future has
-- elapsed for zero. Times are in milliseconds.
unfoldable pub wait_round : (interval now : ℕ) → Result String (Option ℕ) → Waited
wait_round interval now (err e) = failed e
wait_round interval now (ok none) = waits (now + 60 * 1000)
wait_round interval now (ok (some reg_time)) =
    let elapsed = now - reg_time in
    ready (if ltb elapsed interval then now + (interval - elapsed) else now)

-- The loop of `build_worker`; `chain` is what it answers at a time. `none` is no result yet.
unfoldable pub wait_loop :
    (ℕ → Result String (Option ℕ)) → (interval fuel : ℕ) → Waited → Option (Result String ℕ)
wait_loop chain interval fuel (ready now) = some (ok now)
wait_loop chain interval fuel (failed e) = some (err e)
wait_loop chain interval zero (waits now) = none
wait_loop chain interval (suc fuel) (waits now) =
    wait_loop chain interval fuel (wait_round interval now (chain now))

unfoldable pub wait_registered :
    (ℕ → Result String (Option ℕ)) → (interval fuel now : ℕ) → Option (Result String ℕ)
unfolding wait_loop wait_round
wait_registered chain interval fuel now =
    wait_loop chain interval fuel (wait_round interval now (chain now))
