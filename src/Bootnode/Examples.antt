-- ===== src/Bootnode/Examples.antt =====
-- transport/src/bin/bootnode.rs: a boot node at an input.
use subsquid_network.Base.{
  ◌≡◌, refl, true, if◌then◌else◌, some, member, put, keep, List, [], ◌∷◌, ok, err,
}
use subsquid_network.Addresses.{quic_v1}
use subsquid_network.BaseBehaviour.Sample.{sample_kademlia, sample_allow_list}
use subsquid_network.Cli.{BootNode}
use subsquid_network.Builder.{Swarm}
use subsquid_network.Bootnode.{Bootnode, Selected, swarm_event, nodes_read, start_bootnode, run}
use subsquid_network.Bootnode.Standing.{
  stranger, guest, invited, standing_after, HasStanding, history-HasStanding,
}

abbrev quiet_swarm : Swarm
quiet_swarm = record {
  Inner = Unit {0};
  listen_on = λ swarm addr. some swarm;
  add_external_address = λ swarm addr. swarm;
  dial = λ swarm peer_id addrs. some swarm;
}

abbrev boot_nodes : List BootNode
boot_nodes =
    record { peer_id = 1; address = quic_v1 ∷ [] }
    ∷ record { peer_id = 2; address = quic_v1 ∷ [] }
    ∷ []

abbrev started : Bootnode quiet_swarm sample_kademlia sample_allow_list
started = record { swarm = tt; kademlia = []; allow = 2 ∷ 7 ∷ []; registered_nodes = [] }

-- Peer 7, which the arguments allow, is registered and then not any more.
abbrev history : List (Selected quiet_swarm sample_kademlia sample_allow_list)
history =
    nodes_read (ok (7 ∷ 8 ∷ []))
    ∷ swarm_event
    ∷ nodes_read (err "down")
    ∷ nodes_read (ok (8 ∷ []))
    ∷ []

turned_away :
    standing_after quiet_swarm sample_kademlia sample_allow_list 7 guest history ≡ stranger
unfolding standing_after member
turned_away = refl

history-HasStanding_example :
    HasStanding quiet_swarm sample_kademlia sample_allow_list
      (run quiet_swarm sample_kademlia sample_allow_list true started history)
      7
      (standing_after quiet_swarm sample_kademlia sample_allow_list 7
        (if invited quiet_swarm sample_kademlia sample_allow_list 1 boot_nodes (7 ∷ []) 7
          then guest
          else stranger)
        history)
unfolding start_bootnode put keep member
history-HasStanding_example =
    history-HasStanding quiet_swarm sample_kademlia sample_allow_list true tt [] [] 1 boot_nodes
      (7 ∷ []) started 7 history refl refl
