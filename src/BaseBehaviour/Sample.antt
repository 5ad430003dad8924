-- ===== src/BaseBehaviour/Sample.antt =====
-- A Kademlia that remembers what it was asked, and a list of allowed peers, for the examples.
use subsquid_network.Base.{
  List, [], ◌∷◌, length, put, drop, member, member-put, member-drop, eq_of_nat,
}
use subsquid_network.Messages.{PeerId}
use subsquid_network.Timeouts.Sample.{sample_timeouts}
use subsquid_network.Addresses.Sample.{sample_lru}
use subsquid_network.BaseBehaviour.{Kademlia, BaseBehaviour}
use subsquid_network.BaseBehaviour.Nodes.{AllowList}

abbrev pub sample_kademlia : Kademlia
sample_kademlia = record {
  Inner = List PeerId;
  get_closest_peers = λ asked peer_id. (peer_id ∷ asked, length asked);
  add_address = λ asked peer_id addr. asked;
}

abbrev pub sample_allow_list : AllowList
sample_allow_list = record {
  Inner = List PeerId;
  allow_peer = λ peers p. put p peers;
  disallow_peer = λ peers p. drop p peers;
  allowed = λ peers p. member p peers;
  allowed-allow_peer = λ peers p q. member-put p q peers;
  allowed-disallow_peer = λ peers p q. member-drop p q peers;
}

abbrev pub idle : BaseBehaviour sample_kademlia sample_timeouts sample_lru
idle = record {
  kademlia = [];
  address_cache = [];
  ongoing_queries = [];
  outbound_conns = [];
  probe_timeouts = ([], 2);
}
