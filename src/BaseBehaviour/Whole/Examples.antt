-- ===== src/BaseBehaviour/Whole/Examples.antt =====
-- transport/src/behaviour/base.rs: a history at an input.
use subsquid_network.Base.{true, none, some, List, [], ◌∷◌, ok, err}
use subsquid_network.Messages.{PeerId}
use subsquid_network.Signatures.Sample.{sample_identity}
use subsquid_network.Timeouts.Sample.{sample_timeouts}
use subsquid_network.Addresses.Sample.{sample_lru}
use subsquid_network.Addresses.{quic_v1}
use subsquid_network.Cli.{BootNode}
use subsquid_network.BaseBehaviour.{dialer}
use subsquid_network.BaseBehaviour.Sample.{sample_kademlia, sample_allow_list}
use subsquid_network.BaseBehaviour.TopicSample.{sample_codecs}
use subsquid_network.BaseBehaviour.Whole.{
  Parts, Whole, connection_established, autonat, new_base, poll, default_base_config,
}
use subsquid_network.BaseBehaviour.Whole.Registered.{
  Call, swarm, inner, polled, run, IsUpdate, poll-IsUpdate,
}

abbrev parts : Parts
parts = record {
  k = sample_kademlia;
  t = sample_timeouts;
  l = sample_lru;
  a = sample_allow_list;
  id = sample_identity;
  codecs = sample_codecs;
  Autonat = List PeerId;
  add_server = λ servers peer_id addr. peer_id ∷ servers;
}

abbrev boot_nodes : List BootNode
boot_nodes = record { peer_id = 9; address = quic_v1 ∷ [] } ∷ []

abbrev history : List Call
history =
    swarm (connection_established 4 dialer)
    ∷ polled (ok (1 ∷ 2 ∷ []) ∷ []) none
    ∷ inner autonat
    ∷ polled [] (some 3)
    ∷ []

abbrev start : Whole parts
start = run parts true (new_base parts default_base_config [] [] [] boot_nodes) history

poll-IsUpdate_example :
    IsUpdate parts true
      (poll parts start (err "down" ∷ []) none).1.nodes
      (2 ∷ 3 ∷ [])
      (poll parts start (err "down" ∷ ok (2 ∷ 3 ∷ []) ∷ []) none).1.nodes
      1
poll-IsUpdate_example =
    poll-IsUpdate parts true default_base_config [] [] [] boot_nodes history (err "down" ∷ []) none
      (2 ∷ 3 ∷ []) 1
