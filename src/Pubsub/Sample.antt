-- ===== src/Pubsub/Sample.antt =====
-- A gossipsub for the examples: it keeps what it was told, newest first.
use subsquid_network.Base.{String, true, none, List, [], ◌∷◌}
use subsquid_network.Messages.{PeerId, Bytes}
use subsquid_network.Pubsub.{Gossipsub, PubsubBehaviour, MessageAcceptance}

pub data Told : Type 0 where
  subscribed : String → Told
  published : String → Bytes → Told
  reported : String → PeerId → MessageAcceptance → Told

abbrev pub sample_gossipsub : Gossipsub
sample_gossipsub = record {
  Inner = List Told;
  hash = λ name. name;
  subscribe = λ told name. (subscribed name ∷ told, true);
  publish = λ told topic msg. (published topic msg ∷ told, none);
  report = λ told id source verdict. reported id source verdict ∷ told;
}

abbrev pub fresh : PubsubBehaviour sample_gossipsub
fresh = record { inner = []; topics = [] }
