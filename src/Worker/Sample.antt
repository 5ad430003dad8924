-- ===== src/Worker/Sample.antt =====
-- A worker for the examples.
use subsquid_network.Base.{ℕ, none, List, [], ◌∷◌}
use subsquid_network.Messages.{QueryResult}
use subsquid_network.Signatures.Sample.{sample_identity, sample_queries}
use subsquid_network.Pubsub.Sample.{sample_gossipsub, fresh}
use subsquid_network.BaseBehaviour.TopicSample.{sample_codecs}
use subsquid_network.RequestServer.{Server}
use subsquid_network.Worker.{Parts, WorkerBehaviour}

-- A server that keeps what it was given, newest first, and never refuses.
abbrev pub recording : (R : Type 0) → Server R
recording R = record {
  Inner = List (ℕ × R);
  Channel = ℕ;
  send_response = λ sent channel result. ((channel, result) ∷ sent, none);
}

abbrev pub parts : Parts
parts = record {
  g = sample_gossipsub;
  id = sample_identity;
  codecs = sample_codecs;
  queries = sample_queries;
  pongs = recording ℕ;
  results = recording QueryResult;
}

abbrev pub worker : WorkerBehaviour parts
worker = record {
  pubsub = fresh;
  pong_server = [];
  query_server = [];
  keypair = 3;
  max_pubsub_msg_size = 65536;
  local_peer_id = "aaa";
  scheduler_id = 1;
  logs_collector_id = 2;
  query_response_channels = ("q0", 30) ∷ [];
}
