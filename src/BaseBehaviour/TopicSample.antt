-- ===== src/BaseBehaviour/TopicSample.antt =====
-- Codecs for the examples, which know one ping and one bundle of logs.
use subsquid_network.Base.{none, some, [], ◌∷◌}
use subsquid_network.Messages.{Ping, QueryExecuted, WorkerLogsMsg, query_logs}
use subsquid_network.BaseBehaviour.Topics.{Codecs}
use subsquid_network.Signatures.Sample.{sample_log}

-- As the key pair 4 signs it.
abbrev pub signed_ping : Ping
signed_ping = record {
  worker_id = some "aaaa";
  version = none;
  stored_bytes = none;
  stored_ranges = [];
  signature = 4 ∷ 9 ∷ [];
}

abbrev pub bare_ping : Ping
bare_ping = record signed_ping { signature = [] }

-- As the key pair 3 signs it.
abbrev pub signed_log : QueryExecuted
signed_log = record sample_log { signature = 3 ∷ 5 ∷ 5 ∷ [] }

abbrev pub one_bundle : WorkerLogsMsg
one_bundle = record { msg = some (query_logs (record { queries_executed = signed_log ∷ [] })) }

abbrev pub sample_codecs : Codecs
sample_codecs = record {
  pings = record { encode_to_vec = λ msg. 9 ∷ []; decode = λ content. some signed_ping };
  executed = record { encode_to_vec = λ msg. 5 ∷ 5 ∷ []; decode = λ content. none };
  worker_logs = record { encode_to_vec = λ msg. 6 ∷ []; decode = λ content. some one_bundle };
  collected = record { encode_to_vec = λ msg. 8 ∷ []; decode = λ content. none };
}
