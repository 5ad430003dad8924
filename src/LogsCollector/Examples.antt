-- ===== src/LogsCollector/Examples.antt =====
-- transport/src/actors/logs_collector.rs: a theorem at an input.
use subsquid_network.Base.{ℕ, ◌≡◌, refl, some, none, List, [], ◌∷◌, keep}
use subsquid_network.Messages.{QueryLogs}
use subsquid_network.Signatures.{
  verify_signature, verify_query, verify_executed, query_signed, executed_signed,
}
use subsquid_network.Signatures.Laws.{query_signed-IsLawful, executed_signed-IsLawful}
use subsquid_network.Signatures.Sample.{sample_identity, sample_queries, sample_logs, sample_log}
use subsquid_network.Pubsub.Sample.{sample_gossipsub}
use subsquid_network.RequestServer.{Server}
use subsquid_network.BaseBehaviour.TopicSample.{sample_codecs}
use subsquid_network.LogsCollector.{Parts, worker_logs, on_worker_logs}
use subsquid_network.LogsCollector.Checking.{on_worker_logs-keep}

abbrev acks : Server ℕ
acks = record {
  Inner = List (ℕ × ℕ);
  Channel = ℕ;
  send_response = λ sent channel ack. ((channel, ack) ∷ sent, none);
}

abbrev parts : Parts
parts = record {
  g = sample_gossipsub;
  id = sample_identity;
  codecs = sample_codecs;
  queries = sample_queries;
  executed = sample_logs;
  acks = acks;
}

program : Unit {0}
unfolding keep verify_signature verify_query verify_executed query_signed executed_signed
program = tt

-- The second log names another worker.
abbrev arrived : QueryLogs
arrived = record { queries_executed = sample_log ∷ record sample_log { worker_id = "aaaa" } ∷ [] }

on_worker_logs-keep_example :
    on_worker_logs parts 3 arrived ≡ some (worker_logs 3 (sample_log ∷ []))
unfolding program
on_worker_logs-keep_example =
    (on_worker_logs-keep parts (query_signed-IsLawful _) (executed_signed-IsLawful _) 3 arrived).1
      sample_log [] refl
