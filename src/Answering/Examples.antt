-- ===== src/Answering/Examples.antt =====
-- transport/src/actors/gateway.rs and worker.rs: a query and its result at an input.
use subsquid_network.Base.{ℕ, ◌≡◌, refl, none, some, [], ◌∷◌, lookup, eq_of_nat, arith}
use subsquid_network.Messages.{QueryResult}
use subsquid_network.Signatures.Sample.{encode_query, sample_query, sample_identity}
use subsquid_network.Timeouts.Sample.{sample_timeouts}
use subsquid_network.Addresses.Sample.{sample_lru}
use subsquid_network.Pubsub.Sample.{sample_gossipsub}
use subsquid_network.BaseBehaviour.Sample.{sample_kademlia}
use subsquid_network.BaseBehaviour.TopicSample.{sample_codecs}
use subsquid_network.RequestClient.{RequestId, response}
use subsquid_network.Gateway
use subsquid_network.Gateway.Sample.{counting, gateway}
use subsquid_network.Worker
use subsquid_network.Worker.Sample.{recording, worker}
use subsquid_network.Answering.{Parts, gateway_parts, worker_parts, signed_by, send_query-on_query}

abbrev parts : Parts
parts = record {
  k = sample_kademlia;
  t = sample_timeouts;
  l = sample_lru;
  id = sample_identity;
  g = sample_gossipsub;
  codecs = sample_codecs;
  encode = encode_query;
  query_requests = counting _;
  log_requests = counting _;
  pongs = recording ℕ;
  results = recording QueryResult;
}

abbrev answer : QueryResult
answer = record { query_id = "q1"; result = none }

send_query-on_query_example :
    let s' = Gateway.send_query (gateway_parts parts) gateway 3 sample_query in
    let taken =
      Worker.on_query
        (worker_parts parts)
        worker
        4
        (signed_by parts gateway sample_query)
        (some 31) in
    (request : RequestId) × (parts.query_requests.send_request gateway.query.inner 3
        (signed_by parts gateway sample_query)
      ≡ (s'.query.inner, request))
    × (lookup request s'.query.original_requests ≡ some (signed_by parts gateway sample_query))
    × (taken.0 ≡ some (Worker.query 4 (signed_by parts gateway sample_query)))
    × ((Worker.send_query_result (worker_parts parts) taken.1 answer).query_server
        ≡ (31, answer) ∷ [])
    × ((Gateway.on_query_event (gateway_parts parts) s' (response 3 request answer)).0
        ≡ some (Gateway.query_result 3 answer))
send_query-on_query_example =
    send_query-on_query parts gateway worker 3 sample_query 31 answer refl (omega arith)
