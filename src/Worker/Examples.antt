-- ===== src/Worker/Examples.antt =====
-- transport/src/actors/worker.rs: each theorem at an input.
use subsquid_network.Base.{◌≡◌, ◌≢◌, refl, some, none, String, [], ◌∷◌, lookup, eq_of_string}
use subsquid_network.Messages.{Query, QueryResult}
use subsquid_network.Signatures.{verify_signature, query_signed}
use subsquid_network.Signatures.Laws.{query_signed-IsLawful}
use subsquid_network.Signatures.Sample.{sample_query}
use subsquid_network.Worker.{on_query, send_query_result}
use subsquid_network.Worker.Sample.{parts, worker}
use subsquid_network.Worker.Queries.{send_query_result-on_query, send_query_result-same_id}

abbrev answer : QueryResult
answer = record { query_id = "q1"; result = none }

send_query_result-on_query_example :
    let s = send_query_result parts (on_query parts worker 7 sample_query (some 31)).1 answer in
    (s.query_server ≡ (31, answer) ∷ [])
    × (send_query_result parts s answer ≡ s)
    × ((other : String)
        → "q1" ≢ other
        → lookup other s.query_response_channels ≡ lookup other worker.query_response_channels)
unfolding verify_signature query_signed
send_query_result-on_query_example =
    send_query_result-on_query parts (query_signed-IsLawful _) worker 7 sample_query 31 answer refl
      refl

-- The same query from another client.
abbrev other_query : Query
other_query = record sample_query { signature = 8 ∷ 1 ∷ [] }

send_query_result-same_id_example :
    let first = (on_query parts worker 7 sample_query (some 31)).1 in
    let s = send_query_result parts (on_query parts first 8 other_query (some 32)).1 answer in
    (s.query_server ≡ (32, answer) ∷ []) × (send_query_result parts s answer ≡ s)
unfolding verify_signature query_signed
send_query_result-same_id_example =
    send_query_result-same_id parts (query_signed-IsLawful _) worker 7 8 sample_query other_query 31
      32 answer refl refl refl refl
