-- ===== src/Gateway/Examples.antt =====
-- transport/src/actors/gateway.rs: each theorem at an input.
use subsquid_network.Base.{ℕ, ◌≡◌, ◌↔◌, refl, some, none, lookup, eq_of_nat, arith}
use subsquid_network.Messages.{QueryResult, Outcome, new_query_result}
use subsquid_network.Signatures.Sample.{sample_query}
use subsquid_network.Signatures.{sign}
use subsquid_network.RequestClient.{response, timeout}
use subsquid_network.Gateway.{query_result, on_query_event, send_query}
use subsquid_network.Gateway.Sample.{parts, gateway}
use subsquid_network.Gateway.Answers.{send_query-answered}

send_query-answered_example :
    let s = send_query parts gateway 6 sample_query in
    (request : ℕ) × (parts.query_requests.send_request gateway.query.inner 6
        (sign parts.id parts.queries gateway.keypair sample_query)
      ≡ (s.query.inner, request))
    × (lookup request s.query.original_requests
        ≡ some (sign parts.id parts.queries gateway.keypair sample_query))
    × ((result : QueryResult)
        → ((on_query_event parts s (response 6 request result)).0 ≡ some (query_result 6 result))
          ↔ ("q1" ≡ result.query_id))
    × ((on_query_event parts s (timeout 6 request)).0
        ≡ some (query_result 6 (new_query_result "q1" Outcome.timeout)))
send_query-answered_example =
    send_query-answered parts gateway 6 sample_query "q1" refl (omega arith)

abbrev answer : QueryResult
answer = record { query_id = "q0"; result = none }
