-- ===== src/Answering.antt =====
-- transport/src/actors/gateway.rs and worker.rs: a query on its way from a gateway to a worker and back.
-- Both encode queries by the same function, that of prost.
mod Examples
use subsquid_network.Base.{
  ℕ, ◌<◌, ◌≡◌, refl, sym, ap, ◌∙◌, true, Option, none, some, String, List, lookup, length,
  eq_of_nat, ◌==◌, ==_refl, if◌then◌else◌,
}
use subsquid_network.Messages.{PeerId, Query, QueryResult, GatewayLogMsg}
use subsquid_network.Signatures.{Identity, sign, query_signed}
use subsquid_network.Signatures.Laws.{query_signed-IsLawful, verify_signature-sign}
use subsquid_network.Timeouts.{Timeouts}
use subsquid_network.Addresses.{Lru}
use subsquid_network.RequestClient.{RequestId, Requests, response}
use subsquid_network.RequestServer.{Server, try_send_response}
use subsquid_network.Pubsub.{Gossipsub}
use subsquid_network.BaseBehaviour.{Kademlia}
use subsquid_network.BaseBehaviour.Topics.{Codecs}
use subsquid_network.Gateway
use subsquid_network.Gateway.Answers.{Sent, send_query-Sent, known_response}
use subsquid_network.Worker
use subsquid_network.Worker.Queries.{on_query-valid, send_query_result-on_query}

-- The parts of both that are not in the repository.
pub record Parts : Type 1 where
  pub k : Kademlia
  pub t : Timeouts
  pub l : Lru
  pub id : Identity
  pub g : Gossipsub
  pub codecs : Codecs
  pub encode : Query → List ℕ
  pub query_requests : Requests Query
  pub log_requests : Requests GatewayLogMsg
  pub pongs : Server ℕ
  pub results : Server QueryResult

module _ (p : Parts) where
  abbrev pub gateway_parts : Gateway.Parts
  gateway_parts = record {
    k = p.k;
    t = p.t;
    l = p.l;
    id = p.id;
    queries = query_signed p.encode;
    query_requests = p.query_requests;
    log_requests = p.log_requests;
  }

  abbrev pub worker_parts : Worker.Parts
  worker_parts = record {
    g = p.g;
    id = p.id;
    codecs = p.codecs;
    queries = query_signed p.encode;
    pongs = p.pongs;
    results = p.results;
  }

  abbrev pub signed_by : Gateway.GatewayBehaviour gateway_parts → Query → Query
  signed_by s query = sign p.id (query_signed p.encode) s.keypair query

  sign_keeps_id :
      (s : Gateway.GatewayBehaviour gateway_parts) (query : Query)
      → (signed_by s query).query_id ≡ query.query_id
  unfolding sign query_signed
  sign_keeps_id s query = refl

  -- A query with an ID that a gateway sends while it has room is given, signed, to the request-response
  -- behaviour for that worker, once, and kept under the ID that this gives. A worker that gets it from the gateway passes it on; the result that the worker's user gives
  -- for that ID goes to the channel that the query came on; and when it comes as the response to that
  -- request, the gateway passes it on to its user.
  pub send_query-on_query :
      (s : Gateway.GatewayBehaviour gateway_parts) (w : Worker.WorkerBehaviour worker_parts)
      (worker_id : PeerId) (query : Query) (channel : p.results.Channel) (result : QueryResult)
      → query.query_id ≡ some result.query_id
      → length s.query.original_requests < s.query.max_buffered
      → let s' = Gateway.send_query gateway_parts s worker_id query in
        let gateway_id = p.id.to_peer_id s.keypair in
        let taken = Worker.on_query worker_parts w gateway_id (signed_by s query) (some channel) in
        (request : RequestId) × (p.query_requests.send_request s.query.inner worker_id
            (signed_by s query)
          ≡ (s'.query.inner, request))
        × (lookup request s'.query.original_requests ≡ some (signed_by s query))
        × (taken.0 ≡ some (Worker.query gateway_id (signed_by s query)))
        × ((Worker.send_query_result worker_parts taken.1 result).query_server
            ≡ (try_send_response p.results w.query_server channel result).0)
        × ((Gateway.on_query_event gateway_parts s' (response worker_id request result)).0
            ≡ some (Gateway.query_result worker_id result))
  send_query-on_query s w worker_id query channel result named room =
      let gateway_id = p.id.to_peer_id s.keypair in
      let law = query_signed-IsLawful p.encode in
      let sent = send_query-Sent gateway_parts s worker_id query result.query_id named room in
      let valid = verify_signature-sign p.id (query_signed p.encode) law s.keypair query in
      let signed_named = sign_keeps_id s query ∙ named in
      (
        sent.request,
        sent.sends,
        sent.given,
        (on_query-valid worker_parts law w gateway_id (signed_by s query) (some channel)).1
            (valid, (result.query_id, signed_named)),
        (send_query_result-on_query worker_parts law w gateway_id (signed_by s query) channel result
            valid signed_named).0,
        known_response gateway_parts (Gateway.send_query gateway_parts s worker_id query) worker_id
              sent.request result.query_id result sent.known
            ∙ rw (==_refl result.query_id),
      )
