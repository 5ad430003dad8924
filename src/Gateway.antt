-- ===== src/Gateway.antt =====
-- transport/src/actors/gateway.rs: the gateway, which sends queries to workers and logs to the logs
-- collector. The parts that the behaviours below it drive are parameters.
pub mod Answers
pub mod Sample
mod Examples
use subsquid_network.Base.{
  ℕ, ◌≡◌, Bool, true, false, Option, none, some, String, List, [], ◌∷◌, if◌then◌else◌, lookup,
  insert, remove, eq_of_nat, eq_of_string, ◌==◌,
}
use subsquid_network.Messages.{
  PeerId, Ping, Query, QueryResult, Outcome, new_query_result, GatewayLogMsg,
}
use subsquid_network.Signatures.{Identity, SignedMessage, sign}
use subsquid_network.Timeouts.{Timeouts}
use subsquid_network.Addresses.{Lru}
use subsquid_network.RequestClient.{
  RequestId, Requests, ClientBehaviour, ClientEvent, response, peer_unknown, timeout,
  try_send_request,
}
use subsquid_network.BaseBehaviour.{
  Kademlia, BaseBehaviour, BaseBehaviourEvent, ping, worker_query_logs, logs_collected, peer_probed,
  peer_protocols, find_and_dial,
}

pub data GatewayEvent : Type 0 where
  pinged : PeerId → Ping → GatewayEvent
  query_result : PeerId → QueryResult → GatewayEvent

-- `InnerBehaviourEvent`
pub data GatewayInnerEvent : Type 0 where
  base_event : BaseBehaviourEvent → GatewayInnerEvent
  query_event : ClientEvent QueryResult → GatewayInnerEvent
  logs_event : ClientEvent ℕ → GatewayInnerEvent

-- The parameters of a gateway.
pub record Parts : Type 1 where
  pub k : Kademlia
  pub t : Timeouts
  pub l : Lru
  pub id : Identity
  pub queries : SignedMessage Query
  pub query_requests : Requests Query
  pub log_requests : Requests GatewayLogMsg

module _ (p : Parts) where
  pub record GatewayBehaviour : Type 0 where
    pub base : BaseBehaviour p.k p.t p.l
    pub query : ClientBehaviour p.query_requests p.t
    pub logs : ClientBehaviour p.log_requests p.t
    pub logs_collector_id : PeerId
    pub query_ids : List (RequestId × String)
    pub keypair : p.id.Keypair

  -- The worker ID that the ping names must be the sender's.
  unfoldable pub names_sender : PeerId → Option String → Bool
  names_sender peer_id none = false
  names_sender peer_id (some worker_id) = elim (p.id.parse worker_id) [
    | none ↦ false
    | some named ↦ named == peer_id
  ]

  unfoldable pub on_ping : PeerId → Ping → Option GatewayEvent
  unfolding names_sender
  on_ping peer_id msg =
      if names_sender peer_id msg.worker_id then some (pinged peer_id msg) else none

  unfoldable pub on_base_event :
      GatewayBehaviour → BaseBehaviourEvent → Option GatewayEvent × GatewayBehaviour
  unfolding on_ping
  on_base_event s (ping peer_id msg) = (on_ping peer_id msg, s)
  on_base_event s (worker_query_logs peer_id query_logs) = (none, s)
  on_base_event s (logs_collected peer_id collected) = (none, s)
  on_base_event s (peer_probed peer_id reachable) = (none, s)
  on_base_event s (peer_protocols peer_id protocols) = (none, s)

  abbrev pub forget_query : GatewayBehaviour → RequestId → GatewayBehaviour
  forget_query s req_id = record s { query_ids = remove req_id s.query_ids }

  -- The query ID of the result must be that of the request.
  unfoldable pub on_query_result :
      GatewayBehaviour
      → PeerId
      → QueryResult
      → Option RequestId
      → Option GatewayEvent × GatewayBehaviour
  on_query_result s peer_id result none = (some (query_result peer_id result), s)
  on_query_result s peer_id result (some req_id) = elim (lookup req_id s.query_ids) [
    | none ↦ (none, forget_query s req_id)
    | some query_id ↦
        if query_id == result.query_id
        then (some (query_result peer_id result), forget_query s req_id)
        else (none, forget_query s req_id)
  ]

  unfoldable pub on_query_timeout :
      GatewayBehaviour → RequestId → PeerId → Option GatewayEvent × GatewayBehaviour
  on_query_timeout s req_id peer_id = elim (lookup req_id s.query_ids) [
    | none ↦ (none, forget_query s req_id)
    | some query_id ↦ (
      some (query_result peer_id (new_query_result query_id Outcome.timeout)),
      forget_query s req_id,
    )
  ]

  unfoldable pub on_query_event :
      GatewayBehaviour → ClientEvent QueryResult → Option GatewayEvent × GatewayBehaviour
  unfolding on_query_result on_query_timeout
  on_query_event s (response peer_id req_id result) = on_query_result s peer_id result (some req_id)
  on_query_event s (timeout peer_id req_id) = on_query_timeout s req_id peer_id
  on_query_event s (peer_unknown peer_id) =
      (none, record s { base = find_and_dial p.k p.t p.l s.base peer_id })

  unfoldable pub on_logs_event :
      GatewayBehaviour → ClientEvent ℕ → Option GatewayEvent × GatewayBehaviour
  on_logs_event s (peer_unknown peer_id) =
      (none, record s { base = find_and_dial p.k p.t p.l s.base peer_id })
  on_logs_event s (timeout peer_id req_id) = (none, s)
  on_logs_event s (response peer_id req_id ack) = (none, s)

  unfoldable pub on_inner_event :
      GatewayBehaviour → GatewayInnerEvent → Option GatewayEvent × GatewayBehaviour
  unfolding on_base_event on_query_event on_logs_event
  on_inner_event s (base_event ev) = on_base_event s ev
  on_inner_event s (query_event ev) = on_query_event s ev
  on_inner_event s (logs_event ev) = on_logs_event s ev

  -- What follows the attempt to send.
  unfoldable pub query_sent :
      GatewayBehaviour
      → String
      → Option RequestId × ClientBehaviour p.query_requests p.t
      → GatewayBehaviour
  query_sent s query_id (none, query) = record s { query = query }
  query_sent s query_id (some req_id, query) = record s {
    query = query;
    query_ids = insert req_id query_id s.query_ids;
  }

  unfoldable pub send_query : GatewayBehaviour → PeerId → Query → GatewayBehaviour
  unfolding query_sent
  send_query s peer_id query = elim query.query_id [
    | none ↦ s
    | some query_id ↦ query_sent s query_id (
        try_send_request p.query_requests p.t s.query peer_id (sign p.id p.queries s.keypair query))
  ]

  unfoldable pub send_log_msg : GatewayBehaviour → GatewayLogMsg → GatewayBehaviour
  send_log_msg s msg = record s {
    logs = (try_send_request p.log_requests p.t s.logs s.logs_collector_id msg).1;
  }
