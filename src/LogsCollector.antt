-- ===== src/LogsCollector.antt =====
-- transport/src/actors/logs_collector.rs: the logs collector, which checks and passes on the logs of
-- workers and gateways, and publishes how far it got. The parts below it are parameters.
pub mod Checking
mod Examples
use subsquid_network.Base.{
  ℕ, ◌≡◌, Bool, true, false, ◌&&◌, Option, none, some, String, List, [], ◌∷◌, if◌then◌else◌,
  eq_of_nat, eq_of_string, ◌==◌,
}
use subsquid_network.Messages.{
  PeerId, Query, QueryExecuted, QueryLogs, QuerySubmitted, QueryFinished, GatewayLog, GatewayLogMsg,
  LogsCollected, query_submitted, query_finished,
}
use subsquid_network.Signatures.{Identity, SignedMessage, verify_executed}
use subsquid_network.Pubsub.{Gossipsub, PubsubBehaviour}
use subsquid_network.RequestServer.{Server, try_send_response}
use subsquid_network.BaseBehaviour.{
  BaseBehaviourEvent, ping, worker_query_logs, logs_collected, peer_probed, peer_protocols,
}
use subsquid_network.BaseBehaviour.Topics.{
  Codecs, publish_logs_collected, subscribe_worker_logs, subscribe_logs_collected,
}

pub data LogsCollectorEvent : Type 0 where
  worker_logs : PeerId → List QueryExecuted → LogsCollectorEvent
  submitted : QuerySubmitted → LogsCollectorEvent
  finished : QueryFinished → LogsCollectorEvent

pub record Parts : Type 1 where
  pub g : Gossipsub
  pub id : Identity
  pub codecs : Codecs
  pub queries : SignedMessage Query
  pub executed : SignedMessage QueryExecuted
  pub acks : Server ℕ

-- `InnerBehaviourEvent`
pub data CollectorInnerEvent (p : Parts) : Type 0 where
  base_event : BaseBehaviourEvent → CollectorInnerEvent p
  gateway_log_request : PeerId → GatewayLogMsg → p.acks.Channel → CollectorInnerEvent p

module _ (p : Parts) where
  pub record LogsCollectorBehaviour : Type 0 where
    pub pubsub : PubsubBehaviour p.g
    pub gateway_logs : p.acks.Inner

  unfoldable pub new_logs_collector :
      ℕ → PubsubBehaviour p.g → p.acks.Inner → LogsCollectorBehaviour
  unfolding subscribe_worker_logs subscribe_logs_collected
  new_logs_collector now pubsub gateway_logs = record {
    pubsub = subscribe_logs_collected p.g now (subscribe_worker_logs p.g now pubsub);
    gateway_logs = gateway_logs;
  }

  -- The `filter_map`: the log names the sender as the worker, and its signatures are valid.
  unfoldable pub checked_logs : PeerId → List QueryExecuted → List QueryExecuted
  checked_logs peer_id [] = []
  checked_logs peer_id (log ∷ logs) =
      let (valid, log') = verify_executed p.id p.queries p.executed peer_id log in
      if (log.worker_id == p.id.to_base58 peer_id) && valid
      then log' ∷ checked_logs peer_id logs
      else checked_logs peer_id logs

  abbrev pub logs_event : PeerId → List QueryExecuted → Option LogsCollectorEvent
  logs_event peer_id [] = none
  logs_event peer_id (log ∷ logs) = some (worker_logs peer_id (log ∷ logs))

  unfoldable pub on_worker_logs : PeerId → QueryLogs → Option LogsCollectorEvent
  unfolding checked_logs
  on_worker_logs peer_id logs = logs_event peer_id (checked_logs peer_id logs.queries_executed)

  unfoldable pub on_gateway_log : PeerId → Option GatewayLog → Option LogsCollectorEvent
  on_gateway_log peer_id none = none
  on_gateway_log peer_id (some (query_finished log)) =
      if log.client_id == p.id.to_base58 peer_id then some (finished log) else none
  on_gateway_log peer_id (some (query_submitted log)) =
      if log.client_id == p.id.to_base58 peer_id then some (submitted log) else none

  unfoldable pub publish_collected :
      ℕ → LogsCollectorBehaviour → LogsCollected → LogsCollectorBehaviour
  unfolding publish_logs_collected
  publish_collected now s collected = record s {
    pubsub = publish_logs_collected p.id p.codecs p.g now s.pubsub collected;
  }

  -- A gateway gets its acknowledgement whatever its log holds.
  unfoldable pub on_inner_event :
      LogsCollectorBehaviour
      → CollectorInnerEvent p
      → Option LogsCollectorEvent × LogsCollectorBehaviour
  unfolding on_worker_logs on_gateway_log
  on_inner_event s (base_event (worker_query_logs peer_id logs)) = (on_worker_logs peer_id logs, s)
  on_inner_event s (base_event (ping peer_id msg)) = (none, s)
  on_inner_event s (base_event (logs_collected peer_id msg)) = (none, s)
  on_inner_event s (base_event (peer_probed peer_id reachable)) = (none, s)
  on_inner_event s (base_event (peer_protocols peer_id protocols)) = (none, s)
  on_inner_event s (gateway_log_request peer_id request channel) = (
    on_gateway_log peer_id request.msg,
    record s { gateway_logs = (try_send_response p.acks s.gateway_logs channel 1).0 },
  )
