-- ===== src/Worker.antt =====
-- transport/src/actors/worker.rs: the worker, which answers queries and publishes pings and logs.
-- The parts below it are parameters.
pub mod Queries
pub mod Sample
mod Examples
use subsquid_network.Base.{
  ℕ, ◌≡◌, Bool, true, false, Option, none, some, String, List, [], ◌∷◌, if◌then◌else◌, lookup,
  insert, remove, eq_of_nat, eq_of_string, ◌==◌,
}
use subsquid_network.Messages.{PeerId, Ping, Pong, Query, QueryResult, QueryExecuted, LogsCollected}
use subsquid_network.Signatures.{Identity, SignedMessage, verify_signature}
use subsquid_network.RequestServer.{Server, try_send_response}
use subsquid_network.Pubsub.{Gossipsub, PubsubBehaviour}
use subsquid_network.BaseBehaviour.{
  BaseBehaviourEvent, ping, worker_query_logs, logs_collected, peer_probed, peer_protocols,
}
use subsquid_network.BaseBehaviour.Topics.{Codecs, publish_ping, publish_worker_logs}

pub data WorkerEvent : Type 0 where
  pong : Pong → WorkerEvent
  query : PeerId → Query → WorkerEvent
  collected : (last_seq_no : Option ℕ) → WorkerEvent

pub record Parts : Type 1 where
  pub g : Gossipsub
  pub id : Identity
  pub codecs : Codecs
  pub queries : SignedMessage Query
  pub pongs : Server ℕ
  pub results : Server QueryResult

-- `InnerBehaviourEvent`
pub data WorkerInnerEvent (p : Parts) : Type 0 where
  base_event : BaseBehaviourEvent → WorkerInnerEvent p
  pong_event : PeerId → Pong → p.pongs.Channel → WorkerInnerEvent p
  query_event : PeerId → Query → p.results.Channel → WorkerInnerEvent p

module _ (p : Parts) where
  pub record WorkerBehaviour : Type 0 where
    pub pubsub : PubsubBehaviour p.g
    pub pong_server : p.pongs.Inner
    pub query_server : p.results.Inner
    pub keypair : p.id.Keypair
    pub max_pubsub_msg_size : ℕ
    pub local_peer_id : String
    pub scheduler_id : PeerId
    pub logs_collector_id : PeerId
    pub query_response_channels : List (String × p.results.Channel)

  unfoldable pub on_logs_collected : WorkerBehaviour → PeerId → LogsCollected → Option WorkerEvent
  on_logs_collected s peer_id msg =
      if peer_id == s.logs_collector_id
      then some (collected (lookup s.local_peer_id msg.sequence_numbers))
      else none

  unfoldable pub on_base_event : WorkerBehaviour → BaseBehaviourEvent → Option WorkerEvent
  unfolding on_logs_collected
  on_base_event s (logs_collected peer_id msg) = on_logs_collected s peer_id msg
  on_base_event s (ping peer_id msg) = none
  on_base_event s (worker_query_logs peer_id logs) = none
  on_base_event s (peer_probed peer_id reachable) = none
  on_base_event s (peer_protocols peer_id protocols) = none

  abbrev pub keep_channel : WorkerBehaviour → String → Option p.results.Channel → WorkerBehaviour
  keep_channel s query_id none = s
  keep_channel s query_id (some resp_chan) = record s {
    query_response_channels = insert query_id resp_chan s.query_response_channels;
  }

  -- What follows a valid signature.
  unfoldable pub on_verified_query :
      WorkerBehaviour
      → PeerId
      → Query
      → Option String
      → Option p.results.Channel
      → Option WorkerEvent × WorkerBehaviour
  on_verified_query s peer_id msg none resp_chan = (none, s)
  on_verified_query s peer_id msg (some query_id) resp_chan =
      (some (query peer_id msg), keep_channel s query_id resp_chan)

  unfoldable pub on_query :
      WorkerBehaviour
      → PeerId
      → Query
      → Option p.results.Channel
      → Option WorkerEvent × WorkerBehaviour
  unfolding on_verified_query
  on_query s peer_id msg resp_chan =
      let (valid, msg') = verify_signature p.id p.queries peer_id msg in
      if valid then on_verified_query s peer_id msg' msg'.query_id resp_chan else (none, s)

  unfoldable pub on_pong_event :
      WorkerBehaviour → PeerId → Pong → p.pongs.Channel → Option WorkerEvent × WorkerBehaviour
  on_pong_event s peer_id request channel =
      if peer_id == s.scheduler_id
      then (
        some (pong request),
        record s { pong_server = (try_send_response p.pongs s.pong_server channel 1).0 },
      )
      else (none, s)

  unfoldable pub on_inner_event :
      WorkerBehaviour → WorkerInnerEvent p → Option WorkerEvent × WorkerBehaviour
  unfolding on_base_event on_pong_event on_query
  on_inner_event s (base_event ev) = (on_base_event s ev, s)
  on_inner_event s (pong_event peer_id request channel) = on_pong_event s peer_id request channel
  on_inner_event s (query_event peer_id request channel) = on_query s peer_id request (some channel)

  unfoldable pub send_ping : ℕ → WorkerBehaviour → Ping → WorkerBehaviour
  unfolding publish_ping
  send_ping now s msg = record s {
    pubsub = publish_ping p.id p.codecs p.g now s.pubsub s.keypair msg;
  }

  -- The server has the result, or it is logged that there is no channel.
  unfoldable pub send_query_result : WorkerBehaviour → QueryResult → WorkerBehaviour
  send_query_result s result = elim (lookup result.query_id s.query_response_channels) [
    | none ↦ s
    | some resp_chan ↦ record s {
      query_response_channels = remove result.query_id s.query_response_channels;
      query_server = (try_send_response p.results s.query_server resp_chan result).0;
    }
  ]

  unfoldable pub send_logs : ℕ → WorkerBehaviour → List QueryExecuted → WorkerBehaviour
  unfolding publish_worker_logs
  send_logs now s logs = record s {
    pubsub =
        publish_worker_logs p.id p.codecs p.g now s.pubsub s.keypair s.max_pubsub_msg_size logs;
  }
