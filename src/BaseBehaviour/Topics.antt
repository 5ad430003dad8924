-- ===== src/BaseBehaviour/Topics.antt =====
-- transport/src/behaviour/base.rs: what is published, and what comes of the messages that arrive.
-- Gossipsub, the keys and the encoding of messages (prost) are parameters.
use subsquid_network.Base.{
  ℕ, ◌≡◌, Option, none, some, String, List, [], ◌∷◌, map, if◌then◌else◌, length, eq_of_string, ◌==◌,
}
use subsquid_network.Messages.{
  PeerId, Bytes, Ping, QueryExecuted, WorkerLogs, WorkerLogsMsg, LogsCollected, query_logs,
  logs_collected, logs_from_queries, logs_from_collected,
}
use subsquid_network.Protocol.{
  ping_topic, worker_logs_topic, logs_collected_topic, keep_last_worker_logs,
}
use subsquid_network.Signatures.{Identity, sign, verify_signature, ping_signed, executed_signed}
use subsquid_network.Pubsub.{Gossipsub, PubsubBehaviour, PubsubMsg, subscribe, publish}
use subsquid_network.Bundle.{bundle_messages}
use subsquid_network.BaseBehaviour.{BaseBehaviourEvent}

-- A message type's encoding.
pub record Codec (M : Type 0) : Type 0 where
  pub encode_to_vec : M → Bytes
  pub decode : Bytes → Option M

-- What was encoded decodes to itself, as prost says of every message.
abbrev pub RoundTrips : {M : Type 0} → Codec M → M → Type 0
RoundTrips c msg = c.decode (c.encode_to_vec msg) ≡ some msg

pub record Codecs : Type 0 where
  pub pings : Codec Ping
  pub executed : Codec QueryExecuted
  pub worker_logs : Codec WorkerLogsMsg
  pub collected : Codec LogsCollected

module _ (g : Gossipsub) where
  unfoldable pub subscribe_pings : ℕ → PubsubBehaviour g → PubsubBehaviour g
  subscribe_pings now b = subscribe g now b ping_topic 1

  unfoldable pub subscribe_worker_logs : ℕ → PubsubBehaviour g → PubsubBehaviour g
  subscribe_worker_logs now b = subscribe g now b worker_logs_topic keep_last_worker_logs

  unfoldable pub subscribe_logs_collected : ℕ → PubsubBehaviour g → PubsubBehaviour g
  subscribe_logs_collected now b = subscribe g now b logs_collected_topic 1

  -- The loop that publishes each message.
  unfoldable pub publish_each : ℕ → PubsubBehaviour g → String → List Bytes → PubsubBehaviour g
  publish_each now b topic [] = b
  publish_each now b topic (msg ∷ msgs) = publish_each now (publish g now b topic msg).0 topic msgs

module _ (id : Identity) (c : Codecs) where
  -- What `publish_ping` hands to pub-sub.
  unfoldable pub ping_content : id.Keypair → Ping → Bytes
  unfolding sign ping_signed
  ping_content keypair ping =
      let signed = ping_signed c.pings.encode_to_vec in
      c.pings.encode_to_vec (sign id signed keypair ping)

  -- The first loop of `publish_worker_logs`.
  unfoldable pub sign_all : id.Keypair → List QueryExecuted → List QueryExecuted
  unfolding sign executed_signed
  sign_all keypair logs =
      map (λ log. sign id (executed_signed c.executed.encode_to_vec) keypair log) logs

  -- What `publish_worker_logs` hands to pub-sub, in its order.
  unfoldable pub worker_logs_contents : id.Keypair → ℕ → List QueryExecuted → List Bytes
  unfolding sign_all
  worker_logs_contents keypair max_pubsub_msg_size logs =
      map (λ bundle. c.worker_logs.encode_to_vec (logs_from_queries bundle))
        (bundle_messages (λ log. length (c.executed.encode_to_vec log)) (sign_all keypair logs)
          max_pubsub_msg_size)

  unfoldable pub decode_ping : PeerId → Bytes → Option BaseBehaviourEvent
  decode_ping peer_id content = elim (c.pings.decode content) [
    | none ↦ none
    | some msg ↦
        let (valid, ping) = verify_signature id (ping_signed c.pings.encode_to_vec) peer_id msg in
        if valid then some (BaseBehaviourEvent.ping peer_id ping) else none
  ]

  -- The `match` on the decoded message.
  unfoldable pub worker_logs_event : PeerId → Option WorkerLogs → Option BaseBehaviourEvent
  worker_logs_event peer_id none = none
  worker_logs_event peer_id (some (query_logs logs)) =
      some (BaseBehaviourEvent.worker_query_logs peer_id logs)
  worker_logs_event peer_id (some (logs_collected collected)) = none

  unfoldable pub decode_worker_logs_msg : PeerId → Bytes → Option BaseBehaviourEvent
  unfolding worker_logs_event
  decode_worker_logs_msg peer_id content = elim (c.worker_logs.decode content) [
    | none ↦ none
    | some msg ↦ worker_logs_event peer_id msg.msg
  ]

  unfoldable pub decode_logs_collected : PeerId → Bytes → Option BaseBehaviourEvent
  decode_logs_collected peer_id content = elim (c.collected.decode content) [
    | none ↦ none
    | some msg ↦ some (BaseBehaviourEvent.logs_collected peer_id msg)
  ]

  unfoldable pub on_pubsub_event : PubsubMsg → Option BaseBehaviourEvent
  unfolding decode_ping decode_worker_logs_msg decode_logs_collected
  on_pubsub_event msg =
      if msg.topic == ping_topic
      then decode_ping msg.peer_id msg.content
      else if msg.topic == worker_logs_topic
      then decode_worker_logs_msg msg.peer_id msg.content
      else if msg.topic == logs_collected_topic
      then decode_logs_collected msg.peer_id msg.content
      else none

  module _ (g : Gossipsub) where
    unfoldable pub publish_ping : ℕ → PubsubBehaviour g → id.Keypair → Ping → PubsubBehaviour g
    unfolding ping_content
    publish_ping now b keypair ping = (publish g now b ping_topic (ping_content keypair ping)).0

    unfoldable pub publish_worker_logs :
        ℕ → PubsubBehaviour g → id.Keypair → ℕ → List QueryExecuted → PubsubBehaviour g
    unfolding worker_logs_contents
    publish_worker_logs now b keypair max_pubsub_msg_size logs =
        publish_each g now b worker_logs_topic
          (worker_logs_contents keypair max_pubsub_msg_size logs)

    unfoldable pub publish_logs_collected :
        ℕ → PubsubBehaviour g → LogsCollected → PubsubBehaviour g
    publish_logs_collected now b collected =
        let b' = (publish g now b logs_collected_topic (c.collected.encode_to_vec collected)).0 in
        (publish g now b' worker_logs_topic
          (c.worker_logs.encode_to_vec (logs_from_collected collected))).0
