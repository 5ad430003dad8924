-- ===== src/BaseBehaviour/TopicExamples.antt =====
-- transport/src/behaviour/base.rs: the theorems on published messages at an input.
use subsquid_network.Base.{
  ◌≡◌, refl, true, false, none, some, String, List, [], ◌∷◌, ◌++◌, map, if◌then◌else◌, length, leb,
  keep, lookup, eq_of_string,
}
use subsquid_network.Messages.{Bytes, logs_from_queries}
use subsquid_network.Protocol.{ping_topic, worker_logs_topic}
use subsquid_network.Signatures.{sign, verify_signature, ping_signed, executed_signed}
use subsquid_network.Signatures.Sample.{sample_identity, sample_log}
use subsquid_network.Pubsub.{
  Gossipsub, TopicState, PubsubBehaviour, PubsubMsg, message_too_large, publish,
}
use subsquid_network.Bundle.{sized, fill, bundles, bundle_messages}
use subsquid_network.BaseBehaviour.Topics.{
  ping_content, sign_all, worker_logs_contents, decode_ping, decode_worker_logs_msg,
  worker_logs_event, on_pubsub_event, publish_each, publish_worker_logs,
}
use subsquid_network.BaseBehaviour.Delivery.{received, IsSignedPing, on_pubsub_event-IsSignedPing}
use subsquid_network.BaseBehaviour.Delivery.Published.{Transmits, received-publish_worker_logs}
use subsquid_network.BaseBehaviour.TopicSample.{signed_ping, signed_log, sample_codecs}

program : Unit {0}
unfolding sign verify_signature ping_signed executed_signed ping_content sign_all
    worker_logs_contents decode_ping decode_worker_logs_msg worker_logs_event on_pubsub_event
    logs_from_queries keep sized fill bundles bundle_messages lookup publish publish_each
    publish_worker_logs
program = tt

abbrev arrived : PubsubMsg
arrived = record { peer_id = 4; topic = ping_topic; content = 9 ∷ [] }

on_pubsub_event-IsSignedPing_example :
    IsSignedPing sample_identity sample_codecs arrived 4 signed_ping
unfolding program
on_pubsub_event-IsSignedPing_example =
    on_pubsub_event-IsSignedPing sample_identity sample_codecs arrived 4 signed_ping refl

-- A gossipsub that keeps what it sends, messages of a single byte.
abbrev narrow : Gossipsub
narrow = record {
  Inner = List (String × Bytes);
  hash = λ name. name;
  subscribe = λ sent name. (sent, true);
  publish = λ sent topic msg.
      if leb (length msg) 1
      then (sent ++ (topic, msg) ∷ [], none)
      else (sent, some message_too_large);
  report = λ sent id source verdict. sent;
}

narrow_sends :
    (sent : List (String × Bytes)) (topic : String) (msg : Bytes)
    → leb (length msg) 1 ≡ true
    → (narrow.publish sent topic msg).0 ≡ sent ++ (topic, msg) ∷ []
narrow_sends sent topic msg h = rw h

narrow_refuses :
    (sent : List (String × Bytes)) (topic : String) (msg : Bytes)
    → leb (length msg) 1 ≡ false
    → (narrow.publish sent topic msg).0 ≡ sent
narrow_refuses sent topic msg h = rw h

abbrev narrow_transmits : Transmits narrow
narrow_transmits = record {
  sent = λ sent. sent;
  fits = λ topic msg. leb (length msg) 1;
  sends = narrow_sends;
  refuses = narrow_refuses;
}

abbrev logs_state : TopicState
logs_state = record {
  name = worker_logs_topic;
  sequence_numbers = [];
  keep_last = 1;
  subscribed_at = 0;
}

abbrev subscriber : PubsubBehaviour narrow
subscriber = record { inner = []; topics = (worker_logs_topic, logs_state) ∷ [] }

received-publish_worker_logs_example :
    let after =
      publish_worker_logs sample_identity sample_codecs narrow 9 subscriber 3 100
        (sample_log ∷ []) in
    let small = (signed_log ∷ []) ∷ [] in
    (contents : List Bytes) × (after.inner ≡ map (λ content. (worker_logs_topic, content)) contents)
    × (received sample_identity sample_codecs 3 contents ≡ signed_log ∷ [])
    × (small ≡ (signed_log ∷ []) ∷ []
        → received sample_identity sample_codecs 3 contents ≡ signed_log ∷ [])
unfolding program
received-publish_worker_logs_example =
    received-publish_worker_logs sample_identity sample_codecs narrow narrow_transmits 3 3 100
      (sample_log ∷ []) 9 subscriber logs_state refl (refl, tt)
