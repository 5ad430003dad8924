-- ===== src/BaseBehaviour/Delivery.antt =====
-- transport/src/behaviour/base.rs: what is published arrives as it was, and nothing unsigned does.
pub mod Published
use subsquid_network.Base.{
  ℕ, ◌≡◌, refl, sym, ap, ◌∙◌, Bool, true, false, Option, none, some, List, [], ◌∷◌, ◌++◌, map,
  if◌then◌else◌, length, leb, keep, eq_of_string, ◌==◌, ==_cases, Option-cases, Bool-cases, inl,
  inr, arith, All,
}
use subsquid_network.Messages.{PeerId, Bytes, Ping, QueryExecuted, logs_from_queries}
use subsquid_network.Protocol.{ping_topic, worker_logs_topic}
use subsquid_network.Signatures.{Identity, sign, verify_signature, ping_signed}
use subsquid_network.Signatures.Laws.{
  verify_signature-sign, verify_signature_unchanged, ping_signed-IsLawful,
}
use subsquid_network.Pubsub.{PubsubMsg}
use subsquid_network.Bundle.Packing.{concat}
use subsquid_network.BaseBehaviour.{
  BaseBehaviourEvent, ping, worker_query_logs, peer_probed, peer_protocols, logs_collected,
}
use subsquid_network.BaseBehaviour.Topics.{
  Codecs, RoundTrips, ping_content, sign_all, worker_logs_contents, decode_ping,
  decode_worker_logs_msg, worker_logs_event, decode_logs_collected, on_pubsub_event,
}

-- The logs in the event that a message leads to.
abbrev pub logs_in : Option BaseBehaviourEvent → List QueryExecuted
logs_in none = []
logs_in (some (ping p msg)) = []
logs_in (some (worker_query_logs p logs)) = logs.queries_executed
logs_in (some (logs_collected p msg)) = []
logs_in (some (peer_probed p reachable)) = []
logs_in (some (peer_protocols p protocols)) = []

module _ (id : Identity) (c : Codecs) where
  ping_verdict :
      (peer : PeerId) (msg : Ping) (valid : Bool)
      → (verify_signature id (ping_signed c.pings.encode_to_vec) peer msg).0 ≡ valid
      → (content : Bytes) → c.pings.decode content ≡ some msg
      → decode_ping id c peer content ≡ (if valid then some (ping peer msg) else none)
  unfolding decode_ping
  ping_verdict peer msg valid v content d =
      rw (d, decode_ping)
        (rw (
          verify_signature_unchanged id (ping_signed c.pings.encode_to_vec)
              (ping_signed-IsLawful c.pings.encode_to_vec) peer msg,
          v,
        ))

  -- A ping that a node publishes reaches every receiver, that has it from that node's peer ID, as
  -- the event of the signed ping, if its encoding decodes.
  pub on_pubsub_event-ping_content :
      (keypair : id.Keypair) (msg : Ping)
      → RoundTrips c.pings (sign id (ping_signed c.pings.encode_to_vec) keypair msg)
      → on_pubsub_event id c (record {
        peer_id = id.to_peer_id keypair;
        topic = ping_topic;
        content = ping_content id c keypair msg;
      })
        ≡ some
            (ping (id.to_peer_id keypair) (sign id (ping_signed c.pings.encode_to_vec) keypair msg))
  unfolding on_pubsub_event ping_content
  on_pubsub_event-ping_content keypair msg encoded =
      let signed = sign id (ping_signed c.pings.encode_to_vec) keypair msg in
      (ping_verdict (id.to_peer_id keypair) signed true
        (verify_signature-sign id (ping_signed c.pings.encode_to_vec)
          (ping_signed-IsLawful c.pings.encode_to_vec) keypair msg)
        (c.pings.encode_to_vec signed) encoded)

  -- What it takes for a message to be passed on as a ping.
  pub record IsSignedPing (msg : PubsubMsg) (peer : PeerId) (p : Ping) : Type 0 where
    pub on_topic : msg.topic ≡ ping_topic
    pub from_peer : msg.peer_id ≡ peer
    pub encoded : c.pings.decode msg.content ≡ some p
    pub valid : (verify_signature id (ping_signed c.pings.encode_to_vec) peer p).0 ≡ true

  -- The branch that the topic selects.
  on_ping_topic :
      (peer : PeerId) (content : Bytes)
      → on_pubsub_event id c (record { peer_id = peer; topic = ping_topic; content = content })
        ≡ decode_ping id c peer content
  unfolding on_pubsub_event
  on_ping_topic peer content = refl

  event_on_other_topic :
      (msg : PubsubMsg) (peer : PeerId) (p : Ping)
      → (msg.topic == ping_topic) ≡ false
      → ¬ (on_pubsub_event id c msg ≡ some (ping peer p))
  unfolding on_pubsub_event decode_worker_logs_msg worker_logs_event decode_logs_collected
  event_on_other_topic msg peer p other = rw other (λ h. ground (arith, h))

  undecoded_ping :
      (from peer : PeerId) (p : Ping) (content : Bytes)
      → c.pings.decode content ≡ none
      → ¬ (decode_ping id c from content ≡ some (ping peer p))
  unfolding decode_ping
  undecoded_ping from peer p content e = rw (e, decode_ping) (λ h. ground (arith, h))

  decoded_ping :
      (from peer : PeerId) (p : Ping) (content : Bytes)
      → decode_ping id c from content ≡ some (ping peer p)
      → (from ≡ peer)
        × (c.pings.decode content ≡ some p)
        × ((verify_signature id (ping_signed c.pings.encode_to_vec) peer p).0 ≡ true)
  decoded_ping from peer p content h = elim (Option-cases (c.pings.decode content)) [
    | inl e ↦ absurd (undecoded_ping from peer p content e h)
    | inr (msg, e) ↦
        elim (Bool-cases (verify_signature id (ping_signed c.pings.encode_to_vec) from msg).0) [
          | inl valid ↦
              let ran = sym (ping_verdict from msg true valid content e) ∙ h in
              ground (arith, ran, e, valid)
          | inr bad ↦ absurd (ground (arith, h, ping_verdict from msg false bad content e))
        ]
  ]

  -- A message is passed on as a ping of a peer only if it is on the topic of pings, comes from that
  -- peer, and holds that ping with a valid signature of the peer.
  pub on_pubsub_event-IsSignedPing :
      (msg : PubsubMsg) (peer : PeerId) (p : Ping)
      → on_pubsub_event id c msg ≡ some (ping peer p)
      → IsSignedPing msg peer p
  unfolding on_pubsub_event
  on_pubsub_event-IsSignedPing msg peer p h = elim (==_cases msg.topic ping_topic) [
    | inr (other, ne) ↦ absurd (event_on_other_topic msg peer p other h)
    | inl (same, e) ↦
        let (from_peer, encoded, valid) =
          decoded_ping msg.peer_id peer p msg.content (ground (arith, h, same)) in
        record { on_topic = e; from_peer = from_peer; encoded = encoded; valid = valid }
  ]

  on_logs_topic :
      (peer : PeerId) (content : Bytes)
      → on_pubsub_event id c
          (record { peer_id = peer; topic = worker_logs_topic; content = content })
        ≡ decode_worker_logs_msg id c peer content
  unfolding on_pubsub_event
  on_logs_topic peer content = refl

  -- What a published bundle becomes.
  bundle_event :
      (peer : PeerId) (bundle : List QueryExecuted)
      → RoundTrips c.worker_logs (logs_from_queries bundle)
      → logs_in (
          on_pubsub_event id c (record {
            peer_id = peer;
            topic = worker_logs_topic;
            content = c.worker_logs.encode_to_vec (logs_from_queries bundle);
          }))
        ≡ bundle
  unfolding decode_worker_logs_msg worker_logs_event logs_from_queries
  bundle_event peer bundle encoded =
      rw (on_logs_topic peer (c.worker_logs.encode_to_vec (logs_from_queries bundle)))
        (rw (encoded, decode_worker_logs_msg))

  abbrev pub received : PeerId → List Bytes → List QueryExecuted
  received peer [] = []
  received peer (content ∷ contents) =
      logs_in (
        on_pubsub_event id c
          (record { peer_id = peer; topic = worker_logs_topic; content = content }))
      ++ received peer contents

  pub received-bundles :
      (peer : PeerId) (bundles : List (List QueryExecuted))
      → All (λ bundle. RoundTrips c.worker_logs (logs_from_queries bundle)) bundles
      → received peer
          (map (λ bundle. c.worker_logs.encode_to_vec (logs_from_queries bundle)) bundles)
        ≡ concat bundles
  received-bundles peer [] encoded = refl
  received-bundles peer (bundle ∷ bundles) encoded =
      rw (bundle_event peer bundle encoded.0)
        (ap (λ rest. bundle ++ rest) (received-bundles peer bundles encoded.1))
