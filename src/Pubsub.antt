-- ===== src/Pubsub.antt =====
-- transport/src/behaviour/pubsub.rs: topics over gossipsub, with a window on the sequence numbers
-- of each peer. The gossipsub behaviour of libp2p is a parameter; the clock is an argument.
pub mod Validation
pub mod History
pub mod Subscription
pub mod Sample
mod Examples
use subsquid_network.Base.{
  ℕ, ◌+◌, ◌-◌, ◌*◌, ◌%◌, ◌^◌, ◌≡◌, Bool, true, false, Option, none, some, String, List, [], ◌∷◌,
  ltb, leb, if◌then◌else◌, Result, ok, err, or_else, lookup, insert, has_key, eq_of_nat,
  eq_of_string,
}
use subsquid_network.Messages.{PeerId, Bytes}

abbrev pub TopicHash : Type 0
TopicHash = String

-- Nanoseconds.
abbrev pub subscription_timeout : ℕ
subscription_timeout = 60 * 10 ^ 9

pub data PublishError : Type 0 where
  insufficient_peers message_too_large other : PublishError

pub data MessageAcceptance : Type 0 where
  accept reject : MessageAcceptance

-- What the code calls of gossipsub. `publish` gives the error, if any.
pub record Gossipsub : Type 1 where
  pub Inner : Type 0
  pub hash : String → TopicHash
  pub subscribe : Inner → String → Inner × Bool
  pub publish : Inner → TopicHash → Bytes → Inner × Option PublishError
  pub report : Inner → String → PeerId → MessageAcceptance → Inner

pub record TopicState : Type 0 where
  pub name : String
  pub sequence_numbers : List (PeerId × ℕ)
  pub keep_last : ℕ
  pub subscribed_at : ℕ

abbrev pub Topics : Type 0
Topics = List (TopicHash × TopicState)

pub record PubsubMsg : Type 0 where
  pub peer_id : PeerId
  pub topic : String
  pub content : Bytes

-- `gossipsub::Message`
pub record Message : Type 0 where
  pub source : Option PeerId
  pub content : Bytes
  pub sequence_number : Option ℕ
  pub topic : TopicHash

pub data Rejection : Type 0 where
  anonymous_message unknown_topic no_sequence_number invalid_sequence_number old_message : Rejection

-- The `match` on the sequence number, at the peer's last number: a refusal, or the new last one.
-- The sum is a u64 sum.
pub check_sequence : ℕ → ℕ → ℕ → Option ℕ → Result Rejection ℕ
check_sequence now keep_last last_seq_no none = err no_sequence_number
check_sequence now keep_last last_seq_no (some seq_no) =
    if ltb now seq_no
    then err invalid_sequence_number
    else if leb ((seq_no + keep_last) % 2 ^ 64) last_seq_no
    then err old_message
    else if ltb last_seq_no seq_no
    then ok seq_no
    else ok last_seq_no

-- The state of a peer's topic once its last number is known.
pub set_last : Topics → TopicHash → TopicState → PeerId → ℕ → Topics
set_last topics hash t peer_id last =
    insert hash (record t { sequence_numbers = insert peer_id last t.sequence_numbers }) topics

-- `entry(peer_id).or_default()` keeps a number for the peer, also when the message is refused.
pub check_topic : ℕ → Topics → TopicState → PeerId → Message → Result Rejection PubsubMsg × Topics
unfolding check_sequence set_last
check_topic now topics t peer_id msg =
    let last = or_else (lookup peer_id t.sequence_numbers) 0 in
    elim (check_sequence now t.keep_last last msg.sequence_number) [
      | err e ↦ (err e, set_last topics msg.topic t peer_id last)
      | ok new ↦ (
        ok (record { peer_id = peer_id; topic = t.name; content = msg.content }),
        set_last topics msg.topic t peer_id new,
      )
    ]

-- `validate_gossipsub_msg`, at the time `now`.
pub validate_gossipsub_msg : ℕ → Topics → Message → Result Rejection PubsubMsg × Topics
unfolding check_topic
validate_gossipsub_msg now topics msg = elim msg.source [
  | none ↦ (err anonymous_message, topics)
  | some peer_id ↦ elim (lookup msg.topic topics) [
    | none ↦ (err unknown_topic, topics)
    | some t ↦ check_topic now topics t peer_id msg
  ]
]

module _ (g : Gossipsub) where
  pub record PubsubBehaviour : Type 0 where
    pub inner : g.Inner
    pub topics : Topics

  pub data Event : Type 0 where
    message : (propagation_source : PeerId) (message_id : String) → Message → Event
    other_event : Event

  pub new_topic : ℕ → String → ℕ → TopicState
  new_topic now name keep_last = record {
    name = name;
    sequence_numbers = [];
    keep_last = keep_last;
    subscribed_at = now;
  }

  unfoldable pub subscribe : ℕ → PubsubBehaviour → String → ℕ → PubsubBehaviour
  unfolding new_topic
  subscribe now b topic_name keep_last =
      let topic_hash = g.hash topic_name in
      if has_key topic_hash b.topics
      then b
      else (let (inner', subscribed) = g.subscribe b.inner topic_name in
          if subscribed
          then record {
            inner = inner';
            topics = insert topic_hash (new_topic now topic_name keep_last) b.topics;
          }
          else record b { inner = inner' })

  -- What the code logs of a publication.
  pub data Published : Type 0 where
    not_subscribed waiting_for_peers failed done : Published

  pub publish_log : ℕ → TopicState → Option PublishError → Published
  publish_log now topic none = done
  publish_log now topic (some insufficient_peers) =
      if leb (now - topic.subscribed_at) subscription_timeout then waiting_for_peers else failed
  publish_log now topic (some message_too_large) = failed
  publish_log now topic (some other) = failed

  unfoldable pub publish : ℕ → PubsubBehaviour → String → Bytes → PubsubBehaviour × Published
  unfolding publish_log
  publish now b topic_name msg =
      let topic_hash = g.hash topic_name in
      elim (lookup topic_hash b.topics) [
        | none ↦ (b, not_subscribed)
        | some topic ↦
            let (inner', e) = g.publish b.inner topic_hash msg in
            (record b { inner = inner' }, publish_log now topic e)
      ]

  -- The verdict goes to gossipsub, and a valid message to the swarm.
  pub settle :
      PubsubBehaviour
      → PeerId
      → String
      → Result Rejection PubsubMsg × Topics
      → Option PubsubMsg × PubsubBehaviour
  settle b source id (ok msg, topics) =
      (some msg, record { inner = g.report b.inner id source accept; topics = topics })
  settle b source id (err e, topics) =
      (none, record { inner = g.report b.inner id source reject; topics = topics })

  unfoldable pub on_inner_event : ℕ → PubsubBehaviour → Event → Option PubsubMsg × PubsubBehaviour
  unfolding settle
  on_inner_event now b (message source id msg) =
      settle b source id (validate_gossipsub_msg now b.topics msg)
  on_inner_event now b other_event = (none, b)
