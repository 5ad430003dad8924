-- ===== src/Pubsub/Validation.antt =====
-- transport/src/behaviour/pubsub.rs: when a message is accepted, and what that changes.
use subsquid_network.Base.{
  ℕ, ◌+◌, ◌%◌, ◌^◌, ◌≤◌, ◌<◌, ◌≡◌, refl, ap, ◌∙◌, max, Option, none, some, if◌then◌else◌, Result,
  ok, err, or_else, lookup, eq_of_nat, eq_of_string, ◌==◌, ==_cases, lookup-insert, arith,
  Option-cases, inl, inr, ◌⊎◌,
}
use subsquid_network.Messages.{PeerId}
use subsquid_network.Pubsub.{
  TopicHash, TopicState, Topics, PubsubMsg, Message, Rejection, unknown_topic, anonymous_message,
  check_sequence, set_last, check_topic, validate_gossipsub_msg,
}

-- The last number of a peer in a topic; 0 before its first message.
unfoldable pub last_of : Option TopicState → PeerId → ℕ
last_of none peer_id = 0
last_of (some t) peer_id = or_else (lookup peer_id t.sequence_numbers) 0

unfoldable pub last_seq : Topics → TopicHash → PeerId → ℕ
unfolding last_of
last_seq topics hash peer_id = last_of (lookup hash topics) peer_id

pub last_seq-set_last :
    (topics : Topics) (hash h : TopicHash) (t : TopicState) (peer_id p : PeerId) (last : ℕ)
    → lookup hash topics ≡ some t
    → last_seq (set_last topics hash t peer_id last) h p ≡ (
        if hash == h
        then (if peer_id == p then last else last_seq topics h p)
        else last_seq topics h p)
unfolding last_seq last_of set_last
last_seq-set_last topics hash h t peer_id p last held = elim (==_cases hash h) [
  | inl (same, e) ↦
      ap (λ o. last_of o p) (lookup-insert hash h _ topics)
      ∙ rw (same, ← e, held) (ground (arith, lookup-insert peer_id p last t.sequence_numbers))
  | inr (other, ne) ↦ ap (λ o. last_of o p) (lookup-insert hash h _ topics) ∙ rw other
]

-- The message is from a known peer on a known topic, with a sequence number that is not ahead of
-- the clock and not behind the peer's window.
pub record Accepted (now : ℕ) (topics : Topics) (msg : Message) : Type 0 where
  pub peer : PeerId
  pub state : TopicState
  pub seq_no : ℕ
  pub from_peer : msg.source ≡ some peer
  pub known : lookup msg.topic topics ≡ some state
  pub numbered : msg.sequence_number ≡ some seq_no
  pub not_ahead : seq_no ≤ now
  pub in_window : last_seq topics msg.topic peer < (seq_no + state.keep_last) % 2 ^ 64

check_sequence_parts :
    (now keep_last last : ℕ) (number : Option ℕ) (new : ℕ)
    → check_sequence now keep_last last number ≡ ok new
    → (seq_no : ℕ) × (number ≡ some seq_no)
      × (seq_no ≤ now)
      × (last < (seq_no + keep_last) % 2 ^ 64)
      × (new ≡ max last seq_no)
unfolding check_sequence
check_sequence_parts now keep_last last none new h = ground arith
check_sequence_parts now keep_last last (some seq_no) new h =
    (seq_no, refl, ground arith, ground arith, ground arith)

check_sequence_passes :
    (now keep_last last seq_no : ℕ)
    → seq_no ≤ now
    → last < (seq_no + keep_last) % 2 ^ 64
    → check_sequence now keep_last last (some seq_no) ≡ ok (max last seq_no)
unfolding check_sequence
check_sequence_passes now keep_last last seq_no h k = ground arith

pub Result-cases :
    {E A : Type 0} (r : Result E A) → ((e : E) × (r ≡ err e)) ⊎ ((a : A) × (r ≡ ok a))
Result-cases (err e) = inl (e, refl)
Result-cases (ok a) = inr (a, refl)

module _ (now : ℕ) (topics : Topics) (msg : Message) where
  abbrev outcome : Result Rejection PubsubMsg
  outcome = (validate_gossipsub_msg now topics msg).0

  abbrev after : Topics
  after = (validate_gossipsub_msg now topics msg).1

  anonymous :
      msg.source ≡ none → validate_gossipsub_msg now topics msg ≡ (err anonymous_message, topics)
  unfolding validate_gossipsub_msg
  anonymous h = rw (h, validate_gossipsub_msg)

  module _ (peer : PeerId) (from_peer : msg.source ≡ some peer) where
    unknown :
        lookup msg.topic topics ≡ none
        → validate_gossipsub_msg now topics msg ≡ (err unknown_topic, topics)
    unfolding validate_gossipsub_msg
    unknown h = rw (from_peer, h, validate_gossipsub_msg)

    module _ (t : TopicState) (known : lookup msg.topic topics ≡ some t) where
      abbrev last : ℕ
      last = or_else (lookup peer t.sequence_numbers) 0

      last_lem : last_seq topics msg.topic peer ≡ last
      unfolding last_seq last_of
      last_lem = rw known

      refused :
          (e : Rejection)
          → check_sequence now t.keep_last last msg.sequence_number ≡ err e
          → validate_gossipsub_msg now topics msg ≡ (err e, set_last topics msg.topic t peer last)
      unfolding validate_gossipsub_msg check_topic
      refused e h = rw (from_peer, known, h, validate_gossipsub_msg, check_topic)

      passed :
          (new : ℕ)
          → check_sequence now t.keep_last last msg.sequence_number ≡ ok new
          → validate_gossipsub_msg now topics msg ≡ (
            ok (record { peer_id = peer; topic = t.name; content = msg.content }),
            set_last topics msg.topic t peer new,
          )
      unfolding validate_gossipsub_msg check_topic
      passed new h = rw (from_peer, known, h, validate_gossipsub_msg, check_topic)

-- What a validation does: it refuses and leaves every last number as it was, or it accepts, and
-- the last number of the sender on that topic becomes the larger of the two.
pub record Refuses (now : ℕ) (topics : Topics) (msg : Message) : Type 0 where
  pub why : Rejection
  pub answer : (validate_gossipsub_msg now topics msg).0 ≡ err why
  pub unchanged :
      (h : TopicHash) (p : PeerId)
      → last_seq (validate_gossipsub_msg now topics msg).1 h p ≡ last_seq topics h p

pub record Accepts (now : ℕ) (topics : Topics) (msg : Message) (a : Accepted now topics msg)
    : Type 0 where
  pub answer :
      (validate_gossipsub_msg now topics msg).0
      ≡ ok (record { peer_id = a.peer; topic = a.state.name; content = msg.content })
  pub raised :
      (h : TopicHash) (p : PeerId)
      → last_seq (validate_gossipsub_msg now topics msg).1 h p ≡ (
          if msg.topic == h
          then (if a.peer == p then max (last_seq topics h p) a.seq_no else last_seq topics h p)
          else last_seq topics h p)

-- The two comparisons decide nothing where the new number is the old one.
same_last :
    (topics : Topics) (hash h : TopicHash) (peer p : PeerId) (last : ℕ)
    → last_seq topics hash peer ≡ last
    → (if hash == h then (if peer == p then last else last_seq topics h p) else last_seq topics h p)
      ≡ last_seq topics h p
same_last topics hash h peer p last e = elim (==_cases hash h) [
  | inr (other, _) ↦ rw other
  | inl (same, q) ↦ elim (==_cases peer p) [
    | inr (other, _) ↦ rw (same, other)
    | inl (here, r) ↦ rw (same, here, ← q, ← r, e)
  ]
]

raised_last :
    (topics : Topics) (hash h : TopicHash) (peer p : PeerId) (seq_no : ℕ)
    → (if hash == h
        then (if peer == p then max (last_seq topics hash peer) seq_no else last_seq topics h p)
        else last_seq topics h p)
      ≡ (if hash == h
          then (if peer == p then max (last_seq topics h p) seq_no else last_seq topics h p)
          else last_seq topics h p)
raised_last topics hash h peer p seq_no = elim (==_cases hash h) [
  | inr (other, _) ↦ rw other
  | inl (same, q) ↦ elim (==_cases peer p) [
    | inr (other, _) ↦ rw (same, other)
    | inl (here, r) ↦ rw (same, here, ← q, ← r)
  ]
]

known_refusal :
    (now : ℕ) (topics : Topics) (msg : Message) (peer : PeerId) (t : TopicState) (e : Rejection)
    → msg.source ≡ some peer
    → lookup msg.topic topics ≡ some t
    → check_sequence now t.keep_last
        (or_else (lookup peer t.sequence_numbers) 0)
        msg.sequence_number
      ≡ err e
    → Refuses now topics msg
known_refusal now topics msg peer t e from_peer known bad =
    let ran = refused now topics msg peer from_peer t known e bad in
    let old = or_else (lookup peer t.sequence_numbers) 0 in
    record {
      why = e;
      answer = ap (λ (r : Result Rejection PubsubMsg × Topics). r.0) ran;
      unchanged = λ h p.
          ap (λ (r : Result Rejection PubsubMsg × Topics). last_seq r.1 h p) ran
          ∙ last_seq-set_last topics msg.topic h t peer p old known
          ∙ same_last topics msg.topic h peer p old
              (last_lem now topics msg peer from_peer t known);
    }

-- A message is accepted exactly under the conditions of `Accepted`.
pub accepts :
    (now : ℕ) (topics : Topics) (msg : Message) (a : Accepted now topics msg)
    → Accepts now topics msg a
accepts now topics msg a =
    let old = last_lem now topics msg a.peer a.from_peer a.state a.known in
    let checked =
      ap (check_sequence now a.state.keep_last (or_else (lookup a.peer a.state.sequence_numbers) 0))
        a.numbered
      ∙ check_sequence_passes now a.state.keep_last _ a.seq_no a.not_ahead
          (rw (← old) a.in_window) in
    let ran = passed now topics msg a.peer a.from_peer a.state a.known _ checked in
    record {
      answer = ap (λ (r : Result Rejection PubsubMsg × Topics). r.0) ran;
      raised = λ h p.
          ap (λ (r : Result Rejection PubsubMsg × Topics). last_seq r.1 h p) ran
          ∙ last_seq-set_last topics msg.topic h a.state a.peer p _ a.known
          ∙ rw (← old) (raised_last topics msg.topic h a.peer p a.seq_no);
    }

-- Every validation refuses, or accepts under the conditions of `Accepted`.
pub validate_cases :
    (now : ℕ) (topics : Topics) (msg : Message)
    → Refuses now topics msg ⊎ ((a : Accepted now topics msg) × Accepts now topics msg a)
validate_cases now topics msg = elim (Option-cases msg.source) [
  | inl e ↦ inl (whole_refusal (anonymous now topics msg e))
  | inr (peer, from_peer) ↦ elim (Option-cases (lookup msg.topic topics)) [
    | inl e ↦ inl (whole_refusal (unknown now topics msg peer from_peer e))
    | inr (t, known) ↦
        let old = or_else (lookup peer t.sequence_numbers) 0 in
        elim (Result-cases (check_sequence now t.keep_last old msg.sequence_number)) [
          | inl (e, bad) ↦ inl (known_refusal now topics msg peer t e from_peer known bad)
          | inr (new, good) ↦
              let (seq_no, numbered, not_ahead, in_window, _) =
                check_sequence_parts now t.keep_last old msg.sequence_number new good in
              let a : Accepted now topics msg = record {
                peer = peer;
                state = t;
                seq_no = seq_no;
                from_peer = from_peer;
                known = known;
                numbered = numbered;
                not_ahead = not_ahead;
                in_window = rw (last_lem now topics msg peer from_peer t known) in_window;
              } in
              inr (a, accepts now topics msg a)
        ]
  ]
]
  where
    whole_refusal :
        {e : Rejection}
        → validate_gossipsub_msg now topics msg ≡ (err e, topics)
        → Refuses now topics msg
    whole_refusal {e} ran = record {
      why = e;
      answer = ap (λ (r : Result Rejection PubsubMsg × Topics). r.0) ran;
      unchanged = λ h p. ap (λ (r : Result Rejection PubsubMsg × Topics). last_seq r.1 h p) ran;
    }
