-- ===== src/Pubsub/Subscription.antt =====
-- transport/src/behaviour/pubsub.rs: subscribing, publishing, and the verdict given to gossipsub.
use subsquid_network.Base.{
  ℕ, ◌≡◌, ap, true, none, some, String, Result, err, lookup, eq_of_nat, eq_of_string,
  lookup-insert_self, arith, Option-cases, inl, inr, ◌⊎◌,
}
use subsquid_network.Messages.{PeerId, Bytes}
use subsquid_network.Pubsub.{
  Gossipsub, PubsubBehaviour, PubsubMsg, Message, message, subscribe, publish, on_inner_event,
  validate_gossipsub_msg, not_subscribed, accept, reject, Rejection, settle,
}
use subsquid_network.Pubsub.Validation.{Accepted, accepts, validate_cases}

module _ (g : Gossipsub) where
  -- A second subscription to a topic changes nothing at all: the sequence numbers that were seen
  -- and the window stay, whatever window it asks for.
  pub subscribe_twice :
      (now later : ℕ) (b : PubsubBehaviour g) (topic_name : String) (keep_last keep_last' : ℕ)
      → (g.subscribe b.inner topic_name).1 ≡ true
      → let b' = subscribe g now b topic_name keep_last in
        subscribe g later b' topic_name keep_last' ≡ b'
  unfolding subscribe
  subscribe_twice now later b topic_name keep_last keep_last' done =
      elim (Option-cases (lookup (g.hash topic_name) b.topics)) [
        | inl new ↦ rw (new, done) (rw lookup-insert_self)
        | inr (t, known) ↦ rw known (rw known)
      ]

  -- Nothing is handed to gossipsub for a topic that was not subscribed.
  pub publish_unsubscribed :
      (now : ℕ) (b : PubsubBehaviour g) (topic_name : String) (msg : Bytes)
      → lookup (g.hash topic_name) b.topics ≡ none
      → publish g now b topic_name msg ≡ (b, not_subscribed)
  unfolding publish
  publish_unsubscribed now b topic_name msg h = rw (h, publish)

  event_settled :
      (now : ℕ) (b : PubsubBehaviour g) (source : PeerId) (id : String) (msg : Message)
      (r : Result Rejection PubsubMsg)
      → (validate_gossipsub_msg now b.topics msg).0 ≡ r
      → on_inner_event g now b (message source id msg)
        ≡ settle g b source id (r, (validate_gossipsub_msg now b.topics msg).1)
  unfolding on_inner_event
  event_settled now b source id msg r e =
      ap (λ r. settle g b source id (r, (validate_gossipsub_msg now b.topics msg).1)) e

  -- Each message gets one verdict. If it is from a known peer on a subscribed topic, and its number
  -- is not ahead of the clock and within the window, it goes to the swarm with the sender and the
  -- topic's name, and is reported as accepted; if not, nothing goes to the swarm and it is
  -- reported as rejected.
  pub on_inner_event-verdict :
      (now : ℕ) (b : PubsubBehaviour g) (source : PeerId) (id : String) (msg : Message)
      → let out = on_inner_event g now b (message source id msg) in
        ((a : Accepted now b.topics msg) × (out.0
            ≡ some (record { peer_id = a.peer; topic = a.state.name; content = msg.content }))
          × (out.1.inner ≡ g.report b.inner id source accept))
        ⊎ ((¬ Accepted now b.topics msg)
            × (out.0 ≡ none)
            × (out.1.inner ≡ g.report b.inner id source reject))
  unfolding settle
  on_inner_event-verdict now b source id msg = elim (validate_cases now b.topics msg) [
    | inl r ↦
        let ran = event_settled now b source id msg (err r.why) r.answer in
        inr (
          λ a. ground (arith, r.answer, (accepts now b.topics msg a).answer),
          ap (λ o. o.0) ran,
          ap (λ o. o.1.inner) ran,
        )
    | inr (a, r) ↦
        let ran = event_settled now b source id msg _ r.answer in
        inl (a, ap (λ o. o.0) ran, ap (λ o. o.1.inner) ran)
  ]
