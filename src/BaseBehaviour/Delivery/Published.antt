-- ===== src/BaseBehaviour/Delivery/Published.antt =====
-- transport/src/behaviour/base.rs: which query logs arrive of those that a node publishes.
use mathlib.Core.List.{append_assoc, append-nil}
use subsquid_network.Base.{
  ℕ, ◌≡◌, refl, sym, ap, ◌∙◌, Bool, true, false, some, String, List, [], ◌∷◌, ◌++◌, map, length,
  leb, keep, lookup, eq_of_string, Bool-cases, inl, inr, All,
}
use subsquid_network.Messages.{PeerId, Bytes, QueryExecuted, logs_from_queries}
use subsquid_network.Protocol.{worker_logs_topic}
use subsquid_network.Signatures.{Identity}
use subsquid_network.Pubsub.{Gossipsub, TopicHash, TopicState, PubsubBehaviour, publish}
use subsquid_network.Bundle.{bundle_messages}
use subsquid_network.Bundle.Packing.{concat, concat-bundle_messages}
use subsquid_network.BaseBehaviour.Topics.{
  Codecs, RoundTrips, sign_all, worker_logs_contents, publish_each, publish_worker_logs,
}
use subsquid_network.BaseBehaviour.Delivery.{received, received-bundles}

-- What a gossipsub that has peers for its topics sends: a message that is within `max_transmit_size`,
-- with all that gossipsub adds to it, and no other.
pub record Transmits (g : Gossipsub) : Type 0 where
  pub sent : g.Inner → List (TopicHash × Bytes)
  pub fits : TopicHash → Bytes → Bool
  pub sends :
      (inner : g.Inner) (topic : TopicHash) (msg : Bytes)
      → fits topic msg ≡ true
      → sent (g.publish inner topic msg).0 ≡ sent inner ++ (topic, msg) ∷ []
  pub refuses :
      (inner : g.Inner) (topic : TopicHash) (msg : Bytes)
      → fits topic msg ≡ false
      → sent (g.publish inner topic msg).0 ≡ sent inner

keep-map {ℓ κ} :
    {A : Type ℓ} {B : Type κ} (p : B → Bool) (f : A → B) (xs : List A)
    → keep p (map f xs) ≡ map f (keep (λ x. p (f x)) xs)
unfolding keep
keep-map p f [] = refl
keep-map p f (x ∷ xs) = elim (Bool-cases (p (f x))) [
  | inl here ↦ rw here (ap (λ rest. f x ∷ rest) (keep-map p f xs))
  | inr away ↦ rw away (keep-map p f xs)
]

All-keep {ℓ κ} :
    {A : Type ℓ} (P : A → Type κ) (p : A → Bool) (xs : List A) → All P xs → All P (keep p xs)
unfolding keep
All-keep P p [] h = h
All-keep P p (x ∷ xs) h = elim (Bool-cases (p x)) [
  | inl here ↦ rw here (h.0, All-keep P p xs h.1)
  | inr away ↦ rw away (All-keep P p xs h.1)
]

module _ (g : Gossipsub) (tr : Transmits g) where
  publish_known :
      (now : ℕ) (b : PubsubBehaviour g) (topic : String) (state : TopicState) (msg : Bytes)
      → lookup (g.hash topic) b.topics ≡ some state
      → (publish g now b topic msg).0
        ≡ record b { inner = (g.publish b.inner (g.hash topic) msg).0 }
  unfolding publish
  publish_known now b topic state msg known = rw (known, publish)

  publish_each-sent :
      (now : ℕ) (b : PubsubBehaviour g) (topic : String) (state : TopicState) (msgs : List Bytes)
      → lookup (g.hash topic) b.topics ≡ some state
      → tr.sent (publish_each g now b topic msgs).inner
        ≡ tr.sent b.inner ++ map (λ msg. (g.hash topic, msg)) (keep (tr.fits (g.hash topic)) msgs)
  unfolding publish_each keep
  publish_each-sent now b topic state [] known = sym (append-nil (tr.sent b.inner))
  publish_each-sent now b topic state (msg ∷ msgs) known =
      let b' : PubsubBehaviour g = record b { inner = (g.publish b.inner (g.hash topic) msg).0 } in
      let rest = publish_each-sent now b' topic state msgs known in
      ap (λ b. tr.sent (publish_each g now b topic msgs).inner)
        (publish_known now b topic state msg known)
      ∙ rest
      ∙ elim (Bool-cases (tr.fits (g.hash topic) msg)) [
        | inl fits ↦
            rw (tr.sends b.inner (g.hash topic) msg fits, fits)
              (append_assoc (tr.sent b.inner) ((g.hash topic, msg) ∷ [])
                (map (λ msg. (g.hash topic, msg)) (keep (tr.fits (g.hash topic)) msgs)))
        | inr long ↦ rw (tr.refuses b.inner (g.hash topic) msg long, long)
      ]

module _ (id : Identity) (c : Codecs) (g : Gossipsub) (tr : Transmits g) where
  abbrev pub encode_bundle : List QueryExecuted → Bytes
  encode_bundle bundle = c.worker_logs.encode_to_vec (logs_from_queries bundle)

  abbrev pub signed_bundles : id.Keypair → ℕ → List QueryExecuted → List (List QueryExecuted)
  signed_bundles keypair size_limit logs =
      bundle_messages (λ log. length (c.executed.encode_to_vec log)) (sign_all id c keypair logs)
        size_limit

  -- A node that is subscribed to the logs of workers publishes its query logs over a gossipsub that has
  -- peers, and the encodings of its bundles decode. From what is sent, a receiver gets back the signed
  -- logs of the bundles that gossipsub finds small enough, once each and in their order, and no other
  -- log. If all bundles are, it gets every signed log whose encoding is within the size limit.
  pub received-publish_worker_logs :
      (keypair : id.Keypair) (peer : PeerId) (size_limit : ℕ) (logs : List QueryExecuted) (now : ℕ)
      (b : PubsubBehaviour g) (state : TopicState)
      → lookup (g.hash worker_logs_topic) b.topics ≡ some state
      → All
          (λ bundle. RoundTrips c.worker_logs (logs_from_queries bundle))
          (signed_bundles keypair size_limit logs)
      → let after = publish_worker_logs id c g now b keypair size_limit logs in
        let topic = g.hash worker_logs_topic in
        let bundles = signed_bundles keypair size_limit logs in
        let small = keep (λ bundle. tr.fits topic (encode_bundle bundle)) bundles in
        (contents : List Bytes) × (tr.sent after.inner
          ≡ tr.sent b.inner ++ map (λ content. (topic, content)) contents)
        × (received id c peer contents ≡ concat small)
        × (small ≡ bundles
            → received id c peer contents
              ≡ keep
                  (λ log. leb (length (c.executed.encode_to_vec log)) size_limit)
                  (sign_all id c keypair logs))
  unfolding publish_worker_logs worker_logs_contents
  received-publish_worker_logs keypair peer size_limit logs now b state known encoded =
      let topic = g.hash worker_logs_topic in
      let bundles = signed_bundles keypair size_limit logs in
      let small = keep (λ bundle. tr.fits topic (encode_bundle bundle)) bundles in
      let arrived = received-bundles id c peer small (
        All-keep (λ bundle. RoundTrips c.worker_logs (logs_from_queries bundle))
          (λ bundle. tr.fits topic (encode_bundle bundle)) bundles encoded) in
      (
        map encode_bundle small,
        publish_each-sent g tr now b worker_logs_topic state
              (worker_logs_contents id c keypair size_limit logs) known
            ∙ ap (λ contents. tr.sent b.inner ++ map (λ content. (topic, content)) contents)
                (keep-map (tr.fits topic) encode_bundle bundles),
        arrived,
        λ all.
            arrived
            ∙ ap concat all
            ∙ concat-bundle_messages (λ log. length (c.executed.encode_to_vec log))
                (sign_all id c keypair logs) size_limit,
      )
