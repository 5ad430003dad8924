-- ===== src/Pubsub/Examples.antt =====
-- transport/src/behaviour/pubsub.rs: a run, and each theorem at an input.
use subsquid_network.Base.{ℕ, ◌≡◌, refl, ◌⊎◌, none, some, List, [], ◌∷◌, lookup, insert, arith}
use subsquid_network.Pubsub.{
  Topics, Message, message, check_sequence, set_last, check_topic, validate_gossipsub_msg,
  subscribe, new_topic, publish, publish_log, on_inner_event, settle, not_subscribed, accept,
  reject,
}
use subsquid_network.Pubsub.Sample.{sample_gossipsub, fresh, reported}
use subsquid_network.Pubsub.Validation.{Accepted, last_seq, last_of}
use subsquid_network.Pubsub.History.{InWindow, window, accepted_numbers, accepted_numbers-InWindow}
use subsquid_network.Pubsub.Subscription.{publish_unsubscribed, on_inner_event-verdict}

program : Unit {0}
unfolding check_sequence set_last check_topic validate_gossipsub_msg subscribe publish publish_log
    on_inner_event settle new_topic lookup insert accepted_numbers last_seq last_of window
program = tt

abbrev pings : Topics
pings =
    (
      "pings",
      record { name = "pings"; sequence_numbers = (8, 40) ∷ []; keep_last = 1; subscribed_at = 0 },
    )
    ∷ []

abbrev ping : ℕ → Message
ping n = record { source = some 8; content = 1 ∷ []; sequence_number = some n; topic = "pings" }

-- An old number, a new one, one ahead of the clock, and the last one once more.
abbrev arrivals : List (ℕ × Message)
arrivals = (100, ping 30) ∷ (100, ping 50) ∷ (100, ping 101) ∷ (100, ping 50) ∷ []

accepted_arrivals : accepted_numbers "pings" 8 pings arrivals ≡ 50 ∷ 50 ∷ []
unfolding program
accepted_arrivals = refl

accepted_numbers-InWindow_example :
    InWindow 1 (last_seq pings "pings" 8) (accepted_numbers "pings" 8 pings arrivals)
unfolding program
accepted_numbers-InWindow_example =
    accepted_numbers-InWindow "pings" 8 1 pings arrivals refl (omega arith)

publish_unsubscribed_example :
    publish sample_gossipsub 5 fresh "logs" (1 ∷ []) ≡ (fresh, not_subscribed)
unfolding program
publish_unsubscribed_example = publish_unsubscribed sample_gossipsub 5 fresh "logs" (1 ∷ []) refl

on_inner_event-verdict_example :
    let out = on_inner_event sample_gossipsub 100 fresh (message 4 "id" (ping 50)) in
    ((a : Accepted 100 [] (ping 50)) × (out.0
        ≡ some (record { peer_id = a.peer; topic = a.state.name; content = 1 ∷ [] }))
      × (out.1.inner ≡ reported "id" 4 accept ∷ []))
    ⊎ ((¬ Accepted 100 [] (ping 50)) × (out.0 ≡ none) × (out.1.inner ≡ reported "id" 4 reject ∷ []))
on_inner_event-verdict_example = on_inner_event-verdict sample_gossipsub 100 fresh 4 "id" (ping 50)
