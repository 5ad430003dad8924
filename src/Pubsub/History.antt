-- ===== src/Pubsub/History.antt =====
-- transport/src/behaviour/pubsub.rs: the numbers that are accepted over a history of messages.
use subsquid_network.Base.{
  ℕ, ◌+◌, ◌^◌, ◌<◌, ◌≡◌, sym, ap, subst, ◌∙◌, max, Option, none, some, List, [], ◌∷◌, ◌++◌,
  if◌then◌else◌, Result, ok, err, or_else, lookup, eq_of_nat, eq_of_string, ◌==◌, ==_cases,
  lookup-insert, arith, Option-cases, inl, inr,
}
use mathlib.Core.Option.{some-injective}
use subsquid_network.Messages.{PeerId}
use subsquid_network.Pubsub.{
  TopicHash, TopicState, Topics, PubsubMsg, Message, Rejection, check_sequence, set_last,
  check_topic, validate_gossipsub_msg,
}
use subsquid_network.Pubsub.Validation.{last_seq, Accepted, validate_cases, Result-cases}

-- The window of a topic, which no message changes.
unfoldable pub window : Option TopicState → Option ℕ
window none = none
window (some t) = some t.keep_last

abbrev pub keep_of : Topics → TopicHash → Option ℕ
keep_of topics h = window (lookup h topics)

keep_of-set_last :
    (topics : Topics) (hash h : TopicHash) (t : TopicState) (peer : PeerId) (last : ℕ)
    → lookup hash topics ≡ some t
    → keep_of (set_last topics hash t peer last) h ≡ keep_of topics h
unfolding set_last window
keep_of-set_last topics hash h t peer last held = elim (==_cases hash h) [
  | inl (same, e) ↦ ap window (lookup-insert hash h _ topics) ∙ rw (same, ← e, held)
  | inr (other, ne) ↦ ap window (lookup-insert hash h _ topics) ∙ rw other
]

keep_of-validate :
    (now : ℕ) (topics : Topics) (msg : Message) (h : TopicHash)
    → keep_of (validate_gossipsub_msg now topics msg).1 h ≡ keep_of topics h
unfolding validate_gossipsub_msg check_topic
keep_of-validate now topics msg h = elim (Option-cases msg.source) [
  | inl e ↦ rw (e, validate_gossipsub_msg)
  | inr (peer, e) ↦ elim (Option-cases (lookup msg.topic topics)) [
    | inl f ↦ rw (e, f, validate_gossipsub_msg)
    | inr (t, f) ↦
        elim (Result-cases (
          check_sequence now t.keep_last (or_else (lookup peer t.sequence_numbers) 0)
            msg.sequence_number)) [
              | inl (why, c) ↦
                  rw (e, f, c, validate_gossipsub_msg, check_topic)
                    (keep_of-set_last topics msg.topic h t peer _ f)
              | inr (new, c) ↦
                  rw (e, f, c, validate_gossipsub_msg, check_topic)
                    (keep_of-set_last topics msg.topic h t peer new f)
            ]
  ]
]

-- The number that a message adds to what was accepted from `peer` on the topic `h`.
abbrev pub contribution : TopicHash → PeerId → Message → Result Rejection PubsubMsg → List ℕ
contribution h peer msg (err e) = []
contribution h peer msg (ok m) =
    if msg.topic == h
    then (if m.peer_id == peer then or_else msg.sequence_number 0 ∷ [] else [])
    else []

-- The messages arrive one after the other, each at its time.
unfoldable pub accepted_numbers : TopicHash → PeerId → Topics → List (ℕ × Message) → List ℕ
accepted_numbers h peer topics [] = []
accepted_numbers h peer topics ((now, msg) ∷ history) =
    contribution h peer msg (validate_gossipsub_msg now topics msg).0
    ++ accepted_numbers h peer (validate_gossipsub_msg now topics msg).1 history

-- Each number is less than `keep` behind the largest before it.
abbrev pub InWindow : ℕ → ℕ → List ℕ → Type 0
InWindow keep largest [] = Unit {0}
InWindow keep largest (s ∷ numbers) = (largest < s + keep) × InWindow keep (max largest s) numbers

-- The clock leaves room for the window below the largest u64.
abbrev pub InTime : ℕ → List (ℕ × Message) → Type 0
InTime keep [] = Unit {0}
InTime keep ((now, msg) ∷ history) = (now + keep < 2 ^ 64) × InTime keep history

keep_of_known :
    (topics : Topics) (h : TopicHash) (t : TopicState) (keep : ℕ)
    → lookup h topics ≡ some t
    → keep_of topics h ≡ some keep
    → t.keep_last ≡ keep
unfolding window
keep_of_known topics h t keep e f = some-injective _ _ (sym (ap window e) ∙ f)

in_window :
    (now : ℕ) (topics : Topics) (msg : Message) (a : Accepted now topics msg) (h : TopicHash)
    (peer : PeerId) (keep : ℕ)
    → msg.topic ≡ h
    → a.peer ≡ peer
    → keep_of topics h ≡ some keep
    → now + keep < 2 ^ 64
    → last_seq topics h peer < a.seq_no + keep
in_window now topics msg a h peer keep e f k room =
    let same_topic = ap (λ t. last_seq topics t a.peer) e ∙ ap (last_seq topics h) f in
    let known = subst (λ t. lookup t topics ≡ some a.state) e a.known in
    omega (
      arith,
      same_topic,
      a.in_window,
      a.not_ahead,
      keep_of_known topics h a.state keep known k,
      room,
    )

-- On a topic with the window `keep`, whatever messages arrive from whom, every number that is
-- accepted from a peer is less than `keep` behind the largest accepted from it before: with 1,
-- the numbers of a peer never decrease.
pub accepted_numbers-InWindow :
    (h : TopicHash) (peer : PeerId) (keep : ℕ) (topics : Topics) (history : List (ℕ × Message))
    → keep_of topics h ≡ some keep
    → InTime keep history
    → InWindow keep (last_seq topics h peer) (accepted_numbers h peer topics history)
unfolding accepted_numbers
accepted_numbers-InWindow h peer keep topics [] k t = tt
accepted_numbers-InWindow h peer keep topics ((now, msg) ∷ history) k t =
    let topics' = (validate_gossipsub_msg now topics msg).1 in
    let rest =
      accepted_numbers-InWindow h peer keep topics' history (keep_of-validate now topics msg h ∙ k)
        t.1 in
    let later = accepted_numbers h peer topics' history in
    elim (validate_cases now topics msg) [
      | inl r ↦ rw (r.answer, ← r.unchanged h peer) rest
      | inr (a, r) ↦ rw r.answer (elim (==_cases msg.topic h) [
        | inr (other, ne) ↦
            rw other (subst (λ l. InWindow keep l later) (r.raised h peer ∙ rw other) rest)
        | inl (same, e) ↦ elim (==_cases a.peer peer) [
          | inr (other, ne) ↦
              rw (same, other)
                (subst (λ l. InWindow keep l later) (r.raised h peer ∙ rw (same, other)) rest)
          | inl (here, f) ↦
              let number = ap (λ (o : Option ℕ). or_else o 0) a.numbered in
              let reached =
                r.raised h peer
                ∙ (rw (same, here))
                ∙ ap (max (last_seq topics h peer)) (sym number) in
              rw (same, here)
                (
                  omega (arith, number, in_window now topics msg a h peer keep e f k t.0),
                  subst (λ l. InWindow keep l later) reached rest,
                )
        ]
      ])
    ]
