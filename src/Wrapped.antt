-- ===== src/Wrapped.antt =====
-- transport/src/behaviour/wrapped.rs: a behaviour around another one, with a queue of the events that
-- it makes. The two that it is made of are a parameter.
pub mod Order
mod Examples
use subsquid_network.Base.{ℕ, zero, suc, ◌≡◌, Option, none, some, List, [], ◌∷◌, ◌++◌}

-- What the poll of the inner behaviour gives. An event that is no `GenerateEvent` goes out as it is.
pub data InnerPoll (InnerEvent Event : Type 0) : Type 0 where
  generated : InnerEvent → InnerPoll InnerEvent Event
  passed : Event → InnerPoll InnerEvent Event
  inner_pending : InnerPoll InnerEvent Event

-- `BehaviourWrapper`, with the behaviour that `inner` gives in its state. A poll gives events, or is
-- pending.
pub record BehaviourWrapper : Type 1 where
  pub State : Type 0
  pub Event : Type 0
  pub InnerEvent : Type 0
  pub SwarmEvent : Type 0
  pub inner_on_swarm_event : State → SwarmEvent → State
  pub inner_poll : State → State × InnerPoll InnerEvent Event
  pub on_swarm_event : State → SwarmEvent → State × List Event
  pub on_inner_event : State → InnerEvent → State × List Event
  pub poll : State → State × Option (List Event)

module _ (t : BehaviourWrapper) where
  pub record Wrapped : Type 0 where
    pub wrapper : t.State
    pub pending_events : List t.Event

  -- `From<T>`
  pub wrap : t.State → Wrapped
  wrap wrapper = record { wrapper = wrapper; pending_events = [] }

  unfoldable pub on_swarm_event : Wrapped → t.SwarmEvent → Wrapped
  on_swarm_event s event =
      let (wrapper, events) = t.on_swarm_event (t.inner_on_swarm_event s.wrapper event) event in
      record { wrapper = wrapper; pending_events = s.pending_events ++ events }

  -- How a round of the loop in `poll` ends: with a `return`, or with `continue`.
  pub data Round : Type 0 where
    ready : t.Event → Wrapped → Round
    pending : Wrapped → Round
    continue_with : Wrapped → Round

  unfoldable pub inner_round : List t.Event → t.State × InnerPoll t.InnerEvent t.Event → Round
  inner_round queue (wrapper, generated ev) =
      let (wrapper', events) = t.on_inner_event wrapper ev in
      continue_with (record { wrapper = wrapper'; pending_events = queue ++ events })
  inner_round queue (wrapper, passed ev) =
      continue_with (record { wrapper = wrapper; pending_events = queue ++ ev ∷ [] })
  inner_round queue (wrapper, inner_pending) =
      pending (record { wrapper = wrapper; pending_events = queue })

  unfoldable pub wrapper_round : List t.Event → t.State × Option (List t.Event) → Round
  unfolding inner_round
  wrapper_round queue (wrapper, some events) =
      continue_with (record { wrapper = wrapper; pending_events = queue ++ events })
  wrapper_round queue (wrapper, none) = inner_round queue (t.inner_poll wrapper)

  unfoldable pub round : t.State → List t.Event → Round
  unfolding wrapper_round
  round wrapper (ev ∷ queue) = ready ev (record { wrapper = wrapper; pending_events = queue })
  round wrapper [] = wrapper_round [] (t.poll wrapper)

  -- The loop. The first `none` is no result yet, the second is `Poll::Pending`.
  unfoldable pub poll_loop : ℕ → Round → Option (Option t.Event × Wrapped)
  unfolding round
  poll_loop fuel (ready ev s) = some (some ev, s)
  poll_loop fuel (pending s) = some (none, s)
  poll_loop zero (continue_with s) = none
  poll_loop (suc fuel) (continue_with s) = poll_loop fuel (round s.wrapper s.pending_events)

  unfoldable pub poll : ℕ → Wrapped → Option (Option t.Event × Wrapped)
  unfolding poll_loop
  poll fuel s = poll_loop fuel (round s.wrapper s.pending_events)
