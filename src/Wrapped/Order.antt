-- ===== src/Wrapped/Order.antt =====
-- transport/src/behaviour/wrapped.rs: events leave in the order in which they are made.
use subsquid_network.Base.{
  ℕ, zero, suc, ◌≡◌, refl, sym, ap, subst, ◌∙◌, Option, none, some, List, [], ◌∷◌, ◌++◌, arith,
  Option-cases, inl, inr,
}
use mathlib.Core.List.{append_assoc, append-nil}
use mathlib.Core.Option.{some-injective}
use subsquid_network.Wrapped.{
  BehaviourWrapper, InnerPoll, generated, passed, inner_pending, Wrapped, on_swarm_event, Round,
  ready, pending, continue_with, inner_round, wrapper_round, round, poll_loop, poll,
}

module _ (t : BehaviourWrapper) where
  -- One step of the two behaviours, and the events that it makes.
  pub data Makes : t.State → List t.Event → t.State → Type 0 where
    told :
        (w : t.State) (event : t.SwarmEvent)
        → Makes w
            (t.on_swarm_event (t.inner_on_swarm_event w event) event).1
            (t.on_swarm_event (t.inner_on_swarm_event w event) event).0
    polled :
        (w w' : t.State) (events : List t.Event) → t.poll w ≡ (w', some events) → Makes w events w'
    quiet : (w w' : t.State) → t.poll w ≡ (w', none) → Makes w [] w'
    generating :
        (w w' : t.State) (ev : t.InnerEvent)
        → t.inner_poll w ≡ (w', generated ev)
        → Makes w (t.on_inner_event w' ev).1 (t.on_inner_event w' ev).0
    passing :
        (w w' : t.State) (ev : t.Event) → t.inner_poll w ≡ (w', passed ev) → Makes w (ev ∷ []) w'
    idle : (w w' : t.State) → t.inner_poll w ≡ (w', inner_pending) → Makes w [] w'

  -- Steps one after the other, and all their events.
  pub data MakesAll : t.State → List t.Event → t.State → Type 0 where
    here : (w : t.State) → MakesAll w [] w
    then :
        {w w' w'' : t.State} {es fs : List t.Event}
        → Makes w es w'
        → MakesAll w' fs w''
        → MakesAll w (es ++ fs) w''

  MakesAll-trans :
      {w w' w'' : t.State} {es fs : List t.Event}
      → MakesAll w es w'
      → MakesAll w' fs w''
      → MakesAll w (es ++ fs) w''
  MakesAll-trans (here w) rest = rest
  MakesAll-trans {w} {w'' = z} {fs} (then {es} {fs = gs} m more) rest =
      subst (λ out. MakesAll w out z) (sym (append_assoc es gs fs))
        (then m (MakesAll-trans more rest))

  -- From `w` with the queue `queue` to `s`, with the events `out` given to the swarm: the events that
  -- were queued, and those made after them, are what went out and then what is queued now.
  pub record Accounts (w : t.State) (queue out : List t.Event) (s : Wrapped t) : Type 0 where
    pub events : List t.Event
    pub made : MakesAll w events s.wrapper
    pub balance : queue ++ events ≡ out ++ s.pending_events

  Accounts-trans :
      (w : t.State) (queue a b : List t.Event) (s s' : Wrapped t)
      → Accounts w queue a s
      → Accounts s.wrapper s.pending_events b s'
      → Accounts w queue (a ++ b) s'
  Accounts-trans w queue a b s s' x y = record {
    events = x.events ++ y.events;
    made = MakesAll-trans x.made y.made;
    balance =
        sym (append_assoc queue x.events y.events)
        ∙ ap (λ l. l ++ y.events) x.balance
        ∙ append_assoc a s.pending_events y.events
        ∙ ap (λ l. a ++ l) y.balance
        ∙ sym (append_assoc a b s'.pending_events);
  }

  one_step :
      (w w' : t.State) (queue events : List t.Event)
      → Makes w events w'
      → Accounts w queue [] (record { wrapper = w'; pending_events = queue ++ events })
  one_step w w' queue events m = record {
    events = events;
    made = subst (λ l. MakesAll w l w') (append-nil events) (then m (here w'));
    balance = refl;
  }

  quiet_step :
      (w w' : t.State) (queue : List t.Event)
      → Makes w [] w'
      → Accounts w queue [] (record { wrapper = w'; pending_events = queue })
  quiet_step w w' queue m = record {
    events = [];
    made = then m (here w');
    balance = append-nil queue;
  }

  abbrev Accounted : t.State → List t.Event → Round t → Type 0
  Accounted w queue (ready ev s) = Accounts w queue (ev ∷ []) s
  Accounted w queue (pending s) = Accounts w queue [] s
  Accounted w queue (continue_with s) = Accounts w queue [] s

  after_quiet :
      (w w' : t.State) (queue : List t.Event) (r : Round t)
      → Makes w [] w'
      → Accounted w' queue r
      → Accounted w queue r
  after_quiet w w' queue (ready ev s) m a =
      Accounts-trans w queue [] (ev ∷ []) (record { wrapper = w'; pending_events = queue }) s
        (quiet_step w w' queue m) a
  after_quiet w w' queue (pending s) m a =
      Accounts-trans w queue [] [] (record { wrapper = w'; pending_events = queue }) s
        (quiet_step w w' queue m) a
  after_quiet w w' queue (continue_with s) m a =
      Accounts-trans w queue [] [] (record { wrapper = w'; pending_events = queue }) s
        (quiet_step w w' queue m) a

  inner_round-Accounted :
      (w : t.State) (queue : List t.Event) (r : t.State × InnerPoll t.InnerEvent t.Event)
      → t.inner_poll w ≡ r
      → Accounted w queue (inner_round t queue r)
  unfolding inner_round
  inner_round-Accounted w queue (w', generated ev) e =
      one_step w (t.on_inner_event w' ev).0 queue (t.on_inner_event w' ev).1 (generating w w' ev e)
  inner_round-Accounted w queue (w', passed ev) e =
      one_step w w' queue (ev ∷ []) (passing w w' ev e)
  inner_round-Accounted w queue (w', inner_pending) e = quiet_step w w' queue (idle w w' e)

  wrapper_round-Accounted :
      (w : t.State) (queue : List t.Event) (r : t.State × Option (List t.Event))
      → t.poll w ≡ r
      → Accounted w queue (wrapper_round t queue r)
  unfolding wrapper_round
  wrapper_round-Accounted w queue (w', some events) e =
      one_step w w' queue events (polled w w' events e)
  wrapper_round-Accounted w queue (w', none) e =
      after_quiet w w' queue (inner_round t queue (t.inner_poll w')) (quiet w w' e)
        (inner_round-Accounted w' queue (t.inner_poll w') refl)

  round-Accounted : (w : t.State) (queue : List t.Event) → Accounted w queue (round t w queue)
  unfolding round
  round-Accounted w (ev ∷ queue) = record {
    events = [];
    made = here w;
    balance = append-nil (ev ∷ queue);
  }
  round-Accounted w [] = wrapper_round-Accounted w [] (t.poll w) refl

  abbrev pub given : Option t.Event → List t.Event
  given none = []
  given (some ev) = ev ∷ []

  poll_loop-Accounts :
      (fuel : ℕ) (w : t.State) (queue : List t.Event) (r : Round t) (out : Option t.Event)
      (s : Wrapped t)
      → Accounted w queue r
      → poll_loop t fuel r ≡ some (out, s)
      → Accounts w queue (given out) s
  unfolding poll_loop
  poll_loop-Accounts fuel w queue (ready ev s') out s a e =
      subst (λ (o : Option t.Event × Wrapped t). Accounts w queue (given o.0) o.1)
        (some-injective _ _ e) a
  poll_loop-Accounts fuel w queue (pending s') out s a e =
      subst (λ (o : Option t.Event × Wrapped t). Accounts w queue (given o.0) o.1)
        (some-injective _ _ e) a
  poll_loop-Accounts zero w queue (continue_with s') out s a e = ground (arith, e)
  poll_loop-Accounts (suc fuel) w queue (continue_with s') out s a e =
      Accounts-trans w queue [] (given out) s' s a (
        poll_loop-Accounts fuel s'.wrapper s'.pending_events (round t s'.wrapper s'.pending_events)
          out s (round-Accounted s'.wrapper s'.pending_events) e)

  -- What the swarm calls: it tells of an event, or polls.
  pub data Call : Type 0 where
    tell : t.SwarmEvent → Call
    polls : (fuel : ℕ) → Call

  abbrev pub put_before :
      List t.Event → Option (List t.Event × Wrapped t) → Option (List t.Event × Wrapped t)
  put_before front none = none
  put_before front (some (outs, s)) = some (front ++ outs, s)

  abbrev pub with_poll :
      (Wrapped t → Option (List t.Event × Wrapped t))
      → Option (Option t.Event × Wrapped t)
      → Option (List t.Event × Wrapped t)
  with_poll rest none = none
  with_poll rest (some (out, s)) = put_before (given out) (rest s)

  -- The events that leave over a sequence of calls; `none` when a poll has no result.
  unfoldable pub run : List Call → Wrapped t → Option (List t.Event × Wrapped t)
  run [] s = some ([], s)
  run (tell event ∷ calls) s = run calls (on_swarm_event t s event)
  run (polls fuel ∷ calls) s = with_poll (run calls) (poll t fuel s)

  tell-Accounts :
      (s : Wrapped t) (event : t.SwarmEvent)
      → Accounts s.wrapper s.pending_events [] (on_swarm_event t s event)
  unfolding on_swarm_event
  tell-Accounts s event = one_step s.wrapper _ s.pending_events _ (told s.wrapper event)

  poll-Accounts :
      (fuel : ℕ) (s s' : Wrapped t) (out : Option t.Event)
      → poll t fuel s ≡ some (out, s')
      → Accounts s.wrapper s.pending_events (given out) s'
  unfolding poll
  poll-Accounts fuel s s' out e =
      poll_loop-Accounts fuel s.wrapper s.pending_events (round t s.wrapper s.pending_events) out s'
        (round-Accounted s.wrapper s.pending_events) e

  with_poll_parts :
      (rest : Wrapped t → Option (List t.Event × Wrapped t))
      (r : Option (Option t.Event × Wrapped t)) (outs : List t.Event) (s' : Wrapped t)
      → with_poll rest r ≡ some (outs, s')
      → (out : Option t.Event) × (s : Wrapped t) × (more : List t.Event) × (r ≡ some (out, s))
        × (rest s ≡ some (more, s'))
        × (given out ++ more ≡ outs)
  with_poll_parts rest none outs s' e = ground (arith, e)
  with_poll_parts rest (some (out, s)) outs s' e = elim (Option-cases (rest s)) [
    | inl f ↦ absurd (ground (arith, e, f))
    | inr ((more, s''), f) ↦
        let same : (given out ++ more, s'') ≡ (outs, s') =
          some-injective _ _ (sym (ap (put_before (given out)) f) ∙ e) in
        (
          out,
          s,
          more,
          refl,
          f ∙ ap (λ z. some (more, z)) (ap (λ (o : List t.Event × Wrapped t). o.1) same),
          ap (λ (o : List t.Event × Wrapped t). o.0) same,
        )
  ]

  -- Over every sequence of calls that gives a result, the events that were queued and those that the
  -- two behaviours made, in the order of their steps, are the events that left and then those still
  -- queued: none is lost, none is doubled, and none overtakes another.
  pub run-Accounts :
      (calls : List Call) (s s' : Wrapped t) (outs : List t.Event)
      → run calls s ≡ some (outs, s')
      → Accounts s.wrapper s.pending_events outs s'
  unfolding run
  run-Accounts [] s s' outs e =
      subst (λ (o : List t.Event × Wrapped t). Accounts s.wrapper s.pending_events o.0 o.1)
        (some-injective _ _ e)
        (record { events = []; made = here s.wrapper; balance = append-nil s.pending_events })
  run-Accounts (tell event ∷ calls) s s' outs e =
      Accounts-trans s.wrapper s.pending_events [] outs (on_swarm_event t s event) s'
        (tell-Accounts s event) (run-Accounts calls (on_swarm_event t s event) s' outs e)
  run-Accounts (polls fuel ∷ calls) s s' outs e =
      let (out, middle, more, answered, rest, same) =
        with_poll_parts (run calls) (poll t fuel s) outs s' e in
      subst (λ o. Accounts s.wrapper s.pending_events o s') same
        (Accounts-trans s.wrapper s.pending_events (given out) more middle s'
          (poll-Accounts fuel s middle out answered) (run-Accounts calls middle s' more rest))
