-- ===== src/Wrapped/Examples.antt =====
-- transport/src/behaviour/wrapped.rs: a run, and each theorem at an input.
use subsquid_network.Base.{ℕ, ◌≡◌, refl, none, some, List, [], ◌∷◌, ◌++◌, if◌then◌else◌, eqb}
use subsquid_network.Wrapped.{
  BehaviourWrapper, InnerPoll, generated, inner_pending, Wrapped, on_swarm_event, inner_round,
  wrapper_round, round, poll_loop, poll,
}
use subsquid_network.Wrapped.Order.{Accounts, Call, tell, polls, run, run-Accounts}

-- The inner behaviour has a list of events, of which the wrapper passes on those that are not zero.
abbrev next : List ℕ → List ℕ × InnerPoll ℕ ℕ
next [] = ([], inner_pending)
next (x ∷ xs) = (xs, generated x)

abbrev filter_zeros : BehaviourWrapper
filter_zeros = record {
  State = List ℕ;
  Event = ℕ;
  InnerEvent = ℕ;
  SwarmEvent = ℕ;
  inner_on_swarm_event = λ w event. w ++ event ∷ [];
  inner_poll = next;
  on_swarm_event = λ w event. (w, []);
  on_inner_event = λ w ev. (w, if eqb ev 0 then [] else ev ∷ []);
  poll = λ w. (w, none);
}

program : Unit {0}
unfolding on_swarm_event inner_round wrapper_round round poll_loop poll run
program = tt

abbrev start : Wrapped filter_zeros
start = record { wrapper = 0 ∷ 0 ∷ 7 ∷ []; pending_events = 5 ∷ [] }

abbrev calls : List (Call filter_zeros)
calls = polls 9 ∷ tell 8 ∷ polls 9 ∷ []

abbrev after : Wrapped filter_zeros
after = record { wrapper = 8 ∷ []; pending_events = [] }

in_order : run filter_zeros calls start ≡ some (5 ∷ 7 ∷ [], after)
unfolding program
in_order = refl

run-Accounts_example : Accounts filter_zeros (0 ∷ 0 ∷ 7 ∷ []) (5 ∷ []) (5 ∷ 7 ∷ []) after
unfolding program
run-Accounts_example = run-Accounts filter_zeros calls start after (5 ∷ 7 ∷ []) in_order
