-- ===== src/RequestClient/Examples.antt =====
-- transport/src/behaviour/request_client.rs: a run, and each theorem at an input.
use subsquid_network.Base.{
  ℕ, ◌+◌, ◌≡◌, ◌≤◌, ◌<◌, refl, some, List, [], ◌∷◌, ◌++◌, length, member, lookup, insert, remove,
  drop, put, eq_of_nat, arith,
}
use subsquid_network.Timeouts.Sample.{sample_timeouts}
use subsquid_network.RequestClient.{
  message, poll, try_send_request, on_swarm_event, on_inner_event, response, timeout,
  outbound_failure, connection_established, new_client, on_timeout, on_connection_established,
  on_success, on_failure,
}
use subsquid_network.RequestClient.Sample.{sample_requests, sample_client, sample_config}
use subsquid_network.RequestClient.Bounds.{
  Call, send, swarm, inner, polled, apply, run, run-bounded,
}
use subsquid_network.RequestClient.Counting.{count}
use subsquid_network.RequestClient.Outcomes.{held, outcomes_of}
use subsquid_network.RequestClient.Outcomes.History.{taken, reported, ArePossible}
use subsquid_network.RequestClient.Outcomes.Once.{run-settles}
use subsquid_network.RequestClient.Resending.{held_of, sends, on_connection_established-answered}

program : Unit {0}
unfolding lookup insert remove drop put member apply run new_client try_send_request on_swarm_event
    on_inner_event on_timeout on_connection_established on_success on_failure
program = tt

-- The third request is refused; the first fails, and is sent again once the peer is there.
abbrev calls : List (Call ℕ ℕ)
calls =
    send 5 70
    ∷ send 6 71
    ∷ send 7 72
    ∷ inner (outbound_failure 5 0)
    ∷ swarm (connection_established 5)
    ∷ []

resubmitted :
    (run sample_requests sample_timeouts
      (new_client sample_requests sample_timeouts sample_config)
      calls).resubmitted_requests
    ≡ (2, 0) ∷ []
unfolding program
resubmitted = refl

run-bounded_example :
    length
      (run sample_requests sample_timeouts
        (new_client sample_requests sample_timeouts sample_config)
        calls).original_requests
    ≤ 2
run-bounded_example = run-bounded sample_requests sample_timeouts sample_config calls

on_connection_established-answered_example :
    let s = on_connection_established sample_requests sample_timeouts sample_client 5 in
    let sent =
      held_of sample_requests sample_timeouts (0 ∷ 2 ∷ []) ((0, 70) ∷ (1, 71) ∷ (2, 72) ∷ []) in
    (s.inner ≡ sends sample_requests sample_timeouts 3 5 sent)
    × ((new : ℕ) × (earlier : List ℕ) × (later : List ℕ) × (sent ≡ earlier ++ 72 ∷ later)
        × ((sample_requests.send_request (sends sample_requests sample_timeouts 3 5 earlier) 5 72).1
            ≡ new)
        × (¬ (new < 3))
        × ((answer : ℕ)
            → (on_success sample_requests sample_timeouts s 5 new answer).0
              ≡ some (response 5 2 answer))
        × ((on_failure sample_requests sample_timeouts {Response = ℕ} s 5 new).0
            ≡ some (timeout 5 2)))
unfolding program
on_connection_established-answered_example =
    on_connection_established-answered sample_requests sample_timeouts {Response = ℕ} sample_client
      5 (0 ∷ 2 ∷ []) 2 72 refl refl refl

-- The request that was sent again is answered, and the other one times out.
abbrev history : List (Call ℕ ℕ)
history =
    send 5 70
    ∷ send 6 71
    ∷ inner (outbound_failure 5 0)
    ∷ swarm (connection_established 5)
    ∷ inner (message 5 2 99)
    ∷ inner (outbound_failure 6 1)
    ∷ polled (some 6)
    ∷ []

both_reported :
    reported ℕ sample_requests sample_timeouts
      (new_client sample_requests sample_timeouts sample_config)
      history
    ≡ 0 ∷ 1 ∷ []
unfolding program poll reported outcomes_of
both_reported = refl

history_possible :
    ArePossible ℕ sample_requests sample_timeouts
      (new_client sample_requests sample_timeouts sample_config)
      []
      history
unfolding program poll ArePossible
history_possible =
    (tt, (tt, ((omega arith, refl), (tt, ((omega arith, refl), ((omega arith, refl), (tt, tt)))))))

run-settles_example :
    let s = new_client sample_requests sample_timeouts sample_config in
    (count 0 (reported ℕ sample_requests sample_timeouts s history)
        + held sample_requests sample_timeouts (run sample_requests sample_timeouts s history) 0
      ≡ count 0 (taken ℕ sample_requests sample_timeouts s history))
    × (count 0 (taken ℕ sample_requests sample_timeouts s history) ≤ 1)
run-settles_example =
    run-settles ℕ sample_requests sample_timeouts sample_config history 0 history_possible
