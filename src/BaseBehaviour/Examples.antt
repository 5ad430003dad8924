-- ===== src/BaseBehaviour/Examples.antt =====
-- transport/src/behaviour/base.rs: a run, and each theorem at an input.
use subsquid_network.Base.{
  ℕ, ◌≡◌, ◌<◌, ◌↔◌, refl, true, some, none, List, [], ◌∷◌, Result, ok, err, lookup, insert, remove,
  member, put, drop, keep, subset, difference, arith, eq_of_nat, String,
}
use subsquid_network.Addresses.{tcp, put_addrs}
use subsquid_network.Timeouts.Sample.{sample_timeouts}
use subsquid_network.Addresses.Sample.{sample_lru}
use subsquid_network.BaseBehaviour.{
  dialer, listener, found, timed_out, closest_peers, dial, connected, find_and_dial, schedule_probe,
  is_connected, try_probe_peer, on_connection_established, on_connection_closed, on_probe_timeout,
  on_kademlia_event,
}
use subsquid_network.BaseBehaviour.Nodes.{
  same_set, disallow_all, allow_all, start_nodes, on_nodes_update, updates,
}
use subsquid_network.BaseBehaviour.Connections.{
  Call, probe, established, closed, apply, run, try_probe_peer-connected,
}
use subsquid_network.BaseBehaviour.Probes.History
use subsquid_network.BaseBehaviour.Probes.History.{
  told_of, settles, first_answer, step, reports, MayCome, MayAllCome,
}
use subsquid_network.BaseBehaviour.Probes.Answered.{try_probe_peer-first_answer}
use subsquid_network.BaseBehaviour.Lookups.{find_and_dial-found, on_kademlia_event-not_found}
use subsquid_network.BaseBehaviour.Sample.{sample_kademlia, sample_allow_list, idle}

program : Unit {0}
unfolding lookup insert remove member put drop keep subset difference put_addrs find_and_dial
    schedule_probe is_connected try_probe_peer on_connection_established on_connection_closed
    on_probe_timeout on_kademlia_event same_set disallow_all allow_all start_nodes on_nodes_update
    updates apply run settles first_answer step reports MayCome MayAllCome
program = tt

abbrev answers : List (Result String (List ℕ))
answers = ok (1 ∷ 2 ∷ []) ∷ err "timeout" ∷ []

-- The boot node stays, and the node that is not registered any more is out.
still_allowed :
    (on_nodes_update sample_allow_list
      (updates sample_allow_list (start_nodes sample_allow_list [] (9 ∷ [])) answers)
      (ok (2 ∷ 3 ∷ []))).allow
    ≡ 9 ∷ 2 ∷ 3 ∷ []
unfolding program
still_allowed = refl

consistent : (p : ℕ) → member p (1 ∷ []) ≡ true → member p (1 ∷ 7 ∷ []) ≡ true
unfolding program
consistent p h = ground arith

abbrev calls : List Call
calls =
    probe 4
    ∷ established 4 dialer
    ∷ established 5 dialer
    ∷ established 4 dialer
    ∷ closed 4 dialer
    ∷ []

try_probe_peer-connected_example :
    ((try_probe_peer sample_kademlia sample_timeouts sample_lru
        (run sample_kademlia sample_timeouts sample_lru idle calls)
        4).0
      ≡ connected)
    ↔ (0 < 1)
unfolding program
try_probe_peer-connected_example =
    try_probe_peer-connected sample_kademlia sample_timeouts sample_lru idle calls 4 refl
      (tt, (omega arith, (omega arith, (omega arith, (λ same. omega arith, tt)))))

-- Other peers, an inbound connection and a lookup come between; a second connection tells nothing.
abbrev after_probe : List History.Call
after_probe =
    History.probe 5
    ∷ History.opened 4 listener
    ∷ History.look_up 4
    ∷ History.expired 5
    ∷ History.opened 4 dialer
    ∷ History.opened 4 dialer
    ∷ []

try_probe_peer-first_answer_example :
    reports sample_kademlia sample_timeouts sample_lru true 4
      (try_probe_peer sample_kademlia sample_timeouts sample_lru idle 4).1
      after_probe
    ≡ true ∷ []
unfolding program
try_probe_peer-first_answer_example =
    try_probe_peer-first_answer sample_kademlia sample_timeouts sample_lru true idle 4 after_probe
      refl (refl, (tt, (tt, (refl, (tt, (tt, tt))))))

find_and_dial-found_example :
    let b = find_and_dial sample_kademlia sample_timeouts sample_lru idle 4 in
    let result = timed_out (record { peer_id = 4; addrs = (tcp 80 ∷ []) ∷ [] } ∷ []) in
    let out =
      on_kademlia_event sample_kademlia sample_timeouts sample_lru b (closest_peers 0 result) in
    (out.0 ≡ some (dial 4))
    × (lookup 4 out.1.address_cache ≡ some ((tcp 80 ∷ []) ∷ []))
    × (lookup 4 out.1.ongoing_queries ≡ none)
unfolding program
find_and_dial-found_example =
    find_and_dial-found sample_kademlia sample_timeouts sample_lru idle 4
      (timed_out (record { peer_id = 4; addrs = (tcp 80 ∷ []) ∷ [] } ∷ []))
      (record { peer_id = 4; addrs = (tcp 80 ∷ []) ∷ [] }) refl refl

-- The peer is not among those found.
on_kademlia_event-not_found_example :
    let b = find_and_dial sample_kademlia sample_timeouts sample_lru idle 4 in
    (on_kademlia_event sample_kademlia sample_timeouts sample_lru b (closest_peers 0 (found []))
      ≡ (none, b))
    × (find_and_dial sample_kademlia sample_timeouts sample_lru b 4 ≡ b)
unfolding program
on_kademlia_event-not_found_example =
    on_kademlia_event-not_found sample_kademlia sample_timeouts sample_lru
      (find_and_dial sample_kademlia sample_timeouts sample_lru idle 4) 4 0 (found []) refl refl
