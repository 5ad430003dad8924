-- ===== src/Builder/Waiting.antt =====
-- transport/src/builder.rs: the wait of a worker for its registration.
use subsquid_network.Base.{
  ℕ, zero, suc, ◌+◌, ◌*◌, ◌≤◌, ◌<◌, ◌≡◌, ap, ◌∙◌, String, Option, none, some, Result, ok, max,
  arith,
}
use subsquid_network.Builder.{ready, wait_round, wait_loop, wait_registered}

-- The time of round number `n`, where the wait began at `start`.
abbrev pub round_time : ℕ → ℕ → ℕ
round_time start n = start + n * (60 * 1000)

wait_round-registered :
    (interval now reg_time : ℕ)
    → reg_time ≤ now
    → wait_round interval now (ok (some reg_time)) ≡ ready (max now (reg_time + interval))
unfolding wait_round
wait_round-registered interval now reg_time past = ground (arith, past)

first_round : (start : ℕ) → start ≡ round_time start zero
first_round start = omega arith

next_round : (start n : ℕ) → round_time (start + 60 * 1000) n ≡ round_time start (suc n)
next_round start n = omega arith

-- When the chain gives the worker's registration at round number `n` of the wait and not before, the
-- wait ends in that round: at once if the registration is old enough, and otherwise when it is as old
-- as the interval between two updates of the nodes.
pub wait_registered-found :
    (chain : ℕ → Result String (Option ℕ)) (interval start n reg_time : ℕ)
    → ((k : ℕ) → k < n → chain (round_time start k) ≡ ok none)
    → chain (round_time start n) ≡ ok (some reg_time)
    → reg_time ≤ round_time start n
    → wait_registered chain interval n start
      ≡ some (ok (max (round_time start n) (reg_time + interval)))
unfolding wait_registered wait_loop wait_round
wait_registered-found chain interval start zero reg_time absent found past =
    ap (λ answer. wait_loop chain interval zero (wait_round interval start answer))
      (ap chain (first_round start) ∙ found)
    ∙ ap (wait_loop chain interval zero)
        (wait_round-registered interval start reg_time (omega (arith, past)))
    ∙ ap (λ now. some (ok (max now (reg_time + interval)))) (first_round start)
wait_registered-found chain interval start (suc n) reg_time absent found past =
    ap (λ answer. wait_loop chain interval (suc n) (wait_round interval start answer))
      (ap chain (first_round start) ∙ absent zero (omega arith))
    ∙ wait_registered-found chain interval (start + 60 * 1000) n reg_time
        (λ k less. ap chain (next_round start k) ∙ absent (suc k) (omega (arith, less)))
        (ap chain (next_round start n) ∙ found) (omega (arith, past))
    ∙ ap (λ now. some (ok (max now (reg_time + interval)))) (next_round start n)
