-- ===== src/RequestClient/Outcomes/Once.antt =====
-- transport/src/behaviour/request_client.rs: no ID is given to two requests, and the outcomes of a new
-- client's requests.
use subsquid_network.Base.{
  ◌+◌, ◌≤◌, ◌≡◌, ◌⊎◌, refl, sym, subst, ◌∙◌, none, some, List, [], ◌∷◌, leb, length, lookup, member,
  or_else, eq_of_nat, ==_cases, Bool-cases, Option-cases, inl, inr, arith,
}
use native.Mathlib.Nat.{zero-add}
use subsquid_network.Messages.{PeerId}
use subsquid_network.Timeouts.{Timeouts}
use subsquid_network.RequestClient.{
  RequestId, Requests, ClientConfig, ClientBehaviour, connection_established, other_swarm_event,
  message, outbound_failure, other, new_client, try_send_request, on_timeout,
  on_connection_established, stop_waiting, on_success, on_failure, wait_for_peer, on_swarm_event,
  on_inner_event, poll,
}
use subsquid_network.RequestClient.Bounds.{Call, send, swarm, inner, polled, apply, run}
use subsquid_network.RequestClient.Counting.{count, count_values, count-append}
use subsquid_network.RequestClient.Resending.{resend_all_issued}
use subsquid_network.RequestClient.Outcomes.{held, IsSound}
use subsquid_network.RequestClient.Outcomes.History.{
  taken_by, taken, reported, ArePossible, run_accounts,
}

module _ {Request : Type 0} (Response : Type 0) (i : Requests Request) (t : Timeouts) where
  wait_for_peer_inner :
      (s : ClientBehaviour i t) (peer : PeerId) (id : RequestId)
      → (wait_for_peer i t {Response = Response} s peer id).1.inner ≡ s.inner
  unfolding wait_for_peer
  wait_for_peer_inner s peer id = elim (Bool-cases (t.contains s.lookup_timeouts peer)) [
    | inl sought ↦ rw (sought, wait_for_peer)
    | inr new ↦ rw (new, wait_for_peer)
  ]

  on_failure_inner :
      (s : ClientBehaviour i t) (peer : PeerId) (id : RequestId)
      → (on_failure i t {Response = Response} s peer id).1.inner ≡ s.inner
  unfolding on_failure
  on_failure_inner s peer id = elim (Option-cases (lookup id s.resubmitted_requests)) [
    | inl e ↦ rw (e, on_failure) (wait_for_peer_inner s peer id)
    | inr (old, e) ↦ rw (e, on_failure)
  ]

  try_send_request_issued :
      (s : ClientBehaviour i t) (peer : PeerId) (request : Request) (a : RequestId)
      → i.Issued s.inner a
      → i.Issued (try_send_request i t s peer request).1.inner a
  unfolding try_send_request
  try_send_request_issued s peer request a h =
      elim (Bool-cases (leb s.max_buffered (length s.original_requests))) [
        | inl full ↦ rw (full, try_send_request) h
        | inr room ↦ rw (room, try_send_request) (i.keeps s.inner peer request a h)
      ]

  -- An ID that was issued stays issued.
  apply_issued :
      (s : ClientBehaviour i t) (call : Call Request Response) (a : RequestId)
      → i.Issued s.inner a
      → i.Issued (apply i t s call).inner a
  unfolding apply on_swarm_event on_inner_event poll on_success on_timeout on_connection_established
      stop_waiting
  apply_issued s (send peer request) a h = try_send_request_issued s peer request a h
  apply_issued s (swarm (connection_established peer)) a h =
      resend_all_issued i t peer (stop_waiting i t s peer)
        (or_else (lookup peer s.waiting_for_connection) []) a h
  apply_issued s (swarm other_swarm_event) a h = h
  apply_issued s (inner (message peer id answer)) a h = h
  apply_issued s (inner (outbound_failure peer id)) a h =
      subst (λ j. i.Issued j a) (sym (on_failure_inner s peer id)) h
  apply_issued s (inner other) a h = h
  apply_issued s (polled none) a h = h
  apply_issued s (polled (some peer)) a h = h

  -- What a call takes was not issued before, and is afterwards.
  taken_by_fresh :
      (s : ClientBehaviour i t) (call : Call Request Response) (a : RequestId)
      → (count a (taken_by Response i t s call) ≡ 0)
        ⊎ ((count a (taken_by Response i t s call) ≡ 1)
            × (¬ i.Issued s.inner a)
            × i.Issued (apply i t s call).inner a)
  unfolding taken_by apply count try_send_request
  taken_by_fresh s (send peer request) a =
      elim (Bool-cases (leb s.max_buffered (length s.original_requests))) [
        | inl full ↦ rw (full, taken_by, apply, try_send_request) (inl refl)
        | inr room ↦ elim (==_cases (i.send_request s.inner peer request).1 a) [
          | inl (same, p) ↦
              rw (room, taken_by, apply, try_send_request)
                (inr (
                  ground (arith, same),
                  λ issued. i.fresh s.inner peer request (subst (i.Issued s.inner) (sym p) issued),
                  subst (i.Issued (i.send_request s.inner peer request).0) p
                      (i.issues s.inner peer request),
                ))
          | inr (differs, p) ↦
              rw (room, taken_by, apply, try_send_request) (inl (ground (arith, differs)))
        ]
      ]
  taken_by_fresh s (swarm event) a = inl refl
  taken_by_fresh s (inner event) a = inl refl
  taken_by_fresh s (polled expired) a = inl refl

  not_taken_again :
      (s : ClientBehaviour i t) (calls : List (Call Request Response)) (a : RequestId)
      → i.Issued s.inner a
      → count a (taken Response i t s calls) ≡ 0
  unfolding taken count
  not_taken_again s [] a h = refl
  not_taken_again s (call ∷ calls) a h =
      let rest = not_taken_again (apply i t s call) calls a (apply_issued s call a h) in
      let whole =
        count-append a (taken_by Response i t s call)
          (taken Response i t (apply i t s call) calls) in
      elim (taken_by_fresh s call a) [
        | inl zero_times ↦ omega (arith, rest, whole, zero_times)
        | inr (once, fresh, issued) ↦ absurd (fresh h)
      ]

  taken_once :
      (s : ClientBehaviour i t) (calls : List (Call Request Response)) (a : RequestId)
      → count a (taken Response i t s calls) ≤ 1
  unfolding taken count
  taken_once s [] a = omega arith
  taken_once s (call ∷ calls) a =
      let rest = taken_once (apply i t s call) calls a in
      let whole =
        count-append a (taken_by Response i t s call)
          (taken Response i t (apply i t s call) calls) in
      elim (taken_by_fresh s call a) [
        | inl zero_times ↦ omega (arith, rest, whole, zero_times)
        | inr (once, fresh, issued) ↦
            omega (arith, whole, once, not_taken_again (apply i t s call) calls a issued)
      ]

  new_client-IsSound : (config : ClientConfig) → IsSound i t (new_client i t config) []
  unfolding new_client lookup member
  new_client-IsSound config = record {
    known = λ id issued unsettled. absurd (i.none_issued config.resp_timeout id issued);
    apart = λ id resubmitted. ground (arith, resubmitted);
    waits_held = λ p id waits. ground (arith, waits);
    waits_settled = λ p id waits. ground (arith, waits);
    waits_once = λ p q id waits waits'. ground (arith, waits);
    distinct = λ p. tt;
    originals_issued = λ id original. ground (arith, original);
    resubmitted_issued = λ id resubmitted. ground (arith, resubmitted);
    one_each = tt;
  }

  -- A new client, over every history of calls and events in which the request-response behaviour gives
  -- at most one outcome of each ID that it issued: an ID is given to one request at most, and a request
  -- that was taken either has been reported once, as answered or timed out, or is still held, once. An
  -- ID that was not taken is never reported.
  pub run-settles :
      (config : ClientConfig) (calls : List (Call Request Response)) (a : RequestId)
      → ArePossible Response i t (new_client i t config) [] calls
      → let s = new_client i t config in
        (count a (reported Response i t s calls) + held i t (run i t s calls) a
          ≡ count a (taken Response i t s calls))
        × (count a (taken Response i t s calls) ≤ 1)
  unfolding new_client lookup count_values
  run-settles config calls a possible =
      let s = new_client i t config in
      (
        run_accounts Response i t s [] calls a possible (new_client-IsSound config)
            ∙ zero-add (count a (taken Response i t s calls)),
        taken_once s calls a,
      )
