-- ===== src/RequestClient/Bounds.antt =====
-- transport/src/behaviour/request_client.rs: the size of the buffer, over every sequence of calls.
use subsquid_network.Base.{
  ℕ, ◌≤◌, ◌≡◌, refl, Option, none, some, List, [], ◌∷◌, length, lookup, remove, or_else, leb,
  Bool-cases, Option-cases, inl, inr, eq_of_nat, length-insert-le, length-remove-le, arith,
}
use subsquid_network.Messages.{PeerId}
use subsquid_network.Timeouts.{Timeouts}
use subsquid_network.RequestClient.{
  RequestId, Requests, ClientConfig, ClientBehaviour, SwarmEvent, connection_established,
  other_swarm_event, InnerEvent, message, outbound_failure, other, new_client, try_send_request,
  forget, on_timeout, resend, resend_all, stop_waiting, on_connection_established, on_success,
  wait_for_peer, on_failure, on_swarm_event, on_inner_event, poll,
}

module _ (Request Response : Type 0) where
  -- What the program calls on the client.
  pub data Call : Type 0 where
    send : PeerId → Request → Call
    swarm : SwarmEvent → Call
    inner : InnerEvent Response → Call
    polled : Option PeerId → Call

module _ {Request : Type 0} (i : Requests Request) (t : Timeouts) where
  abbrev IsBounded : ℕ → ClientBehaviour i t → Type 0
  IsBounded n s = (s.max_buffered ≡ n) × (length s.original_requests ≤ n)

  length-forget-le :
      (ids : List RequestId) (m : List (RequestId × Request)) → length (forget i t ids m) ≤ length m
  unfolding forget
  length-forget-le [] m = omega arith
  length-forget-le (id ∷ ids) m =
      omega (arith, length-forget-le ids (remove id m), length-remove-le id m)

  resend-IsBounded :
      (n : ℕ) (peer : PeerId) (s : ClientBehaviour i t) (id : RequestId)
      → IsBounded n s
      → IsBounded n (resend i t peer s id)
  unfolding resend
  resend-IsBounded n peer s id b = elim (Option-cases (lookup id s.original_requests)) [
    | inl e ↦ rw (e, resend) b
    | inr (r, e) ↦ rw (e, resend) (b.0, omega (arith, b.1, length-remove-le id s.original_requests))
  ]

  resend_all-IsBounded :
      (n : ℕ) (peer : PeerId) (s : ClientBehaviour i t) (ids : List RequestId)
      → IsBounded n s
      → IsBounded n (resend_all i t peer s ids)
  unfolding resend_all
  resend_all-IsBounded n peer s [] b = b
  resend_all-IsBounded n peer s (id ∷ ids) b =
      resend_all-IsBounded n peer (resend i t peer s id) ids (resend-IsBounded n peer s id b)

  try_send_request-IsBounded :
      (n : ℕ) (s : ClientBehaviour i t) (peer : PeerId) (request : Request)
      → IsBounded n s
      → IsBounded n (try_send_request i t s peer request).1
  unfolding try_send_request
  try_send_request-IsBounded n s peer request b =
      elim (Bool-cases (leb s.max_buffered (length s.original_requests))) [
        | inl full ↦ rw (full, try_send_request) b
        | inr room ↦
            rw (room, try_send_request)
              (
                b.0,
                ground (
                  arith,
                  length-insert-le (i.send_request s.inner peer request).1 request
                      s.original_requests,
                ),
              )
      ]

  wait_for_peer-IsBounded :
      (Response : Type 0) (n : ℕ) (s : ClientBehaviour i t) (peer : PeerId) (id : RequestId)
      → IsBounded n s
      → IsBounded n (wait_for_peer i t {Response = Response} s peer id).1
  unfolding wait_for_peer
  wait_for_peer-IsBounded Response n s peer id b =
      elim (Bool-cases (t.contains s.lookup_timeouts peer)) [
        | inl sought ↦ rw (sought, wait_for_peer) b
        | inr new ↦ rw (new, wait_for_peer) b
      ]

  on_failure-IsBounded :
      (Response : Type 0) (n : ℕ) (s : ClientBehaviour i t) (peer : PeerId) (id : RequestId)
      → IsBounded n s
      → IsBounded n (on_failure i t {Response = Response} s peer id).1
  unfolding on_failure
  on_failure-IsBounded Response n s peer id b =
      elim (Option-cases (lookup id s.resubmitted_requests)) [
        | inl e ↦ rw (e, on_failure) (wait_for_peer-IsBounded Response n s peer id b)
        | inr (old, e) ↦ rw (e, on_failure) b
      ]

module _ {Request Response : Type 0} (i : Requests Request) (t : Timeouts) where
  unfoldable pub apply : ClientBehaviour i t → Call Request Response → ClientBehaviour i t
  apply s (send peer request) = (try_send_request i t s peer request).1
  apply s (swarm event) = on_swarm_event i t s event
  apply s (inner event) = (on_inner_event i t s event).1
  apply s (polled expired) = (poll i t {Response = Response} s expired).1

  unfoldable pub run : ClientBehaviour i t → List (Call Request Response) → ClientBehaviour i t
  unfolding apply
  run s [] = s
  run s (call ∷ calls) = run (apply s call) calls

  apply-IsBounded :
      (n : ℕ) (s : ClientBehaviour i t) (call : Call Request Response)
      → IsBounded i t n s
      → IsBounded i t n (apply s call)
  unfolding apply stop_waiting on_swarm_event on_inner_event poll on_connection_established
      on_success on_timeout
  apply-IsBounded n s (send peer request) b = try_send_request-IsBounded i t n s peer request b
  apply-IsBounded n s (swarm (connection_established peer)) b =
      resend_all-IsBounded i t n peer (stop_waiting i t s peer)
        (or_else (lookup peer s.waiting_for_connection) []) b
  apply-IsBounded n s (swarm other_swarm_event) b = b
  apply-IsBounded n s (inner (message peer id answer)) b =
      (b.0, omega (arith, b.1, length-remove-le id s.original_requests))
  apply-IsBounded n s (inner (outbound_failure peer id)) b =
      on_failure-IsBounded i t Response n s peer id b
  apply-IsBounded n s (inner other) b = b
  apply-IsBounded n s (polled none) b = b
  apply-IsBounded n s (polled (some peer)) b = (
    b.0,
    omega (
      arith,
      b.1,
      length-forget-le i t (or_else (lookup peer s.waiting_for_connection) []) s.original_requests,
    ),
  )

  run-IsBounded :
      (n : ℕ) (s : ClientBehaviour i t) (calls : List (Call Request Response))
      → IsBounded i t n s
      → IsBounded i t n (run s calls)
  unfolding run
  run-IsBounded n s [] b = b
  run-IsBounded n s (call ∷ calls) b =
      run-IsBounded n (apply s call) calls (apply-IsBounded n s call b)

  -- Whatever calls and events come in whatever order, a new client never keeps more requests than
  -- its configuration allows.
  pub run-bounded :
      (config : ClientConfig) (calls : List (Call Request Response))
      → length (run (new_client i t config) calls).original_requests ≤ config.max_buffered
  unfolding new_client
  run-bounded config calls =
      (run-IsBounded config.max_buffered (new_client i t config) calls (refl, omega arith)).1
