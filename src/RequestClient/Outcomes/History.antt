-- ===== src/RequestClient/Outcomes/History.antt =====
-- transport/src/behaviour/request_client.rs: the outcomes of all requests, over every history.
use subsquid_network.Base.{
  ◌+◌, ◌≡◌, Option, none, some, List, [], ◌∷◌, ◌++◌, leb, length, eq_of_nat, Bool-cases, inl, inr,
  arith,
}
use subsquid_network.Messages.{PeerId}
use subsquid_network.Timeouts.{Timeouts}
use subsquid_network.RequestClient.{
  RequestId, Requests, ClientBehaviour, connection_established, other_swarm_event, message,
  outbound_failure, other, try_send_request, on_swarm_event, on_inner_event, poll,
}
use subsquid_network.RequestClient.Bounds.{Call, send, swarm, inner, polled, apply, run}
use subsquid_network.RequestClient.Counting.{count, count-append}
use subsquid_network.RequestClient.Outcomes.{held, IsSound, outcomes_of}
use subsquid_network.RequestClient.Outcomes.Sending.{sent-IsSound, sent-held}
use subsquid_network.RequestClient.Outcomes.Waiting.{
  on_connection_established-Keeps, on_timeout-IsSound, on_timeout-held,
}
use subsquid_network.RequestClient.Outcomes.Settling.{
  IsOpen, outcomes_if, on_success-IsSound, on_success-held,
}
use subsquid_network.RequestClient.Outcomes.Settling.Failing.{on_failure-IsSound, on_failure-held}

abbrev pub ids_if : Option RequestId → List RequestId
ids_if none = []
ids_if (some id) = id ∷ []

module _ {Request : Type 0} (Response : Type 0) (i : Requests Request) (t : Timeouts) where
  -- What the request-response behaviour does: it gives one outcome of an ID that it issued, a response
  -- or a failure, and no second one.
  unfoldable pub IsPossible : ClientBehaviour i t → List RequestId → Call Request Response → Type 0
  IsPossible s settled (send peer request) = Unit
  IsPossible s settled (swarm event) = Unit
  IsPossible s settled (inner (message peer id answer)) = IsOpen i t s settled id
  IsPossible s settled (inner (outbound_failure peer id)) = IsOpen i t s settled id
  IsPossible s settled (inner other) = Unit
  IsPossible s settled (polled expired) = Unit

  unfoldable pub settle : List RequestId → Call Request Response → List RequestId
  settle settled (send peer request) = settled
  settle settled (swarm event) = settled
  settle settled (inner (message peer id answer)) = id ∷ settled
  settle settled (inner (outbound_failure peer id)) = id ∷ settled
  settle settled (inner other) = settled
  settle settled (polled expired) = settled

  unfoldable pub ArePossible :
      ClientBehaviour i t → List RequestId → List (Call Request Response) → Type 0
  unfolding IsPossible settle
  ArePossible s settled [] = Unit
  ArePossible s settled (call ∷ calls) =
      IsPossible s settled call × ArePossible (apply i t s call) (settle settled call) calls

  -- The IDs of the requests that a call takes, and those that have their outcome in its events.
  unfoldable pub taken_by : ClientBehaviour i t → Call Request Response → List RequestId
  taken_by s (send peer request) = ids_if (try_send_request i t s peer request).0
  taken_by s (swarm event) = []
  taken_by s (inner event) = []
  taken_by s (polled expired) = []

  unfoldable pub reported_by : ClientBehaviour i t → Call Request Response → List RequestId
  reported_by s (send peer request) = []
  reported_by s (swarm event) = []
  reported_by s (inner event) = outcomes_if (on_inner_event i t s event).0
  reported_by s (polled expired) = outcomes_of (poll i t {Response = Response} s expired).0

  unfoldable pub taken : ClientBehaviour i t → List (Call Request Response) → List RequestId
  unfolding taken_by
  taken s [] = []
  taken s (call ∷ calls) = taken_by s call ++ taken (apply i t s call) calls

  unfoldable pub reported : ClientBehaviour i t → List (Call Request Response) → List RequestId
  unfolding reported_by
  reported s [] = []
  reported s (call ∷ calls) = reported_by s call ++ reported (apply i t s call) calls

  -- One call: the maps stay sound, and what is held or reported was held or is taken.
  abbrev Accounts : ClientBehaviour i t → List RequestId → Call Request Response → Type 0
  Accounts s settled call =
      IsSound i t (apply i t s call) (settle settled call)
      × ((a : RequestId)
          → count a (reported_by s call) + held i t (apply i t s call) a
            ≡ held i t s a + count a (taken_by s call))

  send-Accounts :
      (s : ClientBehaviour i t) (settled : List RequestId) (peer : PeerId) (request : Request)
      → IsSound i t s settled
      → Accounts s settled (send peer request)
  unfolding apply settle reported_by taken_by try_send_request count
  send-Accounts s settled peer request h =
      elim (Bool-cases (leb s.max_buffered (length s.original_requests))) [
        | inl full ↦ rw (full, apply, taken_by, try_send_request) (h, λ a. omega arith)
        | inr room ↦
            rw (room, apply, taken_by, try_send_request)
              (
                sent-IsSound i t s settled peer request h,
                λ a. omega (arith, sent-held i t s settled peer request a h),
              )
      ]

  apply-Accounts :
      (s : ClientBehaviour i t) (settled : List RequestId) (call : Call Request Response)
      → IsPossible s settled call
      → IsSound i t s settled
      → Accounts s settled call
  unfolding apply settle reported_by taken_by IsPossible on_swarm_event on_inner_event poll count
      outcomes_of
  apply-Accounts s settled (send peer request) possible h = send-Accounts s settled peer request h
  apply-Accounts s settled (swarm (connection_established peer)) possible h =
      let kept = on_connection_established-Keeps i t s settled peer h in
      (kept.0, λ a. omega (arith, kept.1 a))
  apply-Accounts s settled (swarm other_swarm_event) possible h = (h, λ a. omega arith)
  apply-Accounts s settled (inner (message peer id answer)) possible h = (
    on_success-IsSound i t s settled peer id answer possible h,
    λ a. omega (arith, on_success-held i t s settled peer id answer a possible h),
  )
  apply-Accounts s settled (inner (outbound_failure peer id)) possible h = (
    on_failure-IsSound i t Response s settled peer id possible h,
    λ a. omega (arith, on_failure-held i t Response s settled peer id a h),
  )
  apply-Accounts s settled (inner other) possible h = (h, λ a. omega arith)
  apply-Accounts s settled (polled none) possible h = (h, λ a. omega arith)
  apply-Accounts s settled (polled (some peer)) possible h =
      let s' = record s { lookup_timeouts = t.expired s.lookup_timeouts peer } in
      let sound = expired-IsSound s settled (t.expired s.lookup_timeouts peer) h in
      (
        on_timeout-IsSound i t Response s' settled peer sound,
        λ a. omega (arith, on_timeout-held i t Response s' settled peer a sound),
      )
    where
      expired-IsSound :
          (s : ClientBehaviour i t) (settled : List RequestId) (lookups : t.Map)
          → IsSound i t s settled
          → IsSound i t (record s { lookup_timeouts = lookups }) settled
      expired-IsSound s settled lookups h = record {
        known = h.known;
        apart = h.apart;
        waits_held = h.waits_held;
        waits_settled = h.waits_settled;
        waits_once = h.waits_once;
        distinct = h.distinct;
        originals_issued = h.originals_issued;
        resubmitted_issued = h.resubmitted_issued;
        one_each = h.one_each;
      }

  pub run_accounts :
      (s : ClientBehaviour i t) (settled : List RequestId) (calls : List (Call Request Response))
      (a : RequestId)
      → ArePossible s settled calls
      → IsSound i t s settled
      → count a (reported s calls) + held i t (run i t s calls) a
        ≡ held i t s a + count a (taken s calls)
  unfolding run reported taken ArePossible count
  run_accounts s settled [] a possible h = omega arith
  run_accounts s settled (call ∷ calls) a possible h =
      let first = apply-Accounts s settled call possible.0 h in
      let rest = run_accounts (apply i t s call) (settle settled call) calls a possible.1 first.0 in
      omega (
        arith,
        first.1 a,
        rest,
        count-append a (reported_by s call) (reported (apply i t s call) calls),
        count-append a (taken_by s call) (taken (apply i t s call) calls),
      )
