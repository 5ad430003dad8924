-- ===== src/RequestClient/Outcomes/Waiting.antt =====
-- transport/src/behaviour/request_client.rs: the end of the wait for a peer, which connects or is not
-- found in time.
use subsquid_network.Base.{
  ◌+◌, ◌≡◌, refl, ap, true, false, List, [], ◌∷◌, map, if◌then◌else◌, lookup, remove, has_key,
  member, or_else, lookup-remove, eq_of_nat, ◌==◌, ==_cases, ==_refl, Bool-cases, inl, inr, arith,
}
use subsquid_network.Messages.{PeerId}
use subsquid_network.Timeouts.{Timeouts}
use subsquid_network.RequestClient.{
  RequestId, Requests, ClientBehaviour, timeout, forget, on_timeout, stop_waiting,
  on_connection_established,
}
use subsquid_network.RequestClient.Counting.{count, IsDistinct, count-IsDistinct}
use subsquid_network.RequestClient.Forgetting.{lookup-forget}
use subsquid_network.RequestClient.Outcomes.{waiting_for, held, IsSound, outcomes_of}
use subsquid_network.RequestClient.Outcomes.Sending.{
  MayResend, MayResendAll, Keeps, resend_all-Keeps,
}

module _ {Request : Type 0} (i : Requests Request) (t : Timeouts) where
  waits_elsewhere :
      (waiting : List (PeerId × List RequestId)) (p q : PeerId) (id : RequestId)
      → member id (or_else (lookup q (remove p waiting)) [])
        ≡ (if p == q then false else member id (or_else (lookup q waiting) []))
  unfolding member
  waits_elsewhere waiting p q id = elim (==_cases p q) [
    | inl (same, e) ↦ rw (lookup-remove p q waiting, same)
    | inr (other, e) ↦ rw (lookup-remove p q waiting, other)
  ]

  still_waits :
      (s : ClientBehaviour i t) (p q : PeerId) (id : RequestId)
      → member id (or_else (lookup q (remove p s.waiting_for_connection)) []) ≡ true
      → ((p == q) ≡ false) × (member id (waiting_for i t s q) ≡ true)
  still_waits s p q id waits =
      let where_it = waits_elsewhere s.waiting_for_connection p q id in
      elim (Bool-cases (p == q)) [
        | inl same ↦ ground (arith, where_it, waits, same)
        | inr other ↦ (other, ground (arith, where_it, waits, other))
      ]

  remove-IsDistinct :
      (s : ClientBehaviour i t) (p q : PeerId)
      → IsDistinct (waiting_for i t s q)
      → IsDistinct (or_else (lookup q (remove p s.waiting_for_connection)) [])
  remove-IsDistinct s p q h = elim (==_cases p q) [
    | inl (same, e) ↦ rw (lookup-remove p q s.waiting_for_connection, same) tt
    | inr (other, e) ↦ rw (lookup-remove p q s.waiting_for_connection, other) h
  ]

  stop_waiting-IsSound :
      (s : ClientBehaviour i t) (settled : List RequestId) (peer : PeerId)
      → IsSound i t s settled
      → IsSound i t (stop_waiting i t s peer) settled
  unfolding stop_waiting
  stop_waiting-IsSound s settled peer h = record {
    known = h.known;
    apart = h.apart;
    waits_held = λ p id waits. h.waits_held p id (still_waits s peer p id waits).1;
    waits_settled = λ p id waits. h.waits_settled p id (still_waits s peer p id waits).1;
    waits_once = λ p q id waits waits'.
        h.waits_once p q id (still_waits s peer p id waits).1 (still_waits s peer q id waits').1;
    distinct = λ p. remove-IsDistinct s peer p (h.distinct p);
    originals_issued = h.originals_issued;
    resubmitted_issued = h.resubmitted_issued;
    one_each = h.one_each;
  }

  -- What waited for the peer may be sent again.
  waiting-MayResend :
      (s : ClientBehaviour i t) (settled : List RequestId) (peer : PeerId) (id : RequestId)
      → IsSound i t s settled
      → member id (waiting_for i t s peer) ≡ true
      → MayResend i t (stop_waiting i t s peer) settled id
  unfolding stop_waiting
  waiting-MayResend s settled peer id h waits = (
    h.waits_settled peer id waits,
    λ q.
        elim (Bool-cases
          (member id (or_else (lookup q (remove peer s.waiting_for_connection)) []))) [
            | inl waits' ↦
                let (other, waits_q) = still_waits s peer q id waits' in
                ground (arith, other, h.waits_once peer q id waits waits_q, ==_refl q)
            | inr not_there ↦ not_there
          ],
  )

  all-MayResend :
      (s : ClientBehaviour i t) (settled : List RequestId) (ids : List RequestId)
      → ((id : RequestId) → member id ids ≡ true → MayResend i t s settled id)
      → MayResendAll i t s settled ids
  unfolding MayResendAll member
  all-MayResend s settled [] h = tt
  all-MayResend s settled (id ∷ ids) h =
      (h id (rw (==_refl id)), all-MayResend s settled ids λ j m. h j (ground (arith, m)))

  pub on_connection_established-Keeps :
      (s : ClientBehaviour i t) (settled : List RequestId) (peer : PeerId)
      → IsSound i t s settled
      → Keeps i t s settled (on_connection_established i t s peer)
  unfolding on_connection_established
  on_connection_established-Keeps s settled peer h =
      let s' = stop_waiting i t s peer in
      let sent =
        resend_all-Keeps i t s' settled peer (waiting_for i t s peer)
          (all-MayResend s' settled (waiting_for i t s peer)
            λ id waits. waiting-MayResend s settled peer id h waits)
          (stop_waiting-IsSound s settled peer h) in
      (sent.0, sent.1)

  has_key-forget :
      (ids : List RequestId) (j : RequestId) (m : List (RequestId × Request))
      → has_key j (forget i t ids m) ≡ (if member j ids then false else has_key j m)
  has_key-forget ids j m = ground (arith, lookup-forget i t ids j m)

  outcomes_of-timeouts :
      (Response : Type 0) (peer : PeerId) (ids : List RequestId)
      → outcomes_of {Response = Response} (map (λ id. timeout peer id) ids) ≡ ids
  unfolding outcomes_of
  outcomes_of-timeouts Response peer [] = refl
  outcomes_of-timeouts Response peer (id ∷ ids) =
      ap (λ rest. id ∷ rest) (outcomes_of-timeouts Response peer ids)

  pub on_timeout-IsSound :
      (Response : Type 0) (s : ClientBehaviour i t) (settled : List RequestId) (peer : PeerId)
      → IsSound i t s settled
      → IsSound i t (on_timeout i t {Response = Response} s peer).1 settled
  unfolding on_timeout
  on_timeout-IsSound Response s settled peer h =
      let ids = waiting_for i t s peer in
      record {
        known = λ id issued unsettled. elim (h.known id issued unsettled) [
          | inl original ↦ elim (Bool-cases (member id ids)) [
            | inl waits ↦ ground (arith, h.waits_settled peer id waits, unsettled)
            | inr kept ↦
                inl (ground (arith, original, kept, has_key-forget ids id s.original_requests))
          ]
          | inr resubmitted ↦ inr resubmitted
        ];
        apart = λ id resubmitted.
            ground (arith, h.apart id resubmitted, has_key-forget ids id s.original_requests);
        waits_held = λ p id waits.
            let (other, waits_p) = still_waits s peer p id waits in
            elim (Bool-cases (member id ids)) [
              | inl waits_peer ↦
                  ground (arith, other, h.waits_once peer p id waits_peer waits_p, ==_refl p)
              | inr kept ↦ ground (
                arith,
                kept,
                h.waits_held p id waits_p,
                has_key-forget ids id s.original_requests,
              )
            ];
        waits_settled = λ p id waits. h.waits_settled p id (still_waits s peer p id waits).1;
        waits_once = λ p q id waits waits'.
            h.waits_once p q id (still_waits s peer p id waits).1
              (still_waits s peer q id waits').1;
        distinct = λ p. remove-IsDistinct s peer p (h.distinct p);
        originals_issued = λ id original.
            h.originals_issued id
              (ground (arith, original, has_key-forget ids id s.original_requests));
        resubmitted_issued = h.resubmitted_issued;
        one_each = h.one_each;
      }

  pub on_timeout-held :
      (Response : Type 0) (s : ClientBehaviour i t) (settled : List RequestId) (peer : PeerId)
      (a : RequestId)
      → IsSound i t s settled
      → let out = on_timeout i t {Response = Response} s peer in
        count a (outcomes_of out.0) + held i t out.1 a ≡ held i t s a
  unfolding on_timeout
  on_timeout-held Response s settled peer a h =
      let ids = waiting_for i t s peer in
      rw (outcomes_of-timeouts Response peer ids, count-IsDistinct a ids (h.distinct peer))
        (ground (arith, h.waits_held peer a, has_key-forget ids a s.original_requests))
