-- ===== src/RequestClient/Outcomes/Settling/Failing.antt =====
-- transport/src/behaviour/request_client.rs: the failure of a request, which is reported, or makes the
-- client wait for the peer.
use subsquid_network.Base.{
  ◌+◌, ◌≡◌, ◌⊎◌, refl, sym, ap, ◌∙◌, true, false, none, List, ◌∷◌, if◌then◌else◌, lookup, insert,
  has_key, member, put, member-put, lookup-insert, eq_of_nat, ◌==◌, ==_cases, Bool-cases,
  Option-cases, inl, inr, arith,
}
use subsquid_network.Messages.{PeerId}
use subsquid_network.Timeouts.{Timeouts}
use subsquid_network.RequestClient.{RequestId, Requests, ClientBehaviour, on_failure, wait_for_peer}
use subsquid_network.RequestClient.Counting.{count, IsDistinct, put-IsDistinct, count_values-remove}
use subsquid_network.RequestClient.Outcomes.{waiting_for, held, IsSound, outcome_of}
use subsquid_network.RequestClient.Outcomes.Settling.{
  unsettled_cases, outcomes_if, IsOpen, waits_other, settled_more, removed-IsSound,
}

module _ {Request : Type 0} (i : Requests Request) (t : Timeouts) where
  -- A request that waits for its peer.
  abbrev waiting : ClientBehaviour i t → PeerId → RequestId → t.Map → ClientBehaviour i t
  waiting s peer id lookups = record s {
    waiting_for_connection = insert peer (put id (waiting_for i t s peer)) s.waiting_for_connection;
    lookup_timeouts = lookups;
  }

  who_waits :
      (s : ClientBehaviour i t) (peer : PeerId) (id : RequestId) (lookups : t.Map) (p : PeerId)
      (j : RequestId)
      → member j (waiting_for i t (waiting s peer id lookups) p) ≡ (
          if peer == p
          then (if id == j then true else member j (waiting_for i t s peer))
          else member j (waiting_for i t s p))
  who_waits s peer id lookups p j = elim (==_cases peer p) [
    | inl (same, e) ↦
        rw (lookup-insert peer p (put id (waiting_for i t s peer)) s.waiting_for_connection, same)
          (member-put id j (waiting_for i t s peer))
    | inr (other, e) ↦
        rw (lookup-insert peer p (put id (waiting_for i t s peer)) s.waiting_for_connection, other)
  ]

  waits_now :
      (s : ClientBehaviour i t) (peer : PeerId) (id : RequestId) (lookups : t.Map) (p : PeerId)
      (j : RequestId)
      → member j (waiting_for i t (waiting s peer id lookups) p) ≡ true
      → ((peer ≡ p) × (id ≡ j)) ⊎ (member j (waiting_for i t s p) ≡ true)
  waits_now s peer id lookups p j waits =
      let rule = who_waits s peer id lookups p j in
      elim (==_cases peer p) [
        | inl (here, e) ↦ elim (==_cases id j) [
          | inl (same, e') ↦ inl (e, e')
          | inr (other, n) ↦ inr (
              ap (λ q. member j (waiting_for i t s q)) (sym e)
              ∙ ground (arith, rule, waits, here, other))
        ]
        | inr (elsewhere, n) ↦ inr (ground (arith, rule, waits, elsewhere))
      ]

  waiting-IsDistinct :
      (s : ClientBehaviour i t) (peer : PeerId) (id : RequestId) (lookups : t.Map) (p : PeerId)
      → IsDistinct (waiting_for i t s peer)
      → IsDistinct (waiting_for i t s p)
      → IsDistinct (waiting_for i t (waiting s peer id lookups) p)
  waiting-IsDistinct s peer id lookups p here there = elim (==_cases peer p) [
    | inl (same, e) ↦
        rw (lookup-insert peer p (put id (waiting_for i t s peer)) s.waiting_for_connection, same)
          (put-IsDistinct id (waiting_for i t s peer) here)
    | inr (other, e) ↦
        rw (lookup-insert peer p (put id (waiting_for i t s peer)) s.waiting_for_connection, other)
          there
  ]

  settled_now :
      (id j : RequestId) (settled : List RequestId) → id ≡ j → member j (id ∷ settled) ≡ true
  unfolding member
  settled_now id j settled same = ground (arith, same)

  not_both : (id j : RequestId) → id ≡ j → ¬ ((id == j) ≡ false)
  not_both id j same other = ground (arith, same, other)

  waiting-IsSound :
      (s : ClientBehaviour i t) (settled : List RequestId) (peer : PeerId) (id : RequestId)
      (lookups : t.Map)
      → IsOpen i t s settled id
      → has_key id s.original_requests ≡ true
      → IsSound i t s settled
      → IsSound i t (waiting s peer id lookups) (id ∷ settled)
  waiting-IsSound s settled peer id lookups is_open original h = record {
    known = λ j issued unsettled. h.known j issued (unsettled_cases id j settled unsettled).1;
    apart = h.apart;
    waits_held = λ p j waits. elim (waits_now s peer id lookups p j waits) [
      | inl (here, same) ↦ ap (λ k. has_key k s.original_requests) (sym same) ∙ original
      | inr before ↦ h.waits_held p j before
    ];
    waits_settled = λ p j waits. elim (waits_now s peer id lookups p j waits) [
      | inl (here, same) ↦ settled_now id j settled same
      | inr before ↦ settled_more i t id j settled (h.waits_settled p j before)
    ];
    waits_once = λ p q j waits waits'. elim (waits_now s peer id lookups p j waits) [
      | inl (here, same) ↦ elim (waits_now s peer id lookups q j waits') [
        | inl (here', same') ↦ sym here ∙ here'
        | inr before' ↦
            absurd (not_both id j same (waits_other i t s settled id q j h is_open.1 before'))
      ]
      | inr before ↦ elim (waits_now s peer id lookups q j waits') [
        | inl (here', same') ↦
            absurd (not_both id j same' (waits_other i t s settled id p j h is_open.1 before))
        | inr before' ↦ h.waits_once p q j before before'
      ]
    ];
    distinct = λ p. waiting-IsDistinct s peer id lookups p (h.distinct peer) (h.distinct p);
    originals_issued = h.originals_issued;
    resubmitted_issued = h.resubmitted_issued;
    one_each = h.one_each;
  }

  -- A failure of a request that was not sent again.
  wait_for_peer-IsSound :
      (Response : Type 0) (s : ClientBehaviour i t) (settled : List RequestId) (peer : PeerId)
      (id : RequestId)
      → IsOpen i t s settled id
      → has_key id s.original_requests ≡ true
      → IsSound i t s settled
      → IsSound i t (wait_for_peer i t {Response = Response} s peer id).1 (id ∷ settled)
  unfolding wait_for_peer
  wait_for_peer-IsSound Response s settled peer id is_open original h =
      elim (Bool-cases (t.contains s.lookup_timeouts peer)) [
        | inl sought ↦
            rw (sought, wait_for_peer)
              (waiting-IsSound s settled peer id s.lookup_timeouts is_open original h)
        | inr new ↦
            rw (new, wait_for_peer)
              (waiting-IsSound s settled peer id (t.try_push s.lookup_timeouts peer).0 is_open
                original h)
      ]

  wait_for_peer-held :
      (Response : Type 0) (s : ClientBehaviour i t) (peer : PeerId) (id a : RequestId)
      → let out = wait_for_peer i t {Response = Response} s peer id in
        count a (outcomes_if out.0) + held i t out.1 a ≡ held i t s a
  unfolding wait_for_peer count outcome_of
  wait_for_peer-held Response s peer id a = elim (Bool-cases (t.contains s.lookup_timeouts peer)) [
    | inl sought ↦ rw (sought, wait_for_peer) (omega arith)
    | inr new ↦ rw (new, wait_for_peer) (omega arith)
  ]

  original_of :
      (s : ClientBehaviour i t) (settled : List RequestId) (id : RequestId)
      → IsOpen i t s settled id
      → lookup id s.resubmitted_requests ≡ none
      → IsSound i t s settled
      → has_key id s.original_requests ≡ true
  original_of s settled id is_open e h = elim (h.known id is_open.0 is_open.1) [
    | inl original ↦ original
    | inr resubmitted ↦ ground (arith, e, resubmitted)
  ]

  pub on_failure-IsSound :
      (Response : Type 0) (s : ClientBehaviour i t) (settled : List RequestId) (peer : PeerId)
      (id : RequestId)
      → IsOpen i t s settled id
      → IsSound i t s settled
      → IsSound i t (on_failure i t {Response = Response} s peer id).1 (id ∷ settled)
  unfolding on_failure
  on_failure-IsSound Response s settled peer id is_open h =
      elim (Option-cases (lookup id s.resubmitted_requests)) [
        | inl e ↦
            rw (e, on_failure)
              (wait_for_peer-IsSound Response s settled peer id is_open
                (original_of s settled id is_open e h) h)
        | inr (old, e) ↦
            rw (e, on_failure)
              (removed-IsSound i t s settled id s.original_requests is_open (λ j other. refl)
                (λ j kept. kept) h)
      ]

  pub on_failure-held :
      (Response : Type 0) (s : ClientBehaviour i t) (settled : List RequestId) (peer : PeerId)
      (id a : RequestId)
      → IsSound i t s settled
      → let out = on_failure i t {Response = Response} s peer id in
        count a (outcomes_if out.0) + held i t out.1 a ≡ held i t s a
  unfolding on_failure count outcome_of
  on_failure-held Response s settled peer id a h =
      elim (Option-cases (lookup id s.resubmitted_requests)) [
        | inl e ↦ rw (e, on_failure) (wait_for_peer-held Response s peer id a)
        | inr (old, e) ↦
            rw (e, on_failure)
              (omega (arith, count_values-remove a id old s.resubmitted_requests h.one_each e))
      ]
