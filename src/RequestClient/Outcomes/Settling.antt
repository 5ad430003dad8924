-- ===== src/RequestClient/Outcomes/Settling.antt =====
-- transport/src/behaviour/request_client.rs: the answer to a request.
pub mod Failing
use subsquid_network.Base.{
  ◌+◌, ◌≡◌, ◌⊎◌, refl, sym, ap, ◌∙◌, true, false, Option, none, some, List, [], ◌∷◌, if◌then◌else◌,
  lookup, insert, remove, has_key, is_some, member, put, member-put, remove-IsDict, remove_absent,
  lookup-insert, eq_of_nat, ◌==◌, ==_cases, Bool-cases, Option-cases, inl, inr, arith,
}
use subsquid_network.Messages.{PeerId}
use subsquid_network.Timeouts.{Timeouts}
use subsquid_network.RequestClient.{
  RequestId, Requests, ClientBehaviour, ClientEvent, on_success, on_failure, wait_for_peer,
}
use subsquid_network.RequestClient.Counting.{
  one_if, count, count_values, IsDistinct, put-IsDistinct, has_key-remove, count_values-remove,
}
use subsquid_network.RequestClient.Outcomes.{waiting_for, held, IsSound, outcome_of}

pub unsettled_cases :
    (id j : RequestId) (settled : List RequestId)
    → member j (id ∷ settled) ≡ false
    → ((id == j) ≡ false) × (member j settled ≡ false)
unfolding member
unsettled_cases id j settled h = elim (Bool-cases (id == j)) [
  | inl same ↦ ground (arith, h, same)
  | inr other ↦ (other, ground (arith, h, other))
]

-- The outcomes among no event or one.
abbrev pub outcomes_if : {Response : Type 0} → Option (ClientEvent Response) → List RequestId
outcomes_if none = []
outcomes_if (some ev) = outcome_of ev

module _ {Request : Type 0} (i : Requests Request) (t : Timeouts) where
  -- An ID whose outcome the inner behaviour may give: one that it issued and gave none of.
  abbrev pub IsOpen : ClientBehaviour i t → List RequestId → RequestId → Type 0
  IsOpen s settled id = i.Issued s.inner id × (member id settled ≡ false)

  -- A request that waits is not the one whose outcome comes.
  pub waits_other :
      (s : ClientBehaviour i t) (settled : List RequestId) (id : RequestId) (p : PeerId)
      (j : RequestId)
      → IsSound i t s settled
      → member id settled ≡ false
      → member j (waiting_for i t s p) ≡ true
      → (id == j) ≡ false
  waits_other s settled id p j h unsettled waits = elim (==_cases id j) [
    | inl (same, e) ↦ ground (arith, h.waits_settled p j waits, unsettled, e)
    | inr (other, e) ↦ other
  ]

  pub settled_more :
      (id j : RequestId) (settled : List RequestId)
      → member j settled ≡ true
      → member j (id ∷ settled) ≡ true
  unfolding member
  settled_more id j settled h = ground (arith, h)

  -- Both outcomes take the ID out of the resubmitted requests, and a success also out of the others.
  pub removed-IsSound :
      (s : ClientBehaviour i t) (settled : List RequestId) (id : RequestId)
      (originals : List (RequestId × Request))
      → IsOpen s settled id
      → ((j : RequestId) → (id == j) ≡ false → has_key j originals ≡ has_key j s.original_requests)
      → ((j : RequestId) → has_key j originals ≡ true → has_key j s.original_requests ≡ true)
      → IsSound i t s settled
      → IsSound i t
          (record s {
            original_requests = originals;
            resubmitted_requests = remove id s.resubmitted_requests;
          })
          (id ∷ settled)
  removed-IsSound s settled id originals is_open others fewer h = record {
    known = λ j issued unsettled.
        let (other, before) = unsettled_cases id j settled unsettled in
        elim (h.known j issued before) [
          | inl original ↦ inl (others j other ∙ original)
          | inr resubmitted ↦
              inr (ground (arith, resubmitted, other, has_key-remove id j s.resubmitted_requests))
        ];
    apart = λ j resubmitted.
        let before =
          h.apart j (ground (arith, resubmitted, has_key-remove id j s.resubmitted_requests)) in
        ground (arith, before, fewer j);
    waits_held = λ p j waits.
        others j (waits_other s settled id p j h is_open.1 waits) ∙ h.waits_held p j waits;
    waits_settled = λ p j waits. settled_more id j settled (h.waits_settled p j waits);
    waits_once = h.waits_once;
    distinct = h.distinct;
    originals_issued = λ j original. h.originals_issued j (fewer j original);
    resubmitted_issued = λ j resubmitted.
        h.resubmitted_issued j
          (ground (arith, resubmitted, has_key-remove id j s.resubmitted_requests));
    one_each = remove-IsDict id s.resubmitted_requests h.one_each;
  }

  pub on_success-IsSound :
      {Response : Type 0} (s : ClientBehaviour i t) (settled : List RequestId) (peer : PeerId)
      (id : RequestId) (answer : Response)
      → IsOpen s settled id
      → IsSound i t s settled
      → IsSound i t (on_success i t s peer id answer).1 (id ∷ settled)
  unfolding on_success
  on_success-IsSound s settled peer id answer is_open h =
      removed-IsSound s settled id (remove id s.original_requests) is_open
        (λ j other. ground (arith, other, has_key-remove id j s.original_requests))
        (λ j kept. ground (arith, kept, has_key-remove id j s.original_requests)) h

  first_outcome :
      (s : ClientBehaviour i t) (id a : RequestId)
      → has_key id s.original_requests ≡ true
      → one_if (id == a)
          + 0
          + (one_if (has_key a (remove id s.original_requests))
              + count_values a s.resubmitted_requests)
        ≡ held i t s a
  first_outcome s id a original = elim (==_cases id a) [
    | inl (same, p) ↦ ground (arith, same, p, original, has_key-remove id a s.original_requests)
    | inr (other, p) ↦ ground (arith, other, has_key-remove id a s.original_requests)
  ]

  second_outcome :
      (s : ClientBehaviour i t) (id old a : RequestId)
      → has_key id s.original_requests ≡ false
      → count_values a (remove id s.resubmitted_requests) + one_if (old == a)
        ≡ count_values a s.resubmitted_requests
      → one_if (old == a)
          + 0
          + (one_if (has_key a (remove id s.original_requests))
              + count_values a (remove id s.resubmitted_requests))
        ≡ held i t s a
  second_outcome s id old a unheld counted = elim (==_cases id a) [
    | inl (same, p) ↦
        ground (arith, same, p, unheld, counted, has_key-remove id a s.original_requests)
    | inr (other, p) ↦ ground (arith, other, counted, has_key-remove id a s.original_requests)
  ]

  pub on_success-held :
      {Response : Type 0} (s : ClientBehaviour i t) (settled : List RequestId) (peer : PeerId)
      (id : RequestId) (answer : Response) (a : RequestId)
      → IsOpen s settled id
      → IsSound i t s settled
      → let out = on_success i t s peer id answer in
        count a (outcomes_if out.0) + held i t out.1 a ≡ held i t s a
  unfolding on_success count outcome_of
  on_success-held s settled peer id answer a is_open h =
      elim (Option-cases (lookup id s.resubmitted_requests)) [
        | inl e ↦ elim (h.known id is_open.0 is_open.1) [
          | inl original ↦
              rw (e, remove_absent id s.resubmitted_requests e) (first_outcome s id a original)
          | inr resubmitted ↦ ground (arith, e, resubmitted)
        ]
        | inr (old, e) ↦
            let unheld = h.apart id (ap is_some e) in
            rw e (
              second_outcome s id old a unheld
                (count_values-remove a id old s.resubmitted_requests h.one_each e))
      ]
