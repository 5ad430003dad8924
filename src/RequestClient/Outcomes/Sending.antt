-- ===== src/RequestClient/Outcomes/Sending.antt =====
-- transport/src/behaviour/request_client.rs: sending and resending keep the maps sound, and hold each
-- request as often as before, but for the one that is taken.
use subsquid_network.Base.{
  ◌+◌, ◌≡◌, refl, sym, subst, ap, ◌∙◌, Bool, true, false, some, List, [], ◌∷◌, lookup, insert,
  remove, has_key, is_some, member, or_else, insert-IsDict, eq_of_nat, ◌==◌, ==_cases, ==_of_ne,
  Option-cases, inl, inr, arith,
}
use subsquid_network.Messages.{PeerId}
use subsquid_network.Timeouts.{Timeouts}
use subsquid_network.RequestClient.{RequestId, Requests, ClientBehaviour, resend, resend_all}
use subsquid_network.RequestClient.Counting.{
  one_if, has_key-insert, has_key-remove, count_values-insert,
}
use subsquid_network.RequestClient.Outcomes.{waiting_for, held, IsSound}

module _ {Request : Type 0} (i : Requests Request) (t : Timeouts) where
  not_issued :
      (s : ClientBehaviour i t) (id : RequestId) (b : Bool)
      → ¬ i.Issued s.inner id
      → (b ≡ true → i.Issued s.inner id)
      → b ≡ false
  not_issued s id true h issued = absurd (h (issued refl))
  not_issued s id false h issued = refl

  not_new :
      (s : ClientBehaviour i t) (peer : PeerId) (request : Request) (id : RequestId)
      → i.Issued s.inner id
      → ((i.send_request s.inner peer request).1 == id) ≡ false
  not_new s peer request id issued =
      ==_of_ne (i.send_request s.inner peer request).1 id
        λ same. i.fresh s.inner peer request (subst (i.Issued s.inner) (sym same) issued)

  -- A request that is taken.
  abbrev pub sent : ClientBehaviour i t → PeerId → Request → ClientBehaviour i t
  sent s peer request = record s {
    inner = (i.send_request s.inner peer request).0;
    original_requests = insert (i.send_request s.inner peer request).1 request s.original_requests;
  }

  pub sent-IsSound :
      (s : ClientBehaviour i t) (settled : List RequestId) (peer : PeerId) (request : Request)
      → IsSound i t s settled
      → IsSound i t (sent s peer request) settled
  sent-IsSound s settled peer request h =
      let new = (i.send_request s.inner peer request).1 in
      record {
        known = λ id issued unsettled. elim (i.issues_one s.inner peer request id issued) [
          | inl same ↦ inl (ground (arith, same, has_key-insert new id request s.original_requests))
          | inr old ↦ elim (h.known id old unsettled) [
            | inl original ↦
                inl (ground (arith, original, has_key-insert new id request s.original_requests))
            | inr resubmitted ↦ inr resubmitted
          ]
        ];
        apart = λ id resubmitted. ground (
          arith,
          h.apart id resubmitted,
          not_new s peer request id (h.resubmitted_issued id resubmitted),
          has_key-insert new id request s.original_requests,
        );
        waits_held = λ p id waits.
            ground
              (arith, h.waits_held p id waits, has_key-insert new id request s.original_requests);
        waits_settled = h.waits_settled;
        waits_once = h.waits_once;
        distinct = h.distinct;
        originals_issued = λ id original. elim (==_cases new id) [
          | inl (same, p) ↦
              subst (i.Issued (i.send_request s.inner peer request).0) p
                (i.issues s.inner peer request)
          | inr (other, p) ↦ i.keeps s.inner peer request id (
              h.originals_issued id (
                ground (arith, original, other, has_key-insert new id request s.original_requests)))
        ];
        resubmitted_issued =
            λ id resubmitted. i.keeps s.inner peer request id (h.resubmitted_issued id resubmitted);
        one_each = h.one_each;
      }

  pub sent-held :
      (s : ClientBehaviour i t) (settled : List RequestId) (peer : PeerId) (request : Request)
      (a : RequestId)
      → IsSound i t s settled
      → held i t (sent s peer request) a
        ≡ held i t s a + one_if ((i.send_request s.inner peer request).1 == a)
  sent-held s settled peer request a h =
      let new = (i.send_request s.inner peer request).1 in
      elim (==_cases new a) [
        | inl (same, p) ↦
            let unheld =
              not_issued s a (has_key a s.original_requests)
                (λ issued. i.fresh s.inner peer request (subst (i.Issued s.inner) (sym p) issued))
                (h.originals_issued a) in
            ground (arith, same, unheld, has_key-insert new a request s.original_requests)
        | inr (other, p) ↦ ground (arith, other, has_key-insert new a request s.original_requests)
      ]

  -- A request that is sent again, under a new ID.
  abbrev resent : ClientBehaviour i t → PeerId → Request → RequestId → ClientBehaviour i t
  resent s peer request old = record s {
    inner = (i.send_request s.inner peer request).0;
    original_requests = remove old s.original_requests;
    resubmitted_requests =
        insert (i.send_request s.inner peer request).1 old s.resubmitted_requests;
  }

  -- An ID that may be sent again: it is settled, and no peer is waited for because of it.
  abbrev pub MayResend : ClientBehaviour i t → List RequestId → RequestId → Type 0
  MayResend s settled old =
      (member old settled ≡ true) × ((p : PeerId) → member old (waiting_for i t s p) ≡ false)

  resent-IsSound :
      (s : ClientBehaviour i t) (settled : List RequestId) (peer : PeerId) (request : Request)
      (old : RequestId)
      → MayResend s settled old
      → IsSound i t s settled
      → IsSound i t (resent s peer request old) settled
  resent-IsSound s settled peer request old may h =
      let new = (i.send_request s.inner peer request).1 in
      record {
        known = λ id issued unsettled. elim (i.issues_one s.inner peer request id issued) [
          | inl same ↦ inr (ground (arith, same, has_key-insert new id old s.resubmitted_requests))
          | inr before ↦ elim (h.known id before unsettled) [
            | inl original ↦ elim (==_cases old id) [
              | inl (same, p) ↦ ground (arith, may.0, unsettled, p)
              | inr (other, p) ↦
                  inl (ground (arith, original, other, has_key-remove old id s.original_requests))
            ]
            | inr resubmitted ↦
                inr (ground (arith, resubmitted, has_key-insert new id old s.resubmitted_requests))
          ]
        ];
        apart = λ id resubmitted. elim (==_cases new id) [
          | inl (same, p) ↦
              let unheld =
                not_issued s id (has_key id s.original_requests)
                  (λ issued. i.fresh s.inner peer request (subst (i.Issued s.inner) (sym p) issued))
                  (h.originals_issued id) in
              ground (arith, unheld, has_key-remove old id s.original_requests)
          | inr (other, p) ↦ ground (
            arith,
            h.apart id (
                ground
                  (arith, resubmitted, other, has_key-insert new id old s.resubmitted_requests)),
            has_key-remove old id s.original_requests,
          )
        ];
        waits_held = λ p id waits. elim (==_cases old id) [
          | inl (same, q) ↦ ground (arith, may.1 p, waits, q)
          | inr (other, q) ↦
              ground
                (arith, other, h.waits_held p id waits, has_key-remove old id s.original_requests)
        ];
        waits_settled = h.waits_settled;
        waits_once = h.waits_once;
        distinct = h.distinct;
        originals_issued = λ id original. i.keeps s.inner peer request id (
            h.originals_issued id
              (ground (arith, original, has_key-remove old id s.original_requests)));
        resubmitted_issued = λ id resubmitted. elim (==_cases new id) [
          | inl (same, p) ↦
              subst (i.Issued (i.send_request s.inner peer request).0) p
                (i.issues s.inner peer request)
          | inr (other, p) ↦ i.keeps s.inner peer request id (
              h.resubmitted_issued id (
                ground
                  (arith, resubmitted, other, has_key-insert new id old s.resubmitted_requests)))
        ];
        one_each = insert-IsDict new old s.resubmitted_requests h.one_each;
      }

  resent-held :
      (s : ClientBehaviour i t) (settled : List RequestId) (peer : PeerId) (request : Request)
      (old a : RequestId)
      → lookup old s.original_requests ≡ some request
      → IsSound i t s settled
      → held i t (resent s peer request old) a ≡ held i t s a
  resent-held s settled peer request old a e h =
      let new = (i.send_request s.inner peer request).1 in
      let fresh =
        not_issued s new (has_key new s.resubmitted_requests) (i.fresh s.inner peer request)
          (h.resubmitted_issued new) in
      let counted = count_values-insert a new old s.resubmitted_requests fresh in
      elim (==_cases old a) [
        | inl (same, p) ↦
            let has_it = ap is_some (ap (λ id. lookup id s.original_requests) (sym p) ∙ e) in
            ground (arith, same, counted, has_it, has_key-remove old a s.original_requests)
        | inr (other, p) ↦ ground (arith, other, counted, has_key-remove old a s.original_requests)
      ]

  -- The loop over the requests that waited for a peer.
  unfoldable pub MayResendAll : ClientBehaviour i t → List RequestId → List RequestId → Type 0
  MayResendAll s settled [] = Unit
  MayResendAll s settled (old ∷ ids) = MayResend s settled old × MayResendAll s settled ids

  -- Sound, and each request is held as often as in `before`.
  abbrev pub Keeps : ClientBehaviour i t → List RequestId → ClientBehaviour i t → Type 0
  Keeps before settled after =
      IsSound i t after settled × ((a : RequestId) → held i t after a ≡ held i t before a)

  resend-Keeps :
      (s : ClientBehaviour i t) (settled : List RequestId) (peer : PeerId) (old : RequestId)
      → MayResend s settled old
      → IsSound i t s settled
      → Keeps s settled (resend i t peer s old)
  unfolding resend
  resend-Keeps s settled peer old may h = elim (Option-cases (lookup old s.original_requests)) [
    | inl e ↦ rw (e, resend) (h, λ a. refl)
    | inr (request, e) ↦
        rw (e, resend)
          (
            resent-IsSound s settled peer request old may h,
            λ a. resent-held s settled peer request old a e h,
          )
  ]

  resend_waiting :
      (s : ClientBehaviour i t) (peer : PeerId) (old : RequestId)
      → (resend i t peer s old).waiting_for_connection ≡ s.waiting_for_connection
  unfolding resend
  resend_waiting s peer old = elim (Option-cases (lookup old s.original_requests)) [
    | inl e ↦ rw (e, resend)
    | inr (request, e) ↦ rw (e, resend)
  ]

  resend-MayResendAll :
      (s : ClientBehaviour i t) (settled : List RequestId) (peer : PeerId) (old : RequestId)
      (ids : List RequestId)
      → MayResendAll s settled ids
      → MayResendAll (resend i t peer s old) settled ids
  unfolding MayResendAll
  resend-MayResendAll s settled peer old [] may = tt
  resend-MayResendAll s settled peer old (id ∷ ids) may = (
    (
      may.0.0,
      λ p. ap (λ w. member id (or_else (lookup p w) [])) (resend_waiting s peer old) ∙ may.0.1 p,
    ),
    resend-MayResendAll s settled peer old ids may.1,
  )

  pub resend_all-Keeps :
      (s : ClientBehaviour i t) (settled : List RequestId) (peer : PeerId) (ids : List RequestId)
      → MayResendAll s settled ids
      → IsSound i t s settled
      → Keeps s settled (resend_all i t peer s ids)
  unfolding resend_all MayResendAll
  resend_all-Keeps s settled peer [] may h = (h, λ a. refl)
  resend_all-Keeps s settled peer (id ∷ ids) may h =
      let first = resend-Keeps s settled peer id may.0 h in
      let rest =
        resend_all-Keeps (resend i t peer s id) settled peer ids
          (resend-MayResendAll s settled peer id ids may.1) first.0 in
      (rest.0, λ a. rest.1 a ∙ first.1 a)
