-- ===== src/RequestClient/Resending.antt =====
-- transport/src/behaviour/request_client.rs: what becomes of the requests that wait for a peer.
use subsquid_network.Base.{
  ◌≡◌, refl, sym, ap, subst, ◌∙◌, true, false, none, some, List, [], ◌∷◌, ◌++◌, lookup, remove,
  member, eq_of_nat, ◌==◌, ==_cases, ==_of_ne, Option-cases, inl, inr, lookup-insert,
  lookup-insert_self, lookup-remove, arith,
}
use subsquid_network.Messages.{PeerId}
use subsquid_network.Timeouts.{Timeouts}
use subsquid_network.RequestClient.{
  RequestId, Requests, ClientBehaviour, response, timeout, resend, resend_all, stop_waiting,
  on_connection_established, on_success, on_failure,
}

module _ {Request : Type 0} (i : Requests Request) (t : Timeouts) where
  -- `new` stands for `old`: it was issued, and the client has it as the new ID of `old`.
  record Renamed (s : ClientBehaviour i t) (old new : RequestId) : Type 0 where
    issued : i.Issued s.inner new
    known : lookup new s.resubmitted_requests ≡ some old

  resend_issued :
      (peer : PeerId) (s : ClientBehaviour i t) (id j : RequestId)
      → i.Issued s.inner j
      → i.Issued (resend i t peer s id).inner j
  unfolding resend
  resend_issued peer s id j h = elim (Option-cases (lookup id s.original_requests)) [
    | inl e ↦ rw (e, resend) h
    | inr (r, e) ↦ rw (e, resend) (i.keeps s.inner peer r j h)
  ]

  pub resend_all_issued :
      (peer : PeerId) (s : ClientBehaviour i t) (ids : List RequestId) (j : RequestId)
      → i.Issued s.inner j
      → i.Issued (resend_all i t peer s ids).inner j
  unfolding resend_all
  resend_all_issued peer s [] j h = h
  resend_all_issued peer s (id ∷ ids) j h =
      resend_all_issued peer (resend i t peer s id) ids j (resend_issued peer s id j h)

  resend-Renamed :
      (peer : PeerId) (s : ClientBehaviour i t) (id old new : RequestId)
      → Renamed s old new
      → Renamed (resend i t peer s id) old new
  unfolding resend
  resend-Renamed peer s id old new h = elim (Option-cases (lookup id s.original_requests)) [
    | inl e ↦ rw (e, resend) h
    | inr (r, e) ↦
        let other =
          ==_of_ne (i.send_request s.inner peer r).1 new
            λ same. i.fresh s.inner peer r (subst (i.Issued s.inner) (sym same) h.issued) in
        rw (e, resend)
          (record {
            issued = i.keeps s.inner peer r new h.issued;
            known =
                lookup-insert (i.send_request s.inner peer r).1 new id s.resubmitted_requests
                ∙ rw other h.known;
          })
  ]

  resend_all-Renamed :
      (peer : PeerId) (s : ClientBehaviour i t) (ids : List RequestId) (old new : RequestId)
      → Renamed s old new
      → Renamed (resend_all i t peer s ids) old new
  unfolding resend_all
  resend_all-Renamed peer s [] old new h = h
  resend_all-Renamed peer s (id ∷ ids) old new h =
      resend_all-Renamed peer (resend i t peer s id) ids old new
        (resend-Renamed peer s id old new h)

  -- The requests that the client holds under these IDs, each taken once.
  unfoldable pub held_of : List RequestId → List (RequestId × Request) → List Request
  held_of [] requests = []
  held_of (id ∷ ids) requests =
      let rest = held_of ids (remove id requests) in
      elim (lookup id requests) [ none ↦ held_of ids requests | some r ↦ r ∷ rest ]

  -- The request-response behaviour once these requests were given to it for the peer, in this order.
  unfoldable pub sends : i.Inner → PeerId → List Request → i.Inner
  sends inner peer [] = inner
  sends inner peer (r ∷ requests) = sends (i.send_request inner peer r).0 peer requests

  resend-none :
      (peer : PeerId) (s : ClientBehaviour i t) (id : RequestId)
      → lookup id s.original_requests ≡ none
      → resend i t peer s id ≡ s
  unfolding resend
  resend-none peer s id e = rw (e, resend)

  resend_inner :
      (peer : PeerId) (s : ClientBehaviour i t) (id : RequestId) (r : Request)
      → lookup id s.original_requests ≡ some r
      → (resend i t peer s id).inner ≡ (i.send_request s.inner peer r).0
  unfolding resend
  resend_inner peer s id r e = rw (e, resend)

  resend_requests :
      (peer : PeerId) (s : ClientBehaviour i t) (id : RequestId) (r : Request)
      → lookup id s.original_requests ≡ some r
      → (resend i t peer s id).original_requests ≡ remove id s.original_requests
  unfolding resend
  resend_requests peer s id r e = rw (e, resend)

  -- All of the buffered requests that are held are given to the behaviour for the peer, once each, and
  -- nothing else is.
  resend_all-sends :
      (peer : PeerId) (s : ClientBehaviour i t) (ids : List RequestId)
      → (resend_all i t peer s ids).inner ≡ sends s.inner peer (held_of ids s.original_requests)
  unfolding resend_all held_of sends
  resend_all-sends peer s [] = refl
  resend_all-sends peer s (id ∷ ids) = elim (Option-cases (lookup id s.original_requests)) [
    | inl e ↦
        ap (λ s'. (resend_all i t peer s' ids).inner) (resend-none peer s id e)
        ∙ rw (e, held_of) (resend_all-sends peer s ids)
    | inr (r, e) ↦
        resend_all-sends peer (resend i t peer s id) ids
        ∙ rw (resend_inner peer s id r e, resend_requests peer s id r e, e, held_of)
  ]

  -- A request that is held is sent again, among the buffered ones, and gets the ID that this gives.
  record Resent (peer : PeerId) (before after : ClientBehaviour i t) (ids : List RequestId)
      (old : RequestId) (r : Request) : Type 0 where
    earlier : List Request
    later : List Request
    split : held_of ids before.original_requests ≡ earlier ++ r ∷ later
    new : RequestId
    is_new : (i.send_request (sends before.inner peer earlier) peer r).1 ≡ new
    fresh : ¬ i.Issued before.inner new
    renamed : Renamed after old new

  resend_first :
      (peer : PeerId) (s : ClientBehaviour i t) (id : RequestId) (r : Request)
      → lookup id s.original_requests ≡ some r
      → Renamed (resend i t peer s id) id (i.send_request s.inner peer r).1
  unfolding resend
  resend_first peer s id r e =
      rw (e, resend)
        (record {
          issued = i.issues s.inner peer r;
          known = lookup-insert_self (i.send_request s.inner peer r).1 id s.resubmitted_requests;
        })

  resend_other :
      (peer : PeerId) (s : ClientBehaviour i t) (id j : RequestId)
      → (id == j) ≡ false
      → lookup j (resend i t peer s id).original_requests ≡ lookup j s.original_requests
  unfolding resend
  resend_other peer s id j ne = elim (Option-cases (lookup id s.original_requests)) [
    | inl e ↦ rw (e, resend)
    | inr (r, e) ↦ rw (e, resend) (lookup-remove id j s.original_requests ∙ rw ne)
  ]

  -- What was sent after the first of the buffered requests was sent with it.
  Resent-earlier :
      (peer : PeerId) (s after : ClientBehaviour i t) (j : RequestId) (ids : List RequestId)
      (old : RequestId) (r : Request)
      → Resent peer (resend i t peer s j) after ids old r
      → Resent peer s after (j ∷ ids) old r
  unfolding held_of sends
  Resent-earlier peer s after j ids old r h = elim (Option-cases (lookup j s.original_requests)) [
    | inl e ↦
        let same = subst (λ s'. Resent peer s' after ids old r) (resend-none peer s j e) h in
        record {
          earlier = same.earlier;
          later = same.later;
          split = rw (e, held_of) same.split;
          new = same.new;
          is_new = same.is_new;
          fresh = same.fresh;
          renamed = same.renamed;
        }
    | inr (q, e) ↦ record {
      earlier = q ∷ h.earlier;
      later = h.later;
      split = rw (e, held_of) (ap (λ rest. q ∷ rest) (rw (← resend_requests peer s j q e) h.split));
      new = h.new;
      is_new =
          ap (λ inner. (i.send_request (sends inner peer h.earlier) peer r).1)
            (sym (resend_inner peer s j q e))
          ∙ h.is_new;
      fresh = λ old_one. h.fresh (resend_issued peer s j h.new old_one);
      renamed = h.renamed;
    }
  ]

  resend_all-Resent :
      (peer : PeerId) (s : ClientBehaviour i t) (ids : List RequestId) (id : RequestId)
      (r : Request)
      → member id ids ≡ true
      → lookup id s.original_requests ≡ some r
      → Resent peer s (resend_all i t peer s ids) ids id r
  unfolding resend_all member held_of sends
  resend_all-Resent peer s [] id r m e = ground arith
  resend_all-Resent peer s (j ∷ ids) id r m e = elim (==_cases j id) [
    | inl (same, p) ↦
        let held : lookup j s.original_requests ≡ some r = rw p e in
        let renamed =
          resend_all-Renamed peer (resend i t peer s j) ids j (i.send_request s.inner peer r).1
            (resend_first peer s j r held) in
        record {
          earlier = [];
          later = held_of ids (remove j s.original_requests);
          split = rw (held, held_of);
          new = (i.send_request s.inner peer r).1;
          is_new = refl;
          fresh = i.fresh s.inner peer r;
          renamed =
              subst
                (λ k.
                  Renamed (resend_all i t peer (resend i t peer s j) ids) k
                    (i.send_request s.inner peer r).1)
                p renamed;
        }
    | inr (other, ne) ↦
        Resent-earlier peer s (resend_all i t peer (resend i t peer s j) ids) j ids id r (
          resend_all-Resent peer (resend i t peer s j) ids id r (ground arith)
            (resend_other peer s j id other ∙ e))
  ]

  -- When a peer connects, the requests that wait for it and that the client holds are given to the
  -- request-response behaviour for that peer, once each and in their order, and nothing else is. Each
  -- of them has the ID that this gives, which was never given before, and what comes of that, an
  -- answer or a failure, reaches the caller under the ID that the request was given at first.
  pub on_connection_established-answered :
      {Response : Type 0} (s : ClientBehaviour i t) (peer : PeerId) (ids : List RequestId)
      (id : RequestId) (r : Request)
      → lookup peer s.waiting_for_connection ≡ some ids
      → member id ids ≡ true
      → lookup id s.original_requests ≡ some r
      → let s' = on_connection_established i t s peer in
        let sent = held_of ids s.original_requests in
        (s'.inner ≡ sends s.inner peer sent)
        × ((new : RequestId) × (earlier : List Request) × (later : List Request) × (sent
              ≡ earlier ++ r ∷ later)
            × ((i.send_request (sends s.inner peer earlier) peer r).1 ≡ new)
            × (¬ i.Issued s.inner new)
            × ((answer : Response)
                → (on_success i t s' peer new answer).0 ≡ some (response peer id answer))
            × ((on_failure i t {Response = Response} s' peer new).0 ≡ some (timeout peer id)))
  unfolding stop_waiting on_connection_established on_success on_failure
  on_connection_established-answered s peer ids id r w m e =
      let resent = resend_all-Resent peer (stop_waiting i t s peer) ids id r m e in
      rw w (
        resend_all-sends peer (stop_waiting i t s peer) ids,
        (
          resent.new,
          resent.earlier,
          resent.later,
          resent.split,
          resent.is_new,
          resent.fresh,
          λ answer. rw (resent.renamed.known, on_success),
          rw (resent.renamed.known, on_failure),
        ),
      )
