-- ===== src/RequestClient/Forgetting.antt =====
-- transport/src/behaviour/request_client.rs: the requests that a timed-out lookup gives up.
use subsquid_network.Base.{
  ◌≡◌, refl, none, some, List, [], ◌∷◌, map, lookup, remove, member, if◌then◌else◌, eq_of_nat,
  ==_cases, inl, inr, lookup-remove, lookup-remove_self, arith,
}
use subsquid_network.Messages.{PeerId}
use subsquid_network.Timeouts.{Timeouts}
use subsquid_network.RequestClient.{
  RequestId, Requests, ClientBehaviour, timeout, forget, on_timeout,
}

module _ {Request : Type 0} (i : Requests Request) (t : Timeouts) where
  pub lookup-forget :
      (ids : List RequestId) (j : RequestId) (m : List (RequestId × Request))
      → lookup j (forget i t ids m) ≡ (if member j ids then none else lookup j m)
  unfolding forget member
  lookup-forget [] j m = refl
  lookup-forget (id ∷ ids) j m = elim (==_cases id j) [
    | inl (same, p) ↦
        rw (lookup-forget ids j (remove id m), lookup-remove id j m, same) (ground arith)
    | inr (other, p) ↦ rw (lookup-forget ids j (remove id m), lookup-remove id j m, other)
  ]

  -- When the lookup of a peer times out, each request that waits for it is reported once as timed
  -- out, those requests are forgotten and no other is, and the peer is waited for no more.
  pub on_timeout-dropped :
      {Response : Type 0} (s : ClientBehaviour i t) (peer : PeerId) (ids : List RequestId)
      → lookup peer s.waiting_for_connection ≡ some ids
      → let out = on_timeout i t {Response = Response} s peer in
        (out.0 ≡ map (λ id. timeout peer id) ids)
        × (lookup peer out.1.waiting_for_connection ≡ none)
        × ((j : RequestId)
            → lookup j out.1.original_requests
              ≡ (if member j ids then none else lookup j s.original_requests))
  unfolding on_timeout
  on_timeout-dropped s peer ids w = rw w (
    refl,
    lookup-remove_self peer s.waiting_for_connection,
    λ j. lookup-forget ids j s.original_requests,
  )
