-- ===== src/BaseBehaviour/Lookups.antt =====
-- transport/src/behaviour/base.rs: looking a peer up, and dialling it.
use subsquid_network.Base.{
  ◌≡◌, refl, true, false, none, some, List, [], ◌∷◌, ◌++◌, if◌then◌else◌, or_else, lookup, has_key,
  keep, eq_of_nat, ◌==◌, ==_cases, ==_refl, inl, inr, arith,
}
use subsquid_network.Messages.{PeerId}
use subsquid_network.Timeouts.{Timeouts}
use subsquid_network.Addresses.{Lru, put_addrs}
use subsquid_network.BaseBehaviour.{
  QueryId, Kademlia, ClosestPeers, PeerInfo, closest_peers, dial, BaseBehaviour, bimap_insert,
  peer_of_query, remove_query, find_peer, peers_of, find_and_dial, peer_found, on_kademlia_event,
}

lookup-keep_other :
    (peer : PeerId) (id : QueryId) (pairs : List (PeerId × QueryId))
    → lookup peer
        (keep (λ p. if p.0 == peer then false else if p.1 == id then false else true) pairs)
      ≡ none
unfolding lookup keep
lookup-keep_other peer id [] = refl
lookup-keep_other peer id ((p, q) ∷ pairs) = ground (arith, lookup-keep_other peer id pairs)

lookup-keep_query :
    (peer : PeerId) (id : QueryId) (pairs : List (PeerId × QueryId))
    → lookup peer pairs ≡ none
    → lookup peer (keep (λ p. if p.1 == id then false else true) pairs) ≡ none
unfolding lookup keep
lookup-keep_query peer id [] h = refl
lookup-keep_query peer id ((p, q) ∷ pairs) h = ground (arith, lookup-keep_query peer id pairs)

-- A lookup that is over can be started again.
lookup_over :
    (peer : PeerId) (id : QueryId) (pairs : List (PeerId × QueryId))
    → lookup peer (remove_query id (bimap_insert peer id pairs)) ≡ none
unfolding remove_query bimap_insert keep
lookup_over peer id pairs =
    rw (==_refl id) (lookup-keep_query peer id _ (lookup-keep_other peer id pairs))

peer_of_new_query :
    (peer : PeerId) (id : QueryId) (pairs : List (PeerId × QueryId))
    → peer_of_query id (bimap_insert peer id pairs) ≡ some peer
unfolding peer_of_query bimap_insert
peer_of_new_query peer id pairs = rw (==_refl id)

peer_of_query_known :
    (peer : PeerId) (id : QueryId) (pairs : List (PeerId × QueryId))
    → peer_of_query id pairs ≡ some peer
    → has_key peer pairs ≡ true
unfolding peer_of_query lookup
peer_of_query_known peer id [] h = ground arith
peer_of_query_known peer id ((p, q) ∷ pairs) h = elim (==_cases q id) [
  | inl (same, _) ↦ ground (arith, ==_refl peer)
  | inr (other, _) ↦ ground (arith, peer_of_query_known peer id pairs)
]

module _ (k : Kademlia) (t : Timeouts) (l : Lru) where
  kademlia_found :
      (b : BaseBehaviour k t l) (peer : PeerId) (id : QueryId) (result : ClosestPeers)
      (info : PeerInfo)
      → peer_of_query id b.ongoing_queries ≡ some peer
      → find_peer peer (peers_of result) ≡ some info
      → on_kademlia_event k t l b (closest_peers id result) ≡ peer_found k t l b peer id info
  unfolding on_kademlia_event
  kademlia_found b peer id result info ongoing held = rw (ongoing, on_kademlia_event) (rw held)

  with_query : BaseBehaviour k t l → PeerId → BaseBehaviour k t l
  with_query b peer = record b {
    kademlia = (k.get_closest_peers b.kademlia peer).0;
    ongoing_queries = bimap_insert peer (k.get_closest_peers b.kademlia peer).1 b.ongoing_queries;
  }

  find_and_dial_new :
      (b : BaseBehaviour k t l) (peer : PeerId)
      → lookup peer b.ongoing_queries ≡ none
      → find_and_dial k t l b peer ≡ with_query b peer
  unfolding find_and_dial with_query
  find_and_dial_new b peer new = rw new

  -- When no query for the peer is ongoing, a lookup starts one; when its answer holds the peer,
  -- also one that timed out, the peer is dialled, the addresses found are cached for it, and
  -- another lookup can be started.
  pub find_and_dial-found :
      (b : BaseBehaviour k t l) (peer : PeerId) (result : ClosestPeers) (info : PeerInfo)
      → lookup peer b.ongoing_queries ≡ none
      → find_peer peer (peers_of result) ≡ some info
      → let b' = find_and_dial k t l b peer in
        let id = (k.get_closest_peers b.kademlia peer).1 in
        let out = on_kademlia_event k t l b' (closest_peers id result) in
        (out.0 ≡ some (dial peer))
        × (l.peek out.1.address_cache peer
            ≡ some (or_else (l.peek b.address_cache peer) [] ++ info.addrs))
        × (lookup peer out.1.ongoing_queries ≡ none)
  unfolding with_query peer_found put_addrs
  find_and_dial-found b peer result info new held =
      let id = (k.get_closest_peers b.kademlia peer).1 in
      rw (find_and_dial_new b peer new) (
        rw
          (kademlia_found (with_query b peer) peer id result info
            (peer_of_new_query peer id b.ongoing_queries) held)
          (
            refl,
            l.modified b.address_cache peer (λ old. old ++ info.addrs),
            lookup_over peer id b.ongoing_queries,
          ))

  -- When the answer to a query does not hold the peer that it was for, the query stays ongoing:
  -- nothing changes, and a later lookup of that peer does nothing.
  pub on_kademlia_event-not_found :
      (b : BaseBehaviour k t l) (peer : PeerId) (id : QueryId) (result : ClosestPeers)
      → peer_of_query id b.ongoing_queries ≡ some peer
      → find_peer peer (peers_of result) ≡ none
      → (on_kademlia_event k t l b (closest_peers id result) ≡ (none, b))
        × (find_and_dial k t l b peer ≡ b)
  unfolding on_kademlia_event find_and_dial
  on_kademlia_event-not_found b peer id result ongoing missing = (
    rw (ongoing, on_kademlia_event) (rw missing),
    rw (peer_of_query_known peer id b.ongoing_queries ongoing),
  )
