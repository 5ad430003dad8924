-- ===== src/BaseBehaviour/Probes/History.antt =====
-- transport/src/behaviour/base.rs: the calls and events that a probe meets, and what each does to it.
use subsquid_network.Base.{
  ◌≡◌, refl, sym, ap, ◌∙◌, Bool, true, false, Option, none, some, List, [], ◌∷◌, ◌++◌,
  if◌then◌else◌, lookup, eq_of_nat, ◌==◌, ==_cases, Option-cases, Bool-cases, inl, inr, arith,
}
use subsquid_network.Messages.{PeerId}
use subsquid_network.Timeouts.{Timeouts}
use subsquid_network.Addresses.{Lru}
use subsquid_network.BaseBehaviour.{
  Kademlia, ConnectedPoint, dialer, listener, KademliaEvent, closest_peers, other_kademlia_event,
  IdentifyEvent, received, other_identify_event, BaseBehaviour, ToSwarm, generate_event, dial, ping,
  worker_query_logs, logs_collected, peer_probed, peer_protocols, peer_of_query, find_peer,
  peers_of, peer_found, find_and_dial, try_probe_peer, on_connection_established,
  on_connection_closed, on_probe_timeout, on_identify_event, on_kademlia_event,
}
use subsquid_network.BaseBehaviour.Probes.{find_and_dial-probe_timeouts, try_probe_peer-other}

pub data Call : Type 0 where
  probe look_up expired : PeerId → Call
  opened closed : PeerId → ConnectedPoint → Call
  identify_event : IdentifyEvent → Call
  kademlia_event : KademliaEvent → Call

-- What the swarm is told of a peer: whether it is reachable, if anything.
abbrev pub told_of : PeerId → Option ToSwarm → List Bool
told_of p none = []
told_of p (some (dial q)) = []
told_of p (some (generate_event (peer_probed q reachable))) = if q == p then reachable ∷ [] else []
told_of p (some (generate_event (ping q msg))) = []
told_of p (some (generate_event (worker_query_logs q logs))) = []
told_of p (some (generate_event (logs_collected q msg))) = []
told_of p (some (generate_event (peer_protocols q protocols))) = []

-- What ends a probe: an outbound connection to the peer, or the timeout.
unfoldable pub settles : PeerId → Call → Option Bool
settles p (opened q dialer) = if q == p then some true else none
settles p (expired q) = if q == p then some false else none
settles p (opened q listener) = none
settles p (probe q) = none
settles p (look_up q) = none
settles p (closed q endpoint) = none
settles p (identify_event ev) = none
settles p (kademlia_event ev) = none

unfoldable pub first_answer : PeerId → List Call → List Bool
unfolding settles
first_answer p [] = []
first_answer p (call ∷ calls) =
    let rest = first_answer p calls in elim (settles p call) [ none ↦ rest | some r ↦ r ∷ [] ]

module _ (k : Kademlia) (t : Timeouts) (l : Lru) (private_network : Bool) where
  unfoldable pub step : BaseBehaviour k t l → Call → Option ToSwarm × BaseBehaviour k t l
  step b (probe q) = (none, (try_probe_peer k t l b q).1)
  step b (look_up q) = (none, find_and_dial k t l b q)
  step b (expired q) = let (out, b') = on_probe_timeout k t l b q in (some out, b')
  step b (opened q endpoint) = on_connection_established k t l b q endpoint
  step b (closed q endpoint) = (none, on_connection_closed k t l b q endpoint)
  step b (identify_event ev) = on_identify_event k t l private_network b ev
  step b (kademlia_event ev) = on_kademlia_event k t l b ev

  unfoldable pub reports : PeerId → BaseBehaviour k t l → List Call → List Bool
  unfolding step
  reports p b [] = []
  reports p b (call ∷ calls) = told_of p (step b call).0 ++ reports p (step b call).1 calls

  -- Only a probe that is in the map of timeouts times out, and this peer is not probed again.
  unfoldable pub MayCome : PeerId → BaseBehaviour k t l → Call → Type 0
  MayCome p b (probe q) = (q == p) ≡ false
  MayCome p b (expired q) = t.contains b.probe_timeouts q ≡ true
  MayCome p b (look_up q) = Unit
  MayCome p b (opened q endpoint) = Unit
  MayCome p b (closed q endpoint) = Unit
  MayCome p b (identify_event ev) = Unit
  MayCome p b (kademlia_event ev) = Unit

  unfoldable pub MayAllCome : PeerId → BaseBehaviour k t l → List Call → Type 0
  unfolding step MayCome
  MayAllCome p b [] = Unit
  MayAllCome p b (call ∷ calls) = MayCome p b call × MayAllCome p (step b call).1 calls

  -- The peer's probe, and what is told of it, are as before.
  abbrev pub Untouched :
      PeerId → BaseBehaviour k t l → Option ToSwarm × BaseBehaviour k t l → Type 0
  Untouched p b out =
      (told_of p out.0 ≡ []) × (t.contains out.1.probe_timeouts p ≡ t.contains b.probe_timeouts p)

  opened_other :
      (p : PeerId) (b : BaseBehaviour k t l) (q : PeerId)
      → (q == p) ≡ false
      → Untouched p b (on_connection_established k t l b q dialer)
  unfolding on_connection_established
  opened_other p b q other = elim (Bool-cases (t.remove b.probe_timeouts q).1) [
    | inl probed ↦ (rw (probed, other), t.contains-remove b.probe_timeouts q p ∙ rw other)
    | inr idle ↦ (rw idle, t.contains-remove b.probe_timeouts q p ∙ rw other)
  ]

  opened_inbound :
      (p : PeerId) (b : BaseBehaviour k t l) (q : PeerId)
      → Untouched p b (on_connection_established k t l b q listener)
  unfolding on_connection_established
  opened_inbound p b q = (refl, refl)

  expired_other :
      (p : PeerId) (b : BaseBehaviour k t l) (q : PeerId)
      → (q == p) ≡ false
      → Untouched p b (step b (expired q))
  unfolding step on_probe_timeout
  expired_other p b q other = (rw other, t.contains-expired b.probe_timeouts q p ∙ rw other)

  closed_any :
      (p : PeerId) (b : BaseBehaviour k t l) (q : PeerId) (endpoint : ConnectedPoint)
      → Untouched p b (none, on_connection_closed k t l b q endpoint)
  unfolding on_connection_closed
  closed_any p b q listener = (refl, refl)
  closed_any p b q dialer = elim (Option-cases (lookup q b.outbound_conns)) [
    | inl e ↦ rw (e, on_connection_closed) (refl, refl)
    | inr (x, e) ↦ rw (e, on_connection_closed) (refl, refl)
  ]

  kademlia_any :
      (p : PeerId) (b : BaseBehaviour k t l) (ev : KademliaEvent)
      → Untouched p b (on_kademlia_event k t l b ev)
  unfolding on_kademlia_event peer_found
  kademlia_any p b other_kademlia_event = (refl, refl)
  kademlia_any p b (closest_peers query_id result) =
      elim (Option-cases (peer_of_query query_id b.ongoing_queries)) [
        | inl e ↦ (rw (e, on_kademlia_event, told_of), rw (e, on_kademlia_event))
        | inr (q, e) ↦ elim (Option-cases (find_peer q (peers_of result))) [
          | inl f ↦ (rw (e, f, on_kademlia_event, told_of), rw (e, f, on_kademlia_event))
          | inr (info, f) ↦ (rw (e, f, on_kademlia_event, told_of), rw (e, f, on_kademlia_event))
        ]
      ]

  identify_any :
      (p : PeerId) (b : BaseBehaviour k t l) (ev : IdentifyEvent)
      → Untouched p b (on_identify_event k t l private_network b ev)
  unfolding on_identify_event
  identify_any p b (received q addrs protocols) = (refl, refl)
  identify_any p b other_identify_event = (refl, refl)

  pub untouched :
      (p : PeerId) (b : BaseBehaviour k t l) (call : Call)
      → MayCome p b call
      → settles p call ≡ none
      → Untouched p b (step b call)
  unfolding step MayCome settles
  untouched p b (probe q) may e = (refl, try_probe_peer-other k t l b q p may)
  untouched p b (look_up q) may e =
      (refl, ap (λ m. t.contains m p) (find_and_dial-probe_timeouts k t l b q))
  untouched p b (opened q listener) may e = opened_inbound p b q
  untouched p b (opened q dialer) may e = elim (==_cases q p) [
    | inl (same, x) ↦ ground (arith, e, same)
    | inr (other, x) ↦ opened_other p b q other
  ]
  untouched p b (expired q) may e = elim (==_cases q p) [
    | inl (same, x) ↦ ground (arith, e, same)
    | inr (other, x) ↦ expired_other p b q other
  ]
  untouched p b (closed q endpoint) may e = closed_any p b q endpoint
  untouched p b (identify_event ev) may e = identify_any p b ev
  untouched p b (kademlia_event ev) may e = kademlia_any p b ev

  opened_same :
      (p : PeerId) (b : BaseBehaviour k t l) (q : PeerId) (pending : Bool)
      → (q == p) ≡ true
      → (t.remove b.probe_timeouts q).1 ≡ pending
      → (told_of p (on_connection_established k t l b q dialer).0
          ≡ (if pending then true ∷ [] else []))
        × (t.contains (on_connection_established k t l b q dialer).1.probe_timeouts p ≡ false)
  unfolding on_connection_established
  opened_same p b q true same probed =
      (rw (probed, same), t.contains-remove b.probe_timeouts q p ∙ rw same)
  opened_same p b q false same probed =
      (rw probed, t.contains-remove b.probe_timeouts q p ∙ rw same)

  expired_same :
      (p : PeerId) (b : BaseBehaviour k t l) (q : PeerId) (pending : Bool)
      → (q == p) ≡ true
      → true ≡ pending
      → (told_of p (step b (expired q)).0 ≡ (if pending then false ∷ [] else []))
        × (t.contains (step b (expired q)).1.probe_timeouts p ≡ false)
  unfolding step on_probe_timeout
  expired_same p b q true same e = (rw same, t.contains-expired b.probe_timeouts q p ∙ rw same)
  expired_same p b q false same e = ground (arith, e)

  -- A call that ends the probe: it is told of once if the probe was pending, and not if it was over.
  pub settling :
      (p : PeerId) (b : BaseBehaviour k t l) (call : Call) (r pending : Bool)
      → MayCome p b call
      → settles p call ≡ some r
      → t.contains b.probe_timeouts p ≡ pending
      → (told_of p (step b call).0 ≡ (if pending then r ∷ [] else []))
        × (t.contains (step b call).1.probe_timeouts p ≡ false)
  unfolding step MayCome settles
  settling p b (probe q) r pending may e h = ground (arith, e)
  settling p b (look_up q) r pending may e h = ground (arith, e)
  settling p b (opened q listener) r pending may e h = ground (arith, e)
  settling p b (opened q dialer) r pending may e h = elim (==_cases q p) [
    | inl (same, x) ↦
        let reachable : true ≡ r = ground (arith, e, same) in
        rw (← reachable) (
          opened_same p b q pending same
            (t.removed b.probe_timeouts q ∙ ap (t.contains b.probe_timeouts) x ∙ h))
    | inr (other, x) ↦ ground (arith, e, other)
  ]
  settling p b (expired q) r pending may e h = elim (==_cases q p) [
    | inl (same, x) ↦
        let unreachable : false ≡ r = ground (arith, e, same) in
        rw (← unreachable)
          (expired_same p b q pending same (sym may ∙ ap (t.contains b.probe_timeouts) x ∙ h))
    | inr (other, x) ↦ ground (arith, e, other)
  ]
  settling p b (closed q endpoint) r pending may e h = ground (arith, e)
  settling p b (identify_event ev) r pending may e h = ground (arith, e)
  settling p b (kademlia_event ev) r pending may e h = ground (arith, e)
