-- ===== src/BaseBehaviour/Probes/Answered.antt =====
-- transport/src/behaviour/base.rs: a probe that was scheduled gets one answer, whatever else happens.
use subsquid_network.Base.{
  ◌≡◌, refl, ap, ◌∙◌, Bool, true, false, List, [], ◌∷◌, eq_of_nat, Option-cases, inl, inr,
}
use subsquid_network.Messages.{PeerId}
use subsquid_network.Timeouts.{Timeouts}
use subsquid_network.Addresses.{Lru}
use subsquid_network.BaseBehaviour.{Kademlia, BaseBehaviour, scheduled, try_probe_peer}
use subsquid_network.BaseBehaviour.Probes.{scheduled_probe-IsPending}
use subsquid_network.BaseBehaviour.Probes.History.{
  Call, settles, first_answer, step, reports, MayAllCome, untouched, settling,
}

module _ (k : Kademlia) (t : Timeouts) (l : Lru) (private_network : Bool) where
  -- A probe that is over is not told of again.
  over :
      (p : PeerId) (b : BaseBehaviour k t l) (calls : List Call)
      → MayAllCome k t l private_network p b calls
      → t.contains b.probe_timeouts p ≡ false
      → reports k t l private_network p b calls ≡ []
  unfolding reports MayAllCome
  over p b [] may h = refl
  over p b (call ∷ calls) may h = elim (Option-cases (settles p call)) [
    | inl e ↦
        let (silent, same) = untouched k t l private_network p b call may.0 e in
        rw silent (over p (step k t l private_network b call).1 calls may.1 (same ∙ h))
    | inr (r, e) ↦
        let (silent, ended) = settling k t l private_network p b call r false may.0 e h in
        rw silent (over p (step k t l private_network b call).1 calls may.1 ended)
  ]

  pending-first_answer :
      (p : PeerId) (b : BaseBehaviour k t l) (calls : List Call)
      → MayAllCome k t l private_network p b calls
      → t.contains b.probe_timeouts p ≡ true
      → reports k t l private_network p b calls ≡ first_answer p calls
  unfolding reports MayAllCome first_answer
  pending-first_answer p b [] may h = refl
  pending-first_answer p b (call ∷ calls) may h = elim (Option-cases (settles p call)) [
    | inl e ↦
        let (silent, same) = untouched k t l private_network p b call may.0 e in
        rw (silent, e, first_answer)
          (pending-first_answer p (step k t l private_network b call).1 calls may.1 (same ∙ h))
    | inr (r, e) ↦
        let (told, ended) = settling k t l private_network p b call r true may.0 e h in
        rw (told, e, first_answer)
          (ap (λ rest. r ∷ rest) (over p (step k t l private_network b call).1 calls may.1 ended))
  ]

  -- After a probe of a peer was scheduled, over every history of calls and events in which that peer is
  -- not probed again and only probes that are in the map of timeouts time out: the swarm is told at
  -- most once whether the peer is reachable, by the first outbound connection to it or the timeout of
  -- its probe, whichever comes first, and it is told that it is, if that was the connection.
  pub try_probe_peer-first_answer :
      (b : BaseBehaviour k t l) (p : PeerId) (calls : List Call)
      → (try_probe_peer k t l b p).0 ≡ scheduled
      → MayAllCome k t l private_network p (try_probe_peer k t l b p).1 calls
      → reports k t l private_network p (try_probe_peer k t l b p).1 calls ≡ first_answer p calls
  try_probe_peer-first_answer b p calls h may =
      pending-first_answer p (try_probe_peer k t l b p).1 calls may
        (scheduled_probe-IsPending k t l b p h)
