-- ===== src/BaseBehaviour/Probes.antt =====
-- transport/src/behaviour/base.rs: what a probe does to the timeouts.
pub mod History
pub mod Answered
use subsquid_network.Base.{
  ◌≡◌, refl, sym, ap, ◌∙◌, Bool, true, false, none, some, if◌then◌else◌, lookup, eq_of_nat, ◌==◌,
  ==_refl, Option-cases, Bool-cases, inl, inr, arith,
}
use subsquid_network.Messages.{PeerId}
use subsquid_network.Timeouts.{Timeouts, Pushed, pushed, beyond_capacity, replaced}
use subsquid_network.Addresses.{Lru}
use subsquid_network.BaseBehaviour.{
  Kademlia, dialer, BaseBehaviour, scheduled, generate_event, peer_probed, find_and_dial,
  is_connected, schedule_probe, try_probe_peer, on_connection_established, on_probe_timeout,
}

module _ (k : Kademlia) (t : Timeouts) (l : Lru) where
  abbrev pub IsPending : BaseBehaviour k t l → PeerId → Type 0
  IsPending b p = t.contains b.probe_timeouts p ≡ true

  pub find_and_dial-probe_timeouts :
      (b : BaseBehaviour k t l) (p : PeerId)
      → (find_and_dial k t l b p).probe_timeouts ≡ b.probe_timeouts
  unfolding find_and_dial
  find_and_dial-probe_timeouts b p = elim (Option-cases (lookup p b.ongoing_queries)) [
    | inl e ↦ rw e
    | inr (q, e) ↦ rw e
  ]

  schedule_probe-IsPending :
      (b : BaseBehaviour k t l) (p : PeerId) (r : t.Map × Pushed)
      → t.try_push b.probe_timeouts p ≡ r
      → (schedule_probe k t l b p r).0 ≡ scheduled
      → IsPending (schedule_probe k t l b p r).1 p
  unfolding schedule_probe
  schedule_probe-IsPending b p (m, pushed) e h =
      ap (λ timeouts. t.contains timeouts p)
        (find_and_dial-probe_timeouts (record b { probe_timeouts = m }) p)
      ∙ ap (λ (r : t.Map × Pushed). t.contains r.0 p) (sym e)
      ∙ t.contains-try_push b.probe_timeouts p p (ap (λ (r : t.Map × Pushed). r.1) e)
      ∙ rw (==_refl p)
  schedule_probe-IsPending b p (m, beyond_capacity) e h = ground (arith, h)
  schedule_probe-IsPending b p (m, replaced) e h = ground (arith, h)

  pub scheduled_probe-IsPending :
      (b : BaseBehaviour k t l) (p : PeerId)
      → (try_probe_peer k t l b p).0 ≡ scheduled
      → IsPending (try_probe_peer k t l b p).1 p
  unfolding try_probe_peer
  scheduled_probe-IsPending b p = elim (Bool-cases (is_connected k t l b p)) [
    | inl here ↦ rw here (λ h. ground (arith, h))
    | inr away ↦ elim (Bool-cases (t.contains b.probe_timeouts p)) [
      | inl pending ↦ rw (away, pending) (λ h. pending)
      | inr idle ↦
          rw (away, idle) (schedule_probe-IsPending b p (t.try_push b.probe_timeouts p) refl)
    ]
  ]

  schedule_probe-other :
      (b : BaseBehaviour k t l) (p q : PeerId) (r : t.Map × Pushed)
      → t.try_push b.probe_timeouts p ≡ r
      → (p == q) ≡ false
      → t.contains (schedule_probe k t l b p r).1.probe_timeouts q ≡ t.contains b.probe_timeouts q
  unfolding schedule_probe
  schedule_probe-other b p q (m, pushed) e other =
      ap (λ timeouts. t.contains timeouts q)
        (find_and_dial-probe_timeouts (record b { probe_timeouts = m }) p)
      ∙ ap (λ (r : t.Map × Pushed). t.contains r.0 q) (sym e)
      ∙ t.contains-try_push b.probe_timeouts p q (ap (λ (r : t.Map × Pushed). r.1) e)
      ∙ rw other
  schedule_probe-other b p q (m, beyond_capacity) e other =
      ap (λ (r : t.Map × Pushed). t.contains r.0 q) (sym e)
      ∙ t.contains-beyond b.probe_timeouts p q (ap (λ (r : t.Map × Pushed). r.1) e)
  schedule_probe-other b p q (m, replaced) e other =
      ap (λ (r : t.Map × Pushed). t.contains r.0 q) (sym e)
      ∙ t.contains-replaced b.probe_timeouts p q (ap (λ (r : t.Map × Pushed). r.1) e)

  -- The probe of another peer changes nothing of this one's.
  pub try_probe_peer-other :
      (b : BaseBehaviour k t l) (p q : PeerId)
      → (p == q) ≡ false
      → t.contains (try_probe_peer k t l b p).1.probe_timeouts q ≡ t.contains b.probe_timeouts q
  unfolding try_probe_peer
  try_probe_peer-other b p q other = elim (Bool-cases (is_connected k t l b p)) [
    | inl here ↦ rw here
    | inr away ↦ elim (Bool-cases (t.contains b.probe_timeouts p)) [
      | inl pending ↦ rw (away, pending)
      | inr idle ↦
          rw (away, idle) (schedule_probe-other b p q (t.try_push b.probe_timeouts p) refl other)
    ]
  ]
