-- ===== src/BaseBehaviour/Connections.antt =====
-- transport/src/behaviour/base.rs: outbound connections and probes, over every history.
use subsquid_network.Base.{
  ℕ, ◌+◌, ◌-◌, ◌%◌, ◌^◌, ◌<◌, ◌≡◌, ◌↔◌, refl, sym, ap, ◌∙◌, true, List, [], ◌∷◌, if◌then◌else◌,
  or_else, lookup, eq_of_nat, ◌==◌, ==_cases, lookup-insert, Option-cases, Bool-cases, inl, inr,
  ltb, arith,
}
use subsquid_network.Messages.{PeerId}
use subsquid_network.Timeouts.{Timeouts, Pushed, pushed, beyond_capacity, replaced}
use subsquid_network.Addresses.{Lru}
use subsquid_network.BaseBehaviour.{
  Kademlia, ConnectedPoint, dialer, listener, BaseBehaviour, connected, find_and_dial, is_connected,
  schedule_probe, try_probe_peer, on_connection_established, on_connection_closed, on_probe_timeout,
}

-- What the program and the swarm call.
pub data Call : Type 0 where
  probe : PeerId → Call
  established closed : PeerId → ConnectedPoint → Call
  timed_out : PeerId → Call

module _ (k : Kademlia) (t : Timeouts) (l : Lru) where
  unfoldable pub apply : BaseBehaviour k t l → Call → BaseBehaviour k t l
  apply b (probe p) = (try_probe_peer k t l b p).1
  apply b (established p point) = (on_connection_established k t l b p point).1
  apply b (closed p point) = on_connection_closed k t l b p point
  apply b (timed_out p) = (on_probe_timeout k t l b p).1

  unfoldable pub run : BaseBehaviour k t l → List Call → BaseBehaviour k t l
  unfolding apply
  run b [] = b
  run b (call ∷ calls) = run (apply b call) calls

-- The number of open outbound connections to a peer after a call.
abbrev pub opened : PeerId → Call → ℕ → ℕ
opened p (established q dialer) n = if q == p then n + 1 else n
opened p (closed q dialer) n = if q == p then n - 1 else n
opened p (established q listener) n = n
opened p (closed q listener) n = n
opened p (probe q) n = n
opened p (timed_out q) n = n

abbrev pub opened_all : PeerId → List Call → ℕ → ℕ
opened_all p [] n = n
opened_all p (call ∷ calls) n = opened_all p calls (opened p call n)

-- A connection closes after it was established, and fewer than 2^32 are open to a peer.
abbrev pub Possible : PeerId → Call → ℕ → Type 0
Possible p (closed q dialer) n = (q == p) ≡ true → 0 < n
Possible p (established q dialer) n = n + 1 < 2 ^ 32
Possible p (closed q listener) n = Unit {0}
Possible p (established q listener) n = Unit {0}
Possible p (probe q) n = Unit {0}
Possible p (timed_out q) n = Unit {0}

abbrev pub AllPossible : PeerId → List Call → ℕ → Type 0
AllPossible p [] n = Unit {0}
AllPossible p (call ∷ calls) n = Possible p call n × AllPossible p calls (opened p call n)

module _ (k : Kademlia) (t : Timeouts) (l : Lru) where
  abbrev pub count : BaseBehaviour k t l → PeerId → ℕ
  count b p = or_else (lookup p b.outbound_conns) 0

  find_and_dial-outbound_conns :
      (b : BaseBehaviour k t l) (p : PeerId)
      → (find_and_dial k t l b p).outbound_conns ≡ b.outbound_conns
  unfolding find_and_dial
  find_and_dial-outbound_conns b p = elim (Option-cases (lookup p b.ongoing_queries)) [
    | inl e ↦ rw e
    | inr (q, e) ↦ rw e
  ]

  schedule_probe-outbound_conns :
      (b : BaseBehaviour k t l) (p : PeerId) (r : t.Map × Pushed)
      → (schedule_probe k t l b p r).1.outbound_conns ≡ b.outbound_conns
  unfolding schedule_probe
  schedule_probe-outbound_conns b p (m, pushed) =
      find_and_dial-outbound_conns (record b { probe_timeouts = m }) p
  schedule_probe-outbound_conns b p (m, beyond_capacity) = refl
  schedule_probe-outbound_conns b p (m, replaced) = refl

  try_probe_peer-outbound_conns :
      (b : BaseBehaviour k t l) (p : PeerId)
      → (try_probe_peer k t l b p).1.outbound_conns ≡ b.outbound_conns
  unfolding try_probe_peer
  try_probe_peer-outbound_conns b p = elim (Bool-cases (is_connected k t l b p)) [
    | inl here ↦ rw here
    | inr away ↦ elim (Bool-cases (t.contains b.probe_timeouts p)) [
      | inl pending ↦ rw (away, pending)
      | inr idle ↦
          rw (away, idle) (schedule_probe-outbound_conns b p (t.try_push b.probe_timeouts p))
    ]
  ]

  count_after_close :
      (b : BaseBehaviour k t l) (q p : PeerId) (n : ℕ)
      → count b p ≡ n
      → n < 2 ^ 32
      → ((q == p) ≡ true → 0 < n)
      → count (on_connection_closed k t l b q dialer) p ≡ (if q == p then n - 1 else n)
  unfolding on_connection_closed
  count_after_close b q p n e small possible = elim (Option-cases (lookup q b.outbound_conns)) [
    | inl absent ↦ elim (==_cases q p) [
      | inl (same, r) ↦
          let none_open : count b p ≡ 0 = rw (← r, absent) in
          absurd (omega (arith, possible same, e, none_open))
      | inr (other, r) ↦ rw (absent, on_connection_closed) (e ∙ rw other)
    ]
    | inr (x, held) ↦
        let new = (x + (2 ^ 32 - 1)) % 2 ^ 32 in
        rw (held, on_connection_closed)
          (ap (λ o. or_else o 0) (lookup-insert q p new b.outbound_conns) ∙ elim (==_cases q p) [
            | inl (same, r) ↦
                let x_is : x ≡ n = sym (rw (← r, held)) ∙ e in
                rw same (omega (arith, possible same, x_is, small))
            | inr (other, r) ↦ rw other e
          ])
  ]

  count-apply :
      (b : BaseBehaviour k t l) (call : Call) (p : PeerId) (n : ℕ)
      → count b p ≡ n
      → n < 2 ^ 32
      → Possible p call n
      → (count (apply k t l b call) p ≡ opened p call n) × (opened p call n < 2 ^ 32)
  unfolding apply on_connection_established on_probe_timeout on_connection_closed
  count-apply b (probe q) p n e small h =
      (ap (λ conns. or_else (lookup p conns) 0) (try_probe_peer-outbound_conns b q) ∙ e, small)
  count-apply b (established q listener) p n e small h = (e, small)
  count-apply b (established q dialer) p n e small h = (
    ap (λ o. or_else o 0) (lookup-insert q p _ b.outbound_conns) ∙ elim (==_cases q p) [
      | inl (same, r) ↦ rw same (rw (r, e) (omega (arith, h)))
      | inr (other, r) ↦ rw other e
    ],
    ground arith,
  )
  count-apply b (closed q listener) p n e small h = (e, small)
  count-apply b (closed q dialer) p n e small h =
      (count_after_close b q p n e small h, ground arith)
  count-apply b (timed_out q) p n e small h = (e, small)

  -- Over every history in which connections close after they were established, and fewer than 2^32
  -- are open to a peer, the counter of the peer is the number of its open outbound connections.
  pub count-run :
      (b : BaseBehaviour k t l) (calls : List Call) (p : PeerId) (n : ℕ)
      → count b p ≡ n
      → n < 2 ^ 32
      → AllPossible p calls n
      → count (run k t l b calls) p ≡ opened_all p calls n
  unfolding run
  count-run b [] p n e small h = e
  count-run b (call ∷ calls) p n e small h =
      let (now, still) = count-apply b call p n e small h.0 in
      count-run (apply k t l b call) calls p (opened p call n) now still h.1

  schedule_probe-not_connected :
      (b : BaseBehaviour k t l) (p : PeerId) (r : t.Map × Pushed)
      → ¬ ((schedule_probe k t l b p r).0 ≡ connected)
  unfolding schedule_probe
  schedule_probe-not_connected b p (m, pushed) h = ground (arith, h)
  schedule_probe-not_connected b p (m, beyond_capacity) h = ground (arith, h)
  schedule_probe-not_connected b p (m, replaced) h = ground (arith, h)

  probe_connected :
      (b : BaseBehaviour k t l) (p : PeerId)
      → ((try_probe_peer k t l b p).0 ≡ connected) ↔ (0 < count b p)
  unfolding try_probe_peer is_connected
  probe_connected b p = elim (Bool-cases (ltb 0 (count b p))) [
    | inl here ↦ (λ h. ground (arith, here), λ h. rw here)
    | inr away ↦ elim (Bool-cases (t.contains b.probe_timeouts p)) [
      | inl pending ↦ rw (away, pending) (λ h. ground (arith, h), λ h. absurd (ground arith))
      | inr idle ↦
          rw (away, idle)
            (
              λ h. absurd (schedule_probe-not_connected b p (t.try_push b.probe_timeouts p) h),
              λ h. absurd (ground arith),
            )
    ]
  ]

  -- After every such history of a behaviour that had no outbound connection to a peer, a probe of it
  -- answers that the peer is connected exactly when an outbound connection to it is open.
  pub try_probe_peer-connected :
      (b : BaseBehaviour k t l) (calls : List Call) (p : PeerId)
      → count b p ≡ 0
      → AllPossible p calls 0
      → ((try_probe_peer k t l (run k t l b calls) p).0 ≡ connected) ↔ (0 < opened_all p calls 0)
  try_probe_peer-connected b calls p e h =
      rw (← count-run b calls p 0 e (omega arith) h) (probe_connected (run k t l b calls) p)
