-- ===== src/BaseBehaviour/Whole/Registered.antt =====
-- transport/src/behaviour/base.rs: the registered nodes, whatever else happens.
use subsquid_network.Base.{
  ◌≡◌, refl, sym, ap, subst, ◌∙◌, Bool, true, false, String, Option, none, some, List, [], ◌∷◌,
  ◌++◌, map, Result, ok, member, eq_of_nat,
}
use subsquid_network.Messages.{PeerId}
use subsquid_network.Cli.{BootNode}
use subsquid_network.BaseBehaviour.Nodes.{
  NodesState, start_nodes, on_nodes_update, updates, updates-allowed,
}
use subsquid_network.BaseBehaviour.Whole.{
  BaseConfig, Parts, SwarmEvent, connection_established, connection_closed, dial_failure,
  other_swarm_event, InnerEvent, identify, kademlia, pubsub, autonat, ping, dcutr,
  other_inner_event, Whole, new_base, with_peers, on_swarm_event, on_inner_event, poll_probes, poll,
}

pub data Call : Type 0 where
  swarm : SwarmEvent → Call
  inner : InnerEvent → Call
  polled : List (Result String (List PeerId)) → Option PeerId → Call

-- What the chain answered in the polls.
unfoldable pub answers : List Call → List (Result String (List PeerId))
answers [] = []
answers (swarm ev ∷ calls) = answers calls
answers (inner ev ∷ calls) = answers calls
answers (polled ready expired ∷ calls) = ready ++ answers calls

module _ (p : Parts) (private_network : Bool) where
  unfoldable pub run : Whole p → List Call → Whole p
  run s [] = s
  run s (swarm ev ∷ calls) = run (on_swarm_event p s ev).1 calls
  run s (inner ev ∷ calls) = run (on_inner_event p private_network s ev).1 calls
  run s (polled ready expired ∷ calls) = run (poll p s ready expired).1 calls

  swarm_nodes : (s : Whole p) (ev : SwarmEvent) → (on_swarm_event p s ev).1.nodes ≡ s.nodes
  unfolding on_swarm_event with_peers
  swarm_nodes s (connection_established peer_id endpoint) = refl
  swarm_nodes s (connection_closed peer_id endpoint) = refl
  swarm_nodes s (dial_failure peer_id) = refl
  swarm_nodes s other_swarm_event = refl

  inner_nodes :
      (s : Whole p) (ev : InnerEvent) → (on_inner_event p private_network s ev).1.nodes ≡ s.nodes
  unfolding on_inner_event with_peers
  inner_nodes s (identify ev) = refl
  inner_nodes s (kademlia ev) = refl
  inner_nodes s (pubsub msg) = refl
  inner_nodes s autonat = refl
  inner_nodes s ping = refl
  inner_nodes s dcutr = refl
  inner_nodes s other_inner_event = refl

  probes_nodes :
      (s : Whole p) (expired : Option PeerId) → (poll_probes p s expired).1.nodes ≡ s.nodes
  unfolding poll_probes
  probes_nodes s none = refl
  probes_nodes s (some peer_id) = refl

  poll_nodes :
      (s : Whole p) (ready : List (Result String (List PeerId))) (expired : Option PeerId)
      → (poll p s ready expired).1.nodes ≡ updates p.a s.nodes ready
  unfolding poll updates
  poll_nodes s [] expired = probes_nodes s expired
  poll_nodes s (res ∷ ready) expired =
      poll_nodes (record s { nodes = on_nodes_update p.a s.nodes res }) ready expired

  updates-append :
      (s : NodesState p.a) (xs ys : List (Result String (List PeerId)))
      → updates p.a s (xs ++ ys) ≡ updates p.a (updates p.a s xs) ys
  unfolding updates
  updates-append s [] ys = refl
  updates-append s (x ∷ xs) ys = updates-append (on_nodes_update p.a s x) xs ys

  run_nodes :
      (s : Whole p) (calls : List Call) → (run s calls).nodes ≡ updates p.a s.nodes (answers calls)
  unfolding run answers updates
  run_nodes s [] = refl
  run_nodes s (swarm ev ∷ calls) =
      run_nodes (on_swarm_event p s ev).1 calls
      ∙ ap (λ n. updates p.a n (answers calls)) (swarm_nodes s ev)
  run_nodes s (inner ev ∷ calls) =
      run_nodes (on_inner_event p private_network s ev).1 calls
      ∙ ap (λ n. updates p.a n (answers calls)) (inner_nodes s ev)
  run_nodes s (polled ready expired ∷ calls) =
      run_nodes (poll p s ready expired).1 calls
      ∙ ap (λ n. updates p.a n (answers calls)) (poll_nodes s ready expired)
      ∙ sym (updates-append s.nodes ready (answers calls))

  -- What a list of nodes makes of a state: the nodes on it are allowed, and those that were registered
  -- and are not on it are not.
  pub IsUpdate : NodesState p.a → List PeerId → NodesState p.a → PeerId → Type 0
  IsUpdate before nodes after q =
      (member q nodes ≡ true → p.a.allowed after.allow q ≡ true)
      × (member q before.registered_nodes ≡ true
          → member q nodes ≡ false
          → p.a.allowed after.allow q ≡ false)

  poll_last :
      (s : Whole p) (ready : List (Result String (List PeerId))) (expired : Option PeerId)
      (nodes : List PeerId)
      → (poll p s (ready ++ ok nodes ∷ []) expired).1.nodes
        ≡ on_nodes_update p.a (updates p.a s.nodes ready) (ok nodes)
  unfolding updates
  poll_last s ready expired nodes =
      poll_nodes s (ready ++ ok nodes ∷ []) expired ∙ updates-append s.nodes ready (ok nodes ∷ [])

  -- A new base behaviour, over every history of events and polls: a poll in which the last answer of the
  -- chain is a list updates the allowed peers by that list, against the nodes that were registered after
  -- the answers before it.
  pub poll-IsUpdate :
      (config : BaseConfig) (kad : p.k.Inner) (allow : p.a.Inner) (autonat_state : p.Autonat)
      (boot_nodes : List BootNode) (calls : List Call) (ready : List (Result String (List PeerId)))
      (expired : Option PeerId) (nodes : List PeerId) (q : PeerId)
      → let s = run (new_base p config kad allow autonat_state boot_nodes) calls in
        IsUpdate
          (poll p s ready none).1.nodes
          nodes
          (poll p s (ready ++ ok nodes ∷ []) expired).1.nodes
          q
  unfolding IsUpdate new_base
  poll-IsUpdate config kad allow autonat_state boot_nodes calls ready expired nodes q =
      let s = run (new_base p config kad allow autonat_state boot_nodes) calls in
      let ids = map (λ bn. bn.peer_id) boot_nodes in
      let first = start_nodes p.a allow ids in
      let reached : updates p.a s.nodes ready ≡ updates p.a first (answers calls ++ ready) =
        ap (λ n. updates p.a n ready)
          (run_nodes (new_base p config kad allow autonat_state boot_nodes) calls)
        ∙ sym (updates-append first (answers calls) ready) in
      let known = updates-allowed p.a allow ids (answers calls ++ ready) nodes q in
      subst (λ n. IsUpdate n nodes (poll p s (ready ++ ok nodes ∷ []) expired).1.nodes q)
        (sym (poll_nodes s ready none))
        (subst (λ n. IsUpdate (updates p.a s.nodes ready) nodes n q)
          (sym (poll_last s ready expired nodes))
          (subst (λ n. IsUpdate n nodes (on_nodes_update p.a n (ok nodes)) q) (sym reached) known))
