-- ===== src/ContractClient/Reading.antt =====
-- contract-client/src/client.rs: the nodes of the network, and the allocations of a gateway.
use subsquid_network.Base.{
  ℕ, ◌≡◌, refl, sym, ap, ◌∙◌, true, false, some, List, [], ◌∷◌, map, if◌then◌else◌, eqb, ok,
  Bool-cases, inl, inr, arith, member, put, member-put, eq_of_nat, All,
}
use subsquid_network.Messages.{PeerId, Bytes}
use subsquid_network.ContractClient.{
  Address, Chain, Worker, allocation_of, allocate_each, allocate, put_all, network_nodes,
  active_gateways, active_workers,
}

module _ (c : Chain) where
  member-put_all :
      (p : PeerId) (nodes peers : List PeerId)
      → member p (put_all c nodes peers) ≡ (if member p nodes then true else member p peers)
  unfolding put_all member
  member-put_all p nodes [] = ground arith
  member-put_all p nodes (q ∷ peers) =
      ground (arith, member-put_all p (put q nodes) peers, member-put q p nodes)

  -- When the gateways and the workers are read, a peer is a node of the network exactly when it is
  -- among the one or the other.
  pub network_nodes-member :
      (fuel : ℕ) (gateways : List PeerId) (workers : List Worker)
      → active_gateways c fuel ≡ some (ok gateways)
      → active_workers c ≡ ok workers
      → (nodes : List PeerId) × (network_nodes c fuel ≡ some (ok nodes))
        × ((p : PeerId)
            → member p nodes
              ≡ (if member p gateways then true else member p (map (λ w. w.peer_id) workers)))
  unfolding network_nodes member
  network_nodes-member fuel gateways workers g w = (
    put_all c (put_all c [] gateways) (map (λ w. w.peer_id) workers),
    rw (g, network_nodes) (rw w),
    λ p.
        member-put_all p (put_all c [] gateways) (map (λ w. w.peer_id) workers)
        ∙ ap (λ b. if b then true else member p (map (λ w. w.peer_id) workers))
            (member-put_all p [] gateways),
  )

  -- When one number of units holds for all workers, asking for each gives that number for each.
  allocate_each_evenly :
      (strategy : Address) (gateway_id : Bytes) (workers : List Worker) (cus : ℕ)
      → All (λ w. c.computation_units_per_epoch strategy gateway_id w.onchain_id ≡ ok cus) workers
      → allocate_each c strategy gateway_id workers ≡ ok (map (λ w. allocation_of c w cus) workers)
  unfolding allocate_each
  allocate_each_evenly strategy gateway_id [] cus even = refl
  allocate_each_evenly strategy gateway_id (w ∷ workers) cus even =
      rw (even.0, allocate_each) (rw (allocate_each_evenly strategy gateway_id workers cus even.1))

  shortcut :
      (strategy : Address) (gateway_id : Bytes) (first : Worker) (workers : List Worker) (cus : ℕ)
      → eqb strategy c.default_strategy_addr ≡ true
      → c.computation_units_per_epoch strategy gateway_id first.onchain_id ≡ ok cus
      → allocate c strategy gateway_id (first ∷ workers)
        ≡ ok (map (λ w. allocation_of c w cus) (first ∷ workers))
  unfolding allocate
  shortcut strategy gateway_id first workers cus default e = rw (default, allocate) (rw e)

  no_shortcut :
      (strategy : Address) (gateway_id : Bytes) (first : Worker) (workers : List Worker)
      → eqb strategy c.default_strategy_addr ≡ false
      → allocate c strategy gateway_id (first ∷ workers)
        ≡ allocate_each c strategy gateway_id (first ∷ workers)
  unfolding allocate
  no_shortcut strategy gateway_id first workers other = rw (other, allocate)

  -- If the strategy gives all workers the same number of units, then the shortcut for the default
  -- strategy, one call for the first worker, gives what one call for each worker gives.
  pub allocate-allocate_each :
      (strategy : Address) (gateway_id : Bytes) (workers : List Worker) (cus : ℕ)
      → All (λ w. c.computation_units_per_epoch strategy gateway_id w.onchain_id ≡ ok cus) workers
      → allocate c strategy gateway_id workers ≡ allocate_each c strategy gateway_id workers
  unfolding allocate allocate_each
  allocate-allocate_each strategy gateway_id [] cus even = refl
  allocate-allocate_each strategy gateway_id (first ∷ workers) cus even =
      elim (Bool-cases (eqb strategy c.default_strategy_addr)) [
        | inr other ↦ no_shortcut strategy gateway_id first workers other
        | inl default ↦
            shortcut strategy gateway_id first workers cus default even.0
            ∙ sym (allocate_each_evenly strategy gateway_id (first ∷ workers) cus even)
      ]
