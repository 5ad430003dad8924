-- ===== src/ContractClient/Clusters.antt =====
-- contract-client/src/client.rs: the clusters hold the gateways of each operator.
use subsquid_network.Base.{
  ℕ, ◌*◌, ◌<◌, ◌≡◌, refl, sym, ap, ◌∙◌, Option, none, some, List, [], ◌∷◌, ◌++◌, if◌then◌else◌,
  length, ok, Option-cases, inl, inr, arith, lookup, lookup-insert, or_else, eq_of_nat, ◌==◌,
  ==_cases,
}
use mathlib.Core.List.{append_assoc, append-nil}
use subsquid_network.Messages.{PeerId}
use subsquid_network.ContractClient.{
  Address, Chain, ChainAllocation, GatewayCluster, new_cluster, add_allocation, add_allocations,
  gateway_clusters, gateways_page_size,
}
use subsquid_network.ContractClient.Paging.{skip, page_of, read_pages_rest}

abbrev pub ids_of : Option GatewayCluster → List PeerId
ids_of none = []
ids_of (some cluster) = cluster.gateway_ids

abbrev pub ids_in : Address → List (Address × GatewayCluster) → List PeerId
ids_in operator clusters = ids_of (lookup operator clusters)

module _ (c : Chain) where
  -- The gateway that an allocation names, if it is one of the operator.
  abbrev pub named_by : Address → ChainAllocation → Option PeerId → List PeerId
  named_by operator a none = []
  named_by operator a (some gateway) = if a.operator == operator then gateway ∷ [] else []

  abbrev pub gateways_for : Address → List ChainAllocation → List PeerId
  gateways_for operator [] = []
  gateways_for operator (a ∷ allocations) =
      named_by operator a (c.from_bytes a.gateway_id) ++ gateways_for operator allocations

  held_ids :
      (a : ChainAllocation) (o : Option GatewayCluster)
      → (or_else o (new_cluster c a)).gateway_ids ≡ ids_of o
  held_ids a none = refl
  held_ids a (some cluster) = refl

  added_ids :
      (clusters : List (Address × GatewayCluster)) (a : ChainAllocation) (operator : Address)
      → ids_in operator (add_allocation c clusters a)
        ≡ ids_in operator clusters ++ named_by operator a (c.from_bytes a.gateway_id)
  unfolding add_allocation
  added_ids clusters a operator = elim (Option-cases (c.from_bytes a.gateway_id)) [
    | inl e ↦ rw (e, add_allocation) (sym (append-nil (ids_in operator clusters)))
    | inr (gateway, e) ↦
        rw (e, add_allocation)
          (ap ids_of (lookup-insert a.operator operator _ clusters)
            ∙ elim (==_cases a.operator operator) [
              | inl (same, q) ↦ rw same (rw (held_ids a (lookup a.operator clusters), q))
              | inr (other, q) ↦ rw other (sym (append-nil (ids_in operator clusters)))
            ])
  ]

  all_ids :
      (clusters : List (Address × GatewayCluster)) (allocations : List ChainAllocation)
      (operator : Address)
      → ids_in operator (add_allocations c clusters allocations)
        ≡ ids_in operator clusters ++ gateways_for operator allocations
  unfolding add_allocations
  all_ids clusters [] operator = sym (append-nil (ids_in operator clusters))
  all_ids clusters (a ∷ allocations) operator =
      all_ids (add_allocation c clusters a) allocations operator
      ∙ ap (λ ids. ids ++ gateways_for operator allocations) (added_ids clusters a operator)
      ∙ append_assoc (ids_in operator clusters) (named_by operator a (c.from_bytes a.gateway_id))
          (gateways_for operator allocations)

  add_allocations-append :
      (clusters : List (Address × GatewayCluster)) (xs ys : List ChainAllocation)
      → add_allocations c (add_allocations c clusters xs) ys ≡ add_allocations c clusters (xs ++ ys)
  unfolding add_allocations
  add_allocations-append clusters [] ys = refl
  add_allocations-append clusters (a ∷ xs) ys =
      add_allocations-append (add_allocation c clusters a) xs ys

  -- When the chain serves the allocations of a worker by pages at the block that is read first, the
  -- loop ends, and the cluster of each operator has the gateways of the operator's allocations, in
  -- their order, without the IDs that are no peer IDs.
  pub gateway_clusters_all :
      (block worker_id : ℕ) (all : List ChainAllocation) (fuel : ℕ)
      → c.get_block_number ≡ ok block
      → ((page : ℕ)
          → c.get_allocations block worker_id page gateways_page_size
            ≡ ok (page_of gateways_page_size all page))
      → length all < fuel * gateways_page_size
      → (clusters : List (Address × GatewayCluster)) × (gateway_clusters c fuel worker_id
          ≡ some (ok clusters))
        × ((operator : Address) → ids_in operator clusters ≡ gateways_for operator all)
  unfolding gateway_clusters skip lookup
  gateway_clusters_all block worker_id all fuel at served enough = (
    add_allocations c [] all,
    rw (at, gateway_clusters)
        (read_pages_rest (λ page. c.get_allocations block worker_id page gateways_page_size)
          gateways_page_size (add_allocations c) all (omega arith) add_allocations-append served
          fuel 0 [] enough),
    λ operator. all_ids [] all operator,
  )
