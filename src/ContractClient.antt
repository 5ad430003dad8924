-- ===== src/ContractClient.antt =====
-- contract-client/src/client.rs: what the network reads from the chain. The contracts and the
-- connection to the chain (ethers) are a parameter, whose calls may fail; numbers of the chain
-- (U256) are natural numbers, and an address is one.
pub mod Paging
pub mod Clusters
pub mod Reading
pub mod Epoch
mod Examples
use subsquid_network.Base.{
  ℕ, zero, suc, ◌+◌, ◌*◌, ◌^◌, ◌<◌, ◌≡◌, Bool, true, false, Option, none, some, String, List, [],
  ◌∷◌, ◌++◌, map, if◌then◌else◌, ltb, eqb, length, Result, ok, err, lookup, insert, put, eq_of_nat,
  or_else,
}
use subsquid_network.Messages.{PeerId, Bytes}

abbrev pub Address : Type 0
Address = ℕ

abbrev pub gateways_page_size : ℕ
gateways_page_size = 10000

-- `contracts::Worker`
pub record ChainWorker : Type 0 where
  pub creator : Address
  pub peer_id : Bytes
  pub bond : ℕ
  pub registered_at : ℕ
  pub deregistered_at : ℕ

-- `contracts::AllocationsViewer` gives these.
pub record ChainAllocation : Type 0 where
  pub operator : Address
  pub gateway_id : Bytes
  pub allocated : ℕ

pub record Allocation : Type 0 where
  pub worker_peer_id : PeerId
  pub worker_onchain_id : ℕ
  pub computation_units : ℕ

pub record GatewayCluster : Type 0 where
  pub operator_addr : Address
  pub gateway_ids : List PeerId
  pub allocated_computation_units : ℕ

pub record Worker : Type 0 where
  pub peer_id : PeerId
  pub onchain_id : ℕ
  pub address : Address
  pub bond : ℕ
  pub registered_at : ℕ
  pub deregistered_at : Option ℕ

-- The calls of the contracts, those with pages at the block that the client reads first.
pub record Chain : Type 0 where
  pub get_block_number : Result String ℕ
  pub get_active_gateways : ℕ → ℕ → ℕ → Result String (List Bytes)
  pub get_allocations : ℕ → ℕ → ℕ → ℕ → Result String (List ChainAllocation)
  pub get_active_workers : Result String (List ChainWorker × List ℕ)
  pub worker_ids : Bytes → Result String ℕ
  pub get_worker : ℕ → Result String ChainWorker
  pub block_time : ℕ → Result String (Option ℕ)
  pub gateway_operator : Bytes → Result String Address
  pub get_used_strategy : Bytes → Result String Address
  pub computation_units_per_epoch : Address → Bytes → ℕ → Result String ℕ
  pub default_strategy_addr : Address
  pub from_bytes : Bytes → Option PeerId
  pub to_bytes : PeerId → Bytes

-- The loop over the pages `0..`, which ends at the first that is not full. The fuel is a number of
-- pages; `none` is no result yet.
unfoldable pub read_pages :
    {X S : Type 0}
    → (ℕ → Result String (List X))
    → ℕ
    → (S → List X → S)
    → ℕ
    → ℕ
    → S
    → Option (Result String S)
read_pages get page_size add zero page s = none
read_pages get page_size add (suc fuel) page s = elim (get page) [
  | err e ↦ some (err e)
  | ok items ↦
      let rest = read_pages get page_size add fuel (page + 1) (add s items) in
      if ltb (length items) page_size then some (ok (add s items)) else rest
]

-- `?`
abbrev pub and_then : {A B : Type 0} → Result String A → (A → Result String B) → Result String B
and_then (err e) f = err e
and_then (ok a) f = f a

module _ (c : Chain) where
  -- `Worker::new`
  unfoldable pub new_worker : ChainWorker → ℕ → Option Worker
  new_worker worker onchain_id = elim (c.from_bytes worker.peer_id) [
    | none ↦ none
    | some peer_id ↦ some (record {
      peer_id = peer_id;
      onchain_id = onchain_id;
      address = worker.creator;
      bond = worker.bond;
      registered_at = worker.registered_at;
      deregistered_at = if ltb 0 worker.deregistered_at then some worker.deregistered_at else none;
    })
  ]

  -- `zip` and `filter_map` of `active_workers`
  unfoldable pub workers_of : List ChainWorker → List ℕ → List Worker
  unfolding new_worker
  workers_of [] ids = []
  workers_of (worker ∷ workers) [] = []
  workers_of (worker ∷ workers) (id ∷ ids) = elim (new_worker worker id) [
    | none ↦ workers_of workers ids
    | some w ↦ w ∷ workers_of workers ids
  ]

  unfoldable pub active_workers : Result String (List Worker)
  unfolding workers_of
  active_workers = and_then c.get_active_workers (λ (workers, ids). ok (workers_of workers ids))

  unfoldable pub is_gateway_registered : PeerId → Result String Bool
  is_gateway_registered peer_id =
      and_then (c.gateway_operator (c.to_bytes peer_id))
        (λ operator. ok (if eqb operator 0 then false else true))

  -- The time of a block, in seconds. A block number that no u64 holds is a panic, `none`, and so is a
  -- time that no i64 holds.
  unfoldable pub block_time_of : ℕ → Option (Result String (Option ℕ))
  block_time_of block_num =
      if ltb block_num (2 ^ 64)
      then elim (c.block_time block_num) [
        | err e ↦ some (err e)
        | ok none ↦ some (ok none)
        | ok (some timestamp) ↦ if ltb timestamp (2 ^ 63) then some (ok (some timestamp)) else none
      ]
      else none

  -- The time of the block of registration.
  unfoldable pub worker_registration_time : PeerId → Option (Result String (Option ℕ))
  unfolding block_time_of
  worker_registration_time peer_id = elim (c.worker_ids (c.to_bytes peer_id)) [
    | err e ↦ some (err e)
    | ok worker_id ↦ if eqb worker_id 0 then some (ok none) else elim (c.get_worker worker_id) [
      | err e ↦ some (err e)
      | ok worker ↦ block_time_of worker.registered_at
    ]
  ]

  unfoldable pub gateways_of : List Bytes → List PeerId
  gateways_of [] = []
  gateways_of (id ∷ ids) = elim (c.from_bytes id) [
    | none ↦ gateways_of ids
    | some p ↦ p ∷ gateways_of ids
  ]

  unfoldable pub active_gateways : ℕ → Option (Result String (List PeerId))
  unfolding read_pages gateways_of
  active_gateways fuel = elim c.get_block_number [
    | err e ↦ some (err e)
    | ok block ↦
        read_pages (λ page. c.get_active_gateways block page gateways_page_size) gateways_page_size
          (λ gateways ids. gateways ++ gateways_of ids) fuel 0 []
  ]

  abbrev pub new_cluster : ChainAllocation → GatewayCluster
  new_cluster a = record {
    operator_addr = a.operator;
    gateway_ids = [];
    allocated_computation_units = a.allocated;
  }

  -- The body of the loop over a page.
  unfoldable pub add_allocation :
      List (Address × GatewayCluster) → ChainAllocation → List (Address × GatewayCluster)
  add_allocation clusters a = elim (c.from_bytes a.gateway_id) [
    | none ↦ clusters
    | some gateway ↦
        let cluster = or_else (lookup a.operator clusters) (new_cluster a) in
        insert a.operator (record cluster { gateway_ids = cluster.gateway_ids ++ gateway ∷ [] })
          clusters
  ]

  unfoldable pub add_allocations :
      List (Address × GatewayCluster) → List ChainAllocation → List (Address × GatewayCluster)
  unfolding add_allocation
  add_allocations clusters [] = clusters
  add_allocations clusters (a ∷ allocations) =
      add_allocations (add_allocation clusters a) allocations

  -- The clusters by their operators.
  unfoldable pub gateway_clusters : ℕ → ℕ → Option (Result String (List (Address × GatewayCluster)))
  unfolding read_pages add_allocations
  gateway_clusters fuel worker_id = elim c.get_block_number [
    | err e ↦ some (err e)
    | ok block ↦
        read_pages (λ page. c.get_allocations block worker_id page gateways_page_size)
          gateways_page_size add_allocations fuel 0 []
  ]

  -- `HashSet::from_iter` and `extend`
  unfoldable pub put_all : List PeerId → List PeerId → List PeerId
  put_all nodes [] = nodes
  put_all nodes (p ∷ peers) = put_all (put p nodes) peers

  -- One item of `network_nodes_stream`.
  unfoldable pub network_nodes : ℕ → Option (Result String (List PeerId))
  unfolding put_all active_gateways active_workers
  network_nodes fuel = elim (active_gateways fuel) [
    | none ↦ none
    | some gateways ↦ some (
        and_then gateways λ gateways.
          and_then active_workers
            λ workers. ok (put_all (put_all [] gateways) (map (λ w. w.peer_id) workers)))
  ]

  abbrev pub allocation_of : Worker → ℕ → Allocation
  allocation_of w cus = record {
    worker_peer_id = w.peer_id;
    worker_onchain_id = w.onchain_id;
    computation_units = cus;
  }

  -- One call for each worker, and the `zip` of the answers.
  unfoldable pub allocate_each : Address → Bytes → List Worker → Result String (List Allocation)
  allocate_each strategy gateway_id [] = ok []
  allocate_each strategy gateway_id (w ∷ workers) =
      and_then (c.computation_units_per_epoch strategy gateway_id w.onchain_id) λ cus.
        and_then (allocate_each strategy gateway_id workers) λ rest. ok (allocation_of w cus ∷ rest)

  -- What the code asks of the strategy, once it has it.
  unfoldable pub allocate : Address → Bytes → List Worker → Result String (List Allocation)
  unfolding allocate_each
  allocate strategy gateway_id [] = ok []
  allocate strategy gateway_id (first ∷ workers) =
      if eqb strategy c.default_strategy_addr
      then and_then (c.computation_units_per_epoch strategy gateway_id first.onchain_id)
          (λ cus. ok (map (λ w. allocation_of w cus) (first ∷ workers)))
      else allocate_each strategy gateway_id (first ∷ workers)

  -- No workers, no call of a contract.
  unfoldable pub current_allocations :
      PeerId → Option (List Worker) → Result String (List Allocation)
  unfolding active_workers allocate
  current_allocations client_id given =
      and_then (elim given [ some workers ↦ ok workers | none ↦ active_workers ])
        λ workers. elim workers [
          | [] ↦ ok []
          | w ∷ more ↦
              let gateway_id = c.to_bytes client_id in
              and_then (c.get_used_strategy gateway_id)
                (λ strategy. allocate strategy gateway_id (w ∷ more))
        ]
