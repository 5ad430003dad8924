-- ===== src/ContractClient/Examples.antt =====
-- contract-client/src/client.rs: a chain with two gateways, and each theorem at it.
use subsquid_network.Base.{
  ◌≡◌, refl, Option, none, some, List, [], ◌∷◌, ok, member, eq_of_nat, arith,
}
use subsquid_network.Messages.{PeerId, Bytes}
use subsquid_network.ContractClient.{
  Chain, ChainWorker, ChainAllocation, GatewayCluster, Address, gateway_clusters, Worker,
  read_pages, gateways_of, active_gateways, new_worker, workers_of, active_workers, network_nodes,
  allocate, allocate_each,
}
use subsquid_network.ContractClient.Paging.{skip, page_of, active_gateways_all}
use subsquid_network.ContractClient.Clusters.{ids_in, gateways_for, gateway_clusters_all}

abbrev ids : List Bytes
ids = (4 ∷ []) ∷ [] ∷ (6 ∷ []) ∷ []

abbrev read_id : Bytes → Option PeerId
read_id [] = none
read_id (p ∷ rest) = some p

abbrev chain_worker : ChainWorker
chain_worker = record {
  creator = 1;
  peer_id = 9 ∷ [];
  bond = 100;
  registered_at = 3;
  deregistered_at = 0;
}

abbrev granted : List ChainAllocation
granted =
    record { operator = 1; gateway_id = 4 ∷ []; allocated = 10 }
    ∷ record { operator = 2; gateway_id = []; allocated = 20 }
    ∷ record { operator = 1; gateway_id = 6 ∷ []; allocated = 10 }
    ∷ []

abbrev chain : Chain
chain = record {
  get_block_number = ok 50;
  get_active_gateways = λ block page size. ok (page_of size ids page);
  get_allocations = λ block worker page size. ok (page_of size granted page);
  get_active_workers = ok (chain_worker ∷ [], 77 ∷ []);
  worker_ids = λ id. ok 77;
  get_worker = λ id. ok chain_worker;
  block_time = λ block. ok (some 1700000000);
  gateway_operator = λ id. ok 1;
  get_used_strategy = λ id. ok 5;
  computation_units_per_epoch = λ strategy gateway worker. ok 12;
  default_strategy_addr = 5;
  from_bytes = read_id;
  to_bytes = λ p. p ∷ [];
}

program : Unit {0}
unfolding read_pages gateways_of active_gateways new_worker workers_of active_workers network_nodes
    allocate allocate_each skip member
program = tt

both_gateways : active_gateways chain 1 ≡ some (ok (4 ∷ 6 ∷ []))
unfolding program
both_gateways = refl

active_gateways_all_example : active_gateways chain 2 ≡ some (ok (4 ∷ 6 ∷ []))
unfolding program
active_gateways_all_example = active_gateways_all chain 50 ids 2 refl (λ page. refl) (omega arith)

abbrev worker : Worker
worker = record {
  peer_id = 9;
  onchain_id = 77;
  address = 1;
  bond = 100;
  registered_at = 3;
  deregistered_at = none;
}

gateway_clusters_all_example :
    (clusters : List (Address × GatewayCluster)) × (gateway_clusters chain 1 77
      ≡ some (ok clusters))
    × ((operator : Address) → ids_in operator clusters ≡ gateways_for chain operator granted)
unfolding program
gateway_clusters_all_example =
    gateway_clusters_all chain 50 77 granted 1 refl (λ page. refl) (omega arith)

one_operator : gateways_for chain 1 granted ≡ 4 ∷ 6 ∷ []
one_operator = refl
