-- ===== src/Gateway/Sample.antt =====
-- A gateway for the examples.
use subsquid_network.Base.{ℕ, [], ◌∷◌, ◌+◌, ◌<◌, lt_suc_cases, arith}
use subsquid_network.Timeouts.Sample.{sample_timeouts}
use subsquid_network.Addresses.Sample.{sample_lru}
use subsquid_network.Signatures.Sample.{sample_identity, sample_queries}
use subsquid_network.RequestClient.{Requests}
use subsquid_network.BaseBehaviour.Sample.{sample_kademlia, idle}
use subsquid_network.Gateway.{Parts, GatewayBehaviour}

-- Requests of any type, which count their IDs.
abbrev pub counting : (R : Type 0) → Requests R
counting R = record {
  Inner = ℕ;
  start = λ resp_timeout. 0;
  send_request = λ i p r. (i + 1, i);
  Issued = λ i id. id < i;
  issues = λ i p r. omega arith;
  keeps = λ i p r id h. omega arith;
  fresh = λ i p r. omega arith;
  none_issued = λ resp_timeout id. omega arith;
  issues_one = λ i p r id h. lt_suc_cases id i (omega (arith, h));
}

abbrev pub parts : Parts
parts = record {
  k = sample_kademlia;
  t = sample_timeouts;
  l = sample_lru;
  id = sample_identity;
  queries = sample_queries;
  query_requests = counting _;
  log_requests = counting _;
}

abbrev pub gateway : GatewayBehaviour parts
gateway = record {
  base = idle;
  query = record {
    inner = 7;
    original_requests = [];
    waiting_for_connection = [];
    resubmitted_requests = [];
    lookup_timeouts = ([], 3);
    max_buffered = 3;
  };
  logs = record {
    inner = 0;
    original_requests = [];
    waiting_for_connection = [];
    resubmitted_requests = [];
    lookup_timeouts = ([], 3);
    max_buffered = 3;
  };
  logs_collector_id = 2;
  query_ids = (5, "q0") ∷ [];
  keypair = 4;
}
