-- ===== src/RequestClient/Sample.antt =====
-- A request behaviour for the examples, which counts its IDs, and a client that uses it.
use subsquid_network.Base.{ℕ, suc, ◌<◌, lt_suc_cases, [], ◌∷◌, arith}
use subsquid_network.Timeouts.Sample.{sample_timeouts}
use subsquid_network.RequestClient.{Requests, ClientConfig, ClientBehaviour}

abbrev pub sample_requests : Requests ℕ
sample_requests = record {
  Inner = ℕ;
  start = λ resp_timeout. 0;
  send_request = λ i p r. (suc i, i);
  Issued = λ i id. id < i;
  issues = λ i p r. omega arith;
  keeps = λ i p r id h. omega arith;
  fresh = λ i p r. omega arith;
  none_issued = λ resp_timeout id. omega arith;
  issues_one = λ i p r id h. lt_suc_cases id i (omega (arith, h));
}

-- Two requests wait for peer 5, and one was sent.
abbrev pub sample_client : ClientBehaviour sample_requests sample_timeouts
sample_client = record {
  inner = 3;
  original_requests = (0, 70) ∷ (1, 71) ∷ (2, 72) ∷ [];
  waiting_for_connection = (5, 0 ∷ 2 ∷ []) ∷ [];
  resubmitted_requests = [];
  lookup_timeouts = (5 ∷ [], 3);
  max_buffered = 3;
}

abbrev pub sample_config : ClientConfig
sample_config = record { max_buffered = 2; send_timeout = 1; resp_timeout = 1 }
