-- ===== src/Messages/Results.antt =====
-- messages/src/lib.rs: results of queries, and what a gateway logs of them. The hash function and
-- its library are a parameter; a length above the largest u32 is a panic, `none`.
use subsquid_network.Base.{ℕ, ◌^◌, String, Option, none, some, List, ltb, if◌then◌else◌, length}

pub record SizeAndHash : Type 0 where
  pub size : Option ℕ
  pub sha3_256 : List ℕ

pub record OkResult : Type 0 where
  pub content : List ℕ
  pub exec_plan : Option (List ℕ)

-- `query_result::Result`
pub data Outcome : Type 0 where
  ok : OkResult → Outcome
  bad_request server_error : String → Outcome
  no_allocation timeout : Outcome

-- `query_finished::Result`
pub data Finished : Type 0 where
  ok : SizeAndHash → Finished
  bad_request server_error : String → Finished
  no_allocation timeout : Finished

pub record QueryResult : Type 0 where
  pub query_id : String
  pub result : Option Outcome

pub new_query_result : String → Outcome → QueryResult
new_query_result query_id result = record { query_id = query_id; result = some result }

module _ (sha3_256 : List ℕ → List ℕ) where
  -- `SizeAndHash::compute`
  pub compute : List ℕ → Option SizeAndHash
  compute content =
      if ltb (length content) (2 ^ 32)
      then some (record { size = some (length content); sha3_256 = sha3_256 content })
      else none

  -- `From<&query_result::Result> for query_finished::Result`
  pub to_finished : Outcome → Option Finished
  unfolding compute
  to_finished (Outcome.ok r) = elim (compute r.content) [
    | none ↦ none
    | some s ↦ some (Finished.ok s)
  ]
  to_finished (Outcome.bad_request err) = some (Finished.bad_request err)
  to_finished (Outcome.server_error err) = some (Finished.server_error err)
  to_finished Outcome.no_allocation = some Finished.no_allocation
  to_finished Outcome.timeout = some Finished.timeout
