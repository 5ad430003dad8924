-- ===== src/Messages.antt =====
-- messages/proto/messages.proto and messages/src/lib.rs: the messages of the network, with the
-- conversions between them. Bytes are lists of numbers below 256; a peer ID, which the program
-- only compares, prints and parses, is a number.
mod Results
pub use Results.*
use subsquid_network.Base.{ℕ, Bool, String, Option, some, List}
use subsquid_network.RangeSet.{Range}
use Results.{SizeAndHash, Finished}

abbrev pub PeerId : Type 0
PeerId = ℕ

abbrev pub Bytes : Type 0
Bytes = List ℕ

pub record DatasetRanges : Type 0 where
  pub url : String
  pub ranges : List Range

pub record Ping : Type 0 where
  pub worker_id : Option String
  pub version : Option String
  pub stored_bytes : Option ℕ
  pub stored_ranges : List DatasetRanges
  pub signature : Bytes

pub record HttpHeader : Type 0 where
  pub name : String
  pub value : String

pub record AssignedChunk : Type 0 where
  pub path : String
  pub filenames : List ℕ

pub record DatasetChunks : Type 0 where
  pub dataset_id : String
  pub download_url : String
  pub chunks : List AssignedChunk

pub record WorkerAssignment : Type 0 where
  pub dataset_chunks : List DatasetChunks
  pub http_headers : List HttpHeader
  pub known_filenames : List String

pub data PongStatus : Type 0 where
  not_registered unsupported_version : PongStatus
  jailed : String → PongStatus
  active : WorkerAssignment → PongStatus

pub record Pong : Type 0 where
  pub ping_hash : Bytes
  pub status : Option PongStatus

pub record Query : Type 0 where
  pub query_id : Option String
  pub dataset : Option String
  pub query : Option String
  pub profiling : Option Bool
  pub client_state_json : Option String
  pub signature : Bytes

pub record InputAndOutput : Type 0 where
  pub num_read_chunks : Option ℕ
  pub output : Option SizeAndHash

-- `query_executed::Result`
pub data ExecutionResult : Type 0 where
  ok : InputAndOutput → ExecutionResult
  bad_request server_error : String → ExecutionResult

pub record QueryExecuted : Type 0 where
  pub client_id : String
  pub worker_id : String
  pub query : Option Query
  pub query_hash : Bytes
  pub exec_time_ms : Option ℕ
  pub result : Option ExecutionResult
  pub seq_no : Option ℕ
  pub timestamp_ms : Option ℕ
  pub signature : Bytes

pub record QueryLogs : Type 0 where
  pub queries_executed : List QueryExecuted

-- Peer ID, printed, to the last saved sequence number.
pub record LogsCollected : Type 0 where
  pub sequence_numbers : List (String × ℕ)

-- `worker_logs_msg::Msg`
pub data WorkerLogs : Type 0 where
  query_logs : QueryLogs → WorkerLogs
  logs_collected : LogsCollected → WorkerLogs

pub record WorkerLogsMsg : Type 0 where
  pub msg : Option WorkerLogs

pub record QuerySubmitted : Type 0 where
  pub client_id : String
  pub worker_id : String
  pub query_id : String
  pub dataset : String
  pub query : String
  pub query_hash : Bytes

pub record QueryFinished : Type 0 where
  pub client_id : String
  pub worker_id : String
  pub query_id : String
  pub exec_time_ms : ℕ
  pub result : Option Finished

-- `gateway_log_msg::Msg`
pub data GatewayLog : Type 0 where
  query_submitted : QuerySubmitted → GatewayLog
  query_finished : QueryFinished → GatewayLog

pub record GatewayLogMsg : Type 0 where
  pub msg : Option GatewayLog

-- `From<Vec<QueryExecuted>> for WorkerLogsMsg`
unfoldable pub logs_from_queries : List QueryExecuted → WorkerLogsMsg
logs_from_queries queries_executed = record {
  msg = some (query_logs (record { queries_executed = queries_executed }));
}

-- `From<LogsCollected> for WorkerLogsMsg`
unfoldable pub logs_from_collected : LogsCollected → WorkerLogsMsg
logs_from_collected msg = record { msg = some (logs_collected msg) }

-- `From<gateway_log_msg::Msg> for GatewayLogMsg`
unfoldable pub gateway_log_from : GatewayLog → GatewayLogMsg
gateway_log_from msg = record { msg = some msg }
