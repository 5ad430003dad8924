-- ===== src/Protocol.antt =====
-- transport/src/protocol.rs: the names of the topics and protocols, and the limits of messages.
use subsquid_network.Base.{ℕ, ◌*◌, String}

abbrev pub ping_topic : String
ping_topic = "/subsquid/worker_pings/1.0.0"

abbrev pub worker_logs_topic : String
worker_logs_topic = "/subsquid/worker_query_logs/1.1.0"

abbrev pub logs_collected_topic : String
logs_collected_topic = "/subsquid/logs_collected/1.0.0"

abbrev pub query_protocol : String
query_protocol = "/subsquid/query/1.0.0"

abbrev pub gateway_logs_protocol : String
gateway_logs_protocol = "/subsquid/gateway-logs/1.0.0"

abbrev pub pong_protocol : String
pong_protocol = "/subsquid/pong/1.0.0"

abbrev pub max_query_size : ℕ
max_query_size = 1024 * 1024

abbrev pub max_query_result_size : ℕ
max_query_result_size = 100 * 1024 * 1024

abbrev pub max_gateway_log_size : ℕ
max_gateway_log_size = 1024 * 1024

abbrev pub max_pong_size : ℕ
max_pong_size = 1024 * 1024

abbrev pub max_pubsub_msg_size : ℕ
max_pubsub_msg_size = 65536

abbrev pub keep_last_worker_logs : ℕ
keep_last_worker_logs = 100
