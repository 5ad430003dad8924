-- ===== src/Joining.antt =====
-- The configurations and the constructors of the gateway, the worker and the scheduler
-- (transport/src/actors/): which topics they subscribe to, and whom they allow besides the registered
-- nodes. The shutdown timeouts, which tasks alone use, are left out.
use subsquid_network.Base.{ℕ}
use subsquid_network.Messages.{PeerId}
use subsquid_network.Protocol.{
  max_query_size, max_query_result_size, max_gateway_log_size, max_pong_size,
}
use subsquid_network.Pubsub.{Gossipsub, PubsubBehaviour}
use subsquid_network.RequestClient.{ClientConfig, default_config}
use subsquid_network.BaseBehaviour.Nodes.{AllowList, NodesState, allow_peer}
use subsquid_network.BaseBehaviour.Topics.{
  subscribe_pings, subscribe_worker_logs, subscribe_logs_collected,
}

pub record GatewayConfig : Type 0 where
  pub logs_collector_id : PeerId
  pub query_config : ClientConfig
  pub logs_config : ClientConfig
  pub max_query_size_limit : ℕ
  pub max_query_result_size_limit : ℕ
  pub max_query_log_size : ℕ
  pub queries_queue_size : ℕ
  pub logs_queue_size : ℕ
  pub events_queue_size : ℕ

pub new_gateway_config : PeerId → GatewayConfig
new_gateway_config logs_collector_id = record {
  logs_collector_id = logs_collector_id;
  query_config = default_config;
  logs_config = default_config;
  max_query_size_limit = max_query_size;
  max_query_result_size_limit = max_query_result_size;
  max_query_log_size = max_gateway_log_size;
  queries_queue_size = 100;
  logs_queue_size = 100;
  events_queue_size = 100;
}

pub record WorkerConfig : Type 0 where
  pub scheduler_id : PeerId
  pub logs_collector_id : PeerId
  pub max_pong_size_limit : ℕ
  pub max_query_size_limit : ℕ
  pub max_query_result_size_limit : ℕ
  pub pings_queue_size : ℕ
  pub query_results_queue_size : ℕ
  pub logs_queue_size : ℕ
  pub events_queue_size : ℕ

pub new_worker_config : PeerId → PeerId → WorkerConfig
new_worker_config scheduler_id logs_collector_id = record {
  scheduler_id = scheduler_id;
  logs_collector_id = logs_collector_id;
  max_pong_size_limit = max_pong_size;
  max_query_size_limit = max_query_size;
  max_query_result_size_limit = max_query_result_size;
  pings_queue_size = 100;
  query_results_queue_size = 100;
  logs_queue_size = 100;
  events_queue_size = 100;
}

pub record SchedulerConfig : Type 0 where
  pub pong_config : ClientConfig
  pub max_pong_size_limit : ℕ
  pub pongs_queue_size : ℕ
  pub probes_queue_size : ℕ
  pub events_queue_size : ℕ

pub default_scheduler_config : SchedulerConfig
default_scheduler_config = record {
  pong_config = default_config;
  max_pong_size_limit = max_pong_size;
  pongs_queue_size = 1000;
  probes_queue_size = 1000;
  events_queue_size = 1000;
}

module _ (g : Gossipsub) (a : AllowList) where
  -- The parts of the base behaviour that the constructors change.
  pub record Joined : Type 0 where
    pub pubsub : PubsubBehaviour g
    pub nodes : NodesState a

  -- `GatewayBehaviour::new`
  pub join_gateway : ℕ → Joined → GatewayConfig → Joined
  unfolding subscribe_pings allow_peer
  join_gateway now base config = record {
    pubsub = subscribe_pings g now base.pubsub;
    nodes = allow_peer a base.nodes config.logs_collector_id;
  }

  -- `WorkerBehaviour::new`
  pub join_worker : ℕ → Joined → WorkerConfig → Joined
  unfolding subscribe_pings subscribe_worker_logs subscribe_logs_collected allow_peer
  join_worker now base config = record {
    pubsub =
        subscribe_logs_collected g now
          (subscribe_worker_logs g now (subscribe_pings g now base.pubsub));
    nodes = allow_peer a (allow_peer a base.nodes config.logs_collector_id) config.scheduler_id;
  }
