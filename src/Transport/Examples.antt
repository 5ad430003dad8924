-- ===== src/Transport/Examples.antt =====
-- transport/src/actors/gateway.rs: the loop at an input, with queues for one message.
use subsquid_network.Base.{◌≡◌, refl, List, [], ◌∷◌}
use subsquid_network.Signatures.Sample.{sample_query}
use subsquid_network.Queue.Sample.{sample_channel}
use subsquid_network.Gateway.Sample.{parts, gateway}
use subsquid_network.Transport.Gateway.{
  GatewayQueues, GatewayTransport, swarm_event, query_queued, queue_query,
}
use subsquid_network.Transport.Gateway.Refine.{
  Step, user_asks, loops, step, run, accepted_queries, accepted_logs, Refines, run-Refines,
}

abbrev queues : GatewayQueues
queues = record { queries = sample_channel _; logs = sample_channel _; events = sample_channel _ }

abbrev start : GatewayTransport parts queues
start = record { behaviour = gateway; queries_rx = ([], 1); logs_rx = ([], 1); events_tx = ([], 1) }

-- The second query does not fit.
abbrev steps : List Step
steps =
    user_asks 6 sample_query
    ∷ user_asks 7 sample_query
    ∷ loops swarm_event
    ∷ loops query_queued
    ∷ user_asks 8 sample_query
    ∷ []

program : Unit {0}
unfolding accepted_queries step queue_query
program = tt

two_accepted :
    accepted_queries parts queues start steps ≡ (6, sample_query) ∷ (8, sample_query) ∷ []
unfolding program
two_accepted = refl

run-Refines_example :
    Refines parts queues start
      (run parts queues start steps)
      (accepted_queries parts queues start steps)
      (accepted_logs parts queues start steps)
run-Refines_example = run-Refines parts queues start steps
