-- ===== src/Transport/Gateway/Refine.antt =====
-- transport/src/actors/gateway.rs: what the loop and the handle do, next to calls of the behaviour
-- itself.
use subsquid_network.Base.{◌≡◌, refl, sym, ap, subst, ◌∙◌, Option, none, some, List, [], ◌∷◌, ◌++◌}
use subsquid_network.Messages.{
  PeerId, Query, QuerySubmitted, QueryFinished, GatewayLogMsg, gateway_log_from, query_submitted,
  query_finished,
}
use subsquid_network.Queue.{recv}
use subsquid_network.Queue.Fifo.{
  Accounts, Accounts-refl, Accounts-trans, if_sent, if_received, rest_of, try_send-Accounts,
  recv-Accounts,
}
use subsquid_network.Gateway.{
  Parts, GatewayBehaviour, GatewayInnerEvent, on_inner_event, send_query, send_log_msg,
}
use subsquid_network.Transport.Gateway.{
  GatewayQueues, GatewayTransport, queue_query, queue_log, queue_submitted, queue_finished,
  on_swarm_event, Selected, behaviour_event, swarm_event, query_queued, log_queued, on_query_queued,
  on_log_queued, round,
}

-- A step of the user, by the handle, or of the loop.
pub data Step : Type 0 where
  user_asks : PeerId → Query → Step
  user_submits : QuerySubmitted → Step
  user_finishes : QueryFinished → Step
  loops : Selected → Step

-- A call of the behaviour.
pub data Direct : Type 0 where
  handle : GatewayInnerEvent → Direct
  ask : PeerId → Query → Direct
  report : GatewayLogMsg → Direct

unfoldable pub asked : List Direct → List (PeerId × Query)
asked [] = []
asked (ask peer_id query ∷ ops) = (peer_id, query) ∷ asked ops
asked (handle ev ∷ ops) = asked ops
asked (report msg ∷ ops) = asked ops

unfoldable pub reported : List Direct → List GatewayLogMsg
reported [] = []
reported (report msg ∷ ops) = msg ∷ reported ops
reported (handle ev ∷ ops) = reported ops
reported (ask peer_id query ∷ ops) = reported ops

asked-append : (ops ops' : List Direct) → asked (ops ++ ops') ≡ asked ops ++ asked ops'
unfolding asked
asked-append [] ops' = refl
asked-append (ask peer_id query ∷ ops) ops' = ap (λ l. (peer_id, query) ∷ l) (asked-append ops ops')
asked-append (handle ev ∷ ops) ops' = asked-append ops ops'
asked-append (report msg ∷ ops) ops' = asked-append ops ops'

reported-append : (ops ops' : List Direct) → reported (ops ++ ops') ≡ reported ops ++ reported ops'
unfolding reported
reported-append [] ops' = refl
reported-append (report msg ∷ ops) ops' = ap (λ l. msg ∷ l) (reported-append ops ops')
reported-append (handle ev ∷ ops) ops' = reported-append ops ops'
reported-append (ask peer_id query ∷ ops) ops' = reported-append ops ops'

module _ (p : Parts) where
  unfoldable pub directly : GatewayBehaviour p → List Direct → GatewayBehaviour p
  directly b [] = b
  directly b (handle ev ∷ ops) = directly (on_inner_event p b ev).1 ops
  directly b (ask peer_id query ∷ ops) = directly (send_query p b peer_id query) ops
  directly b (report msg ∷ ops) = directly (send_log_msg p b msg) ops

  directly-append :
      (b : GatewayBehaviour p) (ops ops' : List Direct)
      → directly b (ops ++ ops') ≡ directly (directly b ops) ops'
  unfolding directly
  directly-append b [] ops' = refl
  directly-append b (handle ev ∷ ops) ops' = directly-append (on_inner_event p b ev).1 ops ops'
  directly-append b (ask peer_id query ∷ ops) ops' =
      directly-append (send_query p b peer_id query) ops ops'
  directly-append b (report msg ∷ ops) ops' = directly-append (send_log_msg p b msg) ops ops'

module _ (p : Parts) (q : GatewayQueues) where
  unfoldable pub step : GatewayTransport p q → Step → GatewayTransport p q
  unfolding queue_query queue_submitted queue_finished round
  step s (user_asks peer_id query) = (queue_query p q s peer_id query).1
  step s (user_submits msg) = (queue_submitted p q s msg).1
  step s (user_finishes msg) = (queue_finished p q s msg).1
  step s (loops selected) = round p q s selected

  unfoldable pub run : GatewayTransport p q → List Step → GatewayTransport p q
  unfolding step
  run s [] = s
  run s (first ∷ steps) = run (step s first) steps

  -- What the handle accepted in a step.
  unfoldable pub accepted_query : GatewayTransport p q → Step → List (PeerId × Query)
  accepted_query s (user_asks peer_id query) =
      if_sent q.queries (queue_query p q s peer_id query).0 (peer_id, query)
  accepted_query s (user_submits msg) = []
  accepted_query s (user_finishes msg) = []
  accepted_query s (loops selected) = []

  unfoldable pub accepted_log : GatewayTransport p q → Step → List GatewayLogMsg
  accepted_log s (user_asks peer_id query) = []
  accepted_log s (user_submits msg) =
      if_sent q.logs (queue_submitted p q s msg).0 (gateway_log_from (query_submitted msg))
  accepted_log s (user_finishes msg) =
      if_sent q.logs (queue_finished p q s msg).0 (gateway_log_from (query_finished msg))
  accepted_log s (loops selected) = []

  unfoldable pub accepted_queries : GatewayTransport p q → List Step → List (PeerId × Query)
  unfolding accepted_query
  accepted_queries s [] = []
  accepted_queries s (first ∷ steps) =
      accepted_query s first ++ accepted_queries (step s first) steps

  unfoldable pub accepted_logs : GatewayTransport p q → List Step → List GatewayLogMsg
  unfolding accepted_log
  accepted_logs s [] = []
  accepted_logs s (first ∷ steps) = accepted_log s first ++ accepted_logs (step s first) steps

  -- The behaviour is where calls of it lead, and each queue holds what was accepted and not yet
  -- passed on in those calls.
  pub record Refines (before after : GatewayTransport p q) (queries : List (PeerId × Query))
      (logs : List GatewayLogMsg) : Type 0 where
    pub calls : List Direct
    pub same_behaviour : after.behaviour ≡ directly p before.behaviour calls
    pub same_queries : Accounts q.queries before.queries_rx queries (asked calls) after.queries_rx
    pub same_logs : Accounts q.logs before.logs_rx logs (reported calls) after.logs_rx

  Refines-refl : (s : GatewayTransport p q) → Refines s s [] []
  unfolding directly asked reported
  Refines-refl s = record {
    calls = [];
    same_behaviour = refl;
    same_queries = Accounts-refl q.queries s.queries_rx;
    same_logs = Accounts-refl q.logs s.logs_rx;
  }

  Refines-trans :
      (s s' s'' : GatewayTransport p q) (queries queries' : List (PeerId × Query))
      (logs logs' : List GatewayLogMsg)
      → Refines s s' queries logs
      → Refines s' s'' queries' logs'
      → Refines s s'' (queries ++ queries') (logs ++ logs')
  Refines-trans s s' s'' queries queries' logs logs' r r' = record {
    calls = r.calls ++ r'.calls;
    same_behaviour =
        r'.same_behaviour
        ∙ ap (λ b. directly p b r'.calls) r.same_behaviour
        ∙ sym (directly-append p s.behaviour r.calls r'.calls);
    same_queries =
        subst (λ l. Accounts q.queries s.queries_rx (queries ++ queries') l s''.queries_rx)
          (sym (asked-append r.calls r'.calls))
          (Accounts-trans q.queries s.queries_rx s'.queries_rx s''.queries_rx queries
            (asked r.calls) queries' (asked r'.calls) r.same_queries r'.same_queries);
    same_logs =
        subst (λ l. Accounts q.logs s.logs_rx (logs ++ logs') l s''.logs_rx)
          (sym (reported-append r.calls r'.calls))
          (Accounts-trans q.logs s.logs_rx s'.logs_rx s''.logs_rx logs (reported r.calls) logs'
            (reported r'.calls) r.same_logs r'.same_logs);
  }

  queue_log-Refines :
      (s : GatewayTransport p q) (msg : GatewayLogMsg)
      → Refines s (queue_log p q s msg).1 [] (if_sent q.logs (queue_log p q s msg).0 msg)
  unfolding queue_log directly asked reported
  queue_log-Refines s msg = record {
    calls = [];
    same_behaviour = refl;
    same_queries = Accounts-refl q.queries s.queries_rx;
    same_logs = try_send-Accounts q.logs s.logs_rx msg;
  }

  on_query_queued-Refines :
      (s : GatewayTransport p q) (next : Option ((PeerId × Query) × q.queries.Inner))
      → Accounts q.queries s.queries_rx []
          (if_received q.queries next)
          (rest_of q.queries s.queries_rx next)
      → Refines s (on_query_queued p q s next) [] []
  unfolding on_query_queued directly asked reported
  on_query_queued-Refines s none h = Refines-refl s
  on_query_queued-Refines s (some ((peer_id, query), queries_rx')) h = record {
    calls = ask peer_id query ∷ [];
    same_behaviour = refl;
    same_queries = h;
    same_logs = Accounts-refl q.logs s.logs_rx;
  }

  on_log_queued-Refines :
      (s : GatewayTransport p q) (next : Option (GatewayLogMsg × q.logs.Inner))
      → Accounts q.logs s.logs_rx [] (if_received q.logs next) (rest_of q.logs s.logs_rx next)
      → Refines s (on_log_queued p q s next) [] []
  unfolding on_log_queued directly asked reported
  on_log_queued-Refines s none h = Refines-refl s
  on_log_queued-Refines s (some (msg, logs_rx')) h = record {
    calls = report msg ∷ [];
    same_behaviour = refl;
    same_queries = Accounts-refl q.queries s.queries_rx;
    same_logs = h;
  }

  round-Refines :
      (s : GatewayTransport p q) (selected : Selected) → Refines s (round p q s selected) [] []
  unfolding round on_swarm_event directly asked reported
  round-Refines s (behaviour_event ev) = record {
    calls = handle ev ∷ [];
    same_behaviour = refl;
    same_queries = Accounts-refl q.queries s.queries_rx;
    same_logs = Accounts-refl q.logs s.logs_rx;
  }
  round-Refines s swarm_event = Refines-refl s
  round-Refines s query_queued =
      on_query_queued-Refines s (recv q.queries s.queries_rx) (recv-Accounts q.queries s.queries_rx)
  round-Refines s log_queued =
      on_log_queued-Refines s (recv q.logs s.logs_rx) (recv-Accounts q.logs s.logs_rx)

  step-Refines :
      (s : GatewayTransport p q) (first : Step)
      → Refines s (step s first) (accepted_query s first) (accepted_log s first)
  unfolding step accepted_query accepted_log queue_query queue_submitted queue_finished directly
      asked reported
  step-Refines s (user_asks peer_id query) = record {
    calls = [];
    same_behaviour = refl;
    same_queries = try_send-Accounts q.queries s.queries_rx (peer_id, query);
    same_logs = Accounts-refl q.logs s.logs_rx;
  }
  step-Refines s (user_submits msg) = queue_log-Refines s (gateway_log_from (query_submitted msg))
  step-Refines s (user_finishes msg) = queue_log-Refines s (gateway_log_from (query_finished msg))
  step-Refines s (loops selected) = round-Refines s selected

  -- Over every interleaving of calls of the handle and rounds of the loop, the behaviour gets to where
  -- a sequence of direct calls leads it: in them the queries that the handle accepted come in their
  -- order, each once, but for those still queued, and so do the logs.
  pub run-Refines :
      (s : GatewayTransport p q) (steps : List Step)
      → Refines s (run s steps) (accepted_queries s steps) (accepted_logs s steps)
  unfolding run accepted_queries accepted_logs
  run-Refines s [] = Refines-refl s
  run-Refines s (first ∷ steps) =
      Refines-trans s (step s first) (run (step s first) steps) (accepted_query s first)
        (accepted_queries (step s first) steps) (accepted_log s first)
        (accepted_logs (step s first) steps) (step-Refines s first)
        (run-Refines (step s first) steps)
