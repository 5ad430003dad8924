-- ===== src/LogsCollector/Checking.antt =====
-- transport/src/actors/logs_collector.rs: which logs are passed on.
use subsquid_network.Base.{
  ◌≡◌, ◌↔◌, refl, sym, ap, ◌∙◌, Bool, true, false, ◌&&◌, Option, none, some, List, [], ◌∷◌, keep,
  eq_of_string, ◌==◌, arith,
}
use subsquid_network.Messages.{PeerId, Query, QueryExecuted, QueryLogs}
use subsquid_network.Signatures.{verify_signature, verify_executed}
use subsquid_network.Signatures.Laws.{
  IsLawful, BothVerify, verify_executed-BothVerify, verify_executed_unchanged,
}
use subsquid_network.LogsCollector.{Parts, worker_logs, logs_event, checked_logs, on_worker_logs}

module _ (p : Parts) where
  -- A query is there, and has a valid signature of the client.
  abbrev pub is_signed_query : Option PeerId → Option Query → Bool
  is_signed_query none query = false
  is_signed_query (some client) none = false
  is_signed_query (some client) (some query) = (verify_signature p.id p.queries client query).0

  -- The log names the peer as its worker and is signed by it, and the query inside is signed by the
  -- client that the log names.
  abbrev pub is_genuine : PeerId → QueryExecuted → Bool
  is_genuine peer log =
      (log.worker_id == p.id.to_base58 peer)
      && ((verify_signature p.id p.executed peer log).0
          && is_signed_query (p.id.parse log.client_id) log.query)

same_bool : (a b : Bool) → ((a ≡ true) ↔ (b ≡ true)) → a ≡ b
same_bool true b h = sym (h.0 refl)
same_bool false true h = h.1 refl
same_bool false false h = refl

both : (a b : Bool) → (a && b) ≡ true → (a ≡ true) × (b ≡ true)
both true b h = (refl, h)
both false b h = ground (arith, h)

module _ (p : Parts) (query_law : IsLawful p.queries) (executed_law : IsLawful p.executed) where
  signed_query :
      (client : Option PeerId) (query : Option Query)
      → is_signed_query p client query ≡ true
      → (c : PeerId) × (q : Query) × (client ≡ some c)
        × (query ≡ some q)
        × ((verify_signature p.id p.queries c q).0 ≡ true)
  signed_query none query h = ground (arith, h)
  signed_query (some client) none h = ground (arith, h)
  signed_query (some client) (some query) h = (client, query, refl, refl, h)

  genuine-BothVerify :
      (peer : PeerId) (log : QueryExecuted)
      → (((verify_signature p.id p.executed peer log).0
            && is_signed_query p (p.id.parse log.client_id) log.query)
          ≡ true)
        ↔ BothVerify p.id p.queries p.executed peer log
  genuine-BothVerify peer log = (
    λ h.
        let (by_worker, query) =
          both (verify_signature p.id p.executed peer log).0
            (is_signed_query p (p.id.parse log.client_id) log.query) h in
        let (c, q, named, present, by_client) =
          signed_query (p.id.parse log.client_id) log.query query in
        record {
          by_worker = by_worker;
          client = c;
          inner = q;
          named = named;
          present = present;
          by_client = by_client;
        },
    λ b. rw (b.by_worker, b.named) (rw b.present b.by_client),
  )

  verify_executed-genuine :
      (peer : PeerId) (log : QueryExecuted)
      → (verify_executed p.id p.queries p.executed peer log).0 ≡ (
          (verify_signature p.id p.executed peer log).0
          && is_signed_query p (p.id.parse log.client_id) log.query)
  verify_executed-genuine peer log =
      let code =
        verify_executed-BothVerify p.id p.queries p.executed query_law executed_law peer log in
      let test = genuine-BothVerify peer log in
      same_bool _ _ (λ h. test.1 (code.0 h), λ h. code.1 (test.0 h))

  checked_logs-keep :
      (peer : PeerId) (logs : List QueryExecuted)
      → checked_logs p peer logs ≡ keep (is_genuine p peer) logs
  unfolding checked_logs keep
  checked_logs-keep peer [] = refl
  checked_logs-keep peer (log ∷ logs) =
      let same =
        verify_executed_unchanged p.id p.queries p.executed query_law executed_law peer log in
      rw (same, verify_executed-genuine peer log, checked_logs-keep peer logs)

  -- The logs of a worker that are genuine are passed on in one event from that worker, unchanged and in
  -- their order: those that name the sender as the worker, with its valid signature, and whose query
  -- has a valid signature of the client that the log names. Without any, there is no event.
  pub on_worker_logs-keep :
      (peer : PeerId) (logs : QueryLogs)
      → let genuine = keep (is_genuine p peer) logs.queries_executed in
        (genuine ≡ [] → on_worker_logs p peer logs ≡ none)
        × ((log : QueryExecuted) (more : List QueryExecuted)
            → genuine ≡ log ∷ more
            → on_worker_logs p peer logs ≡ some (worker_logs peer (log ∷ more)))
  unfolding on_worker_logs
  on_worker_logs-keep peer logs =
      let event = ap (logs_event p peer) (checked_logs-keep peer logs.queries_executed) in
      (λ none_left. event ∙ rw none_left, λ log more left. event ∙ rw left)
