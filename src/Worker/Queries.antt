-- ===== src/Worker/Queries.antt =====
-- transport/src/actors/worker.rs: which queries are taken, and where their results go.
use subsquid_network.Base.{
  ◌≡◌, ◌≢◌, ◌↔◌, refl, sym, ap, ◌∙◌, Bool, true, false, Option, none, some, String, if◌then◌else◌,
  lookup, insert, remove, eq_of_nat, eq_of_string, ==_of_ne, lookup-insert, lookup-insert_self,
  lookup-remove_self, lookup-remove, Bool-cases, inl, inr, arith,
}
use subsquid_network.Messages.{PeerId, Query, QueryResult}
use subsquid_network.Signatures.{verify_signature}
use subsquid_network.Signatures.Laws.{IsLawful, verify_signature_unchanged}
use subsquid_network.RequestServer.{try_send_response}
use subsquid_network.Worker.{
  Parts, WorkerBehaviour, WorkerEvent, query, keep_channel, on_verified_query, on_query,
  send_query_result,
}

module _ (p : Parts) (law : IsLawful p.queries) where
  on_query_step :
      (s : WorkerBehaviour p) (peer : PeerId) (msg : Query) (chan : Option p.results.Channel)
      (valid : Bool)
      → (verify_signature p.id p.queries peer msg).0 ≡ valid
      → on_query p s peer msg chan
        ≡ (if valid then on_verified_query p s peer msg msg.query_id chan else (none, s))
  unfolding on_query
  on_query_step s peer msg chan valid h =
      rw (verify_signature_unchanged p.id p.queries law peer msg, h)

  on_query_taken :
      (s : WorkerBehaviour p) (peer : PeerId) (msg : Query) (chan : Option p.results.Channel)
      (query_id : String)
      → (verify_signature p.id p.queries peer msg).0 ≡ true
      → msg.query_id ≡ some query_id
      → on_query p s peer msg chan ≡ (some (query peer msg), keep_channel p s query_id chan)
  unfolding on_verified_query
  on_query_taken s peer msg chan query_id valid named =
      on_query_step s peer msg chan true valid
      ∙ ap (λ o. on_verified_query p s peer msg o chan) named

  event_named :
      (s : WorkerBehaviour p) (peer : PeerId) (msg : Query) (o : Option String)
      (chan : Option p.results.Channel)
      → (on_verified_query p s peer msg o chan).0 ≡ some (query peer msg)
      → (query_id : String) × (o ≡ some query_id)
  unfolding on_verified_query
  event_named s peer msg none chan h = ground (arith, h)
  event_named s peer msg (some query_id) chan h = (query_id, refl)

  taken_only :
      (s : WorkerBehaviour p) (peer : PeerId) (msg : Query) (chan : Option p.results.Channel)
      → (on_query p s peer msg chan).0 ≡ some (query peer msg)
      → ((verify_signature p.id p.queries peer msg).0 ≡ true)
        × ((query_id : String) × (msg.query_id ≡ some query_id))
  taken_only s peer msg chan h = elim (Bool-cases (verify_signature p.id p.queries peer msg).0) [
    | inl valid ↦
        let step =
          ap (λ (out : Option WorkerEvent × WorkerBehaviour p). out.0)
            (on_query_step s peer msg chan true valid) in
        (valid, event_named s peer msg msg.query_id chan (sym step ∙ h))
    | inr bad ↦ absurd (
        ground (
          arith,
          h,
          ap (λ (out : Option WorkerEvent × WorkerBehaviour p). out.0)
              (on_query_step s peer msg chan false bad),
        ))
  ]

  -- A query is passed on exactly when its signature is the sender's and it has an ID.
  pub on_query-valid :
      (s : WorkerBehaviour p) (peer : PeerId) (msg : Query) (chan : Option p.results.Channel)
      → ((on_query p s peer msg chan).0 ≡ some (query peer msg)) ↔ (
          ((verify_signature p.id p.queries peer msg).0 ≡ true)
          × ((query_id : String) × (msg.query_id ≡ some query_id)))
  on_query-valid s peer msg chan = (
    taken_only s peer msg chan,
    λ (valid, (query_id, named)).
        ap (λ (out : Option WorkerEvent × WorkerBehaviour p). out.0)
          (on_query_taken s peer msg chan query_id valid named),
  )

  abbrev answered : WorkerBehaviour p → p.results.Channel → QueryResult → WorkerBehaviour p
  answered s chan result = record s {
    query_response_channels = remove result.query_id s.query_response_channels;
    query_server = (try_send_response p.results s.query_server chan result).0;
  }

  result_sent :
      (s : WorkerBehaviour p) (chan : p.results.Channel) (result : QueryResult)
      → lookup result.query_id s.query_response_channels ≡ some chan
      → send_query_result p s result ≡ answered s chan result
  unfolding send_query_result
  result_sent s chan result e = rw (e, send_query_result)

  result_dropped :
      (s : WorkerBehaviour p) (result : QueryResult)
      → lookup result.query_id s.query_response_channels ≡ none
      → send_query_result p s result ≡ s
  unfolding send_query_result
  result_dropped s result e = rw (e, send_query_result)

  kept_channel :
      (s : WorkerBehaviour p) (chan : p.results.Channel) (result : QueryResult)
      → send_query_result p (keep_channel p s result.query_id (some chan)) result
        ≡ answered (keep_channel p s result.query_id (some chan)) chan result
  kept_channel s chan result =
      result_sent (keep_channel p s result.query_id (some chan)) chan result
        (lookup-insert_self result.query_id chan s.query_response_channels)

  answered_once :
      (s : WorkerBehaviour p) (chan : p.results.Channel) (result : QueryResult)
      → send_query_result p (answered s chan result) result ≡ answered s chan result
  answered_once s chan result =
      result_dropped (answered s chan result) result
        (lookup-remove_self result.query_id s.query_response_channels)

  other_channels :
      (s : WorkerBehaviour p) (chan : p.results.Channel) (result : QueryResult) (other : String)
      → result.query_id ≢ other
      → lookup other
          (answered
            (keep_channel p s result.query_id (some chan))
            chan
            result).query_response_channels
        ≡ lookup other s.query_response_channels
  other_channels s chan result other ne =
      let apart = ==_of_ne result.query_id other ne in
      lookup-remove result.query_id other (insert result.query_id chan s.query_response_channels)
      ∙ rw apart (lookup-insert result.query_id other chan s.query_response_channels ∙ rw apart)

  -- After a query with a valid signature and an ID was taken, the next result with that ID goes to
  -- the channel that the query came on, a second one goes nowhere, and the channels of other IDs
  -- stay.
  pub send_query_result-on_query :
      (s : WorkerBehaviour p) (peer : PeerId) (msg : Query) (chan : p.results.Channel)
      (result : QueryResult)
      → (verify_signature p.id p.queries peer msg).0 ≡ true
      → msg.query_id ≡ some result.query_id
      → let s' = send_query_result p (on_query p s peer msg (some chan)).1 result in
        (s'.query_server ≡ (try_send_response p.results s.query_server chan result).0)
        × (send_query_result p s' result ≡ s')
        × ((other : String)
            → result.query_id ≢ other
            → lookup other s'.query_response_channels ≡ lookup other s.query_response_channels)
  send_query_result-on_query s peer msg chan result valid named =
      rw
        (
          on_query_taken s peer msg (some chan) result.query_id valid named,
          kept_channel s chan result,
        )
        (
          refl,
          answered_once (keep_channel p s result.query_id (some chan)) chan result,
          other_channels s chan result,
        )

  -- When two queries with one ID are taken, from whatever clients, the next result with that ID goes
  -- to the channel of the second, and a further one goes nowhere: none goes to the first.
  pub send_query_result-same_id :
      (s : WorkerBehaviour p) (peer peer' : PeerId) (msg msg' : Query)
      (chan chan' : p.results.Channel) (result : QueryResult)
      → (verify_signature p.id p.queries peer msg).0 ≡ true
      → msg.query_id ≡ some result.query_id
      → (verify_signature p.id p.queries peer' msg').0 ≡ true
      → msg'.query_id ≡ some result.query_id
      → let first = (on_query p s peer msg (some chan)).1 in
        let s' = send_query_result p (on_query p first peer' msg' (some chan')).1 result in
        (s'.query_server ≡ (try_send_response p.results s.query_server chan' result).0)
        × (send_query_result p s' result ≡ s')
  send_query_result-same_id s peer peer' msg msg' chan chan' result valid named valid' named' =
      let first = keep_channel p s result.query_id (some chan) in
      rw (on_query_taken s peer msg (some chan) result.query_id valid named) (
        rw
          (
            on_query_taken first peer' msg' (some chan') result.query_id valid' named',
            kept_channel first chan' result,
          )
          (refl, answered_once (keep_channel p first result.query_id (some chan')) chan' result))
