-- ===== src/Gateway/Answers.antt =====
-- transport/src/actors/gateway.rs: what comes of a query, and which pings are passed on.
use subsquid_network.Base.{
  ◌≡◌, ◌<◌, ◌↔◌, refl, sym, ap, subst, ◌∙◌, Option, none, some, String, if◌then◌else◌, lookup,
  length, eq_of_nat, eq_of_string, ◌==◌, ==_refl, ==→eq, lookup-insert_self, lookup-remove_self,
  lt→not_leb, Option-cases, Bool-cases, inl, inr, arith,
}
use subsquid_network.Messages.{PeerId, Ping, Query, QueryResult, Outcome, new_query_result}
use subsquid_network.Signatures.{sign}
use subsquid_network.RequestClient.{RequestId, response, timeout, try_send_request}
use subsquid_network.BaseBehaviour.{ping}
use subsquid_network.Gateway.{
  Parts, GatewayBehaviour, pinged, query_result, names_sender, on_ping, on_base_event, forget_query,
  on_query_result, on_query_timeout, on_query_event, query_sent, send_query,
}

module _ (p : Parts) where
  -- A ping is passed on exactly when the worker ID in it is the sender's.
  pub on_base_event-ping :
      (s : GatewayBehaviour p) (peer : PeerId) (msg : Ping)
      → ((on_base_event p s (ping peer msg)).0 ≡ some (pinged peer msg)) ↔ (
          (worker_id : String) × (msg.worker_id ≡ some worker_id)
          × (p.id.parse worker_id ≡ some peer))
  unfolding on_base_event on_ping names_sender
  on_base_event-ping s peer msg = elim (Option-cases msg.worker_id) [
    | inl e ↦ rw e (λ h. ground (arith, h), λ (w, same, parsed). ground (arith, same))
    | inr (worker_id, e) ↦
        rw (e, names_sender)
          (elim (Option-cases (p.id.parse worker_id)) [
            | inl f ↦
                rw f (λ h. ground (arith, h), λ (w, same, parsed). ground (arith, f, same, parsed))
            | inr (named, f) ↦ rw f (
              λ h. (worker_id, refl, ground (arith, h, f, p.id.parse)),
              λ (w, same, parsed). ground (arith, same, parsed, f, ==_refl peer),
            )
          ])
  ]

  pub known_response :
      (s : GatewayBehaviour p) (peer : PeerId) (req_id : RequestId) (query_id : String)
      (result : QueryResult)
      → lookup req_id s.query_ids ≡ some query_id
      → (on_query_event p s (response peer req_id result)).0
        ≡ (if query_id == result.query_id then some (query_result peer result) else none)
  unfolding on_query_event on_query_result
  known_response s peer req_id query_id result known =
      rw (known, on_query_result)
        (elim (Bool-cases (query_id == result.query_id)) [
          | inl same ↦ rw same
          | inr other ↦ rw other
        ])

  known_timeout :
      (s : GatewayBehaviour p) (peer : PeerId) (req_id : RequestId) (query_id : String)
      → lookup req_id s.query_ids ≡ some query_id
      → (on_query_event p s (timeout peer req_id)).0
        ≡ some (query_result peer (new_query_result query_id Outcome.timeout))
  unfolding on_query_event on_query_timeout
  known_timeout s peer req_id query_id known = rw (known, on_query_timeout)

  -- A query that is accepted: it was given to the request-response behaviour for the peer, whose new
  -- state the client has, and the request has the ID that came back.
  pub record Sent (before after : GatewayBehaviour p) (peer : PeerId) (query_id : String)
      (signed : Query) : Type 0 where
    pub request : RequestId
    pub sends :
        p.query_requests.send_request before.query.inner peer signed ≡ (after.query.inner, request)
    pub known : lookup request after.query_ids ≡ some query_id
    pub given : lookup request after.query.original_requests ≡ some signed

  query_sent-Sent :
      (s : GatewayBehaviour p) (peer : PeerId) (signed : Query) (query_id : String)
      → length s.query.original_requests < s.query.max_buffered
      → Sent s
          (query_sent p s query_id (try_send_request p.query_requests p.t s.query peer signed))
          peer
          query_id
          signed
  unfolding query_sent try_send_request
  query_sent-Sent s peer signed query_id room =
      let req_id = (p.query_requests.send_request s.query.inner peer signed).1 in
      rw (lt→not_leb s.query.max_buffered (length s.query.original_requests) room, try_send_request)
        (record {
          request = req_id;
          sends = refl;
          known = lookup-insert_self req_id query_id s.query_ids;
          given = lookup-insert_self req_id signed s.query.original_requests;
        })

  send_query_named :
      (s : GatewayBehaviour p) (peer : PeerId) (query : Query) (query_id : String)
      → query.query_id ≡ some query_id
      → send_query p s peer query
        ≡ query_sent p s query_id (
            try_send_request p.query_requests p.t s.query peer
              (sign p.id p.queries s.keypair query))
  unfolding send_query
  send_query_named s peer query query_id e =
      let answer =
        try_send_request p.query_requests p.t s.query peer (sign p.id p.queries s.keypair query) in
      ap (λ (o : Option String). elim o [ none ↦ s | some named ↦ query_sent p s named answer ]) e

  pub send_query-Sent :
      (s : GatewayBehaviour p) (peer : PeerId) (query : Query) (query_id : String)
      → query.query_id ≡ some query_id
      → length s.query.original_requests < s.query.max_buffered
      → Sent s (send_query p s peer query) peer query_id (sign p.id p.queries s.keypair query)
  send_query-Sent s peer query query_id e room =
      let signed = sign p.id p.queries s.keypair query in
      subst (λ s'. Sent s s' peer query_id signed) (sym (send_query_named s peer query query_id e))
        (query_sent-Sent s peer signed query_id room)

  -- When the queue has room, a query with an ID is signed, given to the request-response behaviour for
  -- the peer, once, and kept under the ID that this gives. A response to that request is passed on
  -- exactly when it is for that query ID, and a timeout of it is reported as the result of the query.
  pub send_query-answered :
      (s : GatewayBehaviour p) (peer : PeerId) (query : Query) (query_id : String)
      → query.query_id ≡ some query_id
      → length s.query.original_requests < s.query.max_buffered
      → let s' = send_query p s peer query in
        let signed = sign p.id p.queries s.keypair query in
        (request : RequestId) × (p.query_requests.send_request s.query.inner peer signed
          ≡ (s'.query.inner, request))
        × (lookup request s'.query.original_requests ≡ some signed)
        × ((result : QueryResult)
            → ((on_query_event p s' (response peer request result)).0
                ≡ some (query_result peer result))
              ↔ (query_id ≡ result.query_id))
        × ((on_query_event p s' (timeout peer request)).0
            ≡ some (query_result peer (new_query_result query_id Outcome.timeout)))
  send_query-answered s peer query query_id e room =
      let s' = send_query p s peer query in
      let sent = send_query-Sent s peer query query_id e room in
      (
        sent.request,
        sent.sends,
        sent.given,
        λ result. (
          λ h.
              ==→eq query_id result.query_id
                (ground (arith, h, known_response s' peer sent.request query_id result sent.known)),
          λ same.
              known_response s' peer sent.request query_id result sent.known
              ∙ rw (same, ==_refl result.query_id),
        ),
        known_timeout s' peer sent.request query_id sent.known,
      )

  response_over :
      (s : GatewayBehaviour p) (peer : PeerId) (req_id : RequestId) (result : QueryResult)
      → (on_query_event p s (response peer req_id result)).1 ≡ forget_query p s req_id
  unfolding on_query_event on_query_result
  response_over s peer req_id result = elim (Option-cases (lookup req_id s.query_ids)) [
    | inl e ↦ rw (e, on_query_result)
    | inr (query_id, e) ↦
        rw (e, on_query_result)
          (elim (Bool-cases (query_id == result.query_id)) [
            | inl same ↦ rw same
            | inr other ↦ rw other
          ])
  ]

  timeout_over :
      (s : GatewayBehaviour p) (peer : PeerId) (req_id : RequestId)
      → (on_query_event p s (timeout peer req_id)).1 ≡ forget_query p s req_id
  unfolding on_query_event on_query_timeout
  timeout_over s peer req_id = elim (Option-cases (lookup req_id s.query_ids)) [
    | inl e ↦ rw (e, on_query_timeout)
    | inr (query_id, e) ↦ rw (e, on_query_timeout)
  ]

  forgotten :
      (s : GatewayBehaviour p) (peer : PeerId) (req_id : RequestId) (result : QueryResult)
      → ((on_query_event p (forget_query p s req_id) (response peer req_id result)).0 ≡ none)
        × ((on_query_event p (forget_query p s req_id) (timeout peer req_id)).0 ≡ none)
  unfolding on_query_event on_query_result on_query_timeout
  forgotten s peer req_id result = (
    rw (lookup-remove_self req_id s.query_ids, on_query_result),
    rw (lookup-remove_self req_id s.query_ids, on_query_timeout),
  )

  -- After a response or a timeout of a request, whatever came of it, neither a response nor a timeout
  -- of the same request is passed on.
  pub on_query_event-once :
      (s : GatewayBehaviour p) (peer peer' : PeerId) (req_id : RequestId)
      (result result' : QueryResult)
      → let answered = (on_query_event p s (response peer req_id result)).1 in
        let expired = (on_query_event p s (timeout peer req_id)).1 in
        (((on_query_event p answered (response peer' req_id result')).0 ≡ none)
          × ((on_query_event p answered (timeout peer' req_id)).0 ≡ none))
        × (((on_query_event p expired (response peer' req_id result')).0 ≡ none)
            × ((on_query_event p expired (timeout peer' req_id)).0 ≡ none))
  on_query_event-once s peer peer' req_id result result' = (
    rw (response_over s peer req_id result) (forgotten s peer' req_id result'),
    rw (timeout_over s peer req_id) (forgotten s peer' req_id result'),
  )
