-- ===== src/RequestClient.antt =====
-- transport/src/behaviour/request_client.rs: requests over libp2p's request-response behaviour,
-- sent once more under a new ID when the peer had to be found first. The behaviour and the map of
-- timeouts (futures-bounded) are parameters.
pub mod Bounds
pub mod Counting
pub mod Forgetting
pub mod Outcomes
pub mod Resending
mod Sample
mod Examples
use subsquid_network.Base.{
  ℕ, ◌+◌, ◌*◌, ◌≤◌, ◌<◌, ◌≡◌, ◌⊎◌, Bool, true, false, Option, none, some, List, [], ◌∷◌,
  if◌then◌else◌, leb, length, map, Result, ok, err, or_else, lookup, insert, remove, put, eq_of_nat,
  ◌==◌,
}
use subsquid_network.Messages.{PeerId}
use subsquid_network.Timeouts.{Timeouts}

abbrev pub RequestId : Type 0
RequestId = ℕ

-- Milliseconds.
pub record ClientConfig : Type 0 where
  pub max_buffered : ℕ
  pub send_timeout : ℕ
  pub resp_timeout : ℕ

pub default_config : ClientConfig
default_config = record { max_buffered = 1024; send_timeout = 60 * 1000; resp_timeout = 60 * 1000 }

-- `request_response::Behaviour`. An ID that it gives was never given before.
pub record Requests (Request : Type 0) : Type 1 where
  pub Inner : Type 0
  pub start : ℕ → Inner
  pub send_request : Inner → PeerId → Request → Inner × RequestId
  pub Issued : Inner → RequestId → Type 0
  pub issues :
      (i : Inner) (p : PeerId) (r : Request) → Issued (send_request i p r).0 (send_request i p r).1
  pub keeps :
      (i : Inner) (p : PeerId) (r : Request) (id : RequestId)
      → Issued i id
      → Issued (send_request i p r).0 id
  pub fresh : (i : Inner) (p : PeerId) (r : Request) → ¬ Issued i (send_request i p r).1
  pub none_issued : (resp_timeout : ℕ) (id : RequestId) → ¬ Issued (start resp_timeout) id
  pub issues_one :
      (i : Inner) (p : PeerId) (r : Request) (id : RequestId)
      → Issued (send_request i p r).0 id
      → ((send_request i p r).1 ≡ id) ⊎ Issued i id

pub data SwarmEvent : Type 0 where
  connection_established : PeerId → SwarmEvent
  other_swarm_event : SwarmEvent

module _ (Response : Type 0) where
  pub data ClientEvent : Type 0 where
    response : PeerId → RequestId → Response → ClientEvent
    peer_unknown : PeerId → ClientEvent
    timeout : PeerId → RequestId → ClientEvent

  -- The events of the inner behaviour that the client looks at.
  pub data InnerEvent : Type 0 where
    message : PeerId → RequestId → Response → InnerEvent
    outbound_failure : PeerId → RequestId → InnerEvent
    other : InnerEvent

module _ {Request : Type 0} (i : Requests Request) (t : Timeouts) where
  pub record ClientBehaviour : Type 0 where
    pub inner : i.Inner
    pub original_requests : List (RequestId × Request)
    pub waiting_for_connection : List (PeerId × List RequestId)
    pub resubmitted_requests : List (RequestId × RequestId)
    pub lookup_timeouts : t.Map
    pub max_buffered : ℕ

  unfoldable pub new_client : ClientConfig → ClientBehaviour
  new_client config = record {
    inner = i.start config.resp_timeout;
    original_requests = [];
    waiting_for_connection = [];
    resubmitted_requests = [];
    lookup_timeouts = t.start config.send_timeout config.max_buffered;
    max_buffered = config.max_buffered;
  }

  -- `none` is the error `QueueFull`.
  unfoldable pub try_send_request :
      ClientBehaviour → PeerId → Request → Option RequestId × ClientBehaviour
  try_send_request s peer_id request =
      if leb s.max_buffered (length s.original_requests)
      then (none, s)
      else (let (inner', req_id) = i.send_request s.inner peer_id request in
          (
            some req_id,
            record s {
              inner = inner';
              original_requests = insert req_id request s.original_requests;
            },
          ))

  unfoldable pub forget : List RequestId → List (RequestId × Request) → List (RequestId × Request)
  forget [] requests = requests
  forget (req_id ∷ ids) requests = forget ids (remove req_id requests)

  unfoldable pub on_timeout :
      {Response : Type 0} → ClientBehaviour → PeerId → List (ClientEvent Response) × ClientBehaviour
  unfolding forget
  on_timeout s peer_id =
      let buffered = or_else (lookup peer_id s.waiting_for_connection) [] in
      (
        map (λ req_id. timeout peer_id req_id) buffered,
        record s {
          waiting_for_connection = remove peer_id s.waiting_for_connection;
          original_requests = forget buffered s.original_requests;
        },
      )

  -- The body of the loop over the buffered requests.
  unfoldable pub resend : PeerId → ClientBehaviour → RequestId → ClientBehaviour
  resend peer_id s old_id = elim (lookup old_id s.original_requests) [
    | none ↦ s
    | some request ↦
        let (inner', new_id) = i.send_request s.inner peer_id request in
        record s {
          inner = inner';
          original_requests = remove old_id s.original_requests;
          resubmitted_requests = insert new_id old_id s.resubmitted_requests;
        }
  ]

  unfoldable pub resend_all : PeerId → ClientBehaviour → List RequestId → ClientBehaviour
  unfolding resend
  resend_all peer_id s [] = s
  resend_all peer_id s (old_id ∷ buffered) = resend_all peer_id (resend peer_id s old_id) buffered

  -- The first two lines of `on_connection_established`.
  unfoldable pub stop_waiting : ClientBehaviour → PeerId → ClientBehaviour
  stop_waiting s peer_id = record s {
    lookup_timeouts = (t.remove s.lookup_timeouts peer_id).0;
    waiting_for_connection = remove peer_id s.waiting_for_connection;
  }

  unfoldable pub on_connection_established : ClientBehaviour → PeerId → ClientBehaviour
  unfolding resend_all stop_waiting
  on_connection_established s peer_id =
      resend_all peer_id (stop_waiting s peer_id)
        (or_else (lookup peer_id s.waiting_for_connection) [])

  unfoldable pub on_success :
      {Response : Type 0}
      → ClientBehaviour
      → PeerId
      → RequestId
      → Response
      → Option (ClientEvent Response) × ClientBehaviour
  on_success s peer_id req_id answer = (
    some (response peer_id (or_else (lookup req_id s.resubmitted_requests) req_id) answer),
    record s {
      original_requests = remove req_id s.original_requests;
      resubmitted_requests = remove req_id s.resubmitted_requests;
    },
  )

  -- A first failure: the request waits until the peer is found.
  unfoldable pub wait_for_peer :
      {Response : Type 0}
      → ClientBehaviour
      → PeerId
      → RequestId
      → Option (ClientEvent Response) × ClientBehaviour
  wait_for_peer s peer_id req_id =
      let waiting =
        insert peer_id (put req_id (or_else (lookup peer_id s.waiting_for_connection) []))
          s.waiting_for_connection in
      if t.contains s.lookup_timeouts peer_id
      then (none, record s { waiting_for_connection = waiting })
      else (
        some (peer_unknown peer_id),
        record s {
          waiting_for_connection = waiting;
          lookup_timeouts = (t.try_push s.lookup_timeouts peer_id).0;
        },
      )

  unfoldable pub on_failure :
      {Response : Type 0}
      → ClientBehaviour
      → PeerId
      → RequestId
      → Option (ClientEvent Response) × ClientBehaviour
  unfolding wait_for_peer
  on_failure s peer_id req_id = elim (lookup req_id s.resubmitted_requests) [
    | some old_id ↦ (
      some (timeout peer_id old_id),
      record s { resubmitted_requests = remove req_id s.resubmitted_requests },
    )
    | none ↦ wait_for_peer s peer_id req_id
  ]

  unfoldable pub on_swarm_event : ClientBehaviour → SwarmEvent → ClientBehaviour
  unfolding on_connection_established
  on_swarm_event s (connection_established peer_id) = on_connection_established s peer_id
  on_swarm_event s other_swarm_event = s

  unfoldable pub on_inner_event :
      {Response : Type 0}
      → ClientBehaviour
      → InnerEvent Response
      → Option (ClientEvent Response) × ClientBehaviour
  unfolding on_success on_failure
  on_inner_event s (message peer req_id answer) = on_success s peer req_id answer
  on_inner_event s (outbound_failure peer req_id) = on_failure s peer req_id
  on_inner_event s other = (none, s)

  -- A poll: `some` peer whose lookup timed out, or nothing ready.
  unfoldable pub poll :
      {Response : Type 0}
      → ClientBehaviour
      → Option PeerId
      → List (ClientEvent Response) × ClientBehaviour
  unfolding on_timeout
  poll s none = ([], s)
  poll s (some peer_id) =
      on_timeout (record s { lookup_timeouts = t.expired s.lookup_timeouts peer_id }) peer_id
