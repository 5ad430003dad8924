-- ===== src/RequestClient/Outcomes.antt =====
-- transport/src/behaviour/request_client.rs: every request that is taken has one outcome, or is held.
-- Here: what the client holds, and what its three maps have to do with one another.
pub mod Sending
pub mod Waiting
pub mod Settling
pub mod History
pub mod Once
use subsquid_network.Base.{
  ℕ, ◌+◌, ◌≡◌, ◌⊎◌, refl, Bool, true, false, Option, none, some, List, [], ◌∷◌, ◌++◌, map,
  if◌then◌else◌, lookup, insert, remove, has_key, is_some, member, put, or_else, IsDict, eq_of_nat,
  ◌==◌,
}
use subsquid_network.Messages.{PeerId}
use subsquid_network.Timeouts.{Timeouts}
use subsquid_network.RequestClient.{
  RequestId, Requests, ClientBehaviour, ClientEvent, response, peer_unknown, timeout, InnerEvent,
  message, outbound_failure, other,
}
use subsquid_network.RequestClient.Counting.{one_if, count, count_values, IsDistinct}

-- The ID of the request that an event is the outcome of.
unfoldable pub outcome_of : {Response : Type 0} → ClientEvent Response → List RequestId
outcome_of (response peer_id req_id answer) = req_id ∷ []
outcome_of (peer_unknown peer_id) = []
outcome_of (timeout peer_id req_id) = req_id ∷ []

unfoldable pub outcomes_of : {Response : Type 0} → List (ClientEvent Response) → List RequestId
unfolding outcome_of
outcomes_of [] = []
outcomes_of (ev ∷ evs) = outcome_of ev ++ outcomes_of evs

module _ {Request : Type 0} (i : Requests Request) (t : Timeouts) where
  abbrev pub waiting_for : ClientBehaviour i t → PeerId → List RequestId
  waiting_for s peer_id = or_else (lookup peer_id s.waiting_for_connection) []

  -- How often the client holds a request: under its own ID, or under a new one.
  abbrev pub held : ClientBehaviour i t → RequestId → ℕ
  held s id = one_if (has_key id s.original_requests) + count_values id s.resubmitted_requests

  -- `settled` are the IDs that the inner behaviour gave an answer to or a failure of. An ID that it
  -- issued and that is not settled is one of a request that the client holds. A request waits for one
  -- peer at most, and only once it is settled.
  pub record IsSound (s : ClientBehaviour i t) (settled : List RequestId) : Type 0 where
    pub known :
        (id : RequestId)
        → i.Issued s.inner id
        → member id settled ≡ false
        → (has_key id s.original_requests ≡ true) ⊎ (has_key id s.resubmitted_requests ≡ true)
    pub apart :
        (id : RequestId)
        → has_key id s.resubmitted_requests ≡ true
        → has_key id s.original_requests ≡ false
    pub waits_held :
        (p : PeerId) (id : RequestId)
        → member id (waiting_for s p) ≡ true
        → has_key id s.original_requests ≡ true
    pub waits_settled :
        (p : PeerId) (id : RequestId)
        → member id (waiting_for s p) ≡ true
        → member id settled ≡ true
    pub waits_once :
        (p q : PeerId) (id : RequestId)
        → member id (waiting_for s p) ≡ true
        → member id (waiting_for s q) ≡ true
        → p ≡ q
    pub distinct : (p : PeerId) → IsDistinct (waiting_for s p)
    pub originals_issued :
        (id : RequestId) → has_key id s.original_requests ≡ true → i.Issued s.inner id
    pub resubmitted_issued :
        (id : RequestId) → has_key id s.resubmitted_requests ≡ true → i.Issued s.inner id
    pub one_each : IsDict s.resubmitted_requests
