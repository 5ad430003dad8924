-- ===== src/Timeouts.antt =====
-- The map of timeouts of the crate futures-bounded, which the requests and the probes use: what the
-- code calls of it, and what its documentation says of those calls.
pub mod Sample
use subsquid_network.Base.{ℕ, ◌≡◌, Bool, true, false, if◌then◌else◌, ◌==◌, eq_of_nat}
use subsquid_network.Messages.{PeerId}

pub data Pushed : Type 0 where
  pushed beyond_capacity replaced : Pushed

-- `FuturesMap<PeerId, ()>` with futures that never complete. `expired` is the map after a poll
-- that gave the timeout of that peer.
pub record Timeouts : Type 1 where
  pub Map : Type 0
  pub start : ℕ → ℕ → Map
  pub contains : Map → PeerId → Bool
  pub try_push : Map → PeerId → Map × Pushed
  pub remove : Map → PeerId → Map × Bool
  pub expired : Map → PeerId → Map
  pub contains-start : (d n : ℕ) (p : PeerId) → contains (start d n) p ≡ false
  pub contains-try_push :
      (m : Map) (p q : PeerId)
      → (try_push m p).1 ≡ pushed
      → contains (try_push m p).0 q ≡ (if p == q then true else contains m q)
  pub contains-beyond :
      (m : Map) (p q : PeerId)
      → (try_push m p).1 ≡ beyond_capacity
      → contains (try_push m p).0 q ≡ contains m q
  pub contains-replaced :
      (m : Map) (p q : PeerId)
      → (try_push m p).1 ≡ replaced
      → contains (try_push m p).0 q ≡ contains m q
  pub contains-remove :
      (m : Map) (p q : PeerId)
      → contains (remove m p).0 q ≡ (if p == q then false else contains m q)
  pub removed : (m : Map) (p : PeerId) → (remove m p).1 ≡ contains m p
  pub contains-expired :
      (m : Map) (p q : PeerId) → contains (expired m p) q ≡ (if p == q then false else contains m q)
