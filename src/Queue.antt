-- ===== src/Queue.antt =====
-- transport/src/util/queue.rs: the queues between the transport and its user. The bounded channel of
-- tokio is a parameter.
pub mod Fifo
pub mod Sample
use subsquid_network.Base.{
  ℕ, ◌<◌, ◌≤◌, ◌≡◌, Bool, true, false, Option, none, some, List, [], ◌∷◌, ◌++◌, length,
}

-- `tokio::sync::mpsc::channel`, both ends of it. What it holds, and how much it may hold, are read off
-- its state. The laws are those of a bounded queue, while the receiver is there: a message is refused
-- only if the channel is full, and comes out behind those that were sent before it.
pub record Channel (T : Type 0) : Type 1 where
  pub Inner : Type 0
  pub start : ℕ → Inner
  pub try_send : Inner → T → Option Inner
  pub recv : Inner → Option (T × Inner)
  pub held : Inner → List T
  pub capacity : Inner → ℕ
  pub held-start : (size : ℕ) → held (start size) ≡ []
  pub capacity-start : (size : ℕ) → capacity (start size) ≡ size
  pub sends :
      (c : Inner) (msg : T)
      → length (held c) < capacity c
      → (c' : Inner) × (try_send c msg ≡ some c')
        × (held c' ≡ held c ++ msg ∷ [])
        × (capacity c' ≡ capacity c)
  pub refuses : (c : Inner) (msg : T) → capacity c ≤ length (held c) → try_send c msg ≡ none
  pub nothing : (c : Inner) → held c ≡ [] → recv c ≡ none
  pub gives :
      (c : Inner) (msg : T) (rest : List T)
      → held c ≡ msg ∷ rest
      → (c' : Inner) × (recv c ≡ some (msg, c')) × (held c' ≡ rest) × (capacity c' ≡ capacity c)

module _ {T : Type 0} (c : Channel T) where
  abbrev pub new_queue : ℕ → c.Inner
  new_queue size = c.start size

  -- Whether the message was queued, and the channel.
  abbrev pub try_send : c.Inner → T → Bool × c.Inner
  try_send inner msg = elim (c.try_send inner msg) [
    | none ↦ (false, inner)
    | some inner' ↦ (true, inner')
  ]

  -- A message that does not fit is dropped.
  abbrev pub send_lossy : c.Inner → T → c.Inner
  send_lossy inner msg = (try_send inner msg).1

  abbrev pub recv : c.Inner → Option (T × c.Inner)
  recv inner = c.recv inner
