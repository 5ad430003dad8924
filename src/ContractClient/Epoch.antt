-- ===== src/ContractClient/Epoch.antt =====
-- contract-client/src/client.rs: the epochs, and the ID of a worker. The contracts give numbers of 256
-- bits; a conversion that does not fit, and a subtraction below zero, are a panic, `none`.
use subsquid_network.Base.{
  ℕ, ◌-◌, ◌^◌, String, Option, none, some, Result, ok, err, ltb, if◌then◌else◌,
}
use subsquid_network.Messages.{PeerId, Bytes}

-- The calls of the two contracts, and of the provider of layer 1: a block's time in seconds, if there is
-- such a block.
pub record EpochCalls : Type 0 where
  pub epoch_number : Result String ℕ
  pub next_epoch : Result String ℕ
  pub epoch_length : Result String ℕ
  pub get_l1_block : ℕ → Result String (Option ℕ)
  pub worker_ids : Bytes → Result String ℕ
  pub to_bytes : PeerId → Bytes

abbrev pub and_then :
    {A B : Type 0} → Result String A → (A → Option (Result String B)) → Option (Result String B)
and_then (err e) f = some (err e)
and_then (ok a) f = f a

module _ (c : EpochCalls) where
  unfoldable pub current_epoch : Option (Result String ℕ)
  current_epoch =
      and_then c.epoch_number λ epoch. if ltb epoch (2 ^ 32) then some (ok epoch) else none

  -- `ok_or(BlockNotFound)`. The seconds since 1970 are signed, of 64 bits.
  unfoldable pub block_time : Option ℕ → Option (Result String ℕ)
  block_time none = some (err "block not found")
  block_time (some timestamp) = if ltb timestamp (2 ^ 63) then some (ok timestamp) else none

  unfoldable pub epoch_start_block : ℕ → ℕ → Option ℕ
  epoch_start_block next_epoch_start_block epoch_length_blocks =
      if ltb next_epoch_start_block epoch_length_blocks
      then none
      else if ltb (next_epoch_start_block - epoch_length_blocks) (2 ^ 64)
      then some (next_epoch_start_block - epoch_length_blocks)
      else none

  unfoldable pub current_epoch_start : Option (Result String ℕ)
  unfolding epoch_start_block block_time
  current_epoch_start = and_then c.next_epoch λ next_epoch_start_block.
      and_then c.epoch_length λ epoch_length_blocks.
        elim (epoch_start_block next_epoch_start_block epoch_length_blocks) [
          | none ↦ none
          | some block_num ↦ and_then (c.get_l1_block block_num) block_time
        ]

  unfoldable pub worker_id : PeerId → Result String ℕ
  worker_id peer_id = c.worker_ids (c.to_bytes peer_id)
