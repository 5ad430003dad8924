-- ===== src/TaskManager.antt =====
-- transport/src/util/task_manager.rs: the tasks that run until their manager is dropped. tokio and its
-- cancellation tokens are a parameter.
pub mod Stopping
mod Examples
use subsquid_network.Base.{
  ℕ, ◌*◌, ◌≡◌, Bool, true, false, Option, none, some, List, [], ◌∷◌, ◌++◌, if◌then◌else◌,
}

pub data Joined : Type 0 where
  finished failed timed_out : Joined

-- The state of the runtime, with all tokens in it. A child of a token is cancelled with it, and a token
-- stays cancelled.
pub record Tokio : Type 1 where
  pub World : Type 0
  pub Token : Type 0
  pub Future : Type 0
  pub Handle : Type 0
  pub is_current_thread : World → Bool
  pub new_token : World → World × Token
  pub child_token : World → Token → World × Token
  pub is_cancelled : World → Token → Bool
  pub cancel : World → Token → World
  pub spawn : World → Future → World × Handle
  pub join : World → (timeout : ℕ) → Handle → World × Joined
  pub IsChild : World → Token → Token → Type 0
  pub child_made : (w : World) (t : Token) → IsChild (child_token w t).0 t (child_token w t).1
  pub child_token_keeps :
      (w : World) (t u c : Token) → IsChild w t c → IsChild (child_token w u).0 t c
  pub spawn_keeps :
      (w : World) (t c : Token) (f : Future) → IsChild w t c → IsChild (spawn w f).0 t c
  pub cancels : (w : World) (t c : Token) → IsChild w t c → is_cancelled (cancel w t) c ≡ true
  pub cancels_itself : (w : World) (t : Token) → is_cancelled (cancel w t) t ≡ true
  pub join_keeps :
      (w : World) (timeout : ℕ) (h : Handle) (t : Token)
      → is_cancelled w t ≡ true
      → is_cancelled (join w timeout h).0 t ≡ true

abbrev pub default_shutdown_timeout : ℕ
default_shutdown_timeout = 1000

-- How a round of the loop in `spawn_periodic` begins.
pub data Selected : Type 0 where
  ticked cancelled : Selected

-- That loop: what `f` makes of a state, until the token is found cancelled.
unfoldable pub periodic : {S : Type 0} → (S → S) → S → List Selected → S
periodic f s [] = s
periodic f s (ticked ∷ more) = periodic f (f s) more
periodic f s (cancelled ∷ more) = s

module _ (k : Tokio) where
  pub record TaskManager : Type 0 where
    pub shutdown_timeout : ℕ
    pub cancel_token : k.Token
    pub tasks : List k.Handle

  -- `none` is a panic.
  unfoldable pub new_manager : k.World → ℕ → Option (k.World × TaskManager)
  new_manager w shutdown_timeout =
      if k.is_current_thread w
      then none
      else (let (w', cancel_token) = k.new_token w in
          some (
            w',
            record { shutdown_timeout = shutdown_timeout; cancel_token = cancel_token; tasks = [] },
          ))

  unfoldable pub spawn_task :
      k.World → TaskManager → (k.Token → k.Future) → Option (k.World × TaskManager)
  spawn_task w m f =
      if k.is_cancelled w m.cancel_token
      then none
      else (let (w', child) = k.child_token w m.cancel_token in
          let (w'', handle) = k.spawn w' (f child) in
          some (w'', record m { tasks = m.tasks ++ handle ∷ [] }))

  -- `TaskManager::cancel`
  unfoldable pub cancel_tasks : k.World → TaskManager → k.World
  cancel_tasks w m = k.cancel w m.cancel_token

  -- One handle after the other, where the source joins them all at once.
  unfoldable pub join_all : k.World → ℕ → List k.Handle → k.World × List Joined
  join_all w timeout [] = (w, [])
  join_all w timeout (handle ∷ handles) =
      let (w', result) = k.join w timeout handle in
      let rest = join_all w' timeout handles in (rest.0, result ∷ rest.1)

  -- `await_stop`, which `drop` blocks on, with the results that it logs.
  unfoldable pub await_stop : k.World → TaskManager → (k.World × TaskManager) × List Joined
  unfolding cancel_tasks join_all
  await_stop w m =
      let joined = join_all (cancel_tasks w m) m.shutdown_timeout m.tasks in
      ((joined.0, record m { tasks = [] }), joined.1)
