-- ===== src/TaskManager/Stopping.antt =====
-- transport/src/util/task_manager.rs: what is left of the tasks when the manager has stopped.
use subsquid_network.Base.{
  ℕ, suc, ◌+◌, ◌≡◌, refl, sym, ap, subst, ◌∙◌, true, false, Option, none, some, List, [], ◌∷◌, ◌++◌,
  length, length-append, All, Bool-cases, inl, inr, arith,
}
use mathlib.Core.Option.{some-injective}
use subsquid_network.TaskManager.{
  Tokio, TaskManager, spawn_task, join_all, await_stop, cancel_tasks,
}

module _ (k : Tokio) where
  -- Tasks that are spawned one after the other; `none` is a panic of one of the calls.
  unfoldable pub spawn_tasks :
      k.World → TaskManager k → List (k.Token → k.Future) → Option (k.World × TaskManager k)
  spawn_tasks w m [] = some (w, m)
  spawn_tasks w m (f ∷ fs) = elim (spawn_task k w m f) [
    | none ↦ none
    | some (w', m') ↦ spawn_tasks w' m' fs
  ]

  -- The tokens that these tasks were given.
  unfoldable pub tokens_of : k.World → k.Token → List (k.Token → k.Future) → List k.Token
  tokens_of w parent [] = []
  tokens_of w parent (f ∷ fs) =
      let (w', child) = k.child_token w parent in
      child ∷ tokens_of (k.spawn w' (f child)).0 parent fs

  join_all_keeps :
      (w : k.World) (timeout : ℕ) (handles : List k.Handle) (t : k.Token)
      → k.is_cancelled w t ≡ true
      → k.is_cancelled (join_all k w timeout handles).0 t ≡ true
  unfolding join_all
  join_all_keeps w timeout [] t h = h
  join_all_keeps w timeout (handle ∷ handles) t h =
      join_all_keeps (k.join w timeout handle).0 timeout handles t
        (k.join_keeps w timeout handle t h)

  length-join_all :
      (w : k.World) (timeout : ℕ) (handles : List k.Handle)
      → length (join_all k w timeout handles).1 ≡ length handles
  unfolding join_all
  length-join_all w timeout [] = refl
  length-join_all w timeout (handle ∷ handles) =
      ap (λ n. suc n) (length-join_all (k.join w timeout handle).0 timeout handles)

  -- Spawning left the token as it was, added the tasks, and made the tokens children of it; and the
  -- children that there were before are still there.
  record Spawned (w : k.World) (m : TaskManager k) (tokens : List k.Token) (n : ℕ) (w' : k.World)
      (m' : TaskManager k) : Type 0 where
    same_token : m'.cancel_token ≡ m.cancel_token
    more_tasks : length m'.tasks ≡ length m.tasks + n
    children : All (k.IsChild w' m.cancel_token) tokens
    kept : (c : k.Token) → k.IsChild w m.cancel_token c → k.IsChild w' m.cancel_token c

  -- The runtime and the manager after a task is spawned.
  abbrev world_after : k.World → TaskManager k → (k.Token → k.Future) → k.World
  world_after w m f = let (w', child) = k.child_token w m.cancel_token in (k.spawn w' (f child)).0

  abbrev manager_after : k.World → TaskManager k → (k.Token → k.Future) → TaskManager k
  manager_after w m f =
      let (w', child) = k.child_token w m.cancel_token in
      record m { tasks = m.tasks ++ (k.spawn w' (f child)).1 ∷ [] }

  panics :
      (w : k.World) (m : TaskManager k) (f : k.Token → k.Future) (fs : List (k.Token → k.Future))
      → k.is_cancelled w m.cancel_token ≡ true
      → spawn_tasks w m (f ∷ fs) ≡ none
  unfolding spawn_tasks spawn_task
  panics w m f fs h = rw (h, spawn_tasks, spawn_task) refl

  spawns :
      (w : k.World) (m : TaskManager k) (f : k.Token → k.Future) (fs : List (k.Token → k.Future))
      → k.is_cancelled w m.cancel_token ≡ false
      → spawn_tasks w m (f ∷ fs) ≡ spawn_tasks (world_after w m f) (manager_after w m f) fs
  unfolding spawn_tasks spawn_task
  spawns w m f fs h = rw (h, spawn_tasks, spawn_task)

  first_kept :
      (w : k.World) (m : TaskManager k) (f : k.Token → k.Future) (c : k.Token)
      → k.IsChild w m.cancel_token c
      → k.IsChild (world_after w m f) m.cancel_token c
  first_kept w m f c h =
      let made = k.child_token w m.cancel_token in
      k.spawn_keeps made.0 m.cancel_token c (f made.1)
        (k.child_token_keeps w m.cancel_token m.cancel_token c h)

  first_made :
      (w : k.World) (m : TaskManager k) (f : k.Token → k.Future)
      → k.IsChild (world_after w m f) m.cancel_token (k.child_token w m.cancel_token).1
  first_made w m f =
      let made = k.child_token w m.cancel_token in
      k.spawn_keeps made.0 m.cancel_token made.1 (f made.1) (k.child_made w m.cancel_token)

  spawn_tasks-Spawned :
      (w : k.World) (m : TaskManager k) (fs : List (k.Token → k.Future)) (w' : k.World)
      (m' : TaskManager k)
      → spawn_tasks w m fs ≡ some (w', m')
      → Spawned w m (tokens_of w m.cancel_token fs) (length fs) w' m'
  unfolding spawn_tasks tokens_of
  spawn_tasks-Spawned w m [] w' m' e =
      subst (λ r. Spawned w m [] 0 r.0 r.1) (some-injective (w, m) (w', m') e)
        (record { same_token = refl; more_tasks = omega arith; children = tt; kept = λ c h. h })
  spawn_tasks-Spawned w m (f ∷ fs) w' m' e = elim (Bool-cases (k.is_cancelled w m.cancel_token)) [
    | inl cancelled ↦ ground (arith, e, panics w m f fs cancelled)
    | inr running ↦
        let rest =
          spawn_tasks-Spawned (world_after w m f) (manager_after w m f) fs w' m'
            (sym (spawns w m f fs running) ∙ e) in
        record {
          same_token = rest.same_token;
          more_tasks = omega (
            arith,
            rest.more_tasks,
            length-append m.tasks (
                (k.spawn (k.child_token w m.cancel_token).0
                  (f (k.child_token w m.cancel_token).1)).1
                ∷ []),
          );
          children =
              (rest.kept (k.child_token w m.cancel_token).1 (first_made w m f), rest.children);
          kept = λ c h. rest.kept c (first_kept w m f c h);
        }
  ]

  children_cancelled :
      (w : k.World) (m : TaskManager k) (timeout : ℕ) (tokens : List k.Token)
      → All (k.IsChild w m.cancel_token) tokens
      → All
          (λ c. k.is_cancelled (join_all k (cancel_tasks k w m) timeout m.tasks).0 c ≡ true)
          tokens
  unfolding cancel_tasks
  children_cancelled w m timeout [] h = tt
  children_cancelled w m timeout (c ∷ tokens) h = (
    join_all_keeps (k.cancel w m.cancel_token) timeout m.tasks c (k.cancels w m.cancel_token c h.0),
    children_cancelled w m timeout tokens h.1,
  )

  -- After a manager without tasks has spawned some and has stopped: the token of each of them is
  -- cancelled, there is one result of waiting for each, none is left, and no task can be spawned any
  -- more.
  pub await_stop-spawn_tasks :
      (w : k.World) (m : TaskManager k) (fs : List (k.Token → k.Future)) (w' : k.World)
      (m' : TaskManager k) (f : k.Token → k.Future)
      → m.tasks ≡ []
      → spawn_tasks w m fs ≡ some (w', m')
      → let out = await_stop k w' m' in
        All (λ c. k.is_cancelled out.0.0 c ≡ true) (tokens_of w m.cancel_token fs)
        × (length out.1 ≡ length fs)
        × (out.0.1.tasks ≡ [])
        × (spawn_task k out.0.0 out.0.1 f ≡ none)
  unfolding await_stop spawn_task cancel_tasks
  await_stop-spawn_tasks w m fs w' m' f empty e =
      let spawned = spawn_tasks-Spawned w m fs w' m' e in
      let stopped = k.cancel w' m'.cancel_token in
      (
        children_cancelled w' m' m'.shutdown_timeout (tokens_of w m.cancel_token fs) (
            subst (λ t. All (k.IsChild w' t) (tokens_of w m.cancel_token fs))
              (sym spawned.same_token) spawned.children),
        length-join_all stopped m'.shutdown_timeout m'.tasks
            ∙ omega (arith, spawned.more_tasks, ap length empty),
        refl,
        rw
            (join_all_keeps stopped m'.shutdown_timeout m'.tasks m'.cancel_token
              (k.cancels_itself w' m'.cancel_token))
            refl,
      )
