-- ===== src/TaskManager/Examples.antt =====
-- transport/src/util/task_manager.rs: a manager at an input.
use subsquid_network.Base.{ℕ, ◌+◌, ◌≡◌, refl, Bool, true, false, none, List, [], ◌∷◌, length, All}
use subsquid_network.TaskManager.{
  Tokio, TaskManager, finished, periodic, ticked, cancelled, default_shutdown_timeout, spawn_task,
  await_stop,
}
use subsquid_network.TaskManager.Stopping.{spawn_tasks, tokens_of, await_stop-spawn_tasks}

-- A runtime for one tree of tokens: how many tokens and handles there are, and whether the tree is
-- cancelled. A future is the time that it needs to end once it is cancelled.
abbrev runtime : Tokio
runtime = record {
  World = ℕ × Bool;
  Token = ℕ;
  Future = ℕ;
  Handle = ℕ;
  is_current_thread = λ w. false;
  new_token = λ w. ((w.0 + 1, w.1), w.0);
  child_token = λ w t. ((w.0 + 1, w.1), w.0);
  is_cancelled = λ w t. w.1;
  cancel = λ w t. (w.0, true);
  spawn = λ w f. ((w.0 + 1, w.1), f);
  join = λ w timeout h. (w, finished);
  IsChild = λ w t c. Unit;
  child_made = λ w t. tt;
  child_token_keeps = λ w t u c h. tt;
  spawn_keeps = λ w t c f h. tt;
  cancels = λ w t c h. refl;
  cancels_itself = λ w t. refl;
  join_keeps = λ w timeout h t e. e;
}

abbrev manager : TaskManager runtime
manager = record { shutdown_timeout = default_shutdown_timeout; cancel_token = 0; tasks = [] }

-- Two tasks.
abbrev futures : List (ℕ → ℕ)
futures = (λ token. 5) ∷ (λ token. 7) ∷ []

abbrev with_both : TaskManager runtime
with_both = record manager { tasks = 5 ∷ 7 ∷ [] }

await_stop-spawn_tasks_example :
    let out = await_stop runtime (5, false) with_both in
    All (λ c. out.0.0.1 ≡ true) (tokens_of runtime (1, false) 0 futures)
    × (length out.1 ≡ 2)
    × (out.0.1.tasks ≡ [])
    × (spawn_task runtime out.0.0 out.0.1 (λ token. 9) ≡ none)
unfolding spawn_tasks spawn_task
await_stop-spawn_tasks_example =
    await_stop-spawn_tasks runtime (1, false) manager futures (5, false) with_both (λ token. 9) refl
      refl

-- The task that the tests of the manager run periodically is stopped after its second run.
two_runs : periodic (λ runs. runs + 1) 0 (ticked ∷ ticked ∷ cancelled ∷ []) ≡ 2
unfolding periodic
two_runs = refl
