-- ===== src/EventLoop/Numbered.antt =====
-- src/event_loop.rs: the attempt numbers of what the loop holds.
use chronicle_worker.Prelude.{
  ℕ, suc, ◌≤◌, ◌≡◌, refl, sym, List, [], ◌∷◌, ◌++◌, arith, length, All, ◌==◌,
}
use mathlib.Core.Path.{subst}
use chronicle_worker.Http.{Host}
use chronicle_worker.Retry.{RetryEntry, RetryQueue}
use chronicle_worker.EventLoop.{
  Loop, Task, TaskId, RunnerResult, change_task, push_cmd, spawn_runner_return_tx,
}
use chronicle_worker.EventLoop.Handlers.{unreport}
use chronicle_worker.EventLoop.Kept.{if_motive, Kept}

-- A run has an attempt number from 1 to one past the length of the schedule.
abbrev pub IsRun : ℕ → ℕ → Type 0
IsRun n attempt = (1 ≤ attempt) × (attempt ≤ suc n)

-- A queued retry has an attempt number from 2 to the length of the schedule.
abbrev pub IsRetry : ℕ → RetryEntry → Type 0
IsRetry n e = (2 ≤ e.attempt) × (e.attempt ≤ n)

pub record Numbered (backoffs : List ℕ) (tasks : List Task) (results : List RunnerResult)
    (retry : RetryQueue) : Type 0 where
  pub fixed : retry.backoffs ≡ backoffs
  pub of_tasks : All (λ (t : Task). IsRun (length backoffs) t.attempt) tasks
  pub of_results : All (λ (r : RunnerResult). IsRun (length backoffs) r.attempt) results
  pub of_queue : All (IsRetry (length backoffs)) retry.inner

change_task-All :
    (P : ℕ → Type 0) (id : TaskId) (f : Task → Task) (tasks : List Task)
    → ((t : Task) → (f t).attempt ≡ t.attempt)
    → All (λ (t : Task). P t.attempt) tasks
    → All (λ (t : Task). P t.attempt) (change_task id f tasks)
unfolding change_task
change_task-All P id f [] same h = tt
change_task-All P id f (t ∷ tasks) same h =
    if_motive (All (λ (t : Task). P t.attempt)) (t.id == id) (f t ∷ tasks)
      (t ∷ change_task id f tasks) (subst P (sym (same t)) h.0, h.1)
      (h.0, change_task-All P id f tasks same h.1)

pub All-middle :
    {A : Type 0} (P : A → Type 0) (before after : List A) (x : A)
    → All P (before ++ x ∷ after)
    → All P before × P x × All P after
All-middle P [] after x h = (tt, h.0, h.1)
All-middle P (y ∷ before) after x h =
    let (b, p, a) = All-middle P before after x h.1 in ((h.0, b), p, a)

module _ {Row : Type 0} (host : Host Row) (backoffs : List ℕ) where
  abbrev pub IsNumbered : Loop host → Type 0
  IsNumbered s = Numbered backoffs s.tasks s.results s.retry

  pub with_tasks :
      {tasks tasks' : List Task} {results : List RunnerResult} {retry : RetryQueue}
      → Numbered backoffs tasks results retry
      → All (λ (t : Task). IsRun (length backoffs) t.attempt) tasks'
      → Numbered backoffs tasks' results retry
  with_tasks k h = record {
    fixed = k.fixed;
    of_tasks = h;
    of_results = k.of_results;
    of_queue = k.of_queue;
  }

  changed-IsNumbered :
      (id : TaskId) (f : Task → Task)
      → ((t : Task) → (f t).attempt ≡ t.attempt)
      → (s : Loop host) → IsNumbered s
      → Numbered backoffs (change_task id f s.tasks) s.results s.retry
  changed-IsNumbered id f same s k =
      with_tasks k (change_task-All (IsRun (length backoffs)) id f s.tasks same k.of_tasks)

  pub IsNumbered-Kept : Kept host IsNumbered (IsRun (length backoffs))
  unfolding spawn_runner_return_tx
  IsNumbered-Kept = record {
    networked = λ s io k. k;
    pushed = λ s id task cmd e room k. changed-IsNumbered id (push_cmd host cmd) (λ t. refl) s k;
    unreported = λ s id k. changed-IsNumbered id (unreport host) (λ t. refl) s k;
    removed = λ s session k. k;
    spawned = λ s session attempt mode h k. with_tasks k (h, k.of_tasks);
    first = (omega arith, omega arith);
  }
