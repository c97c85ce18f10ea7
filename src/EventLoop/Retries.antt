-- ===== src/EventLoop/Retries.antt =====
-- The numbering of attempts: what the loop hands to the retry queue, and what that makes of the
-- configured delays.
use chronicle_worker.Prelude.{
  ℕ, ◌+◌, ◌%◌, ◌≤◌, ◌<◌, ◌≡◌, refl, inl, inr, sym, List, [], ◌∷◌, ◌++◌, some, arith, length, All,
  All-append,
}
use mathlib.Core.Path.{subst}
use chronicle_worker.Ids.{SessionId}
use chronicle_worker.Error.{is_retryable_session_failure}
use chronicle_worker.Exec.{Outcome, ok, err, pending, Exec, pure, handle, ◌>>◌}
use chronicle_worker.Exec.Keeps.{Keeps, Keeps-bind, Keeps-if}
use chronicle_worker.Http.{Host}
use chronicle_worker.Api.{Io}
use chronicle_worker.Api.Sessions.{mark_failed}
use chronicle_worker.Retry.{RetryEntry, RetryQueue, schedule, take_due, new}
use chronicle_worker.Retry.Schedule.{schedule-Outcome}
use chronicle_worker.Retry.Ready.{All-pop, All-peek, take_due-some}
use chronicle_worker.EventLoop.{Loop, Task, RunnerResult, one_shot, remove, on_network}
use chronicle_worker.EventLoop.Handlers.{
  handle_retry, schedule_next, conclude, scheduled_queue, on_runner_complete,
}
use chronicle_worker.EventLoop.Steps.{Step, Reach, here, next, start, report}
use chronicle_worker.EventLoop.Kept.{
  if_motive, spawn-Kept, done-Kept, listed_then, startup-Kept, poll-Kept, bus_event-Kept,
  rerun-Kept,
}
use chronicle_worker.EventLoop.Numbered.{
  IsRun, IsRetry, Numbered, IsNumbered, IsNumbered-Kept, All-middle, with_tasks,
}

module _ {Row : Type 0} (host : Host Row) (backoffs : List ℕ) where
  queued-IsNumbered :
      (q : RetryQueue) (tasks : List Task) (results : List RunnerResult) (session : SessionId)
      (attempt now : ℕ)
      → 2 ≤ attempt
      → Numbered backoffs tasks results q
      → Numbered backoffs tasks results (scheduled_queue host (schedule q session attempt now) q)
  queued-IsNumbered q tasks results session attempt now two k =
      elim (schedule-Outcome q session attempt now) [
        | inl (pos, within, (delay, found, e)) ↦
            let here : attempt ≤ length backoffs = subst (λ b. attempt ≤ length b) k.fixed within in
            rw e record {
              fixed = k.fixed;
              of_tasks = k.of_tasks;
              of_results = k.of_results;
              of_queue = ((two, here), k.of_queue);
            }
        | inr (inl (past, e)) ↦ rw e k
        | inr (inr (first_of_none, more, e)) ↦ rw e k
      ]

  schedule-IsNumbered :
      (session : SessionId) (attempt : ℕ)
      → 2 ≤ attempt
      → Keeps (IsNumbered host backoffs) (schedule_next host session attempt)
  schedule-IsNumbered session attempt two s k =
      queued-IsNumbered s.retry s.tasks s.results session attempt s.now two k

  failed-IsNumbered :
      (session : SessionId)
      → Keeps
          (IsNumbered host backoffs)
          (handle (on_network host (mark_failed host session)) pure (λ _. pure tt))
  failed-IsNumbered session =
      listed_then (IsNumbered-Kept host backoffs) (mark_failed host session) pure
        (λ a. done-Kept (IsNumbered-Kept host backoffs) a)

  module _ (fits : length backoffs + 2 < 4294967296) where
    conclude-IsNumbered :
        (res : RunnerResult) (outcome : Outcome (Unit {0}))
        → IsRun (length backoffs) res.attempt
        → Keeps (IsNumbered host backoffs) (conclude host res outcome)
    conclude-IsNumbered res (ok _) h s k = k
    conclude-IsNumbered res pending h s k = k
    conclude-IsNumbered res (err e) h s k =
        let next = (res.attempt + 1) % 4294967296 in
        let two : 2 ≤ next = let (low, high) = h in omega arith in
        let failed : Exec (Loop host) (Unit {0}) =
          handle (on_network host (mark_failed host res.session)) pure (λ _. pure tt) in
        Keeps-if (IsNumbered host backoffs) (is_retryable_session_failure e)
          (failed >> schedule_next host res.session next) (pure tt)
          (Keeps-bind (IsNumbered host backoffs) failed (λ _. schedule_next host res.session next)
            (failed-IsNumbered res.session) (λ _. schedule-IsNumbered res.session next two))
          (done-Kept (IsNumbered-Kept host backoffs) tt) s k

    complete-IsNumbered :
        (res : RunnerResult)
        → IsRun (length backoffs) res.attempt
        → Keeps (IsNumbered host backoffs) (on_runner_complete host res)
    unfolding on_runner_complete
    complete-IsNumbered res h s k =
        conclude-IsNumbered res res.outcome h (record s { active = remove res.session s.active }) k

    retry-IsNumbered :
        (s : Loop host) (entry : RetryEntry) (rest : List RetryEntry)
        → take_due s.retry.inner s.now ≡ some (entry, rest)
        → IsNumbered host backoffs s
        → IsNumbered host backoffs
            (handle_retry host entry (record s { retry = record s.retry { inner = rest } })).1
    unfolding handle_retry
    retry-IsNumbered s entry rest e k =
        let (p, r, due) = take_due-some s.retry.inner s.now entry rest e in
        let (low, high) = All-peek (IsRetry (length backoffs)) s.retry.inner entry k.of_queue p in
        let left : All (IsRetry (length backoffs)) rest =
          rw r (All-pop (IsRetry (length backoffs)) s.retry.inner k.of_queue) in
        spawn-Kept (IsNumbered-Kept host backoffs) entry.session entry.attempt one_shot
          (omega arith, omega arith) (record s { retry = record s.retry { inner = rest } })
          (record {
            fixed = k.fixed;
            of_tasks = k.of_tasks;
            of_results = k.of_results;
            of_queue = left;
          })

    joined-IsNumbered :
        (s : Loop host) (res : RunnerResult) (rest : List RunnerResult)
        → s.results ≡ res ∷ rest
        → IsNumbered host backoffs s
        → IsNumbered host backoffs (on_runner_complete host res (record s { results = rest })).1
    joined-IsNumbered s res rest e k =
        let (this, others) =
          subst (All (λ (r : RunnerResult). IsRun (length backoffs) r.attempt)) e k.of_results in
        complete-IsNumbered res this (record s { results = rest })
          (record {
            fixed = k.fixed;
            of_tasks = k.of_tasks;
            of_results = others;
            of_queue = k.of_queue;
          })

    report-IsRun :
        (task : Task) (outcome : Outcome (Unit {0})) (results : List RunnerResult)
        → IsRun (length backoffs) task.attempt
        → All (λ (r : RunnerResult). IsRun (length backoffs) r.attempt) results
        → All
            (λ (r : RunnerResult). IsRun (length backoffs) r.attempt)
            (report task outcome results)
    report-IsRun task outcome results h k =
        let res : RunnerResult = record {
          session = task.session;
          attempt = task.attempt;
          outcome = outcome;
        } in
        if_motive (All (λ (r : RunnerResult). IsRun (length backoffs) r.attempt)) task.reported
          (results ++ res ∷ []) results
          (All-append (λ (r : RunnerResult). IsRun (length backoffs) r.attempt) results (res ∷ []) k
            (h, tt))
          k

    split_tasks :
        (s : Loop host) (before after : List Task) (task : Task)
        → s.tasks ≡ before ++ task ∷ after
        → IsNumbered host backoffs s
        → All (λ (t : Task). IsRun (length backoffs) t.attempt) before
          × IsRun (length backoffs) task.attempt
          × All (λ (t : Task). IsRun (length backoffs) t.attempt) after
    split_tasks s before after task e k =
        All-middle (λ (t : Task). IsRun (length backoffs) t.attempt) before after task
          (subst (All (λ (t : Task). IsRun (length backoffs) t.attempt)) e k.of_tasks)

    step-IsNumbered :
        (s t : Loop host) → Step host s t → IsNumbered host backoffs s → IsNumbered host backoffs t
    step-IsNumbered _ _ (Step.bus_event s event) k =
        bus_event-Kept (IsNumbered-Kept host backoffs) event s k
    step-IsNumbered _ _ (Step.poll_tick s) k = poll-Kept (IsNumbered-Kept host backoffs) s k
    step-IsNumbered _ _ (Step.retry_ready s entry rest e) k = retry-IsNumbered s entry rest e k
    step-IsNumbered _ _ (Step.joined s res rest e) k = joined-IsNumbered s res rest e k
    step-IsNumbered _ _ (Step.rerun s session) k =
        rerun-Kept (IsNumbered-Kept host backoffs) session s k
    step-IsNumbered _ _ (Step.ended s before after task outcome e) k =
        let (b, h, a) = split_tasks s before after task e k in
        record {
          fixed = k.fixed;
          of_tasks = All-append (λ (t : Task). IsRun (length backoffs) t.attempt) before after b a;
          of_results = report-IsRun task outcome s.results h k.of_results;
          of_queue = k.of_queue;
        }
    step-IsNumbered _ _ (Step.received s before after task task' e _ _ same _ _ _ _ _) k =
        let (b, h, a) = split_tasks s before after task e k in
        with_tasks host backoffs k (
          All-append (λ (t : Task). IsRun (length backoffs) t.attempt) before (task' ∷ after) b
            (subst (IsRun (length backoffs)) (sym same) h, a))
    step-IsNumbered _ _ (Step.elapsed s ms io) k = k

    pub reach-IsNumbered :
        (io : Io host) (now : ℕ) (s : Loop host)
        → Reach host io now backoffs s
        → IsNumbered host backoffs s
    unfolding new
    reach-IsNumbered io now _ here =
        startup-Kept (IsNumbered-Kept host backoffs) (start host io now backoffs)
          (record { fixed = refl; of_tasks = tt; of_results = tt; of_queue = tt })
    reach-IsNumbered io now _ (next {s} {t} r step) =
        step-IsNumbered s t step (reach-IsNumbered io now s r)

-- In every state that the loop reaches, if the length of the configured schedule and 2 more are
-- below 2 ^ 32: the schedule is the configured one, and each retry that waits in the queue has an
-- attempt number from 2 to the length of the schedule.
pub retries-numbered :
    {Row : Type 0} (host : Host Row) (backoffs : List ℕ)
    → length backoffs + 2 < 4294967296
    → (io : Io host) (now : ℕ) (s : Loop host) → Reach host io now backoffs s
    → (s.retry.backoffs ≡ backoffs) × All (IsRetry (length backoffs)) s.retry.inner
retries-numbered host backoffs fits io now s r =
    let k = reach-IsNumbered host backoffs fits io now s r in (k.fixed, k.of_queue)
