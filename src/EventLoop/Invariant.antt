-- ===== src/EventLoop/Invariant.antt =====
-- src/event_loop.rs: what holds in every state that the loop reaches, for a predicate that does not
-- look at the retry queue, the results or the clock.
use chronicle_worker.Prelude.{ℕ, ◌+◌, ◌%◌, ◌≡◌, List, ◌∷◌, ◌++◌}
use chronicle_worker.Error.{is_retryable_session_failure}
use chronicle_worker.Exec.{Outcome, ok, err, pending, Exec, pure, handle, ◌>>◌}
use chronicle_worker.Exec.Keeps.{Keeps, Keeps-bind, Keeps-if}
use chronicle_worker.Http.{Host}
use chronicle_worker.Api.{Io}
use chronicle_worker.Api.Sessions.{mark_failed}
use chronicle_worker.Retry.{RetryQueue}
use chronicle_worker.Runner.Streaming.{RunnerCmd}
use chronicle_worker.EventLoop.{Loop, Task, RunnerResult, one_shot, remove, on_network}
use chronicle_worker.EventLoop.Handlers.{schedule_next, conclude, on_runner_complete, handle_retry}
use chronicle_worker.EventLoop.Steps.{Step, Reach, here, next, start, report}
use chronicle_worker.EventLoop.Kept.{
  IsSameRun, Kept, spawn-Kept, done-Kept, listed_then, startup-Kept, poll-Kept, bus_event-Kept,
  rerun-Kept,
}

-- What the runners do by themselves, and what the predicate does not look at.
pub record Invariant {Row : Type 0} (host : Host Row) (P : Loop host → Type 0) : Type 0 where
  pub kept : Kept host P (λ _. Unit {0})
  pub elsewhere :
      (s : Loop host) (retry : RetryQueue) (results : List RunnerResult) (now : ℕ)
      → P s
      → P (record s { retry = retry; results = results; now = now })
  pub ended :
      (s : Loop host) (before after : List Task) (task : Task)
      → s.tasks ≡ before ++ task ∷ after
      → P s
      → P (record s { tasks = before ++ after })
  pub received :
      (s : Loop host) (before after : List Task) (task task' : Task) (taken : List RunnerCmd)
      → s.tasks ≡ before ++ task ∷ after
      → IsSameRun task' task
      → task.inbox ≡ taken ++ task'.inbox
      → P s
      → P (record s { tasks = before ++ task' ∷ after })

module _ {Row : Type 0} {host : Host Row} {P : Loop host → Type 0}
    (invariant : Invariant host P) where
  conclude-P :
      (res : RunnerResult) (outcome : Outcome (Unit {0})) → Keeps P (conclude host res outcome)
  conclude-P res (ok _) s k = k
  conclude-P res pending s k = k
  conclude-P res (err e) s k =
      let failed : Exec (Loop host) (Unit {0}) =
        handle (on_network host (mark_failed host res.session)) pure (λ _. pure tt) in
      let scheduled : Exec (Loop host) (Unit {0}) =
        schedule_next host res.session ((res.attempt + 1) % 4294967296) in
      Keeps-if P (is_retryable_session_failure e) (failed >> scheduled) (pure tt)
        (Keeps-bind P failed (λ _. scheduled)
          (listed_then invariant.kept (mark_failed host res.session) pure
            (λ a. done-Kept invariant.kept a))
          (λ _ t p. invariant.elsewhere t (scheduled t).1.retry t.results t.now p))
        (done-Kept invariant.kept tt) s k

  step-P : (s t : Loop host) → Step host s t → P s → P t
  unfolding handle_retry on_runner_complete
  step-P _ _ (Step.bus_event s event) k = bus_event-Kept invariant.kept event s k
  step-P _ _ (Step.poll_tick s) k = poll-Kept invariant.kept s k
  step-P _ _ (Step.retry_ready s entry rest e) k =
      let left : RetryQueue = record s.retry { inner = rest } in
      spawn-Kept invariant.kept entry.session entry.attempt one_shot tt (record s { retry = left })
        (invariant.elsewhere s left s.results s.now k)
  step-P _ _ (Step.joined s res rest e) k =
      let left : Loop host = record s { results = rest } in
      conclude-P res res.outcome (record left { active = remove res.session s.active })
        (invariant.kept.removed left res.session (invariant.elsewhere s s.retry rest s.now k))
  step-P _ _ (Step.rerun s session) k = rerun-Kept invariant.kept session s k
  step-P _ _ (Step.ended s before after task outcome e) k =
      let left : Loop host = record s { tasks = before ++ after } in
      invariant.elsewhere left s.retry (report task outcome s.results) s.now
        (invariant.ended s before after task e k)
  step-P _ _ (Step.received s before after task task' e i w a _ _ taken front _) k =
      invariant.received s before after task task' taken e (i, w, a) front k
  step-P _ _ (Step.elapsed s ms io) k =
      invariant.elsewhere (record s { io = io }) s.retry s.results (s.now + ms)
        (invariant.kept.networked s io k)

  pub reach-P :
      (io : Io host) (now : ℕ) (backoffs : List ℕ) (s : Loop host)
      → P (start host io now backoffs)
      → Reach host io now backoffs s
      → P s
  reach-P io now backoffs _ first here =
      startup-Kept invariant.kept (start host io now backoffs) first
  reach-P io now backoffs _ first (next {s} {t} r step) =
      step-P s t step (reach-P io now backoffs s first r)
