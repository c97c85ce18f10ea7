-- ===== src/EventLoop/Weight.antt =====
-- src/event_loop.rs and src/retry.rs: what runs, results and waiting retries can still lead to.
use chronicle_worker.Prelude.{
  ℕ, suc, ◌+◌, ◌-◌, ◌%◌, ◌≤◌, ◌<◌, ◌≡◌, refl, ap, ◌∙◌, inl, inr, Bool-cases, List, [], ◌∷◌, ◌++◌,
  some, Option-cases, arith, length,
}
use chronicle_worker.Ids.{SessionId}
use chronicle_worker.Error.{is_retryable_session_failure}
use chronicle_worker.Exec.{Outcome, ok, err, pending, pure, settle, handle, resume}
use chronicle_worker.Http.{Host}
use chronicle_worker.Api.{Io}
use chronicle_worker.Api.Sessions.{mark_failed}
use chronicle_worker.Retry.{RetryEntry, RetryQueue, peek, pop, schedule}
use chronicle_worker.Retry.Schedule.{schedule-Outcome}
use chronicle_worker.Retry.Ready.{peek-none}
use chronicle_worker.EventLoop.{Loop, Task, RunnerResult, on_network}
use chronicle_worker.EventLoop.Handlers.{schedule_next, conclude, scheduled_queue}
use chronicle_worker.EventLoop.Numbered.{IsRun}

abbrev pub sum : {A : Type 0} → (A → ℕ) → List A → ℕ
sum w [] = 0
sum w (x ∷ xs) = w x + sum w xs

pub sum-append : {A : Type 0} (w : A → ℕ) (xs ys : List A) → sum w (xs ++ ys) ≡ sum w xs + sum w ys
sum-append w [] ys = omega arith
sum-append w (x ∷ xs) ys = omega (arith, sum-append w xs ys)

pub sum-pop :
    (w : RetryEntry → ℕ) (heap : List RetryEntry) (top : RetryEntry)
    → peek heap ≡ some top
    → sum w heap ≡ w top + sum w (pop heap)
unfolding peek pop
sum-pop w [] top h = cc
sum-pop w (e ∷ heap) top h = elim (Option-cases (peek heap)) [
  | inl p ↦
      let empty : heap ≡ [] = peek-none heap p in
      let this : e ≡ top = ground arith in rw (p, pop) (rw (empty, this) refl)
  | inr (t, p) ↦ ground (arith, sum-pop w heap t p)
]

-- What a run, or a retry that waits, can still lead to under a schedule of `n` delays: a retry leads
-- to one run more than the run that it becomes.
abbrev pub run_weight : ℕ → ℕ → ℕ
run_weight n attempt = n - attempt

abbrev pub weight : {Row : Type 0} {host : Host Row} → ℕ → Loop host → ℕ
weight n s =
    sum (λ (t : Task). run_weight n t.attempt) s.tasks
    + sum (λ (r : RunnerResult). run_weight n r.attempt) s.results
    + sum (λ (e : RetryEntry). suc (run_weight n e.attempt)) s.retry.inner

module _ {Row : Type 0} (host : Host Row) where
  module _ (backoffs : List ℕ) (fits : length backoffs + 2 < 4294967296) where
    abbrev pub n : ℕ
    n = length backoffs

    -- A failed run whose retry is scheduled.
    scheduled_weight :
        (q : RetryQueue) (session : SessionId) (attempt now : ℕ)
        → q.backoffs ≡ backoffs
        → IsRun n attempt
        → sum
            (λ (e : RetryEntry). suc (run_weight n e.attempt))
            (scheduled_queue host (schedule q session ((attempt + 1) % 4294967296) now) q).inner
          ≤ run_weight n attempt + sum (λ (e : RetryEntry). suc (run_weight n e.attempt)) q.inner
    scheduled_weight q session attempt now fixed (low, high) =
        let same : (attempt + 1) % 4294967296 ≡ attempt + 1 = omega arith in
        let count : length q.backoffs ≡ n = ap length fixed in
        rw same (elim (schedule-Outcome q session (attempt + 1) now) [
          | inl (pos, within, (delay, found, e)) ↦ rw e (omega arith)
          | inr (inl (past, e)) ↦ rw e (omega arith)
          | inr (inr (first_of_none, more, e)) ↦ rw e (omega arith)
        ])

    -- What a call that only changes the network leaves to weigh.
    record SameLoad (s u : Loop host) : Type 0 where
      tasks : u.tasks ≡ s.tasks
      results : u.results ≡ s.results
      retry : u.retry ≡ s.retry

    weighs_same : (s u : Loop host) → SameLoad s u → weight n u ≡ weight n s
    weighs_same s u k = rw (k.tasks, k.results, k.retry) refl

    failed_same :
        (session : SessionId) (s : Loop host)
        → SameLoad s (handle (on_network host (mark_failed host session)) pure (λ _. pure tt) s).1
    failed_same session s = settled (mark_failed host session s.io).0 _
      where
        settled :
            (r : Outcome (Unit {0})) (io : Io host)
            → SameLoad s (settle r pure (λ _. pure tt) (record s { io = io })).1
        settled (ok a) io = record { tasks = refl; results = refl; retry = refl }
        settled (err e) io = record { tasks = refl; results = refl; retry = refl }
        settled pending io = record { tasks = refl; results = refl; retry = refl }

    schedule_weight :
        (session : SessionId) (attempt : ℕ) (s : Loop host)
        → s.retry.backoffs ≡ backoffs
        → IsRun n attempt
        → weight n (schedule_next host session ((attempt + 1) % 4294967296) s).1
          ≤ run_weight n attempt + weight n s
    schedule_weight session attempt s fixed run =
        omega (arith, scheduled_weight s.retry session attempt s.now fixed run)

    resumed_weight :
        (r : Outcome (Unit {0})) (session : SessionId) (attempt : ℕ) (u : Loop host)
        → u.retry.backoffs ≡ backoffs
        → IsRun n attempt
        → weight n (resume r (λ _. schedule_next host session ((attempt + 1) % 4294967296)) u).1
          ≤ run_weight n attempt + weight n u
    resumed_weight (ok a) session attempt u fixed run = schedule_weight session attempt u fixed run
    resumed_weight (err e) session attempt u fixed run = omega arith
    resumed_weight pending session attempt u fixed run = omega arith

    pub concluded_bound :
        (res : RunnerResult) (outcome : Outcome (Unit {0})) (s : Loop host)
        → s.retry.backoffs ≡ backoffs
        → IsRun n res.attempt
        → weight n (conclude host res outcome s).1 ≤ run_weight n res.attempt + weight n s
    concluded_bound res (ok a) s fixed run = omega arith
    concluded_bound res pending s fixed run = omega arith
    concluded_bound res (err e) s fixed run =
        let (r, u) =
          handle (on_network host (mark_failed host res.session)) pure (λ _. pure tt) s in
        let same = failed_same res.session s in
        elim (Bool-cases (is_retryable_session_failure e)) [
          | inr final ↦ rw final (omega arith)
          | inl again ↦
              let later =
                resumed_weight r res.session res.attempt u (ap (λ q. q.backoffs) same.retry ∙ fixed)
                  run in
              let kept = weighs_same s u same in rw again (omega arith)
        ]
