-- ===== src/EventLoop/Quiet.antt =====
-- src/event_loop.rs and src/retry.rs: without new work from outside, the retries come to an end.
use mathlib.Core.Path.{subst}
use chronicle_worker.Prelude.{
  ℕ, suc, ◌+◌, ◌-◌, ◌≤◌, ◌<◌, ◌≡◌, ap, sym, ◌∙◌, Bool, true, false, List, [], ◌∷◌, ◌++◌, some,
  arith, length, All,
}
use chronicle_worker.Exec.{Outcome}
use chronicle_worker.Http.{Host}
use chronicle_worker.Api.{Io}
use chronicle_worker.Retry.{RetryEntry, take_due}
use chronicle_worker.Retry.Ready.{take_due-some}
use chronicle_worker.EventLoop.{Loop, Task, RunnerResult, remove, spawn_runner}
use chronicle_worker.EventLoop.Handlers.{handle_retry, on_runner_complete}
use chronicle_worker.EventLoop.Steps.{Step, Reach, next, report}
use chronicle_worker.EventLoop.Kept.{if_motive}
use chronicle_worker.EventLoop.Numbered.{IsRun, IsNumbered}
use chronicle_worker.EventLoop.Retries.{reach-IsNumbered}
use chronicle_worker.EventLoop.Weight.{
  sum, sum-append, sum-pop, run_weight, weight, concluded_bound,
}

module _ {Row : Type 0} (host : Host Row) where
  -- New work: an event of the bus, a poll, an admin rerun.
  abbrev pub is_new_work : {s t : Loop host} → Step host s t → Bool
  is_new_work (Step.bus_event s event) = true
  is_new_work (Step.poll_tick s) = true
  is_new_work (Step.rerun s session) = true
  is_new_work (Step.retry_ready s entry rest e) = false
  is_new_work (Step.joined s res rest e) = false
  is_new_work (Step.ended s before after task outcome e) = false
  is_new_work (Step.received s before after task task' e i w a r m taken front on) = false
  is_new_work (Step.elapsed s ms io) = false

  abbrev pub retries_in : {s t : Loop host} → Step host s t → ℕ
  retries_in (Step.retry_ready s entry rest e) = 1
  retries_in (Step.bus_event s event) = 0
  retries_in (Step.poll_tick s) = 0
  retries_in (Step.rerun s session) = 0
  retries_in (Step.joined s res rest e) = 0
  retries_in (Step.ended s before after task outcome e) = 0
  retries_in (Step.received s before after task task' e i w a r m taken front on) = 0
  retries_in (Step.elapsed s ms io) = 0

  -- Steps without new work, and the number of retries that they start.
  pub data Quiet (s : Loop host) : Loop host → ℕ → Type 0 where
    none_yet : Quiet s s 0
    then :
        {t u : Loop host} {k : ℕ}
        → Quiet s t k
        → (step : Step host t u) → is_new_work step ≡ false
        → Quiet s u (k + retries_in step)

  module _ (backoffs : List ℕ) (fits : length backoffs + 2 < 4294967296) where
    abbrev n : ℕ
    n = length backoffs

    retried_weight :
        (s : Loop host) (entry : RetryEntry) (rest : List RetryEntry)
        → take_due s.retry.inner s.now ≡ some (entry, rest)
        → 1
            + weight n
                (handle_retry host entry (record s { retry = record s.retry { inner = rest } })).1
          ≤ weight n s
    unfolding handle_retry spawn_runner
    retried_weight s entry rest e =
        let w = λ (e : RetryEntry). suc (run_weight n e.attempt) in
        let (p, r, due) = take_due-some s.retry.inner s.now entry rest e in
        let all : sum w s.retry.inner ≡ w entry + sum w rest =
          sum-pop w s.retry.inner entry p ∙ ap (λ h. w entry + sum w h) (sym r) in
        omega arith

    joined_weight :
        (s : Loop host) (res : RunnerResult) (rest : List RunnerResult)
        → s.results ≡ res ∷ rest
        → IsNumbered host backoffs s
        → weight n (on_runner_complete host res (record s { results = rest })).1 ≤ weight n s
    unfolding on_runner_complete
    joined_weight s res rest e k =
        let w = λ (r : RunnerResult). run_weight n r.attempt in
        let (this, _) = subst (All (λ (r : RunnerResult). IsRun n r.attempt)) e k.of_results in
        let all : sum w s.results ≡ w res + sum w rest = ap (sum w) e in
        let after =
          concluded_bound host backoffs fits res res.outcome
            (record s { results = rest; active = remove res.session s.active }) k.fixed this in
        omega arith

    report_weight :
        (task : Task) (outcome : Outcome (Unit {0})) (results : List RunnerResult)
        → sum (λ (r : RunnerResult). run_weight n r.attempt) (report task outcome results)
          ≤ run_weight n task.attempt + sum (λ (r : RunnerResult). run_weight n r.attempt) results
    report_weight task outcome results =
        let w = λ (r : RunnerResult). run_weight n r.attempt in
        let this : RunnerResult = record {
          session = task.session;
          attempt = task.attempt;
          outcome = outcome;
        } in
        let all = sum-append w results (this ∷ []) in
        if_motive (λ rs. sum w rs ≤ run_weight n task.attempt + sum w results) task.reported
          (results ++ this ∷ []) results (omega arith) (omega arith)

    step_weight :
        (s t : Loop host) (step : Step host s t)
        → is_new_work step ≡ false
        → IsNumbered host backoffs s
        → retries_in step + weight n t ≤ weight n s
    step_weight _ _ (Step.bus_event s event) quiet k = absurd (grind arith)
    step_weight _ _ (Step.poll_tick s) quiet k = absurd (grind arith)
    step_weight _ _ (Step.rerun s session) quiet k = absurd (grind arith)
    step_weight _ _ (Step.retry_ready s entry rest e) quiet k = retried_weight s entry rest e
    step_weight _ _ (Step.joined s res rest e) quiet k =
        let bound = joined_weight s res rest e k in omega arith
    step_weight _ _ (Step.ended s before after task outcome e) quiet k =
        let w = λ (t : Task). run_weight n t.attempt in
        let all = ap (sum w) e ∙ sum-append w before (task ∷ after) in
        let left = sum-append w before after in
        let reported = report_weight task outcome s.results in omega arith
    step_weight _ _ (Step.received s before after task task' e _ _ same _ _ _ _ _) quiet k =
        let w = λ (t : Task). run_weight n t.attempt in
        let all = ap (sum w) e ∙ sum-append w before (task ∷ after) in
        let left = sum-append w before (task' ∷ after) in
        let alike = ap (run_weight n) same in omega arith
    step_weight _ _ (Step.elapsed s ms io) quiet k = omega arith

    reach_after :
        (io : Io host) (now : ℕ) (s t : Loop host) (k : ℕ)
        → Reach host io now backoffs s
        → Quiet s t k
        → Reach host io now backoffs t
    reach_after io now s _ _ r none_yet = r
    reach_after io now s _ _ r (then {t} {u} {k} quiet step _) =
        next (reach_after io now s t k r quiet) step

    total_bound :
        (io : Io host) (now : ℕ) (s t : Loop host) (k : ℕ)
        → Reach host io now backoffs s
        → Quiet s t k
        → k + weight n t ≤ weight n s
    total_bound io now s _ _ r none_yet = omega arith
    total_bound io now s _ _ r (then {t} {u} {k} quiet step without) =
        let before = total_bound io now s t k r quiet in
        let numbered =
          reach-IsNumbered host backoffs fits io now t (reach_after io now s t k r quiet) in
        let this = step_weight t u step without numbered in omega arith

-- From a state that the loop reaches, as long as no event of the bus, no poll and no admin rerun comes
-- in, and however long that lasts, the loop starts at most so many retries: for each run that goes on,
-- and for each result that waits, as many as the attempts from its own to the length of the schedule,
-- and one more than that for each retry that waits; if the length of the schedule and 2 more are below
-- 2 ^ 32.
pub retries_bounded :
    {Row : Type 0} (host : Host Row) (backoffs : List ℕ)
    → length backoffs + 2 < 4294967296
    → (io : Io host) (now : ℕ) (s t : Loop host) (retries : ℕ) → Reach host io now backoffs s
    → Quiet host s t retries
    → retries
      ≤ sum (λ (t : Task). length backoffs - t.attempt) s.tasks
        + sum (λ (r : RunnerResult). length backoffs - r.attempt) s.results
        + sum (λ (e : RetryEntry). suc (length backoffs - e.attempt)) s.retry.inner
retries_bounded host backoffs fits io now s t retries r quiet =
    let bound = total_bound host backoffs fits io now s t retries r quiet in omega arith
