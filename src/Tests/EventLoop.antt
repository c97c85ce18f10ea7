-- ===== src/Tests/EventLoop.antt =====
-- The loop of src/event_loop.rs against a data-api where every request succeeds.
use chronicle_worker.Prelude.{
  ℕ, suc, ◌+◌, ◌-◌, ◌≤◌, ◌≡◌, ◌⊎◌, refl, true, none, some, ◌++◌, List, [], ◌∷◌, arith, All,
}
use chronicle_worker.Error.{WorkerError}
use chronicle_worker.Exec.{ok, err}
use chronicle_worker.Retry.{RetryEntry, new, entry, take_due}
use chronicle_worker.EventLoop.{Loop, Task, RunnerMode, RunnerResult, TaskId, lookup, find_task}
use chronicle_worker.Runner.Streaming.{ingest_chunk, finalize}
use chronicle_worker.EventLoop.Handlers.{
  session_uploaded, chunk_uploaded, handle_ws_event, startup_reconcile, on_runner_complete,
  handle_retry,
}
use chronicle_worker.EventLoop.Steps.{Step, Reach, here, next, start}
use chronicle_worker.EventLoop.Delivery.{Delivery, IsStarted, chunk_uploaded-outcomes}
use chronicle_worker.EventLoop.Uploaded.{Upload, session_uploaded-Upload}
use chronicle_worker.EventLoop.Owned.{active-session}
use chronicle_worker.Admin.{json, queued, rerun_handler}
use chronicle_worker.EventLoop.Numbered.{IsRetry}
use chronicle_worker.EventLoop.Retries.{retries-numbered}
use chronicle_worker.EventLoop.Concluded.{Concluded, on_runner_complete-Concluded}
use chronicle_worker.EventLoop.Quiet.{Quiet, retries_bounded}
use chronicle_worker.EventLoop.Weight.{sum}
use chronicle_worker.Tests.World.{steady, steady_io}

abbrev default_delays : List ℕ
default_delays = 30000 ∷ 120000 ∷ 600000 ∷ []

abbrev after_startup : Loop steady
after_startup = (startup_reconcile steady (start steady steady_io 0 default_delays)).1

abbrev streaming : Loop steady
streaming = (handle_ws_event steady (chunk_uploaded 9 "ann" 0) after_startup).1

abbrev crashed : RunnerResult
crashed = record { session = 9; attempt = 1; outcome = err (WorkerError.pipeline "no model") }

-- The streaming runner of session 9 has ended, and nothing else has happened since.
abbrev ended : Loop steady
ended = record streaming { tasks = after_startup.tasks; results = crashed ∷ [] }

abbrev retried : Loop steady
retried = (on_runner_complete steady crashed (record ended { results = [] })).1

abbrev nine : Task
nine = record {
  id = 2;
  session = 9;
  attempt = 1;
  mode = RunnerMode.streaming;
  inbox = ingest_chunk "ann" 0 ∷ [];
  receiving = true;
  reported = true;
}

nine_ends : streaming.tasks ≡ [] ++ nine ∷ after_startup.tasks
unfolding handle_ws_event startup_reconcile
nine_ends = refl

retried_once : retried.retry.inner ≡ entry 9 2 120000 ∷ []
unfolding on_runner_complete handle_ws_event startup_reconcile new
retried_once = refl

streaming_results : streaming.results ≡ []
unfolding handle_ws_event startup_reconcile
streaming_results = refl

ended_reached : Reach steady steady_io 0 default_delays ended
unfolding handle_ws_event startup_reconcile
ended_reached = next (next here (Step.bus_event after_startup (chunk_uploaded 9 "ann" 0))) (
    Step.ended streaming [] after_startup.tasks nine (err (WorkerError.pipeline "no model"))
      nine_ends)

reached : Reach steady steady_io 0 default_delays retried
reached = next ended_reached (Step.joined ended crashed [] refl)

retries-numbered_example :
    (retried.retry.backoffs ≡ default_delays) × All (IsRetry 3) retried.retry.inner
retries-numbered_example =
    retries-numbered steady default_delays (omega arith) steady_io 0 retried reached

active_nine : lookup 9 streaming.active ≡ some 2
unfolding lookup handle_ws_event startup_reconcile
active_nine = refl

rerun_queued : (rerun_handler steady 200 none 9 streaming).0 ≡ json (queued true)
unfolding rerun_handler handle_ws_event startup_reconcile
rerun_queued = refl

streaming_reached : Reach steady steady_io 0 default_delays streaming
streaming_reached = next here (Step.bus_event after_startup (chunk_uploaded 9 "ann" 0))

found_nine : find_task 2 streaming.tasks ≡ some nine
unfolding find_task handle_ws_event startup_reconcile
found_nine = refl

active-session_example : nine.session ≡ 9
active-session_example =
    active-session steady steady_io 0 default_delays streaming streaming_reached 9 2 nine
      active_nine found_nine

chunk_uploaded-outcomes_example :
    (let run = handle_ws_event steady (chunk_uploaded 9 "bob" 4) streaming in
      ((id : TaskId) × (lookup 9 streaming.active ≡ some id)
        × Delivery steady id (ingest_chunk "bob" 4) streaming run.1 run.0)
      ⊎ ((lookup 9 streaming.active ≡ none)
          × (run.0 ≡ ok tt)
          × IsStarted steady 9 (ingest_chunk "bob" 4) streaming run.1))
chunk_uploaded-outcomes_example = chunk_uploaded-outcomes steady 9 "bob" 4 streaming

session_uploaded-Upload_example :
    (let run = handle_ws_event steady (session_uploaded 9) streaming in
      Upload steady 9 streaming run.1 run.0)
session_uploaded-Upload_example = session_uploaded-Upload steady 9 streaming

inbox_nine :
    find_task 2 (handle_ws_event steady (session_uploaded 9) streaming).1.tasks
    ≡ some (record nine { inbox = ingest_chunk "ann" 0 ∷ finalize ∷ [] })
unfolding find_task handle_ws_event startup_reconcile
inbox_nine = refl

on_runner_complete-Concluded_example :
    (let run = on_runner_complete steady crashed ended in
      (run.0 ≡ ok tt) × Concluded steady crashed ended run.1)
on_runner_complete-Concluded_example =
    on_runner_complete-Concluded steady crashed ended (omega arith)

-- The retry of session 9 comes up when its time has come.
abbrev later : Loop steady
later = record retried { now = retried.now + 120000 }

due_nine : take_due later.retry.inner later.now ≡ some (entry 9 2 120000, [])
unfolding take_due on_runner_complete handle_ws_event startup_reconcile new
due_nine = refl

abbrev restarted : Loop steady
restarted =
    (handle_retry steady (entry 9 2 120000)
      (record later { retry = record later.retry { inner = [] } })).1

one_retry : Quiet steady ended restarted 1
one_retry =
    Quiet.then
      (Quiet.then (Quiet.then Quiet.none_yet (Step.joined ended crashed [] refl) refl)
        (Step.elapsed retried 120000 retried.io) refl)
      (Step.retry_ready later (entry 9 2 120000) [] due_nine) refl

bound_of_six :
    sum (λ (t : Task). 3 - t.attempt) ended.tasks
      + sum (λ (r : RunnerResult). 3 - r.attempt) ended.results
      + sum (λ (e : RetryEntry). suc (3 - e.attempt)) ended.retry.inner
    ≡ 6
unfolding startup_reconcile handle_ws_event new
bound_of_six = refl

retries_bounded_example :
    1
    ≤ sum (λ (t : Task). 3 - t.attempt) ended.tasks
      + sum (λ (r : RunnerResult). 3 - r.attempt) ended.results
      + sum (λ (e : RetryEntry). suc (3 - e.attempt)) ended.retry.inner
retries_bounded_example =
    retries_bounded steady default_delays (omega arith) steady_io 0 ended restarted 1 ended_reached
      one_retry
