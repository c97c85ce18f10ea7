-- ===== src/EventLoop/Steps.antt =====
-- The loop as a step relation: each constructor is an arm of its `select!`, or something that goes on
-- beside it.
use chronicle_worker.Prelude.{ℕ, ◌+◌, ◌≡◌, true, List, [], ◌∷◌, ◌++◌, some, if◌then◌else◌}
use chronicle_worker.Ids.{SessionId}
use chronicle_worker.Exec.{Outcome}
use chronicle_worker.Http.{Host}
use chronicle_worker.Api.{Io}
use chronicle_worker.Runner.Streaming.{RunnerCmd}
use chronicle_worker.Retry.{RetryEntry, take_due, new}
use chronicle_worker.EventLoop.{Loop, Task, RunnerResult}
use chronicle_worker.EventLoop.Handlers.{
  BusEvent, startup_reconcile, poll_reconcile, handle_ws_event, handle_retry, admin_rerun,
  on_runner_complete,
}

abbrev pub report : Task → Outcome (Unit {0}) → List RunnerResult → List RunnerResult
report task outcome results =
    if task.reported
    then results
      ++ record { session = task.session; attempt = task.attempt; outcome = outcome } ∷ []
    else results

module _ {Row : Type 0} (host : Host Row) where
  pub data Step : Loop host → Loop host → Type 0 where
    bus_event : (s : Loop host) (event : BusEvent) → Step s (handle_ws_event host event s).1
    poll_tick : (s : Loop host) → Step s (poll_reconcile host s).1
    retry_ready :
        (s : Loop host) (entry : RetryEntry) (rest : List RetryEntry)
        → take_due s.retry.inner s.now ≡ some (entry, rest)
        → Step s (handle_retry host entry (record s { retry = record s.retry { inner = rest } })).1
    joined :
        (s : Loop host) (res : RunnerResult) (rest : List RunnerResult)
        → s.results ≡ res ∷ rest
        → Step s (on_runner_complete host res (record s { results = rest })).1
    rerun : (s : Loop host) (session : SessionId) → Step s (admin_rerun host session s).1
    -- A runner ends, and its wrapper reports it unless it was aborted.
    ended :
        (s : Loop host) (before after : List Task) (task : Task) (outcome : Outcome (Unit {0}))
        → s.tasks ≡ before ++ task ∷ after
        → Step s (record s { tasks = before ++ after; results = report task outcome s.results })
    -- A runner takes commands off the front of its channel, and may drop the receiver for good.
    received :
        (s : Loop host) (before after : List Task) (task task' : Task)
        → s.tasks ≡ before ++ task ∷ after
        → task'.id ≡ task.id
        → task'.session ≡ task.session
        → task'.attempt ≡ task.attempt
        → task'.reported ≡ task.reported
        → task'.mode ≡ task.mode
        → (taken : List RunnerCmd) → task.inbox ≡ taken ++ task'.inbox
        → (task'.receiving ≡ true → task.receiving ≡ true)
        → Step s (record s { tasks = before ++ task' ∷ after })
    -- Time passes, and the data-api, the runners and the heartbeat use the network.
    elapsed :
        (s : Loop host) (ms : ℕ) (io : Io host) → Step s (record s { now = s.now + ms; io = io })

  -- The state in which `run` enters its loop, from the network and the clock it starts with.
  abbrev pub start : Io host → ℕ → List ℕ → Loop host
  start io now backoffs = record {
    io = io;
    active = [];
    tasks = [];
    next_id = 0;
    results = [];
    retry = new backoffs;
    now = now;
  }

  pub data Reach (io : Io host) (now : ℕ) (backoffs : List ℕ) : Loop host → Type 0 where
    here : Reach io now backoffs (startup_reconcile host (start io now backoffs)).1
    next : {s t : Loop host} → Reach io now backoffs s → Step s t → Reach io now backoffs t
