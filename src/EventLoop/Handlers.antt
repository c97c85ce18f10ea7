-- ===== src/EventLoop/Handlers.antt =====
-- The handlers of src/event_loop.rs, each with all that it changes.
use chronicle_worker.Prelude.{
  ℕ, ◌+◌, ◌%◌, String, Bool, true, false, List, [], ◌∷◌, map, Option, none, some, if◌then◌else◌,
}
use chronicle_worker.Ids.{Uuid, SessionId, PseudoId, Seq}
use chronicle_worker.Error.{is_retryable_session_failure}
use chronicle_worker.Exec.{Outcome, ok, err, pending, Exec, pure, handle, ◌>>=◌, ◌>>◌}
use chronicle_worker.Http.{Host, SessionSummary}
use chronicle_worker.Api.Sessions.{list_sessions_by_status, mark_failed}
use chronicle_worker.Retry.{RetryEntry, RetryQueue, Scheduled, queued, exhausted, panic, schedule}
use chronicle_worker.Runner.Streaming.{ingest_chunk, finalize, abort}
use chronicle_worker.Runner.OneShot.{clear_prior_outputs}
use chronicle_worker.EventLoop.{
  Loop, Task, TaskId, ActiveMap, RunnerResult, streaming, one_shot, lookup, remove, change_task,
  on_network, send, spawn_runner, spawn_runner_return_tx,
}

-- src/ws.rs
pub data BusEvent : Type 0 where
  session_uploaded : SessionId → BusEvent
  session_status : SessionId → String → BusEvent
  chunk_uploaded : SessionId → PseudoId → Seq → BusEvent
  disconnected : BusEvent

-- src/admin.rs; CARGO_PKG_VERSION
abbrev pub version : String
version = "0.2.0"

pub record StatusSnapshot : Type 0 where
  pub active_sessions : List Uuid
  pub last_heartbeat_at : Option ℕ
  pub version : String

unfoldable pub not_active : ActiveMap → List SessionSummary → List SessionId
unfolding lookup
not_active active [] = []
not_active active (s ∷ rest) =
    let later = not_active active rest in
    elim (lookup s.id active) [ none ↦ s.id ∷ later | some _ ↦ later ]

module _ {Row : Type 0} (host : Host Row) where
  -- for s in sessions { spawn_runner(…, OneShot) }
  unfoldable pub spawn_each : List SessionId → Exec (Loop host) Unit
  unfolding spawn_runner
  spawn_each [] = pure tt
  spawn_each (sid ∷ sids) = do spawn_runner host sid 1 one_shot; spawn_each sids

  abbrev pub ids : List SessionSummary → List SessionId
  ids = map (λ s. s.id)

  -- An error of the list is only logged.
  abbrev pub rerun_status : String → Exec (Loop host) Unit
  rerun_status status =
      handle (on_network host (list_sessions_by_status host status))
        (λ found. spawn_each (ids found)) (λ _. pure tt)

  unfoldable pub startup_reconcile : Exec (Loop host) Unit
  unfolding list_sessions_by_status spawn_each
  startup_reconcile = do rerun_status "transcribing"; rerun_status "uploaded"

  abbrev pub spawn_missing : List SessionSummary → Exec (Loop host) Unit
  spawn_missing uploaded s = spawn_each (not_active s.active uploaded) s

  unfoldable pub poll_reconcile : Exec (Loop host) Unit
  unfolding list_sessions_by_status not_active spawn_each
  poll_reconcile =
      handle (on_network host (list_sessions_by_status host "uploaded")) spawn_missing
        (λ _. pure tt)

  abbrev pub finalize_or_rerun : SessionId → Option TaskId → Exec (Loop host) Unit
  finalize_or_rerun session (some tx) = do
    sent ← send host tx finalize
    if sent then pure tt else spawn_runner host session 1 one_shot
  finalize_or_rerun session none = spawn_runner host session 1 one_shot

  abbrev pub sender_or_spawn : SessionId → Option TaskId → Exec (Loop host) TaskId
  sender_or_spawn session (some tx) = pure tx
  sender_or_spawn session none = spawn_runner_return_tx host session 1 streaming

  unfoldable pub handle_ws_event : BusEvent → Exec (Loop host) Unit
  unfolding lookup send spawn_runner spawn_runner_return_tx
  handle_ws_event (session_uploaded session) s =
      finalize_or_rerun session (lookup session s.active) s
  handle_ws_event (chunk_uploaded session pseudo seq) s =
      (do
        tx ← sender_or_spawn session (lookup session s.active)
        send host tx (ingest_chunk pseudo seq)
        pure tt)
        s
  handle_ws_event (session_status session status) s = (ok tt, s)
  handle_ws_event disconnected s = (ok tt, s)

  -- The bus's arm of `run`'s loop, taken for these events one after the other.
  unfoldable pub run_events : List BusEvent → Exec (Loop host) Unit
  unfolding handle_ws_event
  run_events [] = pure tt
  run_events (event ∷ events) = do handle_ws_event event; run_events events

  unfoldable pub handle_retry : RetryEntry → Exec (Loop host) Unit
  unfolding spawn_runner
  handle_retry entry = spawn_runner host entry.session entry.attempt one_shot

  -- h.abort.abort() ends the wrapper in the JoinSet. The runner's own task, whose handle is dropped
  -- with it, goes on.
  abbrev pub unreport : Task → Task
  unreport task = record task { reported = false }

  unfoldable pub abort_wrapper : TaskId → Exec (Loop host) Unit
  unfolding change_task
  abort_wrapper id s = (ok tt, record s { tasks = change_task id unreport s.tasks })

  abbrev pub abort_active : SessionId → Option TaskId → Exec (Loop host) Unit
  abort_active session none s = (ok tt, s)
  abort_active session (some id) s =
      (do send host id abort; abort_wrapper id) (record s { active = remove session s.active })

  -- AdminCmd::Rerun. clear_prior_outputs never fails, so the acknowledgement is `true`.
  unfoldable pub admin_rerun : SessionId → Exec (Loop host) Bool
  unfolding lookup remove send abort_wrapper clear_prior_outputs spawn_runner
  admin_rerun session s =
      (do
        abort_active session (lookup session s.active)
        handle (on_network host (clear_prior_outputs host session))
            (λ _. spawn_runner host session 1 one_shot >> pure true) (λ _. pure false))
        s

  -- AdminCmd::Status
  unfoldable pub admin_status : Exec (Loop host) StatusSnapshot
  admin_status s = (
    ok (record {
      active_sessions = map (λ e. e.0) s.active;
      last_heartbeat_at = some s.now;
      version = version;
    }),
    s,
  )

  -- What the queue is after a call of `schedule`.
  abbrev pub scheduled_queue : Scheduled → RetryQueue → RetryQueue
  scheduled_queue (queued e q') q = q'
  scheduled_queue exhausted q = q
  scheduled_queue panic q = q

  abbrev pub schedule_next : SessionId → ℕ → Exec (Loop host) Unit
  schedule_next session attempt s =
      (ok tt, record s { retry = scheduled_queue (schedule s.retry session attempt s.now) s.retry })

  abbrev pub conclude : RunnerResult → Outcome (Unit {0}) → Exec (Loop host) Unit
  conclude res (ok _) = pure tt
  conclude res (err e) =
      if is_retryable_session_failure e
      then (do
        handle (on_network host (mark_failed host res.session)) pure (λ _. pure tt)
        schedule_next res.session ((res.attempt + 1) % 4294967296))
      else pure tt
  conclude res pending = pure tt

  unfoldable pub on_runner_complete : RunnerResult → Exec (Loop host) Unit
  unfolding remove is_retryable_session_failure mark_failed schedule
  on_runner_complete res s =
      conclude res res.outcome (record s { active = remove res.session s.active })
