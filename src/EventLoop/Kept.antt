-- ===== src/EventLoop/Kept.antt =====
-- src/event_loop.rs: what each handler keeps. A predicate that the loop's four ways of changing its
-- state keep is kept by every handler that starts and stops runs.
use chronicle_worker.Prelude.{
  ℕ, ◌<◌, ◌≡◌, refl, String, Bool, true, false, inl, inr, Bool-cases, arith, List, [], ◌∷◌, Option,
  none, some, length, leb, if◌then◌else◌,
}
use chronicle_worker.Ids.{SessionId}
use chronicle_worker.Exec.{Exec, pure, handle, ◌>>◌}
use chronicle_worker.Exec.Keeps.{Keeps, Keeps-bind, Keeps-handle, Keeps-if}
use chronicle_worker.Http.{Host}
use chronicle_worker.Api.{Io, Call}
use chronicle_worker.Api.Sessions.{list_sessions_by_status}
use chronicle_worker.Runner.Streaming.{RunnerCmd, ingest_chunk, finalize, abort}
use chronicle_worker.Runner.OneShot.{clear_prior_outputs}
use chronicle_worker.EventLoop.{
  Loop, Task, TaskId, RunnerMode, streaming, one_shot, lookup, change_task, remove, find_task,
  deliver, push_cmd, capacity, on_network, send, spawn_runner, spawn_runner_return_tx,
}
use chronicle_worker.EventLoop.Handlers.{
  BusEvent, session_uploaded, session_status, chunk_uploaded, disconnected, spawn_each, not_active,
  startup_reconcile, poll_reconcile, rerun_status, spawn_missing, handle_ws_event, ids,
  finalize_or_rerun, sender_or_spawn, unreport, abort_active, abort_wrapper, admin_rerun,
}
use chronicle_worker.EventLoop.Tasks.{find_task-id}

pub if_motive :
    {A : Type 0} (P : A → Type 0) (b : Bool) (x y : A) → P x → P y → P (if b then x else y)
if_motive P true x y h k = h
if_motive P false x y h k = k

-- The task of the same run.
abbrev pub IsSameRun : Task → Task → Type 0
IsSameRun t u = (t.id ≡ u.id) × (t.session ≡ u.session) × (t.attempt ≡ u.attempt)

-- `P` survives the network, a command for a channel that has room, an abort of a wrapper, the removal
-- of an entry, and a spawn with an attempt number that is allowed.
pub record Kept {Row : Type 0} (host : Host Row) (P : Loop host → Type 0) (Allowed : ℕ → Type 0)
    : Type 0 where
  pub networked : (s : Loop host) (io : Io host) → P s → P (record s { io = io })
  pub pushed :
      (s : Loop host) (id : TaskId) (task : Task) (cmd : RunnerCmd)
      → find_task id s.tasks ≡ some task
      → length task.inbox < capacity
      → P s
      → P (record s { tasks = change_task id (push_cmd host cmd) s.tasks })
  pub unreported :
      (s : Loop host) (id : TaskId)
      → P s
      → P (record s { tasks = change_task id (unreport host) s.tasks })
  pub removed :
      (s : Loop host) (session : SessionId)
      → P s
      → P (record s { active = remove session s.active })
  pub spawned :
      (s : Loop host) (session : SessionId) (attempt : ℕ) (mode : RunnerMode)
      → Allowed attempt
      → P s
      → P (spawn_runner_return_tx host session attempt mode s).1
  pub first : Allowed 1

module _ {Row : Type 0} {host : Host Row} {P : Loop host → Type 0} {Allowed : ℕ → Type 0}
    (kept : Kept host P Allowed) where
  network-Kept : {A : Type 0} (m : Call host A) → Keeps P (on_network host m)
  network-Kept m s k = kept.networked s (m s.io).1 k

  deliver-Kept :
      (id : TaskId) (cmd : RunnerCmd) (s : Loop host) (found : Option Task)
      → find_task id s.tasks ≡ found
      → P s
      → P (deliver host cmd found s).1
  deliver-Kept id cmd s none e k = k
  deliver-Kept id cmd s (some task) e k = elim (Bool-cases task.receiving) [
    | inr closed ↦ rw closed k
    | inl held ↦ elim (Bool-cases (leb capacity (length task.inbox))) [
      | inl full ↦ rw (held, full) k
      | inr free ↦
          rw (held, free, find_task-id id s.tasks task e)
            (kept.pushed s id task cmd e (ground arith) k)
    ]
  ]

  send-Kept : (id : TaskId) (cmd : RunnerCmd) → Keeps P (send host id cmd)
  unfolding send
  send-Kept id cmd s k = deliver-Kept id cmd s (find_task id s.tasks) refl k

  spawn_tx-Kept :
      (session : SessionId) (attempt : ℕ) (mode : RunnerMode)
      → Allowed attempt
      → Keeps P (spawn_runner_return_tx host session attempt mode)
  spawn_tx-Kept session attempt mode h s k = kept.spawned s session attempt mode h k

  pub spawn-Kept :
      (session : SessionId) (attempt : ℕ) (mode : RunnerMode)
      → Allowed attempt
      → Keeps P (spawn_runner host session attempt mode)
  unfolding spawn_runner
  spawn-Kept session attempt mode h s k = spawn_tx-Kept session attempt mode h s k

  pub spawn_first :
      (session : SessionId) (mode : RunnerMode) → Keeps P (spawn_runner host session 1 mode)
  spawn_first session mode = spawn-Kept session 1 mode kept.first

  spawn_each-Kept : (sids : List SessionId) → Keeps P (spawn_each host sids)
  unfolding spawn_each
  spawn_each-Kept [] s k = k
  spawn_each-Kept (sid ∷ sids) s k =
      Keeps-bind P (spawn_runner host sid 1 one_shot) (λ _. spawn_each host sids)
        (spawn_first sid one_shot) (λ _. spawn_each-Kept sids) s k

  pub done-Kept : {A : Type 0} (a : A) → Keeps P (pure a)
  done-Kept a s k = k

  pub listed_then :
      {A : Type 0} (m : Call host A) (f : A → Exec (Loop host) Unit)
      → ((a : A) → Keeps P (f a))
      → Keeps P (handle (on_network host m) f (λ _. pure tt))
  listed_then m f kf =
      Keeps-handle P (on_network host m) f (λ _. pure tt) (network-Kept m) kf (λ _. done-Kept tt)

  rerun_status-Kept : (status : String) → Keeps P (rerun_status host status)
  rerun_status-Kept status =
      listed_then (list_sessions_by_status host status) (λ found. spawn_each host (ids host found))
        (λ found. spawn_each-Kept (ids host found))

  pub startup-Kept : Keeps P (startup_reconcile host)
  unfolding startup_reconcile
  startup-Kept =
      Keeps-bind P (rerun_status host "transcribing") (λ _. rerun_status host "uploaded")
        (rerun_status-Kept "transcribing") (λ _. rerun_status-Kept "uploaded")

  pub poll-Kept : Keeps P (poll_reconcile host)
  unfolding poll_reconcile
  poll-Kept =
      listed_then (list_sessions_by_status host "uploaded") (spawn_missing host)
        (λ found s k. spawn_each-Kept (not_active s.active found) s k)

  finalize-Kept :
      (session : SessionId) (found : Option TaskId) → Keeps P (finalize_or_rerun host session found)
  finalize-Kept session none s k = spawn_first session one_shot s k
  finalize-Kept session (some tx) s k =
      let again : Exec (Loop host) Unit = spawn_runner host session 1 one_shot in
      Keeps-bind P (send host tx finalize) (λ sent. if sent then pure tt else again)
        (send-Kept tx finalize)
        (λ sent. Keeps-if P sent (pure tt) again (done-Kept tt) (spawn_first session one_shot)) s k

  sender-Kept :
      (session : SessionId) (found : Option TaskId) → Keeps P (sender_or_spawn host session found)
  sender-Kept session none s k = spawn_tx-Kept session 1 streaming kept.first s k
  sender-Kept session (some tx) s k = k

  pub bus_event-Kept : (event : BusEvent) → Keeps P (handle_ws_event host event)
  unfolding handle_ws_event
  bus_event-Kept (session_uploaded session) s k =
      finalize-Kept session (lookup session s.active) s k
  bus_event-Kept (chunk_uploaded session pseudo seq) s k =
      Keeps-bind P (sender_or_spawn host session (lookup session s.active))
        (λ tx. send host tx (ingest_chunk pseudo seq) >> pure tt)
        (sender-Kept session (lookup session s.active))
        (λ tx.
          Keeps-bind P (send host tx (ingest_chunk pseudo seq)) (λ _. pure tt)
            (send-Kept tx (ingest_chunk pseudo seq)) (λ _. done-Kept tt))
        s k
  bus_event-Kept (session_status session status) s k = k
  bus_event-Kept disconnected s k = k

  abort_wrapper-Kept : (id : TaskId) → Keeps P (abort_wrapper host id)
  unfolding abort_wrapper
  abort_wrapper-Kept id s k = kept.unreported s id k

  abort_active-Kept :
      (session : SessionId) (found : Option TaskId) → Keeps P (abort_active host session found)
  abort_active-Kept session none s k = k
  abort_active-Kept session (some id) s k =
      Keeps-bind P (send host id abort) (λ _. abort_wrapper host id) (send-Kept id abort)
        (λ _. abort_wrapper-Kept id) (record s { active = remove session s.active })
        (kept.removed s session k)

  pub rerun-Kept : (session : SessionId) → Keeps P (admin_rerun host session)
  unfolding admin_rerun
  rerun-Kept session s k =
      let cleared : Exec (Loop host) (Unit {0}) =
        on_network host (clear_prior_outputs host session) in
      let again : Unit → Exec (Loop host) Bool =
        λ _. spawn_runner host session 1 one_shot >> pure true in
      Keeps-bind P (abort_active host session (lookup session s.active))
        (λ _. handle cleared again (λ _. pure false))
        (abort_active-Kept session (lookup session s.active))
        (λ _.
          Keeps-handle P cleared again (λ _. pure false)
            (network-Kept (clear_prior_outputs host session))
            (λ _.
              Keeps-bind P (spawn_runner host session 1 one_shot) (λ _. pure true)
                (spawn_first session one_shot) (λ _. done-Kept true))
            (λ _. done-Kept false))
        s k
