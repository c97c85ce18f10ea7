-- ===== src/EventLoop/Delivery.antt =====
-- src/event_loop.rs: what becomes of a chunk event.
use mathlib.Core.Path.{subst}
use chronicle_worker.Prelude.{
  suc, ◌≤◌, ◌≡◌, refl, ap, sym, ◌∙◌, ◌⊎◌, inl, inr, Bool-cases, true, false, [], ◌∷◌, Option, none,
  some, Option-cases, length, leb, ==_refl, arith,
}
use chronicle_worker.Ids.{SessionId, PseudoId, Seq}
use chronicle_worker.Exec.{Outcome, ok, pending, Exec, pure, ◌>>=◌, ◌>>◌}
use chronicle_worker.Http.{Host}
use chronicle_worker.Runner.Streaming.{RunnerCmd, ingest_chunk}
use chronicle_worker.EventLoop.{
  Loop, Task, TaskId, streaming, lookup, find_task, change_task, deliver, push_cmd, send, capacity,
  spawn_runner_return_tx,
}
use chronicle_worker.EventLoop.Handlers.{chunk_uploaded, handle_ws_event}
use chronicle_worker.EventLoop.Active.{lookup-insert}
use chronicle_worker.EventLoop.Tasks.{find_task-id, find_task-change_task}

-- A streaming runner's task with one command in its channel.
abbrev pub first_task : TaskId → SessionId → RunnerCmd → Task
first_task id session cmd = record {
  id = id;
  session = session;
  attempt = 1;
  mode = streaming;
  inbox = cmd ∷ [];
  receiving = true;
  reported = true;
}

module _ {Row : Type 0} (host : Host Row) where
  -- What sending a command to a runner comes to, from one state to another.
  pub data Delivery (id : TaskId) (cmd : RunnerCmd) (s t : Loop host)
      : Outcome (Unit {0}) → Type 0 where
    -- The command is the last in the runner's channel, which had room.
    delivered :
        (task : Task)
        → find_task id s.tasks ≡ some task
        → suc (length task.inbox) ≤ capacity
        → find_task id t.tasks ≡ some (push_cmd host cmd task)
        → Delivery id cmd s t (ok tt)
    -- The runner has ended, or has dropped its receiver: the command is lost.
    dropped :
        ((task : Task) → find_task id s.tasks ≡ some task → task.receiving ≡ false)
        → t ≡ s
        → Delivery id cmd s t (ok tt)
    -- The channel is full, and the loop waits.
    blocked :
        (task : Task)
        → find_task id s.tasks ≡ some task
        → capacity ≤ length task.inbox
        → Delivery id cmd s t pending

  abbrev sent : TaskId → RunnerCmd → Exec (Loop host) Unit
  sent id cmd = send host id cmd >> pure tt

  sent-Delivery :
      (id : TaskId) (cmd : RunnerCmd) (s : Loop host) (found : Option Task)
      → find_task id s.tasks ≡ found
      → (let run = (deliver host cmd found >> pure tt) s in Delivery id cmd s run.1 run.0)
  sent-Delivery id cmd s none e = dropped (λ task f. absurd (grind arith)) refl
  sent-Delivery id cmd s (some task) e = elim (Bool-cases task.receiving) [
    | inr closed ↦ rw closed (
        dropped
          (λ other f.
            let same : task ≡ other = cc in subst (λ (u : Task). u.receiving ≡ false) same closed)
          refl)
    | inl held ↦ elim (Bool-cases (leb capacity (length task.inbox))) [
      | inl full ↦ rw (held, full) (blocked task e (ground arith))
      | inr free ↦
          rw (held, free)
            (delivered task e (ground arith) (
              ap (λ i. find_task id (change_task i (push_cmd host cmd) s.tasks))
                (find_task-id id s.tasks task e)
              ∙ find_task-change_task id (push_cmd host cmd) s.tasks task (λ t. refl) e))
    ]
  ]

  -- A runner that is spawned gets the command.
  abbrev pub IsStarted : SessionId → RunnerCmd → Loop host → Loop host → Type 0
  IsStarted session cmd s t =
      (lookup session t.active ≡ some s.next_id)
      × (find_task s.next_id t.tasks ≡ some (first_task s.next_id session cmd))

  spawned-IsStarted :
      (session : SessionId) (cmd : RunnerCmd) (s : Loop host)
      → (let run = (spawn_runner_return_tx host session 1 streaming >>= λ tx. sent tx cmd) s in
          (run.0 ≡ ok tt) × IsStarted session cmd s run.1)
  unfolding spawn_runner_return_tx send find_task
  spawned-IsStarted session cmd s =
      let t : Loop host = (spawn_runner_return_tx host session 1 streaming s).1 in
      let new : Task = record (first_task s.next_id session cmd) { inbox = [] } in
      let found : find_task s.next_id t.tasks ≡ some new = rw (==_refl s.next_id) refl in
      subst
        (λ (o : Option Task).
          let run = (deliver host cmd o >> pure tt) t in
          (run.0 ≡ ok tt) × IsStarted session cmd s run.1)
        (sym found)
        (
          refl,
          (
            ground (arith, lookup-insert session session s.next_id s.active),
            find_task-change_task s.next_id (push_cmd host cmd) t.tasks new (λ u. refl) found,
          ),
        )

  -- What a chunk event of a session comes to: where the session is active, its runner's channel gets
  -- the chunk as its last command, or the chunk is lost because that runner receives no more, or the
  -- loop waits because the channel of 64 commands is full; where it is not, it becomes active under
  -- a streaming runner that is spawned for it, as attempt 1, with the chunk as its first command.
  pub chunk_uploaded-outcomes :
      (session : SessionId) (pseudo : PseudoId) (seq : Seq) (s : Loop host)
      → (let run = handle_ws_event host (chunk_uploaded session pseudo seq) s in
          ((id : TaskId) × (lookup session s.active ≡ some id)
            × Delivery id (ingest_chunk pseudo seq) s run.1 run.0)
          ⊎ ((lookup session s.active ≡ none)
              × (run.0 ≡ ok tt)
              × IsStarted session (ingest_chunk pseudo seq) s run.1))
  unfolding handle_ws_event send
  chunk_uploaded-outcomes session pseudo seq s = elim (Option-cases (lookup session s.active)) [
    | inl e ↦ rw e (
        let (r, there) = spawned-IsStarted session (ingest_chunk pseudo seq) s in
        inr (refl, r, there))
    | inr (id, e) ↦
        rw e
          (inl (id, refl, sent-Delivery id (ingest_chunk pseudo seq) s (find_task id s.tasks) refl))
  ]
