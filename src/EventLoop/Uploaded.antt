-- ===== src/EventLoop/Uploaded.antt =====
-- src/event_loop.rs: what becomes of a session that has been uploaded.
use mathlib.Core.Path.{subst}
use chronicle_worker.Prelude.{
  suc, ◌≤◌, ◌≡◌, refl, ap, sym, ◌∙◌, inl, inr, Bool-cases, false, Option, none, some, Option-cases,
  length, leb, arith, if◌then◌else◌,
}
use chronicle_worker.Ids.{SessionId}
use chronicle_worker.Exec.{Outcome, ok, pending, Exec, pure, ◌>>=◌}
use chronicle_worker.Http.{Host}
use chronicle_worker.Runner.Streaming.{finalize}
use chronicle_worker.EventLoop.{
  Loop, Task, TaskId, one_shot, lookup, find_task, change_task, deliver, push_cmd, send, capacity,
  spawn_runner,
}
use chronicle_worker.EventLoop.Handlers.{session_uploaded, handle_ws_event}
use chronicle_worker.EventLoop.Rerun.{IsFull, IsRerun, spawned-Rerun}
use chronicle_worker.EventLoop.Tasks.{find_task-id, find_task-change_task}

module _ {Row : Type 0} (host : Host Row) where
  -- What the upload of a session comes to, from one state to another.
  pub data Upload (session : SessionId) (s t : Loop host) : Outcome (Unit {0}) → Type 0 where
    -- The session's runner has `Finalize` as the last command in its channel, which had room.
    finalized :
        (id : TaskId) (task : Task)
        → lookup session s.active ≡ some id
        → find_task id s.tasks ≡ some task
        → suc (length task.inbox) ≤ capacity
        → find_task id t.tasks ≡ some (push_cmd host finalize task)
        → Upload session s t (ok tt)
    -- No active runner of the session receives, and a one-shot run is spawned for it.
    rerun :
        ((id : TaskId) (task : Task)
          → lookup session s.active ≡ some id
          → find_task id s.tasks ≡ some task
          → task.receiving ≡ false)
        → IsRerun host s.next_id session t
        → Upload session s t (ok tt)
    -- The channel of the session's runner is full, and the loop waits.
    blocked :
        (id : TaskId)
        → lookup session s.active ≡ some id
        → IsFull host s id
        → Upload session s t pending

  spawned-Upload :
      (session : SessionId) (s : Loop host)
      → ((id : TaskId) (task : Task)
          → lookup session s.active ≡ some id
          → find_task id s.tasks ≡ some task
          → task.receiving ≡ false)
      → (let run = spawn_runner host session 1 one_shot s in Upload session s run.1 run.0)
  unfolding spawn_runner
  spawned-Upload session s deaf = rerun deaf (spawned-Rerun host session s).1

  abbrev told : SessionId → TaskId → Option Task → Exec (Loop host) Unit
  told session id found = deliver host finalize found >>= λ sent.
      if sent then pure tt else spawn_runner host session 1 one_shot

  told-Upload :
      (session : SessionId) (id : TaskId) (s : Loop host) (found : Option Task)
      → lookup session s.active ≡ some id
      → find_task id s.tasks ≡ found
      → (let run = told session id found s in Upload session s run.1 run.0)
  told-Upload session id s none a e = spawned-Upload session s (λ id' task a' f.
      let same : id ≡ id' = cc in
      let clash : none ≡ some task = sym e ∙ ap (λ i. find_task i s.tasks) same ∙ f in
      absurd (grind arith))
  told-Upload session id s (some task) a e = elim (Bool-cases task.receiving) [
    | inr closed ↦ rw closed (
        spawned-Upload session s (λ id' other a' f.
          let same : id ≡ id' = cc in
          let both : some task ≡ some other = sym e ∙ ap (λ i. find_task i s.tasks) same ∙ f in
          let this : task ≡ other = cc in subst (λ (u : Task). u.receiving ≡ false) this closed))
    | inl held ↦ elim (Bool-cases (leb capacity (length task.inbox))) [
      | inl full ↦ rw (held, full) (blocked id a (task, e, held, ground arith))
      | inr free ↦
          rw (held, free)
            (finalized id task a e (ground arith) (
              ap (λ i. find_task id (change_task i (push_cmd host finalize) s.tasks))
                (find_task-id id s.tasks task e)
              ∙ find_task-change_task id (push_cmd host finalize) s.tasks task (λ t. refl) e))
    ]
  ]

  -- What an `uploaded` event comes to: the session's active runner gets `Finalize` as its last
  -- command; or, where the session has no active runner that receives, it becomes active under a
  -- one-shot run that is spawned for it as attempt 1; or the loop waits because the channel of its
  -- active runner is full.
  pub session_uploaded-Upload :
      (session : SessionId) (s : Loop host)
      → (let run = handle_ws_event host (session_uploaded session) s in
          Upload session s run.1 run.0)
  unfolding handle_ws_event send
  session_uploaded-Upload session s = elim (Option-cases (lookup session s.active)) [
    | inl e ↦ rw e (spawned-Upload session s (λ id task a f. absurd (grind arith)))
    | inr (id, e) ↦ rw e (told-Upload session id s (find_task id s.tasks) e refl)
  ]
