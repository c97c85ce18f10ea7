-- ===== src/EventLoop/Rerun.antt =====
-- src/event_loop.rs: what an admin rerun comes to.
use chronicle_worker.Prelude.{
  ◌≤◌, ◌≡◌, refl, ◌⊎◌, inl, inr, Bool, Bool-cases, true, false, [], Option, none, some, length, leb,
  ==_refl, arith,
}
use mathlib.Core.Path.{subst}
use chronicle_worker.Ids.{SessionId}
use chronicle_worker.Exec.{
  Outcome, ok, err, pending, Exec, pure, resume, settle, handle, ◌>>=◌, ◌>>◌,
}
use chronicle_worker.Exec.Returns.{IsOk}
use chronicle_worker.Http.{Host}
use chronicle_worker.Runner.Streaming.{RunnerCmd, abort}
use chronicle_worker.Runner.OneShot.{clear_prior_outputs}
use chronicle_worker.Runner.OneShot.Clearing.{clear_prior_outputs-Succeeds}
use chronicle_worker.EventLoop.{
  Loop, Task, TaskId, one_shot, lookup, remove, find_task, deliver, send, capacity, on_network,
  spawn_runner, spawn_runner_return_tx,
}
use chronicle_worker.EventLoop.Handlers.{abort_active, abort_wrapper, admin_rerun}
use chronicle_worker.EventLoop.Active.{lookup-insert}

-- A runner's task as it is spawned for an admin rerun.
abbrev pub fresh : TaskId → SessionId → Task
fresh id session = record {
  id = id;
  session = session;
  attempt = 1;
  mode = one_shot;
  inbox = [];
  receiving = true;
  reported = true;
}

module _ {Row : Type 0} (host : Host Row) where
  -- A task that still receives has a full channel.
  abbrev pub IsFull : Loop host → TaskId → Type 0
  IsFull s id =
      (task : Task) × (find_task id s.tasks ≡ some task)
      × (task.receiving ≡ true)
      × (capacity ≤ length task.inbox)

  -- The session's entry is the number of a fresh one-shot run.
  abbrev pub IsRerun : TaskId → SessionId → Loop host → Type 0
  IsRerun id session s =
      (lookup session s.active ≡ some id) × (find_task id s.tasks ≡ some (fresh id session))

  abbrev Sent : Loop host → TaskId → Outcome Bool × Loop host → Type 0
  Sent s id (r, t) = (IsOk r × (t.next_id ≡ s.next_id)) ⊎ ((r ≡ pending) × IsFull s id)

  deliver-Sent :
      (cmd : RunnerCmd) (s : Loop host) (id : TaskId) (found : Option Task)
      → find_task id s.tasks ≡ found
      → Sent s id (deliver host cmd found s)
  deliver-Sent cmd s id none e = inl (tt, refl)
  deliver-Sent cmd s id (some task) e = elim (Bool-cases task.receiving) [
    | inr closed ↦ rw closed (inl (tt, refl))
    | inl held ↦ elim (Bool-cases (leb capacity (length task.inbox))) [
      | inl full ↦ rw (held, full) (inr (refl, (task, e, held, ground arith)))
      | inr free ↦ rw (held, free) (inl (tt, refl))
    ]
  ]

  abbrev respawned : SessionId → Exec (Loop host) Bool
  respawned session =
      handle (on_network host (clear_prior_outputs host session))
        (λ _. spawn_runner host session 1 one_shot >> pure true) (λ _. pure false)

  abbrev pub Rerun : SessionId → TaskId → Outcome Bool × Loop host → Type 0
  Rerun session id (r, t) = (r ≡ ok true) × IsRerun id session t

  pub spawned-Rerun :
      (session : SessionId) (s : Loop host)
      → Rerun session s.next_id ((spawn_runner host session 1 one_shot >> pure true) s)
  unfolding spawn_runner spawn_runner_return_tx find_task
  spawned-Rerun session s = (
    refl,
    (ground (arith, lookup-insert session session s.next_id s.active), rw (==_refl s.next_id) refl),
  )

  settled-Rerun :
      (session : SessionId) (cleared : Outcome (Unit {0})) (s : Loop host)
      → IsOk cleared
      → Rerun session s.next_id (
          settle cleared
            (λ _. spawn_runner host session 1 one_shot >> pure true)
            (λ _. pure false)
            s)
  settled-Rerun session (ok _) s h = spawned-Rerun session s
  settled-Rerun session (err e) s h = absurd h
  settled-Rerun session pending s h = absurd h

  respawned-Rerun :
      (session : SessionId) (s : Loop host) → Rerun session s.next_id (respawned session s)
  respawned-Rerun session s =
      settled-Rerun session (clear_prior_outputs host session s.io).0
        (record s { io = (clear_prior_outputs host session s.io).1 })
        (clear_prior_outputs-Succeeds host session s.io)

  abbrev Outcomes :
      SessionId → TaskId → Loop host → Option TaskId → Outcome Bool × Loop host → Type 0
  Outcomes session id s found (r, t) =
      Rerun session id (r, t)
      ⊎ ((r ≡ pending) × ((old : TaskId) × (found ≡ some old) × IsFull s old))

  resumed :
      (session : SessionId) (old : TaskId) (s : Loop host) (r : Outcome Bool) (t : Loop host)
      → Sent s old (r, t)
      → Outcomes session s.next_id s
          (some old)
          (((resume r (λ _. abort_wrapper host old)) >>= λ _. respawned session) t)
  unfolding abort_wrapper
  resumed session old s (ok b) t (inl (_, e)) = inl (
      subst (λ id. Rerun session id (respawned session (abort_wrapper host old t).1)) e
        (respawned-Rerun session (abort_wrapper host old t).1))
  resumed session old s (ok b) t (inr (e, _)) = absurd (grind arith)
  resumed session old s (err x) t (inl (h, _)) = absurd h
  resumed session old s (err x) t (inr (e, _)) = absurd (grind arith)
  resumed session old s pending t (inl (h, _)) = absurd h
  resumed session old s pending t (inr (_, full)) = inr (refl, (old, refl, full))

  rerun_of :
      (session : SessionId) (s : Loop host) (found : Option TaskId)
      → Outcomes session s.next_id s found
          ((abort_active host session found >>= λ _. respawned session) s)
  unfolding send
  rerun_of session s none = inl (respawned-Rerun session s)
  rerun_of session s (some old) =
      let left : Loop host = record s { active = remove session s.active } in
      let (r, t) = send host old abort left in
      resumed session old left r t (deliver-Sent abort left old (find_task old left.tasks) refl)

  -- A rerun acknowledges `true`, or waits for room in a full channel.
  pub admin_rerun-outcomes :
      (session : SessionId) (s : Loop host)
      → (let run = admin_rerun host session s in
          ((run.0 ≡ ok true) × IsRerun s.next_id session run.1)
          ⊎ ((run.0 ≡ pending)
              × ((old : TaskId) × (lookup session s.active ≡ some old) × IsFull s old)))
  unfolding admin_rerun
  admin_rerun-outcomes session s = rerun_of session s (lookup session s.active)
