-- ===== src/EventLoop/Owned.antt =====
-- src/event_loop.rs: whose runner an entry of the map of active sessions leads to.
use chronicle_worker.Prelude.{ℕ, suc, ◌<◌, ◌≡◌, refl, List, ◌∷◌, ◌++◌, some, arith, All, All-append}
use mathlib.Core.Path.{subst}
use chronicle_worker.Ids.{SessionId}
use chronicle_worker.Http.{Host}
use chronicle_worker.Api.{Io}
use chronicle_worker.EventLoop.{
  Loop, Task, TaskId, RunnerMode, lookup, remove, insert, find_task, change_task, push_cmd,
  spawn_runner_return_tx,
}
use chronicle_worker.EventLoop.Handlers.{unreport}
use chronicle_worker.EventLoop.Steps.{Reach}
use chronicle_worker.EventLoop.Kept.{IsSameRun, Kept}
use chronicle_worker.EventLoop.Invariant.{Invariant, reach-P}
use chronicle_worker.EventLoop.Numbered.{All-middle}
use chronicle_worker.EventLoop.Entries.{
  same_run, change_task-runs, All-map, All-remove, lookup-All, find_task-All,
}

-- A task with the number of the entry is a run of the entry's session.
abbrev Fits : SessionId × TaskId → Task → Type 0
Fits (session, id) task = task.id ≡ id → task.session ≡ session

-- The entry's number was given out, and fits all tasks.
abbrev Owns : List Task → TaskId → SessionId × TaskId → Type 0
Owns tasks next_id entry = (entry.1 < next_id) × All (Fits entry) tasks

abbrev IsGiven : TaskId → Task → Type 0
IsGiven next_id task = task.id < next_id

-- A number that was not given out fits no task.
fresh-Fits :
    (session : SessionId) (next_id : TaskId) (tasks : List Task)
    → All (IsGiven next_id) tasks
    → All (Fits (session, next_id)) tasks
fresh-Fits session next_id tasks h =
    All-map (IsGiven next_id) (Fits (session, next_id)) tasks (λ t p e. absurd (omega arith)) h

module _ {Row : Type 0} (host : Host Row) where
  abbrev pub IsOwned : Loop host → Type 0
  IsOwned s = All (IsGiven s.next_id) s.tasks × All (Owns s.tasks s.next_id) s.active

  -- Other tasks, of the same runs.
  retasked :
      (s : Loop host) (tasks : List Task)
      → ((Q : TaskId → SessionId → Type 0)
          → All (λ (t : Task). Q t.id t.session) s.tasks
          → All (λ (t : Task). Q t.id t.session) tasks)
      → IsOwned s
      → IsOwned (record s { tasks = tasks })
  retasked s tasks carry (given, owns) = (
    carry (λ id _. id < s.next_id) given,
    All-map (Owns s.tasks s.next_id) (Owns tasks s.next_id) s.active
        (λ entry (low, fits). (low, carry (λ id session. id ≡ entry.1 → session ≡ entry.0) fits))
        owns,
  )

  spawned-IsOwned :
      (s : Loop host) (session : SessionId) (attempt : ℕ) (mode : RunnerMode)
      → IsOwned s
      → IsOwned (spawn_runner_return_tx host session attempt mode s).1
  unfolding spawn_runner_return_tx insert
  spawned-IsOwned s session attempt mode (given, owns) =
      let t = (spawn_runner_return_tx host session attempt mode s).1 in
      (
        (
          omega arith,
          All-map (IsGiven s.next_id) (IsGiven (suc s.next_id)) s.tasks (λ t p. omega arith) given,
        ),
        (
          (omega arith, (λ _. refl, fresh-Fits session s.next_id s.tasks given)),
          All-remove (Owns t.tasks t.next_id) session s.active (
              All-map (Owns s.tasks s.next_id) (Owns t.tasks t.next_id) s.active
                (λ entry (low, fits). (omega arith, (λ e. absurd (omega arith), fits))) owns),
        ),
      )

  removed-IsOwned :
      (s : Loop host) (session : SessionId)
      → IsOwned s
      → IsOwned (record s { active = remove session s.active })
  removed-IsOwned s session (given, owns) =
      (given, All-remove (Owns s.tasks s.next_id) session s.active owns)

  changed-IsOwned :
      (id : TaskId) (f : Task → Task)
      → ((t : Task) → IsSameRun (f t) t)
      → (s : Loop host) → IsOwned s
      → IsOwned (record s { tasks = change_task id f s.tasks })
  changed-IsOwned id f same s k =
      retasked s (change_task id f s.tasks) (λ Q h. change_task-runs Q id f s.tasks same h) k

  IsOwned-Kept : Kept host IsOwned (λ _. Unit {0})
  IsOwned-Kept = record {
    networked = λ s io k. k;
    pushed = λ s id task cmd e room k.
        changed-IsOwned id (push_cmd host cmd) (λ t. (refl, refl, refl)) s k;
    unreported = λ s id k. changed-IsOwned id (unreport host) (λ t. (refl, refl, refl)) s k;
    removed = removed-IsOwned;
    spawned = λ s session attempt mode _ k. spawned-IsOwned s session attempt mode k;
    first = tt;
  }

  tasks_runs :
      (s : Loop host) (before after : List Task) (task : Task)
      → s.tasks ≡ before ++ task ∷ after
      → (Q : TaskId → SessionId → Type 0) → All (λ (t : Task). Q t.id t.session) s.tasks
      → All (λ (t : Task). Q t.id t.session) before
        × Q task.id task.session
        × All (λ (t : Task). Q t.id t.session) after
  tasks_runs s before after task e Q h =
      All-middle (λ (t : Task). Q t.id t.session) before after task
        (subst (All (λ (t : Task). Q t.id t.session)) e h)

  IsOwned-Invariant : Invariant host IsOwned
  IsOwned-Invariant = record {
    kept = IsOwned-Kept;
    elsewhere = λ s retry results now k. k;
    ended = λ s before after task e k.
        retasked s (before ++ after)
          (λ Q h.
            let (b, _, a) = tasks_runs s before after task e Q h in
            All-append (λ (t : Task). Q t.id t.session) before after b a)
          k;
    received = λ s before after task task' taken e same front k.
        retasked s (before ++ task' ∷ after)
          (λ Q h.
            let (b, q, a) = tasks_runs s before after task e Q h in
            All-append (λ (t : Task). Q t.id t.session) before (task' ∷ after) b
              (same_run Q task task' same q, a))
          k;
  }

-- In every state that the loop reaches, the runner to which the entry of an active session leads is a
-- run of that session, if its task has not ended: no command of a session goes to another's runner.
pub active-session :
    {Row : Type 0} (host : Host Row) (io : Io host) (now : ℕ) (backoffs : List ℕ) (s : Loop host)
    → Reach host io now backoffs s
    → (session : SessionId) (id : TaskId) (task : Task) → lookup session s.active ≡ some id
    → find_task id s.tasks ≡ some task
    → task.session ≡ session
active-session host io now backoffs s r session id task e f =
    let (_, owns) = reach-P (IsOwned-Invariant host) io now backoffs s (tt, tt) r in
    let (_, fits) = lookup-All (Owns s.tasks s.next_id) s.active session id e owns in
    let (fit, same) = find_task-All (Fits (session, id)) s.tasks id task f fits in fit same

pub active-numbered :
    {Row : Type 0} (host : Host Row) (io : Io host) (now : ℕ) (backoffs : List ℕ) (s : Loop host)
    → Reach host io now backoffs s
    → (session : SessionId) (id : TaskId) → lookup session s.active ≡ some id
    → id < s.next_id
active-numbered host io now backoffs s r session id e =
    let (_, owns) = reach-P (IsOwned-Invariant host) io now backoffs s (tt, tt) r in
    (lookup-All (Owns s.tasks s.next_id) s.active session id e owns).0
