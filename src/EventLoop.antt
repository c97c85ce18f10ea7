-- ===== src/EventLoop.antt =====
-- src/event_loop.rs: the state of the loop, the channels to the runners and the spawning of runners.
-- A spawned runner is a task with a number of its own; its sender and its abort handle are that
-- number. The results that the JoinSet holds are those of the tasks that have ended. The HashMap is
-- an association list, and time is a field that the environment moves.
pub mod Handlers
pub mod Steps
pub mod Active
pub mod Tasks
pub mod Kept
pub mod Numbered
pub mod Invariant
pub mod Runs
pub mod Inbox
pub mod Retries
pub mod Weight
pub mod Quiet
pub mod Concluded
pub mod Rerun
pub mod Entries
pub mod Owned
pub mod Delivery
pub mod Uploaded
use chronicle_worker.Prelude.{
  ℕ, zero, suc, ◌+◌, Bool, true, false, List, [], ◌∷◌, ◌++◌, Option, none, some, leb, ◌==◌, length,
  if◌then◌else◌,
}
use chronicle_worker.Ids.{SessionId}
use chronicle_worker.Exec.{Outcome, ok, pending, Exec}
use chronicle_worker.Http.{Host}
use chronicle_worker.Api.{Io, Call}
use chronicle_worker.Retry.{RetryQueue}
use chronicle_worker.Runner.Streaming.{RunnerCmd}

abbrev pub TaskId : Type 0
TaskId = ℕ

pub data RunnerMode : Type 0 where
  streaming one_shot : RunnerMode

-- A runner's task that has not ended: what waits in its channel, whether it still holds the receiver
-- (a streaming runner drops it when it reads `Finalize`), and whether its end will be reported
-- through the JoinSet.
pub record Task : Type 0 where
  pub id : TaskId
  pub session : SessionId
  pub attempt : ℕ
  pub mode : RunnerMode
  pub inbox : List RunnerCmd
  pub receiving : Bool
  pub reported : Bool

pub record RunnerResult : Type 0 where
  pub session : SessionId
  pub attempt : ℕ
  pub outcome : Outcome (Unit {0})

abbrev pub ActiveMap : Type 0
ActiveMap = List (SessionId × TaskId)

unfoldable pub lookup : SessionId → ActiveMap → Option TaskId
lookup k [] = none
lookup k ((j, v) ∷ m) = if j == k then some v else lookup k m

unfoldable pub remove : SessionId → ActiveMap → ActiveMap
remove k [] = []
remove k ((j, v) ∷ m) = let rest = remove k m in if j == k then rest else (j, v) ∷ rest

unfoldable pub insert : SessionId → TaskId → ActiveMap → ActiveMap
unfolding remove
insert k v m = (k, v) ∷ remove k m

unfoldable pub find_task : TaskId → List Task → Option Task
find_task id [] = none
find_task id (task ∷ tasks) = if task.id == id then some task else find_task id tasks

unfoldable pub change_task : TaskId → (Task → Task) → List Task → List Task
change_task id f [] = []
change_task id f (task ∷ tasks) =
    let rest = change_task id f tasks in if task.id == id then f task ∷ tasks else task ∷ rest

-- mpsc::channel::<RunnerCmd>(64)
abbrev pub capacity : ℕ
capacity = 64

module _ {Row : Type 0} where
  pub record Loop (host : Host Row) : Type 0 where
    pub io : Io host
    pub active : ActiveMap
    pub tasks : List Task
    pub next_id : TaskId
    pub results : List RunnerResult
    pub retry : RetryQueue
    pub now : ℕ

module _ {Row : Type 0} (host : Host Row) where
  abbrev pub on_network : {A : Type 0} → Call host A → Exec (Loop host) A
  on_network m s = let (r, io) = m s.io in (r, record s { io = io })

  abbrev pub push_cmd : RunnerCmd → Task → Task
  push_cmd cmd task = record task { inbox = task.inbox ++ cmd ∷ [] }

  abbrev pub deliver : RunnerCmd → Option Task → Exec (Loop host) Bool
  deliver cmd none s = (ok false, s)
  deliver cmd (some task) s =
      if task.receiving
      then if leb capacity (length task.inbox)
        then (pending, s)
        else (ok true, record s { tasks = change_task task.id (push_cmd cmd) s.tasks })
      else (ok false, s)

  -- tx.send(cmd).await: `false` if the receiver is gone; while the channel is full the loop waits,
  -- which is `pending`.
  unfoldable pub send : TaskId → RunnerCmd → Exec (Loop host) Bool
  unfolding find_task change_task
  send id cmd s = deliver cmd (find_task id s.tasks) s

  -- session_runner::spawn, the wrapper in the JoinSet and the entry of the map; the result is the
  -- sender. An entry that the session had is overwritten.
  unfoldable pub spawn_runner_return_tx : SessionId → ℕ → RunnerMode → Exec (Loop host) TaskId
  unfolding insert
  spawn_runner_return_tx session attempt mode s =
      let task : Task = record {
        id = s.next_id;
        session = session;
        attempt = attempt;
        mode = mode;
        inbox = [];
        receiving = true;
        reported = true;
      } in
      (
        ok s.next_id,
        record s {
          active = insert session s.next_id s.active;
          tasks = task ∷ s.tasks;
          next_id = suc s.next_id;
        },
      )

  unfoldable pub spawn_runner : SessionId → ℕ → RunnerMode → Exec (Loop host) Unit
  unfolding spawn_runner_return_tx
  spawn_runner session attempt mode s = (ok tt, (spawn_runner_return_tx session attempt mode s).1)
