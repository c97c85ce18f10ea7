-- ===== src/Session/Turns.antt =====
-- src/event_loop.rs and src/session_runner.rs: the loop and the runner of a session take turns. The
-- loop hands over commands while the runner takes them out of its channel, and everything else that
-- the loop does goes on in between.
use mathlib.Core.Path.{subst}
use mathlib.Core.List.{append_assoc, append-nil}
use chronicle_worker.Prelude.{ℕ, ◌≡◌, refl, ap, sym, ◌∙◌, true, List, [], ◌++◌, some}
use chronicle_worker.Ids.{SessionId}
use chronicle_worker.Exec.{ok}
use chronicle_worker.Http.{Host}
use chronicle_worker.Api.{Io}
use chronicle_worker.Runner.Streaming.{RunnerCmd}
use chronicle_worker.EventLoop.{Loop, Task, TaskId, lookup, find_task, change_task}
use chronicle_worker.EventLoop.Handlers.{BusEvent, handle_ws_event}
use chronicle_worker.EventLoop.Steps.{Step, Reach, next}
use chronicle_worker.EventLoop.Tasks.{find_task-split, find_task-change_task}
use chronicle_worker.EventLoop.Runs.{commands_of}
use chronicle_worker.EventLoop.Inbox.{reach-Runs, event-Runs, with_inbox}

-- The runner has taken commands out of its channel, and these are left.
abbrev pub leave : List RunnerCmd → Task → Task
leave rest task = record task { inbox = rest }

module _ {Row : Type 0} (host : Host Row) (session : SessionId) (id : TaskId) where
  -- From `s`, with the commands that the events have made for the runner and those that it has taken.
  pub data Turns (s : Loop host) : Loop host → List RunnerCmd → List RunnerCmd → Type 0 where
    begin : Turns s s [] []
    -- An event of the bus, of whatever session, that the loop handles. Where it has to wait for room
    -- first, what gives the room comes before this.
    event :
        {u : Loop host} {made taken : List RunnerCmd}
        → Turns s u made taken
        → (ev : BusEvent) → (handle_ws_event host ev u).0 ≡ ok tt
        → Turns s (handle_ws_event host ev u).1 (made ++ commands_of session ev) taken
    -- The runner takes commands off the front of its channel, and receives on.
    takes :
        {u : Loop host} {made taken : List RunnerCmd}
        → Turns s u made taken
        → (task : Task) (cmds rest : List RunnerCmd) → find_task id u.tasks ≡ some task
        → task.inbox ≡ cmds ++ rest
        → Turns s (record u { tasks = change_task id (leave rest) u.tasks }) made (taken ++ cmds)
    -- Any other step, if it leaves the session's entry and its runner alone.
    other :
        {u v : Loop host} {made taken : List RunnerCmd}
        → Turns s u made taken
        → Step host u v
        → lookup session v.active ≡ lookup session u.active
        → find_task id v.tasks ≡ find_task id u.tasks
        → Turns s v made taken

  -- The session is active under a runner that receives, and what the loop has handed over is what the
  -- runner has taken and what waits.
  record Balance (start made taken : List RunnerCmd) (u : Loop host) : Type 0 where
    task : Task
    entered : lookup session u.active ≡ some id
    found : find_task id u.tasks ≡ some task
    receiving : task.receiving ≡ true
    even : start ++ made ≡ taken ++ task.inbox

  module _ (io : Io host) (now : ℕ) (backoffs : List ℕ) (s : Loop host) (start : List RunnerCmd)
      (reached : Reach host io now backoffs s) where
    Turns-Reach :
        (u : Loop host) (made taken : List RunnerCmd)
        → Turns s u made taken
        → Reach host io now backoffs u
    Turns-Reach _ _ _ begin = reached
    Turns-Reach _ _ _ (event {u} {made} {taken} turns ev done) =
        next (Turns-Reach u made taken turns) (Step.bus_event u ev)
    Turns-Reach _ _ _ (takes {u} {made} {taken} turns task cmds rest found front) =
        let (before, after, split, changed) = find_task-split id (leave rest) u.tasks task found in
        subst (λ tasks. Reach host io now backoffs (record u { tasks = tasks })) (sym changed)
          (next (Turns-Reach u made taken turns) (
            Step.received u before after task (leave rest task) split refl refl refl refl refl cmds
              front (λ h. h)))
    Turns-Reach _ _ _ (other {u} {v} {made} {taken} turns step _ _) =
        next (Turns-Reach u made taken turns) step

    Turns-Balance :
        (u : Loop host) (made taken : List RunnerCmd)
        → Balance start [] [] s
        → Turns s u made taken
        → Balance start made taken u
    Turns-Balance _ _ _ b begin = b
    Turns-Balance _ _ _ b (event {u} {made} {taken} turns ev done) =
        let k = Turns-Balance u made taken b turns in
        let r = event-Runs host session id ev k.task u k.receiving done (
          reach-Runs host io now backoffs u session id k.task (Turns-Reach u made taken turns)
            k.entered k.found) in
        let more = commands_of session ev in
        record {
          task = with_inbox k.task more;
          entered = r.entered;
          found = r.found;
          receiving = k.receiving;
          even =
              sym (append_assoc start made more)
              ∙ ap (λ cmds. cmds ++ more) k.even
              ∙ append_assoc taken k.task.inbox more;
        }
    Turns-Balance _ _ _ b (takes {u} {made} {taken} turns task cmds rest found front) =
        let k = Turns-Balance u made taken b turns in
        let this : k.task ≡ task = cc in
        record {
          task = leave rest task;
          entered = k.entered;
          found = find_task-change_task id (leave rest) u.tasks task (λ t. refl) found;
          receiving = subst (λ (t : Task). t.receiving ≡ true) this k.receiving;
          even =
              k.even
              ∙ ap (λ (t : Task). taken ++ t.inbox) this
              ∙ ap (λ cmds. taken ++ cmds) front
              ∙ sym (append_assoc taken cmds rest);
        }
    Turns-Balance _ _ _ b (other {u} {v} {made} {taken} turns step same_entry same_task) =
        let k = Turns-Balance u made taken b turns in
        record {
          task = k.task;
          entered = same_entry ∙ k.entered;
          found = same_task ∙ k.found;
          receiving = k.receiving;
          even = k.even;
        }

module _ {Row : Type 0} (host : Host Row) where
  -- While the runner of an active session takes turns with the loop in a reachable state, no command
  -- is lost, made twice or overtaken: those that its channel held at first and those that the events
  -- have made since, in their order, are those that the runner has taken and then those that wait in
  -- the channel, and the session stays active under that runner.
  pub session_fifo :
      (io : Io host) (now : ℕ) (backoffs : List ℕ) (s u : Loop host) (session : SessionId)
      (id : TaskId) (task : Task) (made taken : List RunnerCmd)
      → Reach host io now backoffs s
      → lookup session s.active ≡ some id
      → find_task id s.tasks ≡ some task
      → task.receiving ≡ true
      → Turns host session id s u made taken
      → (lookup session u.active ≡ some id)
        × ((now : Task) × (find_task id u.tasks ≡ some now)
            × (task.inbox ++ made ≡ taken ++ now.inbox))
  session_fifo io now backoffs s u session id task made taken r entered found receiving turns =
      let k =
        Turns-Balance host session id io now backoffs s task.inbox r u made taken
          (record {
            task = task;
            entered = entered;
            found = found;
            receiving = receiving;
            even = append-nil task.inbox;
          })
          turns in
      (k.entered, (k.task, k.found, k.even))
