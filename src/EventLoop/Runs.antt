-- ===== src/EventLoop/Runs.antt =====
-- src/event_loop.rs: events of other sessions leave a session's runner as it is.
use mathlib.Core.Path.{subst}
use chronicle_worker.Prelude.{
  ℕ, suc, ◌≤◌, ◌≡◌, refl, ap, sym, ◌∙◌, inl, inr, Bool-cases, false, List, [], ◌∷◌, Option, none,
  some, length, leb, ◌==◌, ==→eq, arith, if◌then◌else◌,
}
use chronicle_worker.Ids.{SessionId}
use chronicle_worker.Exec.{pure, ◌>>=◌, ◌>>◌}
use chronicle_worker.Exec.Keeps.{Keeps, Keeps-bind, Keeps-if}
use chronicle_worker.Http.{Host}
use chronicle_worker.Runner.Streaming.{RunnerCmd, ingest_chunk, finalize}
use chronicle_worker.EventLoop.{
  Loop, Task, TaskId, RunnerMode, streaming, one_shot, lookup, find_task, change_task, deliver,
  push_cmd, send, capacity, spawn_runner_return_tx, spawn_runner,
}
use chronicle_worker.EventLoop.Handlers.{
  BusEvent, session_uploaded, session_status, chunk_uploaded, disconnected, handle_ws_event,
  finalize_or_rerun, sender_or_spawn,
}
use chronicle_worker.EventLoop.Active.{lookup-insert}
use chronicle_worker.EventLoop.Tasks.{find_task-id}

-- The commands that these events make for the runner of a session.
abbrev pub commands_of : SessionId → BusEvent → List RunnerCmd
commands_of session (session_uploaded j) = if j == session then finalize ∷ [] else []
commands_of session (chunk_uploaded j pseudo seq) =
    if j == session then ingest_chunk pseudo seq ∷ [] else []
commands_of session (session_status j status) = []
commands_of session disconnected = []

find_task-change_other :
    (id j : TaskId) (f : Task → Task) (tasks : List Task)
    → ((t : Task) → (f t).id ≡ t.id)
    → (j == id) ≡ false
    → find_task id (change_task j f tasks) ≡ find_task id tasks
unfolding find_task change_task
find_task-change_other id j f [] same other = refl
find_task-change_other id j f (t ∷ tasks) same other = elim (Bool-cases (t.id == j)) [
  | inl hit ↦
      let away : (t.id == id) ≡ false = rw (==→eq t.id j hit) other in
      let away' : ((f t).id == id) ≡ false = ap (λ i. i == id) (same t) ∙ away in
      rw hit (rw (away, away') refl)
  | inr miss ↦ elim (Bool-cases (t.id == id)) [
    | inl here ↦ rw miss (rw here refl)
    | inr away ↦ rw miss (rw away (find_task-change_other id j f tasks same other))
  ]
]

module _ {Row : Type 0} (host : Host Row) (session : SessionId) (id : TaskId) where
  -- The session is active under the runner `id`, no other entry leads to that, and it is this task.
  pub record Runs (task : Task) (s : Loop host) : Type 0 where
    pub entered : lookup session s.active ≡ some id
    pub alone :
        (j : SessionId) (other : TaskId)
        → (j == session) ≡ false
        → lookup j s.active ≡ some other
        → (other == id) ≡ false
    pub found : find_task id s.tasks ≡ some task
    pub numbered : suc id ≤ s.next_id

  deliver_other :
      (other : TaskId) (cmd : RunnerCmd) (task : Task) (s : Loop host) (to : Option Task)
      → (other == id) ≡ false
      → find_task other s.tasks ≡ to
      → Runs task s
      → Runs task (deliver host cmd to s).1
  deliver_other other cmd task s none away e k = k
  deliver_other other cmd task s (some u) away e k = elim (Bool-cases u.receiving) [
    | inr closed ↦ rw closed k
    | inl held ↦ elim (Bool-cases (leb capacity (length u.inbox))) [
      | inl full ↦ rw (held, full) k
      | inr free ↦
          rw (held, free, find_task-id other s.tasks u e)
            record {
              entered = k.entered;
              alone = k.alone;
              found =
                  find_task-change_other id other (push_cmd host cmd) s.tasks (λ t. refl) away
                  ∙ k.found;
              numbered = k.numbered;
            }
    ]
  ]

  send_other :
      (other : TaskId) (cmd : RunnerCmd) (task : Task)
      → (other == id) ≡ false
      → Keeps (Runs task) (send host other cmd)
  unfolding send
  send_other other cmd task away s k =
      deliver_other other cmd task s (find_task other s.tasks) away refl k

  spawn_other :
      (j : SessionId) (attempt : ℕ) (mode : RunnerMode) (task : Task)
      → (j == session) ≡ false
      → Keeps (Runs task) (spawn_runner_return_tx host j attempt mode)
  unfolding spawn_runner_return_tx find_task
  spawn_other j attempt mode task away s k =
      let h = k.numbered in
      let new : (s.next_id == id) ≡ false = ground arith in
      record {
        entered = lookup-insert j session s.next_id s.active ∙ rw away k.entered;
        alone = λ i other far e. elim (Bool-cases (j == i)) [
          | inl same ↦
              let here : some s.next_id ≡ some other =
                sym (lookup-insert j i s.next_id s.active ∙ rw same refl) ∙ e in
              let it : s.next_id ≡ other = cc in subst (λ n. (n == id) ≡ false) it new
          | inr differs ↦
              k.alone i other far (sym (lookup-insert j i s.next_id s.active ∙ rw differs refl) ∙ e)
        ];
        found = rw new k.found;
        numbered = omega arith;
      }

  run_other :
      (j : SessionId) (attempt : ℕ) (mode : RunnerMode) (task : Task)
      → (j == session) ≡ false
      → Keeps (Runs task) (spawn_runner host j attempt mode)
  unfolding spawn_runner
  run_other j attempt mode task away s k = spawn_other j attempt mode task away s k

  chunk_other :
      (j : SessionId) (cmd : RunnerCmd) (task : Task) (s : Loop host) (found : Option TaskId)
      → (j == session) ≡ false
      → lookup j s.active ≡ found
      → Runs task s
      → Runs task ((sender_or_spawn host j found >>= λ tx. send host tx cmd >> pure tt) s).1
  unfolding spawn_runner_return_tx
  chunk_other j cmd task s none away e k =
      let h = k.numbered in
      let new : (s.next_id == id) ≡ false = ground arith in
      Keeps-bind (Runs task) (send host s.next_id cmd) (λ _. pure tt)
        (send_other s.next_id cmd task new) (λ _ t p. p)
        (spawn_runner_return_tx host j 1 streaming s).1 (spawn_other j 1 streaming task away s k)
  chunk_other j cmd task s (some tx) away e k =
      Keeps-bind (Runs task) (send host tx cmd) (λ _. pure tt)
        (send_other tx cmd task (k.alone j tx away e)) (λ _ t p. p) s k

  uploaded_other :
      (j : SessionId) (task : Task) (s : Loop host) (found : Option TaskId)
      → (j == session) ≡ false
      → lookup j s.active ≡ found
      → Runs task s
      → Runs task (finalize_or_rerun host j found s).1
  uploaded_other j task s none away e k = run_other j 1 one_shot task away s k
  uploaded_other j task s (some tx) away e k =
      let again = spawn_runner host j 1 one_shot in
      Keeps-bind (Runs task) (send host tx finalize) (λ sent. if sent then pure tt else again)
        (send_other tx finalize task (k.alone j tx away e))
        (λ sent.
          Keeps-if (Runs task) sent (pure tt) again (λ t p. p) (run_other j 1 one_shot task away))
        s k

  -- An event that makes no command for the runner leaves it as it is.
  pub event_other :
      (event : BusEvent) (task : Task) (s : Loop host)
      → commands_of session event ≡ []
      → Runs task s
      → Runs task (handle_ws_event host event s).1
  unfolding handle_ws_event
  event_other (session_uploaded j) task s none_for k = elim (Bool-cases (j == session)) [
    | inl own ↦ absurd (grind arith)
    | inr away ↦ uploaded_other j task s (lookup j s.active) away refl k
  ]
  event_other (chunk_uploaded j pseudo seq) task s none_for k = elim (Bool-cases (j == session)) [
    | inl own ↦ absurd (grind arith)
    | inr away ↦ chunk_other j (ingest_chunk pseudo seq) task s (lookup j s.active) away refl k
  ]
  event_other (session_status j status) task s none_for k = k
  event_other disconnected task s none_for k = k
