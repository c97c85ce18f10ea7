-- ===== src/EventLoop/Inbox.antt =====
-- src/event_loop.rs: what the events of the bus, handled one after the other, leave in the channel of
-- an active runner.
use mathlib.Core.Path.{subst}
use mathlib.Core.List.{append_assoc, append-nil}
use chronicle_worker.Prelude.{
  ℕ, ◌≤◌, ◌≡◌, refl, ap, sym, ◌∙◌, ◌⊎◌, inl, inr, Bool, Bool-cases, true, List, [], ◌∷◌, ◌++◌, some,
  length, length-append, ◌+◌, All, eq→==, leb, ◌==◌, ==→eq, ne→==, arith, if◌then◌else◌,
}
use chronicle_worker.Ids.{SessionId}
use chronicle_worker.Exec.{Outcome, ok, err, pending, Exec, pure, resume, ◌>>◌}
use chronicle_worker.Http.{Host}
use chronicle_worker.Runner.Streaming.{RunnerCmd, ingest_chunk, finalize}
use chronicle_worker.EventLoop.{
  Loop, Task, TaskId, one_shot, lookup, find_task, change_task, deliver, push_cmd, send, capacity,
  spawn_runner,
}
use chronicle_worker.EventLoop.Handlers.{
  BusEvent, session_uploaded, session_status, chunk_uploaded, disconnected, handle_ws_event,
  run_events, finalize_or_rerun,
}
use chronicle_worker.EventLoop.Tasks.{find_task-id, find_task-change_task}
use chronicle_worker.EventLoop.Steps.{Reach}
use chronicle_worker.EventLoop.Owned.{active-session, active-numbered}
use chronicle_worker.Api.{Io}
use chronicle_worker.EventLoop.Runs.{commands_of, Runs, event_other}

abbrev pub commands : SessionId → List BusEvent → List RunnerCmd
commands session [] = []
commands session (event ∷ events) = commands_of session event ++ commands session events

abbrev pub with_inbox : Task → List RunnerCmd → Task
with_inbox task cmds = record task { inbox = task.inbox ++ cmds }

-- In a reachable state the runner of an active session is its own.
pub reach-Runs :
    {Row : Type 0} (host : Host Row) (io : Io host) (now : ℕ) (backoffs : List ℕ) (s : Loop host)
    (session : SessionId) (id : TaskId) (task : Task)
    → Reach host io now backoffs s
    → lookup session s.active ≡ some id
    → find_task id s.tasks ≡ some task
    → Runs host session id task s
reach-Runs host io now backoffs s session id task r e f = record {
  entered = e;
  alone = λ j other away e'. ne→== other id (λ same.
      let there : lookup j s.active ≡ some id = e' ∙ ap some same in
      let mine : task.session ≡ session =
        active-session host io now backoffs s r session id task e f in
      let theirs : task.session ≡ j = active-session host io now backoffs s r j id task there f in
      let clash : (j == session) ≡ true = eq→== j session (sym theirs ∙ mine) in
      absurd (grind arith));
  found = f;
  numbered = active-numbered host io now backoffs s r session id e;
}

module _ {Row : Type 0} (host : Host Row) (session : SessionId) (id : TaskId) where
  -- A command for the runner itself is the last in the channel, or the channel is full.
  abbrev Queued : RunnerCmd → Task → Outcome Bool × Loop host → Type 0
  Queued cmd task (r, t) =
      ((r ≡ pending) × (capacity ≤ length task.inbox))
      ⊎ ((r ≡ ok true) × Runs host session id (push_cmd host cmd task) t)

  pushed-Runs :
      (cmd : RunnerCmd) (task : Task) (s : Loop host)
      → Runs host session id task s
      → Runs host session id
          (push_cmd host cmd task)
          (record s { tasks = change_task task.id (push_cmd host cmd) s.tasks })
  pushed-Runs cmd task s k = record {
    entered = k.entered;
    alone = k.alone;
    found =
        ap (λ i. find_task id (change_task i (push_cmd host cmd) s.tasks))
          (find_task-id id s.tasks task k.found)
        ∙ find_task-change_task id (push_cmd host cmd) s.tasks task (λ t. refl) k.found;
    numbered = k.numbered;
  }

  deliver-Queued :
      (cmd : RunnerCmd) (task : Task) (s : Loop host)
      → task.receiving ≡ true
      → Runs host session id task s
      → Queued cmd task (deliver host cmd (some task) s)
  deliver-Queued cmd task s held k = elim (Bool-cases (leb capacity (length task.inbox))) [
    | inl full ↦ rw (held, full) (inl (refl, ground arith))
    | inr free ↦
        let done : deliver host cmd (some task) s
            ≡ (ok true, record s { tasks = change_task task.id (push_cmd host cmd) s.tasks }) =
          rw (held, free) refl in
        subst (Queued cmd task) (sym done) (inr (refl, pushed-Runs cmd task s k))
  ]

  send-Queued :
      (cmd : RunnerCmd) (task : Task) (s : Loop host)
      → task.receiving ≡ true
      → Runs host session id task s
      → Queued cmd task (send host id cmd s)
  unfolding send
  send-Queued cmd task s held k = rw k.found (deliver-Queued cmd task s held k)

  -- What an event comes to: the runner has the commands that it makes, or the loop waits.
  abbrev Handled : List RunnerCmd → Task → Outcome (Unit {0}) × Loop host → Type 0
  Handled cmds task (r, t) =
      ((r ≡ pending) × (capacity ≤ length task.inbox))
      ⊎ ((r ≡ ok tt) × Runs host session id (with_inbox task cmds) t)

  resume-Handled :
      (cmd : RunnerCmd) (task : Task) (r : Outcome Bool) (t : Loop host)
      (next : Bool → Exec (Loop host) Unit)
      → next true ≡ pure tt
      → Queued cmd task (r, t)
      → Handled (cmd ∷ []) task (resume r next t)
  resume-Handled cmd task (ok b) t next e (inl (p, full)) = absurd (grind arith)
  resume-Handled cmd task (ok b) t next e (inr (o, k)) =
      let yes : b ≡ true = grind arith in
      let done : next b t ≡ (ok tt, t) = ap (λ c. next c t) yes ∙ ap (λ m. m t) e in
      rw done (inr (refl, k))
  resume-Handled cmd task (err x) t next e (inl (p, full)) = absurd (grind arith)
  resume-Handled cmd task (err x) t next e (inr (o, k)) = absurd (grind arith)
  resume-Handled cmd task pending t next e (inl (p, full)) = inl (refl, full)
  resume-Handled cmd task pending t next e (inr (o, k)) = absurd (grind arith)

  own_chunk :
      (cmd : RunnerCmd) (task : Task) (s : Loop host)
      → task.receiving ≡ true
      → Runs host session id task s
      → Handled (cmd ∷ []) task ((send host id cmd >> pure tt) s)
  own_chunk cmd task s held k =
      let (r, t) = send host id cmd s in
      resume-Handled cmd task r t (λ _. pure tt) refl (send-Queued cmd task s held k)

  own_uploaded :
      (task : Task) (s : Loop host)
      → task.receiving ≡ true
      → Runs host session id task s
      → Handled (finalize ∷ []) task (finalize_or_rerun host session (some id) s)
  own_uploaded task s held k =
      let (r, t) = send host id finalize s in
      resume-Handled finalize task r t
        (λ sent. if sent then pure tt else spawn_runner host session 1 one_shot) refl
        (send-Queued finalize task s held k)

  -- Any other makes one.
  event_own :
      (event : BusEvent) (cmd : RunnerCmd) (task : Task) (s : Loop host)
      → commands_of session event ≡ cmd ∷ []
      → task.receiving ≡ true
      → Runs host session id task s
      → Handled (cmd ∷ []) task (handle_ws_event host event s)
  unfolding handle_ws_event
  event_own (session_uploaded j) cmd task s makes held k = elim (Bool-cases (j == session)) [
    | inl own ↦
        let it : finalize ≡ cmd = grind arith in
        let same : j ≡ session = ==→eq j session own in
        rw (same, k.entered)
          (subst (λ c. Handled (c ∷ []) task (finalize_or_rerun host session (some id) s)) it
            (own_uploaded task s held k))
    | inr away ↦ absurd (grind arith)
  ]
  event_own (chunk_uploaded j pseudo seq) cmd task s makes held k =
      elim (Bool-cases (j == session)) [
        | inl own ↦
            let it : ingest_chunk pseudo seq ≡ cmd = grind arith in
            let same : j ≡ session = ==→eq j session own in
            rw (same, k.entered)
              (subst
                (λ c. Handled (c ∷ []) task ((send host id (ingest_chunk pseudo seq) >> pure tt) s))
                it (own_chunk (ingest_chunk pseudo seq) task s held k))
        | inr away ↦ absurd (grind arith)
      ]
  event_own (session_status j status) cmd task s makes held k = absurd (grind arith)
  event_own disconnected cmd task s makes held k = absurd (grind arith)

  with_inbox-[] : (task : Task) → with_inbox task [] ≡ task
  with_inbox-[] task = ap (λ i. record task { inbox = i }) (append-nil task.inbox)

  with_inbox-append :
      (task : Task) (xs ys : List RunnerCmd)
      → with_inbox (with_inbox task xs) ys ≡ with_inbox task (xs ++ ys)
  with_inbox-append task xs ys = ap (λ i. record task { inbox = i }) (append_assoc task.inbox xs ys)

  commands-cases :
      (event : BusEvent)
      → (commands_of session event ≡ [])
        ⊎ ((cmd : RunnerCmd) × (commands_of session event ≡ cmd ∷ []))
  commands-cases (session_uploaded j) = elim (Bool-cases (j == session)) [
    | inl own ↦ rw own (inr (finalize, refl))
    | inr away ↦ rw away (inl refl)
  ]
  commands-cases (chunk_uploaded j pseudo seq) = elim (Bool-cases (j == session)) [
    | inl own ↦ rw own (inr (ingest_chunk pseudo seq, refl))
    | inr away ↦ rw away (inl refl)
  ]
  commands-cases (session_status j status) = inl refl
  commands-cases disconnected = inl refl

  pub event-Runs :
      (event : BusEvent) (task : Task) (s : Loop host)
      → task.receiving ≡ true
      → (handle_ws_event host event s).0 ≡ ok tt
      → Runs host session id task s
      → Runs host session id
          (with_inbox task (commands_of session event))
          (handle_ws_event host event s).1
  event-Runs event task s held done k = elim (commands-cases event) [
    | inl nothing ↦
        let same : task ≡ with_inbox task (commands_of session event) =
          sym (ap (with_inbox task) nothing ∙ with_inbox-[] task) in
        subst (λ u. Runs host session id u (handle_ws_event host event s).1) same
          (event_other host session id event task s nothing k)
    | inr (cmd, makes) ↦ elim (event_own event cmd task s makes held k) [
      | inl (waits, _) ↦ absurd (grind arith)
      | inr (_, k') ↦
          subst (λ c. Runs host session id (with_inbox task c) (handle_ws_event host event s).1)
            (sym makes) k'
    ]
  ]

  resumed_ok :
      (r : Outcome (Unit {0})) (next : Exec (Loop host) Unit) (t : Loop host)
      → (resume r (λ _. next) t).0 ≡ ok tt
      → (r ≡ ok tt) × (resume r (λ _. next) t ≡ next t)
  resumed_ok (ok a) next t e = (refl, refl)
  resumed_ok (err x) next t e = absurd (grind arith)
  resumed_ok pending next t e = absurd (grind arith)

  run_events-Runs :
      (events : List BusEvent) (task : Task) (s : Loop host)
      → task.receiving ≡ true
      → (run_events host events s).0 ≡ ok tt
      → Runs host session id task s
      → Runs host session id
          (with_inbox task (commands session events))
          (run_events host events s).1
  unfolding run_events
  run_events-Runs [] task s held done k =
      subst (λ u. Runs host session id u s) (sym (with_inbox-[] task)) k
  run_events-Runs (event ∷ events) task s held done k =
      let (r, t) = handle_ws_event host event s in
      let (first, rest) = resumed_ok r (run_events host events) t done in
      let now = with_inbox task (commands_of session event) in
      let later : Runs host session id (with_inbox now (commands session events))
          (run_events host events t).1 =
        run_events-Runs events now t held (sym (ap (λ o. o.0) rest) ∙ done)
          (event-Runs event task s held first k) in
      let all =
        subst (λ u. Runs host session id u (run_events host events t).1)
          (with_inbox-append task (commands_of session event) (commands session events)) later in
      subst
        (λ (o : Outcome Unit × Loop host).
          Runs host session id (with_inbox task (commands session (event ∷ events))) o.1)
        (sym rest) all

  -- Each of these events makes one command for the runner.
  abbrev pub AllOwn : List BusEvent → Type 0
  AllOwn = All (λ event. (cmd : RunnerCmd) × (commands_of session event ≡ cmd ∷ []))

  -- With room for them, the loop does not wait.
  pub run_events-own :
      (events : List BusEvent) (task : Task) (s : Loop host)
      → task.receiving ≡ true
      → AllOwn events
      → length task.inbox + length events ≤ capacity
      → Runs host session id task s
      → ((run_events host events s).0 ≡ ok tt)
        × Runs host session id
            (with_inbox task (commands session events))
            (run_events host events s).1
  unfolding run_events
  run_events-own [] task s held all room k =
      (refl, subst (λ u. Runs host session id u s) (sym (with_inbox-[] task)) k)
  run_events-own (event ∷ events) task s held ((cmd, makes), all) room k =
      let (r, t) = handle_ws_event host event s in
      elim (event_own event cmd task s makes held k) [
        | inl (_, full) ↦ absurd (omega arith)
        | inr (done, k') ↦
            let now = with_inbox task (cmd ∷ []) in
            let small : length now.inbox + length events ≤ capacity =
              rw length-append (omega arith) in
            let (later, k'') = run_events-own events now t held all small k' in
            let whole : Runs host session id
                (with_inbox task ((cmd ∷ []) ++ commands session events))
                (run_events host events t).1 =
              subst (λ u. Runs host session id u (run_events host events t).1)
                (with_inbox-append task (cmd ∷ []) (commands session events)) k'' in
            rw (done, makes) (later, whole)
      ]

-- From a reachable state, while the loop handles these events without waiting, an active runner that
-- still receives stays the runner of its session, and its channel gets the commands that the events of
-- its session make, in the order of the events and behind those that it held; events of other sessions
-- add nothing to it and take nothing from it.
pub run_events-inbox :
    {Row : Type 0} (host : Host Row) (io : Io host) (now : ℕ) (backoffs : List ℕ) (s : Loop host)
    (events : List BusEvent) (session : SessionId) (id : TaskId) (task : Task)
    → Reach host io now backoffs s
    → lookup session s.active ≡ some id
    → find_task id s.tasks ≡ some task
    → task.receiving ≡ true
    → (run_events host events s).0 ≡ ok tt
    → (let t = (run_events host events s).1 in
        (lookup session t.active ≡ some id)
        × (find_task id t.tasks
            ≡ some (record task { inbox = task.inbox ++ commands session events })))
run_events-inbox host io now backoffs s events session id task r e f held done =
    let k =
      run_events-Runs host session id events task s held done
        (reach-Runs host io now backoffs s session id task r e f) in
    (k.entered, k.found)
