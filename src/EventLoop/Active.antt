-- ===== src/EventLoop/Active.antt =====
-- src/event_loop.rs: the map of the active sessions.
use chronicle_worker.Prelude.{
  ◌+◌, ◌%◌, ◌≡◌, false, inl, inr, List, [], ◌∷◌, Option, none, some, Option-cases, arith, ◌==◌,
  ne→==, if◌then◌else◌, All,
}
use chronicle_worker.Ids.{SessionId}
use chronicle_worker.Error.{is_retryable_session_failure}
use chronicle_worker.Exec.{Outcome, ok, err, pending, Exec, pure, handle, ◌>>◌}
use chronicle_worker.Exec.Keeps.{Keeps, Keeps-bind, Keeps-handle, Keeps-if}
use chronicle_worker.Http.{Host, SessionSummary}
use chronicle_worker.Api.Sessions.{list_sessions_by_status, mark_failed}
use chronicle_worker.EventLoop.{
  Loop, TaskId, ActiveMap, RunnerResult, one_shot, lookup, remove, insert, on_network, spawn_runner,
  spawn_runner_return_tx,
}
use chronicle_worker.EventLoop.Handlers.{
  not_active, spawn_each, spawn_missing, poll_reconcile, schedule_next, conclude,
  on_runner_complete,
}

pub lookup-remove :
    (j k : SessionId) (m : ActiveMap)
    → lookup k (remove j m) ≡ (if j == k then none else lookup k m)
unfolding lookup remove
lookup-remove j k [] = ground arith
lookup-remove j k ((i, v) ∷ m) = ground (arith, lookup-remove j k m)

pub lookup-insert :
    (j k : SessionId) (v : TaskId) (m : ActiveMap)
    → lookup k (insert j v m) ≡ (if j == k then some v else lookup k m)
unfolding lookup insert
lookup-insert j k v m = ground (arith, lookup-remove j k m)

module _ {Row : Type 0} (host : Host Row) (k : SessionId) (found : Option TaskId) where
  abbrev Finds : Loop host → Type 0
  Finds s = lookup k s.active ≡ found

  spawn-Finds : (j : SessionId) → (j == k) ≡ false → Keeps Finds (spawn_runner host j 1 one_shot)
  unfolding spawn_runner spawn_runner_return_tx
  spawn-Finds j other s h = ground (arith, lookup-insert j k s.next_id s.active)

  spawn_each-Finds :
      (sids : List SessionId)
      → All (λ (j : SessionId). (j == k) ≡ false) sids
      → Keeps Finds (spawn_each host sids)
  unfolding spawn_each
  spawn_each-Finds [] others s h = h
  spawn_each-Finds (j ∷ js) others s h =
      Keeps-bind Finds (spawn_runner host j 1 one_shot) (λ _. spawn_each host js)
        (spawn-Finds j others.0) (λ _. spawn_each-Finds js others.1) s h

  done-Finds : {A : Type 0} (a : A) → Keeps Finds (pure a)
  done-Finds a s h = h

not_active-others :
    (active : ActiveMap) (k : SessionId) (id : TaskId) (listed : List SessionSummary)
    → lookup k active ≡ some id
    → All (λ (j : SessionId). (j == k) ≡ false) (not_active active listed)
unfolding not_active
not_active-others active k id [] h = tt
not_active-others active k id (s ∷ rest) h = elim (Option-cases (lookup s.id active)) [
  | inl free ↦ rw (free, All) (ne→== s.id k (λ e. cc), not_active-others active k id rest h)
  | inr (i, busy) ↦ rw (busy, All) (not_active-others active k id rest h)
]

-- The poll leaves the runner of an active session in the map, whatever the data-api answers.
poll_reconcile-lookup :
    {Row : Type 0} (host : Host Row) (s : Loop host) (session : SessionId) (id : TaskId)
    → lookup session s.active ≡ some id
    → lookup session (poll_reconcile host s).1.active ≡ some id
unfolding poll_reconcile
poll_reconcile-lookup host s session id h =
    Keeps-handle (Finds host session (some id))
      (on_network host (list_sessions_by_status host "uploaded")) (spawn_missing host)
      (λ _. pure tt) (λ t p. p)
      (λ listed t p.
        spawn_each-Finds host session (some id) (not_active t.active listed)
          (not_active-others t.active session id listed p) t p)
      (λ _. done-Finds host session (some id) tt) s h

conclude-Finds :
    {Row : Type 0} (host : Host Row) (k : SessionId) (found : Option TaskId) (res : RunnerResult)
    (outcome : Outcome (Unit {0}))
    → Keeps (Finds host k found) (conclude host res outcome)
conclude-Finds host k found res (ok _) s h = h
conclude-Finds host k found res pending s h = h
conclude-Finds host k found res (err e) s h =
    let failed : Exec (Loop host) (Unit {0}) =
      handle (on_network host (mark_failed host res.session)) pure (λ _. pure tt) in
    let next : Exec (Loop host) (Unit {0}) =
      schedule_next host res.session ((res.attempt + 1) % 4294967296) in
    Keeps-if (Finds host k found) (is_retryable_session_failure e) (failed >> next) (pure tt)
      (Keeps-bind (Finds host k found) failed (λ _. next)
        (Keeps-handle (Finds host k found) (on_network host (mark_failed host res.session)) pure
          (λ _. pure tt) (λ t p. p) (λ a. done-Finds host k found a)
          (λ _. done-Finds host k found tt))
        (λ _ t p. p))
      (done-Finds host k found tt) s h

-- When a runner has ended, whatever its outcome, its session is not in the map of active sessions,
-- and every other session is in it as before.
on_runner_complete-lookup :
    {Row : Type 0} (host : Host Row) (res : RunnerResult) (s : Loop host) (session : SessionId)
    → lookup session (on_runner_complete host res s).1.active
      ≡ (if res.session == session then none else lookup session s.active)
unfolding on_runner_complete
on_runner_complete-lookup host res s session =
    conclude-Finds host session (if res.session == session then none else lookup session s.active)
      res res.outcome (record s { active = remove res.session s.active })
      (lookup-remove res.session session s.active)
