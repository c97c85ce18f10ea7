-- ===== src/EventLoop/Concluded.antt =====
-- src/event_loop.rs: all that the end of a runner changes.
use mathlib.Core.Path.{subst}
use chronicle_worker.Prelude.{
  ℕ, ◌+◌, ◌-◌, ◌%◌, ◌≤◌, ◌<◌, ◌≡◌, refl, ap, sym, ◌∙◌, inl, inr, Bool-cases, true, false, String,
  some, ◌∷◌, arith, length, get_elem?, ◌==◌,
}
use chronicle_worker.Ids.{SessionId}
use chronicle_worker.Error.{WorkerError, is_retryable_session_failure}
use chronicle_worker.Exec.{Outcome, ok, err, pending, Exec, pure, raise, resume, settle, ◌>>◌}
use chronicle_worker.Exec.Returns.{IsReturned, Returns, Returns-bind, Returns-if}
use chronicle_worker.Http.{patch, Endpoint, Payload, Host}
use chronicle_worker.Api.{Io, authorized, check_ok}
use chronicle_worker.Api.Sessions.{patch_status, mark_failed}
use chronicle_worker.Retry.{entry}
use chronicle_worker.Retry.Schedule.{schedule-Outcome}
use chronicle_worker.Runner.OneShot.Clearing.{authorized-Returns, check_ok-Returns}
use chronicle_worker.EventLoop.{Loop, RunnerResult, remove}
use chronicle_worker.EventLoop.Handlers.{
  schedule_next, conclude, scheduled_queue, on_runner_complete,
}

module _ {Row : Type 0} (host : Host Row) where
  patch_status-Returns : (id : SessionId) (status : String) → Returns (patch_status host id status)
  unfolding patch_status
  patch_status-Returns id status =
      Returns-bind (authorized host patch (Endpoint.session id) (Payload.status status)) _
        (authorized-Returns host patch (Endpoint.session id) (Payload.status status))
        (λ resp.
          let checked = check_ok host resp >> pure tt in
          Returns-if (resp.code == 409) (raise (WorkerError.claim_lost id)) _ (λ s. tt)
            (Returns-if (resp.code == 404) (raise (WorkerError.not_found id)) checked (λ s. tt)
              (Returns-bind (check_ok host resp) (λ _. pure tt) (check_ok-Returns host resp)
                (λ _ s. tt))))

  mark_failed-Returns : (id : SessionId) → Returns (mark_failed host id)
  unfolding mark_failed
  mark_failed-Returns id = patch_status-Returns id "transcribing_failed"

  -- A run that is over for good: it succeeded, it has lost its claim or its session, or it goes on.
  abbrev pub IsFinal : Outcome (Unit {0}) → Type 0
  IsFinal (err e) = is_retryable_session_failure e ≡ false
  IsFinal _ = Unit

  -- The session is inactive, and nothing else has changed.
  abbrev pub left : RunnerResult → Loop host → Loop host
  left res s = record s { active = remove res.session s.active }

  -- The same, after the PATCH of the session to `transcribing_failed`.
  abbrev pub marked : RunnerResult → Loop host → Loop host
  marked res s = record (left res s) { io = (mark_failed host res.session s.io).1 }

  pub data Concluded (res : RunnerResult) (s t : Loop host) : Type 0 where
    final : IsFinal res.outcome → t ≡ left res s → Concluded res s t
    requeued :
        (e : WorkerError) (delay : ℕ)
        → res.outcome ≡ err e
        → is_retryable_session_failure e ≡ true
        → get_elem? s.retry.backoffs res.attempt ≡ some delay
        → (let next = entry res.session (res.attempt + 1) (s.now + delay) in
            t ≡ record (marked res s) { retry = record s.retry { inner = next ∷ s.retry.inner } })
        → Concluded res s t
    given_up :
        (e : WorkerError)
        → res.outcome ≡ err e
        → is_retryable_session_failure e ≡ true
        → length s.retry.backoffs ≤ res.attempt
        → t ≡ marked res s
        → Concluded res s t

  settled_after :
      (r : Outcome (Unit {0})) (io : Io host) (s : Loop host) (next : Exec (Loop host) Unit)
      → IsReturned r
      → (let (q, u) = settle r pure (λ _. pure tt) (record s { io = io }) in resume q (λ _. next) u)
        ≡ next (record s { io = io })
  settled_after (ok a) io s next h = refl
  settled_after (err e) io s next h = refl
  settled_after pending io s next h = absurd h

  scheduled-Concluded :
      (res : RunnerResult) (e : WorkerError) (s : Loop host)
      → res.outcome ≡ err e
      → is_retryable_session_failure e ≡ true
      → Concluded res s (schedule_next host res.session (res.attempt + 1) (marked res s)).1
  scheduled-Concluded res e s failed again =
      elim (schedule-Outcome s.retry res.session (res.attempt + 1) s.now) [
        | inl (pos, within, (delay, found, queued)) ↦
            let place : res.attempt + 1 - 1 ≡ res.attempt = omega arith in
            requeued e delay failed again (ap (get_elem? s.retry.backoffs) (sym place) ∙ found)
              (ap (λ r. record (marked res s) { retry = scheduled_queue host r s.retry }) queued)
        | inr (inl (inl past, none_left)) ↦
            given_up e failed again (omega arith)
              (ap (λ r. record (marked res s) { retry = scheduled_queue host r s.retry }) none_left)
        | inr (inl (inr empty, none_left)) ↦
            given_up e failed again (omega arith)
              (ap (λ r. record (marked res s) { retry = scheduled_queue host r s.retry }) none_left)
        | inr (inr (first, _, _)) ↦ absurd (omega arith)
      ]

  conclude-Concluded :
      (res : RunnerResult) (outcome : Outcome (Unit {0})) (s : Loop host)
      → res.outcome ≡ outcome
      → res.attempt + 1 < 4294967296
      → (let run = conclude host res outcome (left res s) in
          (run.0 ≡ ok tt) × Concluded res s run.1)
  conclude-Concluded res (ok a) s e fits = (refl, final (subst IsFinal (sym e) tt) refl)
  conclude-Concluded res pending s e fits = (refl, final (subst IsFinal (sym e) tt) refl)
  conclude-Concluded res (err x) s e fits = elim (Bool-cases (is_retryable_session_failure x)) [
    | inr last ↦ rw last (refl, final (subst IsFinal (sym e) last) refl)
    | inl again ↦
        let same : (res.attempt + 1) % 4294967296 ≡ res.attempt + 1 = omega arith in
        let (r, io) = mark_failed host res.session s.io in
        let after : conclude host res (err x) (left res s)
            ≡ schedule_next host res.session (res.attempt + 1) (marked res s) =
          rw (again, same)
            (settled_after r io (left res s) (schedule_next host res.session (res.attempt + 1))
              (mark_failed-Returns res.session s.io)) in
        subst (λ (run : Outcome Unit × Loop host). (run.0 ≡ ok tt) × Concluded res s run.1)
          (sym after) (refl, scheduled-Concluded res x s e again)
  ]

-- The handling of a runner's end always returns, and makes its session inactive. After a success, or
-- a failure that is not to be retried, it changes nothing else. After a failure that is, it marks the
-- session as failed at the data-api, whatever comes of that; and if the schedule has a delay at the
-- place of the attempt, counted from 0, it queues the next attempt, due after that delay, and
-- otherwise it queues nothing; if the attempt has a successor below 2 ^ 32.
pub on_runner_complete-Concluded :
    {Row : Type 0} (host : Host Row) (res : RunnerResult) (s : Loop host)
    → res.attempt + 1 < 4294967296
    → (let run = on_runner_complete host res s in (run.0 ≡ ok tt) × Concluded host res s run.1)
unfolding on_runner_complete
on_runner_complete-Concluded host res s fits = conclude-Concluded host res res.outcome s refl fits
