-- ===== src/Admin/Rerun.antt =====
-- src/admin.rs: what `POST /admin/rerun/{session_id}` comes to.
use chronicle_worker.Prelude.{ℕ, ltb, if◌then◌else◌, ◌≡◌, ◌⊎◌, Bool, true, Option, none, some}
use chronicle_worker.Ids.{SessionId}
use chronicle_worker.Exec.{Outcome, pure, resume}
use chronicle_worker.Http.{Host}
use chronicle_worker.EventLoop.{Loop, TaskId, lookup}
use chronicle_worker.EventLoop.Rerun.{IsRerun, IsFull}
use chronicle_worker.Admin.{Ack, rerun_timeout, Response, json, service_unavailable, queued}

module _ {Row : Type 0} (host : Host Row) where
  -- What the handler gets of a rerun.
  abbrev acked : Outcome Bool × Loop host → Outcome Ack × Loop host
  acked (r, t) = resume r (λ (b : Bool). pure (queued b)) t

  abbrev in_time : ℕ → Response
  in_time elapsed =
      if ltb elapsed rerun_timeout then json (queued true) else service_unavailable "timeout"

  abbrev Responses : ℕ → SessionId → Loop host → Response × Loop host → Type 0
  Responses elapsed session s (response, t) =
      ((response ≡ in_time elapsed) × IsRerun host s.next_id session t)
      ⊎ ((response ≡ service_unavailable "timeout")
          × ((old : TaskId) × (lookup session s.active ≡ some old) × IsFull host s old))

module _ {Row : Type 0} (host : Host Row) (elapsed : ℕ) (session : SessionId) where
  abbrev pub Rerun : Loop host → Response × Loop host → Type 0
  Rerun s (response, t) =
      (response ≡ (if ltb elapsed 5000 then json (queued true) else service_unavailable "timeout"))
      × IsRerun host s.next_id session t

  -- The session has an active runner that still receives, and its channel is full.
  abbrev pub Blocked : Loop host → Type 0
  Blocked s = (old : TaskId) × (lookup session s.active ≡ some old) × IsFull host s old

  abbrev pub Waited : Option (Loop host) → Loop host → Response × Loop host → Type 0
  Waited none s run = (run.0 ≡ service_unavailable "timeout") × Blocked s
  Waited (some u) s run =
      Blocked s × (Rerun u run ⊎ ((run.0 ≡ service_unavailable "timeout") × Blocked u))
