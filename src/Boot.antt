-- ===== src/Boot.antt =====
-- src/main.rs and the start of `run` in src/event_loop.rs: from the configuration to the state in which
-- the loop begins. Logging is left out; the tasks of the bus and of the heartbeat run beside the loop.
pub mod Started
use chronicle_worker.Prelude.{ℕ, ◌==◌, String, Bool, true, false, List, if◌then◌else◌}
use chronicle_worker.Error.{WorkerError, Result}
use chronicle_worker.Exec.{Outcome}
use chronicle_worker.Http.{Host, Parsed}
use chronicle_worker.Config.{Config, resolved_shared_secret, retry_backoffs, poll_interval}
use chronicle_worker.Api.{Io, authenticate}
use chronicle_worker.Admin.{serve}
use chronicle_worker.EventLoop.{Loop}
use chronicle_worker.EventLoop.Handlers.{startup_reconcile}
use chronicle_worker.EventLoop.Steps.{start}

-- What a part of the start comes to; an error ends the process, and so does a panic.
pub data Boot (A : Type 0) : Type 0 where
  done : A → Boot A
  failed : WorkerError → Boot A
  waiting panicked : Boot A

abbrev pub of_result : {A : Type 0} → Result A → Boot A
of_result (Result.ok a) = done a
of_result (Result.err e) = failed e

abbrev pub of_outcome : {A : Type 0} → Outcome A → Boot A
of_outcome (Outcome.ok a) = done a
of_outcome (Outcome.err e) = failed e
of_outcome Outcome.pending = waiting

infixl 10 ◌>>=◌ ◌>>◌
abbrev pub ◌>>=◌ : {A B : Type 0} → Boot A → (A → Boot B) → Boot B
done a >>= f = f a
failed e >>= f = failed e
waiting >>= f = waiting
panicked >>= f = panicked

abbrev pub ◌>>◌ : {A B : Type 0} → Boot A → Boot B → Boot B
m >> n = m >>= λ _. n

-- tokio::time::interval panics on a period of zero.
abbrev pub interval : ℕ → Boot (Unit {0})
interval period = if period == 0 then panicked else done tt

-- What the code outside gives: reqwest's client, and the binding of the admin surface's address.
pub record Given : Type 0 where
  pub http : Parsed (Unit {0})
  pub bound : Parsed (Unit {0})

module _ {Row F32 SocketAddr : Type 0} (host : Host Row) (show : SocketAddr → String)
    (given : Given) where
  abbrev pub served : Config F32 SocketAddr → Boot (Unit {0})
  served cfg =
      if cfg.admin_enabled
      then of_result (serve given.bound (show cfg.admin_bind_addr))
      else done tt

  -- The lines of `run` in front of its loop.
  unfoldable pub run : Config F32 SocketAddr → ℕ → Io host → Boot (Loop host)
  unfolding retry_backoffs poll_interval serve startup_reconcile
  run cfg now io = do
    backoffs ← of_result (retry_backoffs cfg)
    interval (poll_interval cfg)
    served cfg
    done (startup_reconcile host (start host io now backoffs)).1

  -- `main`, up to the loop.
  unfoldable pub main : Config F32 SocketAddr → ℕ → host.World → Boot (Loop host)
  unfolding resolved_shared_secret authenticate run
  main cfg now w = do
    secret ← of_result (resolved_shared_secret cfg)
    io ← of_outcome (authenticate host given.http cfg.data_api_url secret "chronicle-worker" w).0
    run cfg now io
