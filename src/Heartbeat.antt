-- ===== src/Heartbeat.antt =====
-- src/event_loop.rs: the heartbeat task. A tick is the instant at which its heartbeat has ended; the
-- first tick, which is immediate, sends nothing.
pub mod Requests
use chronicle_worker.Prelude.{ℕ, Option, some, List, [], ◌∷◌}
use chronicle_worker.Exec.{Outcome, ok, err, pending}
use chronicle_worker.Http.{Host}
use chronicle_worker.Api.{Io, heartbeat}

module _ {Row : Type 0} (host : Host Row) where
  pub record Beats : Type 0 where
    pub io : Io host
    pub last_heartbeat : Option ℕ

  abbrev pub noted : ℕ → Outcome (Unit {0}) → Option ℕ → Option ℕ
  noted now (ok _) last = some now
  noted now (err e) last = last
  noted now pending last = last

  unfoldable pub beat : ℕ → Beats → Beats
  unfolding heartbeat
  beat now s =
      let (r, io) = heartbeat host s.io in
      record { io = io; last_heartbeat = noted now r s.last_heartbeat }

  -- The loop of `spawn_heartbeat` over its ticks.
  unfoldable pub heartbeat_loop : List ℕ → Beats → Beats
  unfolding beat
  heartbeat_loop [] s = s
  heartbeat_loop (now ∷ ticks) s = heartbeat_loop ticks (beat now s)
