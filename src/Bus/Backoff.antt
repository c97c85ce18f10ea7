-- ===== src/Bus/Backoff.antt =====
-- How long src/ws.rs waits between its attempts to connect.
use chronicle_worker.Prelude.{ℕ, ◌≤◌}

abbrev pub InBounds : ℕ → Type 0
InBounds wait = (1 ≤ wait) × (wait ≤ 30)
