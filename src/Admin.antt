-- ===== src/Admin.antt =====
-- src/admin.rs: the admin surface, and its commands to the event loop. axum, the mpsc channel and the
-- clock are outside: what is given is whether the event loop still receives and whether it answers
-- in time.
pub mod Rerun
use Prim.Native.String.{◌++◌}
use chronicle_worker.Prelude.{ℕ, String, Bool, Option, none, some, true, false, ltb, if◌then◌else◌}
use chronicle_worker.Ids.{SessionId}
use chronicle_worker.Error.{WorkerError, Result}
use chronicle_worker.Exec.{Outcome, ok, err, pending, Exec, pure, ◌>>=◌}
use chronicle_worker.Http.{Host, Parsed, parsed, broken}
use chronicle_worker.EventLoop.{Loop}
use chronicle_worker.EventLoop.Handlers.{StatusSnapshot, admin_status, admin_rerun}

pub data AdminCmd : Type 0 where
  rerun : SessionId → AdminCmd
  status : AdminCmd

-- What is sent on the channel of a command.
pub data Ack : Type 0 where
  queued : Bool → Ack
  snapshot : StatusSnapshot → Ack

-- What an axum handler responds: a body, or 503 with a text.
pub data Response : Type 0 where
  json : Ack → Response
  service_unavailable : String → Response

-- What comes of a command: the loop is gone, it answers in time, or it does not.
pub data Delivery : Type 0 where
  gone : Delivery
  answered : Ack → Delivery
  unanswered : Delivery

-- Two seconds and five seconds, in milliseconds.
abbrev pub status_timeout : ℕ
status_timeout = 2000

abbrev pub rerun_timeout : ℕ
rerun_timeout = 5000

abbrev pub respond : Delivery → Response
respond gone = service_unavailable "event loop gone"
respond (answered ack) = json ack
respond unanswered = service_unavailable "timeout"

-- `bound` is what comes of TcpListener::bind.
unfoldable pub serve : Parsed (Unit {0}) → String → Result (Unit {0})
serve (parsed listener) bind = Result.ok tt
serve (broken e) bind = Result.err (WorkerError.admin ("bind " ++ (bind ++ (": " ++ e))))

module _ {Row : Type 0} (host : Host Row) where
  unfoldable pub handle_admin : AdminCmd → Exec (Loop host) Ack
  unfolding admin_rerun admin_status
  handle_admin (rerun session) = do ack ← admin_rerun host session; pure (queued ack)
  handle_admin status = do taken ← admin_status host; pure (snapshot taken)

  -- tokio::time::timeout around the answer, which comes after `elapsed` milliseconds, the time that the
  -- loop waits included.
  abbrev pub delivery : ℕ → ℕ → Outcome Ack → Delivery
  delivery timeout elapsed (ok ack) = if ltb elapsed timeout then answered ack else unanswered
  delivery timeout elapsed (err e) = unanswered
  delivery timeout elapsed pending = unanswered

  abbrev pub delivered : ℕ → ℕ → Outcome Ack × Loop host → Response × Loop host
  delivered timeout elapsed (r, t) = (respond (delivery timeout elapsed r), t)

  -- A loop that waits for room in a channel goes on when there is some. `room` is the loop at that
  -- time, if it comes, but for what the command itself has changed; since the wait is for the first
  -- message that the command sends, what it does is what it does there.
  abbrev pub resumed :
      ℕ → ℕ → AdminCmd → Option (Loop host) → Outcome Ack × Loop host → Response × Loop host
  resumed timeout elapsed cmd (some u) (pending, t) = delivered timeout elapsed (handle_admin cmd u)
  resumed timeout elapsed cmd room run = delivered timeout elapsed run

  -- A handler and the loop that it sends its command to; the state is the loop's when it has dealt
  -- with the command.
  abbrev pub request : ℕ → ℕ → Option (Loop host) → AdminCmd → Loop host → Response × Loop host
  request timeout elapsed room cmd s = resumed timeout elapsed cmd room (handle_admin cmd s)

  -- A status request never makes the loop wait.
  unfoldable pub status_handler : ℕ → Loop host → Response × Loop host
  unfolding handle_admin
  status_handler elapsed = request status_timeout elapsed none status

  unfoldable pub rerun_handler :
      ℕ → Option (Loop host) → SessionId → Loop host → Response × Loop host
  unfolding handle_admin
  rerun_handler elapsed room session = request rerun_timeout elapsed room (rerun session)
