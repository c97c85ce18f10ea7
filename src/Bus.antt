-- ===== src/Bus.antt =====
-- src/ws.rs: the subscription to the bus. A connection is the sequence of messages that it brings; the
-- end of the sequence is the end of the stream. The channel to the event loop is what has gone into
-- it, with the number of sends before its receiver is gone. Times are in seconds.
pub mod Events
pub mod Backoff
pub mod Url
use text.Mathlib.Text.{◌==◌ as str_eq}
use chronicle_worker.Prelude.{
  ℕ, zero, suc, ◌*◌, String, Bool, true, false, List, [], ◌∷◌, ◌++◌, leb, if◌then◌else◌,
}
use chronicle_worker.Ids.{Uuid, PseudoId, Seq}
use chronicle_worker.Http.{Parsed, parsed, broken}
use chronicle_worker.EventLoop.Handlers.{BusEvent}

pub data RawEvent : Type 0 where
  session_state_changed : Uuid → String → RawEvent
  chunk_uploaded : Uuid → PseudoId → Seq → RawEvent

-- A received message or error. A text comes with what serde makes of it.
pub data Message : Type 0 where
  text_frame : Parsed RawEvent → Message
  ping pong close other failed : Message

unfoldable pub event_of : RawEvent → BusEvent
event_of (session_state_changed session_id status) =
    if str_eq status "uploaded"
    then BusEvent.session_uploaded session_id
    else BusEvent.session_status session_id status
event_of (chunk_uploaded session_id pseudo_id seq) =
    BusEvent.chunk_uploaded session_id pseudo_id seq

pub record Channel : Type 0 where
  pub events : List BusEvent
  pub sends_left : ℕ

-- tx.send(event).await.is_ok()
unfoldable pub send_to : BusEvent → Channel → Bool × Channel
send_to event tx = elim tx.sends_left [
  | zero ↦ (false, tx)
  | suc n ↦ (true, record { events = tx.events ++ event ∷ []; sends_left = n })
]

-- The loop of `run_session`.
unfoldable pub read : List Message → Channel → Bool × Channel
unfolding event_of send_to
read [] tx = (true, tx)
read (text_frame (parsed raw) ∷ rest) tx =
    let (sent, tx') = send_to (event_of raw) tx in
    let later = read rest tx' in if sent then later else (false, tx')
read (text_frame (broken e) ∷ rest) tx = read rest tx
read (ping ∷ rest) tx = read rest tx
read (pong ∷ rest) tx = read rest tx
read (other ∷ rest) tx = read rest tx
read (close ∷ rest) tx = (true, tx)
read (failed ∷ rest) tx = (true, tx)

unfoldable pub run_session : Bool → List Message → Channel → Bool × Channel
unfolding read
run_session subscribed messages tx = if subscribed then read messages tx else (true, tx)

-- What comes of connect_async: a connection, with whether the subscription can be sent, or an error.
pub data Attempt : Type 0 where
  connected : Bool → List Message → Attempt
  refused : Attempt

abbrev pub max_backoff : ℕ
max_backoff = 30

unfoldable pub next_backoff : ℕ → ℕ
next_backoff backoff = if leb (backoff * 2) max_backoff then backoff * 2 else max_backoff

abbrev pub connection : Attempt → Channel → Bool × Channel
connection (connected subscribed messages) tx = run_session subscribed messages tx
connection refused tx = (true, tx)

-- The backoff is reset by a connection.
abbrev pub backoff_after : Attempt → ℕ → ℕ
backoff_after (connected subscribed messages) backoff = 1
backoff_after refused backoff = backoff

-- The loop of `ws_task` over attempts to connect: the channel, and the waits between them. Whether
-- `Disconnected` can be sent does not matter.
unfoldable pub ws_loop : List Attempt → ℕ → Channel → Channel × List ℕ
unfolding run_session send_to next_backoff
ws_loop [] backoff tx = (tx, [])
ws_loop (attempt ∷ rest) backoff tx =
    let (alive, tx') = connection attempt tx in
    let wait = backoff_after attempt backoff in
    let (end, waits) = ws_loop rest (next_backoff wait) (send_to BusEvent.disconnected tx').1 in
    if alive then (end, wait ∷ waits) else (tx', [])

unfoldable pub ws_task : List Attempt → Channel → Channel × List ℕ
unfolding ws_loop
ws_task attempts tx = ws_loop attempts 1 tx
