-- ===== src/Bus/Events.antt =====
-- What a connection of src/ws.rs passes on to the event loop.
use chronicle_worker.Prelude.{
  ℕ, zero, suc, ◌≤◌, ◌≡◌, refl, sym, ◌∙◌, true, List, [], ◌∷◌, ◌++◌, arith, length, ◌⊎◌, inl, inr,
}
use mathlib.Core.List.{append_assoc, append-nil}
use chronicle_worker.Http.{parsed, broken}
use chronicle_worker.EventLoop.Handlers.{BusEvent}
use chronicle_worker.Bus.{
  RawEvent, Message, text_frame, ping, pong, close, other, failed, Channel, event_of, read,
}

-- The events of the texts that can be read, up to the first error or close.
abbrev pub events_of : List Message → List BusEvent
events_of [] = []
events_of (text_frame (parsed raw) ∷ rest) = event_of raw ∷ events_of rest
events_of (text_frame (broken e) ∷ rest) = events_of rest
events_of (ping ∷ rest) = events_of rest
events_of (pong ∷ rest) = events_of rest
events_of (other ∷ rest) = events_of rest
events_of (close ∷ rest) = []
events_of (failed ∷ rest) = []

ℕ-cases : (n : ℕ) → (n ≡ 0) ⊎ ((m : ℕ) × (n ≡ suc m))
ℕ-cases zero = inl refl
ℕ-cases (suc n) = inr (n, refl)

-- The channel once the event of a text has gone into it.
abbrev after : RawEvent → ℕ → Channel → Channel
after raw n tx = record { events = tx.events ++ event_of raw ∷ []; sends_left = n }

read-sent :
    (raw : RawEvent) (rest : List Message) (tx : Channel) (n : ℕ)
    → tx.sends_left ≡ suc n
    → read (text_frame (parsed raw) ∷ rest) tx ≡ read rest (after raw n tx)
unfolding read
read-sent raw rest tx n e = rw e refl

-- If the event loop takes that many events, a connection passes on exactly the events of its texts
-- that can be read, in order, up to the first error or close, and is then connected again.
pub read-events :
    (messages : List Message) (tx : Channel)
    → length (events_of messages) ≤ tx.sends_left
    → ((read messages tx).0 ≡ true)
      × ((read messages tx).1.events ≡ tx.events ++ events_of messages)
unfolding read
read-events [] tx h = (refl, sym (append-nil tx.events))
read-events (close ∷ rest) tx h = (refl, sym (append-nil tx.events))
read-events (failed ∷ rest) tx h = (refl, sym (append-nil tx.events))
read-events (text_frame (broken e) ∷ rest) tx h = read-events rest tx h
read-events (ping ∷ rest) tx h = read-events rest tx h
read-events (pong ∷ rest) tx h = read-events rest tx h
read-events (other ∷ rest) tx h = read-events rest tx h
read-events (text_frame (parsed raw) ∷ rest) tx h = elim (ℕ-cases tx.sends_left) [
  | inl e ↦ absurd (omega arith)
  | inr (n, e) ↦
      let (up, all) = read-events rest (after raw n tx) (omega arith) in
      rw (read-sent raw rest tx n e)
        (up, all ∙ append_assoc tx.events (event_of raw ∷ []) (events_of rest))
]
