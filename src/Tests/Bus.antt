-- ===== src/Tests/Bus.antt =====
-- The subscription of src/ws.rs on small inputs.
use chronicle_worker.Prelude.{ℕ, ◌≡◌, refl, true, List, [], ◌∷◌, ◌++◌, arith}
use chronicle_worker.Http.{parsed, broken}
use chronicle_worker.Strings.{codes}
use chronicle_worker.Strings.Search.{strip_prefix, starts_with, replace_first, split_once}
use chronicle_worker.Api.Address.{ws_base, ws_url}
use chronicle_worker.EventLoop.Handlers.{BusEvent}
use chronicle_worker.Bus.{
  RawEvent, Message, text_frame, ping, close, Channel, Attempt, connected, refused, read, ws_task,
}
use chronicle_worker.Bus.Events.{events_of, read-events}
use chronicle_worker.Bus.Url.{redact_token, redact_token-ws_url}
use chronicle_worker.Tests.World.{client}

abbrev messages : List Message
messages =
    ping
    ∷ text_frame (parsed (RawEvent.chunk_uploaded 7 "ann" 0))
    ∷ text_frame (broken "unknown event")
    ∷ text_frame (parsed (RawEvent.session_state_changed 7 "uploaded"))
    ∷ close
    ∷ text_frame (parsed (RawEvent.session_state_changed 8 "uploaded"))
    ∷ []

abbrev channel : Channel
channel = record { events = []; sends_left = 9 }

messages-read :
    (read messages channel).1.events
    ≡ BusEvent.chunk_uploaded 7 "ann" 0 ∷ BusEvent.session_uploaded 7 ∷ []
unfolding read
messages-read = refl

read-events_example :
    ((read messages channel).0 ≡ true)
    × ((read messages channel).1.events ≡ channel.events ++ events_of messages)
read-events_example = read-events messages channel (omega arith)

abbrev attempts : List Attempt
attempts = refused ∷ refused ∷ connected true messages ∷ refused ∷ []

waits : (ws_task attempts channel).1 ≡ 1 ∷ 2 ∷ 1 ∷ 2 ∷ []
unfolding ws_task
waits = refl

address_logged : redact_token (ws_url client) ≡ codes "ws://data/internal/ws?token=REDACTED"
unfolding redact_token ws_url ws_base starts_with replace_first strip_prefix split_once
address_logged = refl

redact_token-ws_url_example :
    (redact_token (ws_url (record client { session_token = "other" }))
      ≡ redact_token (ws_url client))
    × ((head : List ℕ) × (redact_token (ws_url client) ≡ head ++ codes "token=REDACTED"))
redact_token-ws_url_example = redact_token-ws_url client "other"
