-- ===== src/Lib.antt =====
-- The chronicle worker: it turns the audio chunks of recorded sessions into transcripts. It listens
-- to a bus of the data-api, runs one task for each session, and posts what a transcription pipeline
-- finds.
--
-- The parts, and the files that model them (paths from the repository's root):
--   * src/ids.rs, src/error.rs: Ids, Error. `WorkerError` with its retry classification.
--   * src/decode.rs: Decode. The downmix of stereo bytes to mono samples, casts written out.
--   * src/retry.rs: Retry. The heap of due retries; `schedule`, and `next_ready` in rounds.
--   * src/api_client.rs: Http, Api, Api.Sessions, Api.Chunks, Api.Outputs. Each method of the client is
--     a state transformer over the client's token, the world behind the network and a trace of the
--     requests and waits. Api.Plan has what carries out a fixed list of
--     requests, up to the first that is not answered well.
--   * src/session_runner.rs: Pipeline, Runner.Reorder (the reorder buffer of `ingest_one`),
--     Runner.Wire, Runner.Outputs (`write_new_outputs`), Runner.Streaming (`run_streaming` and what it
--     calls; Runner.Streaming.Heard is about what the pipeline is given, over all speakers), Runner.OneShot (`run_one_shot`, `clear_prior_outputs`).
--   * src/event_loop.rs: EventLoop (state, channels, spawning), EventLoop.Handlers (one function for
--     each handler), EventLoop.Steps (the `select!` loop as a step relation), EventLoop.Quiet (the
--     steps of it that bring no new work).
--   * src/event_loop.rs and src/session_runner.rs together: Session. What the loop leaves in a
--     runner's channel is what the body of that runner reads; Session.Turns has the two taking turns,
--     and Session.Ending the body of a runner in either mode (`run`). Session.Isolated is about the
--     requests of that body, Session.Completes and Session.Transcribed about a data-api that answers.
--   * src/ws.rs: Bus. Messages to events, and the reconnects over a list of attempts to connect;
--     Bus.Url has the redaction of the logged address, and Api.Address the address itself.
--   * src/config.rs: Config, on texts as lists of code points (Strings has what is used of Rust's
--     `str`).
--   * src/whisper.rs: Whisper (the client of the transcription server) and Whisper.Wav (its encoder).
--   * src/admin.rs: Admin. The handlers, together with the loop that they send their commands to.
--   * src/main.rs and the start of `run`: Boot. The task of `spawn_heartbeat`: Heartbeat.
-- Exec is the shape of all stateful code: an outcome beside the state after it. Prelude has what the
-- modules share; Sets has the sets of numbers. Tests has concrete inputs, and Tests.Units the unit
-- tests that stand in the source files.
--
-- How the parts meet: the event loop spawns runners and sends them commands; a runner calls the
-- client and the pipeline library; the end of a runner comes back to the loop, which may put a retry
-- into the queue. `main` gets from the configuration, over the handshake, to the state in which the
-- step relation begins; an admin request goes through the loop. The one-shot and the streaming
-- runner share the claim, `write_new_outputs` and the mark `transcribed`.
--
-- Parameters: the data-api, reqwest and serde are one record, `Host`, that answers requests from a
-- state of its own and decodes bodies; the pipeline library is the record `Library` over the types
-- of `Foreign` (floats, JSON values, timestamps). It also holds what the Whisper client that the
-- runners build stands on. The Whisper client has the record `Floats` for the
-- arithmetic of f32 and `Server` for the transcription server; `Given` is what reqwest's client and
-- the binding of an address come to at the start. Nothing is assumed of them but what a theorem names
-- as a hypothesis. Time is a number of milliseconds; a UUID is a number.
--
-- Fuel: only the loop of `download_chunk` takes fuel, since it has no bound of its own on answers
-- with 401, and an outcome `pending` says that it is used up. All other loops are structural; the
-- loop that drains the reorder buffer takes as many rounds as the buffer has entries, and each round
-- takes one out.
--
-- In the step relation a handler runs whole. The loop is one task, so no other handler runs in
-- between; what runners, the heartbeat and the data-api do meanwhile is put before or after it. The
-- end of a runner has any outcome there, and a runner takes any number of commands off the front of
-- its channel. Session puts the body of a runner, on all the commands of its channel, beside that.
--
-- Every handler that starts or stops runs is put together from a few changes of the state;
-- EventLoop.Kept lifts a predicate that those keep to the handlers, and EventLoop.Invariant to all
-- states that the loop reaches. Api.Requests and Runner.Requests do the same for a predicate on the
-- requests that a call makes.
--
-- Not modelled: the reading of the environment by clap (src/config.rs), the set-up of logging
-- (src/main.rs), and the timers, sockets and routers of tokio and axum. Log lines are left out
-- everywhere.
pub mod Prelude
pub mod Ids
pub mod Error
pub mod Sets
pub mod Session
pub mod Strings
pub mod Config
pub mod Pipeline
pub mod Decode
pub mod Retry
pub mod Exec
pub mod Http
pub mod Admin
pub mod Api
pub mod Runner
pub mod EventLoop
pub mod Heartbeat
pub mod Bus
pub mod Boot
pub mod Whisper
pub mod Tests
