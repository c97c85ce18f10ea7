-- ===== src/Session/Whole.antt =====
-- src/event_loop.rs and src/session_runner.rs: a session of any length, from its first chunk event to
-- its upload, with the loop and the runner taking turns.
use mathlib.Core.Path.{subst}
use chronicle_worker.Prelude.{
  ℕ, suc, ◌≡◌, refl, sym, ◌∙◌, inl, inr, List, [], ◌∷◌, ◌++◌, map, none, some, arith,
}
use chronicle_worker.Ids.{SessionId, PseudoId, Seq}
use chronicle_worker.Http.{Host}
use chronicle_worker.Api.{Io}
use chronicle_worker.Pipeline.{Foreign, Library}
use chronicle_worker.Runner.Reorder.{Bytes}
use chronicle_worker.Runner.Reorder.Order.{AllSeqs}
use chronicle_worker.Runner.Wire.{CreateInputWire}
use chronicle_worker.Runner.Outputs.{Posting}
use chronicle_worker.Runner.Streaming.{RunnerCmd, ingest_chunk, finalize, run_loop, started}
use chronicle_worker.Runner.Streaming.Absorb.{Serves, told_of}
use chronicle_worker.Runner.Streaming.Heard.{HeardAll}
use chronicle_worker.EventLoop.{Loop, Task, lookup, find_task}
use chronicle_worker.EventLoop.Handlers.{chunk_uploaded, handle_ws_event}
use chronicle_worker.EventLoop.Steps.{Step, Reach, next}
use chronicle_worker.EventLoop.Delivery.{first_task, chunk_uploaded-outcomes}
use chronicle_worker.Session.{finalized-HeardAll}
use chronicle_worker.Session.Turns.{Turns, session_fifo}

module _ {t : Foreign} (lib : Library t) (host : Host (CreateInputWire t)) where
  -- A session that is not active in a reachable state gets a runner with its first chunk event. Let
  -- the loop and that runner take turns, until the events have told of chunks, in any order and of any
  -- speakers, and then of the upload. Run on the commands that it has taken and those that wait, the
  -- loop of the runner ends with a pipeline that has been given, for each speaker, the decoded chunks
  -- up to the first that the events did not tell of, each once and in order (but for those without
  -- samples); this if the data-api serves all chunks (and the numbers of the chunks have successors
  -- below 2 ^ 32).
  pub chunks_processed :
      (io : Io host) (now : ℕ) (backoffs : List ℕ) (s u : Loop host) (session : SessionId)
      (content : PseudoId → ℕ → Bytes)
      → Serves host session content
      → Reach host io now backoffs s
      → lookup session s.active ≡ none
      → (first_pid : PseudoId) (first_seq : Seq) (made taken : List RunnerCmd)
        (cs : List (PseudoId × Seq))
      → Turns host session s.next_id
          (handle_ws_event host (chunk_uploaded session first_pid first_seq) s).1
          u
          made
          taken
      → ingest_chunk first_pid first_seq ∷ made ≡ told_of cs ++ finalize ∷ []
      → (fuel : ℕ) (posting : Posting host) (pipeline : lib.Pipeline) → AllSeqs (map (λ c. c.1) cs)
      → (task : Task) × (lookup session u.active ≡ some s.next_id)
        × (find_task s.next_id u.tasks ≡ some task)
        × HeardAll lib content cs pipeline
            (run_loop lib host
              (suc fuel)
              session
              (taken ++ task.inbox)
              (started lib host posting pipeline)).1.pipeline
  chunks_processed io now backoffs s u session content serves r free first_pid first_seq made taken
        cs turns told_all fuel posting pipeline small =
      let first = chunk_uploaded session first_pid first_seq in
      elim (chunk_uploaded-outcomes host session first_pid first_seq s) [
        | inl (id, busy, _) ↦ absurd (grind arith)
        | inr (_, _, (entered, found)) ↦
            let task = first_task s.next_id session (ingest_chunk first_pid first_seq) in
            let (still, (task', found', even)) =
              session_fifo host io now backoffs (handle_ws_event host first s).1 u session s.next_id
                task made taken (next r (Step.bus_event s first)) entered found refl turns in
            (
              task',
              still,
              found',
              subst
                  (λ cmds.
                    HeardAll lib content cs pipeline
                      (run_loop lib host (suc fuel) session cmds
                        (started lib host posting pipeline)).1.pipeline)
                  (sym told_all ∙ even)
                  (finalized-HeardAll lib host session content serves fuel cs posting pipeline
                    small),
            )
      ]
