-- ===== src/Session/Transcribed.antt =====
-- src/event_loop.rs and src/session_runner.rs: a session from its first chunk event to the mark
-- `transcribed`.
use chronicle_worker.Prelude.{
  ℕ, suc, ◌≡◌, refl, ap, sym, ◌∙◌, inl, inr, true, String, Option, List, [], ◌∷◌, ◌++◌, none, some,
  arith,
}
use chronicle_worker.Ids.{SessionId, PseudoId, Seq}
use chronicle_worker.Exec.{ok}
use chronicle_worker.Http.{Host}
use chronicle_worker.Api.{Io}
use chronicle_worker.Pipeline.{Foreign, Library}
use chronicle_worker.Runner.Wire.{CreateInputWire}
use chronicle_worker.Runner.Outputs.{Posting}
use chronicle_worker.Runner.Succeeds.{Answering}
use chronicle_worker.Runner.Streaming.{RunnerCmd, ingest_chunk, finalize}
use chronicle_worker.Runner.Streaming.Absorb.{told_of}
use chronicle_worker.Runner.Streaming.Succeeds.{Working}
use chronicle_worker.Runner.OneShot.Marked.{IsMarked}
use chronicle_worker.EventLoop.{Loop, Task, lookup, find_task}
use chronicle_worker.EventLoop.Handlers.{chunk_uploaded, handle_ws_event}
use chronicle_worker.EventLoop.Steps.{Step, Reach, next}
use chronicle_worker.EventLoop.Delivery.{first_task, chunk_uploaded-outcomes}
use chronicle_worker.Session.Turns.{Turns, session_fifo}
use chronicle_worker.Session.Ending.{run, is_finalized}
use chronicle_worker.Session.Completes.{run-IsMarked}

told-finalized : (cs : List (PseudoId × Seq)) → is_finalized (told_of cs ++ finalize ∷ []) ≡ true
told-finalized [] = refl
told-finalized (c ∷ cs) = told-finalized cs

module _ {t : Foreign} (lib : Library t) (host : Host (CreateInputWire t))
    (answering : Answering host) (working : Working lib) where
  -- A session that is not active in a reachable state gets a runner with its first chunk event. Let
  -- the loop and that runner take turns, until the events have told of chunks and then of the upload.
  -- If the data-api answers every request with a status of success and a body that can be read, and
  -- the pipeline can be set up and finished, then the body of the runner, on the commands that it has
  -- taken and those that wait, succeeds and ends with the request that marks the session transcribed.
  pub session_transcribed :
      (io : Io host) (now : ℕ) (backoffs : List ℕ) (s u : Loop host) (session : SessionId)
      → Reach host io now backoffs s
      → lookup session s.active ≡ none
      → (first_pid : PseudoId) (first_seq : Seq) (made taken : List RunnerCmd)
        (cs : List (PseudoId × Seq))
      → Turns host session s.next_id
          (handle_ws_event host (chunk_uploaded session first_pid first_seq) s).1
          u
          made
          taken
      → ingest_chunk first_pid first_seq ∷ made ≡ told_of cs ++ finalize ∷ []
      → (fuel : ℕ) (url : Option String) (posting : Posting host)
      → (task : Task) × (lookup session u.active ≡ some s.next_id)
        × (find_task s.next_id u.tasks ≡ some task)
        × (let body = run lib host (suc fuel) session task.mode url (taken ++ task.inbox) posting in
            (body.0 ≡ ok tt) × IsMarked lib host session body.1.io)
  session_transcribed io now backoffs s u session r free first_pid first_seq made taken cs turns
        told_all fuel url posting =
      let first = chunk_uploaded session first_pid first_seq in
      elim (chunk_uploaded-outcomes host session first_pid first_seq s) [
        | inl (id, busy, _) ↦ absurd (grind arith)
        | inr (_, _, (entered, found)) ↦
            let task = first_task s.next_id session (ingest_chunk first_pid first_seq) in
            let (still, (task', found', even)) =
              session_fifo host io now backoffs (handle_ws_event host first s).1 u session s.next_id
                task made taken (next r (Step.bus_event s first)) entered found refl turns in
            let whole : is_finalized (taken ++ task'.inbox) ≡ true =
              sym (ap is_finalized (sym told_all ∙ even)) ∙ told-finalized cs in
            (
              task',
              still,
              found',
              run-IsMarked lib host answering working fuel session task'.mode url
                  (taken ++ task'.inbox) posting (inr whole),
            )
      ]
