-- ===== src/Session.antt =====
-- src/event_loop.rs and src/session_runner.rs together: a session from its first chunk event to the
-- runner's last command. What the loop leaves in the channel is what the runner's body reads.
pub mod Turns
pub mod Whole
pub mod Ending
pub mod Isolated
pub mod Completes
pub mod Transcribed
use mathlib.Core.Path.{subst}
use chronicle_worker.Prelude.{
  ℕ, suc, ◌+◌, ◌≤◌, ◌<◌, ◌≡◌, refl, ap, sym, ◌∙◌, inl, inr, true, List, [], ◌∷◌, ◌++◌, map, Option,
  none, some, Option-cases, length, length-append, length-map, ==_refl, arith, if◌then◌else◌,
}
use chronicle_worker.Ids.{SessionId, PseudoId, Seq}
use chronicle_worker.Exec.{Outcome, ok, err, pending, settle}
use chronicle_worker.Http.{Host}
use chronicle_worker.Api.{Io}
use chronicle_worker.Pipeline.{Foreign, Library}
use chronicle_worker.Runner.Reorder.{Bytes}
use chronicle_worker.Runner.Reorder.Order.{AllSeqs}
use chronicle_worker.Runner.Wire.{CreateInputWire}
use chronicle_worker.Runner.Outputs.{Posting}
use chronicle_worker.Runner.Streaming.{
  RunnerCmd, ingest_chunk, finalize, Streaming, ingest_one, run_loop, started,
}
use chronicle_worker.Runner.Streaming.Absorb.{Serves, told_of}
use chronicle_worker.Runner.Streaming.Heard.{HeardAll, run_loop-HeardAll}
use chronicle_worker.EventLoop.{Loop, Task, TaskId, streaming, lookup, find_task, capacity}
use chronicle_worker.EventLoop.Handlers.{
  BusEvent, chunk_uploaded, session_uploaded, handle_ws_event, run_events,
}
use chronicle_worker.EventLoop.Steps.{Step, Reach, next}
use chronicle_worker.EventLoop.Delivery.{first_task, chunk_uploaded-outcomes}
use chronicle_worker.EventLoop.Inbox.{AllOwn, commands, reach-Runs, run_events-own}

-- The events of a session whose chunks are announced in this order, and which is then uploaded.
abbrev pub life : SessionId → List (PseudoId × Seq) → List BusEvent
life session [] = session_uploaded session ∷ []
life session ((pid, seq) ∷ cs) = chunk_uploaded session pid seq ∷ life session cs

life-AllOwn :
    (session : SessionId) (id : TaskId) (cs : List (PseudoId × Seq)) {Row : Type 0}
    (host : Host Row)
    → AllOwn host session id (life session cs)
life-AllOwn session id [] host = ((finalize, rw (==_refl session) refl), tt)
life-AllOwn session id ((pid, seq) ∷ cs) host =
    ((ingest_chunk pid seq, rw (==_refl session) refl), life-AllOwn session id cs host)

commands-life :
    (session : SessionId) (cs : List (PseudoId × Seq))
    → commands session (life session cs) ≡ told_of cs ++ finalize ∷ []
commands-life session [] = rw (==_refl session) refl
commands-life session ((pid, seq) ∷ cs) =
    rw (==_refl session) (ap (◌∷◌ (ingest_chunk pid seq)) (commands-life session cs))

length-life :
    (session : SessionId) (cs : List (PseudoId × Seq)) → length (life session cs) ≡ suc (length cs)
length-life session [] = refl
length-life session (c ∷ cs) = ap suc (length-life session cs)

module _ {t : Foreign} (lib : Library t) (host : Host (CreateInputWire t)) where
  settled_pipeline :
      (r : Outcome (Unit {0})) (f g : Streaming lib host → Outcome (Unit {0}) × Streaming lib host)
      (s : Streaming lib host)
      → (f s).1.pipeline ≡ (g s).1.pipeline
      → (settle r (λ _. f) (λ _. f) s).1.pipeline ≡ (settle r (λ _. g) (λ _. g) s).1.pipeline
  settled_pipeline (ok a) f g s e = e
  settled_pipeline (err x) f g s e = e
  settled_pipeline pending f g s e = refl

  -- The command to finalize takes no part in what the pipeline is given.
  pub run_loop-finalize :
      (fuel : ℕ) (session : SessionId) (cs : List (PseudoId × Seq)) (s : Streaming lib host)
      → (run_loop lib host fuel session (told_of cs ++ finalize ∷ []) s).1.pipeline
        ≡ (run_loop lib host fuel session (told_of cs) s).1.pipeline
  unfolding run_loop
  run_loop-finalize fuel session [] s = refl
  run_loop-finalize fuel session ((pid, seq) ∷ cs) s =
      let (r, u) = ingest_one lib host fuel session pid seq s in
      settled_pipeline r (run_loop lib host fuel session (told_of cs ++ finalize ∷ []))
        (run_loop lib host fuel session (told_of cs)) u (run_loop-finalize fuel session cs u)

  -- The chunks that the pipeline has been given when it is finalized.
  pub finalized-HeardAll :
      (session : SessionId) (content : PseudoId → ℕ → Bytes)
      → Serves host session content
      → (fuel : ℕ) (cs : List (PseudoId × Seq)) (posting : Posting host) (pipeline : lib.Pipeline)
      → AllSeqs (map (λ c. c.1) cs)
      → HeardAll lib content cs pipeline
          (run_loop lib host
            (suc fuel)
            session
            (told_of cs ++ finalize ∷ [])
            (started lib host posting pipeline)).1.pipeline
  finalized-HeardAll session content serves fuel cs posting pipeline small =
      subst (HeardAll lib content cs pipeline)
        (sym (run_loop-finalize (suc fuel) session cs (started lib host posting pipeline)))
        (run_loop-HeardAll lib host session content serves fuel cs posting pipeline small)

  -- A session that begins, in a reachable state: the first event spawns its runner, which gets the
  -- command of each event.
  abbrev Lives :
      Loop host → SessionId → List (PseudoId × Seq) → Outcome (Unit {0}) × Loop host → Type 0
  Lives s session cs (r, u) =
      (r ≡ ok tt)
      × (lookup session u.active ≡ some s.next_id)
      × (find_task s.next_id u.tasks
          ≡ some (record (first_task s.next_id session finalize) {
            inbox = told_of cs ++ finalize ∷ [];
          }))

  life-Lives :
      (io : Io host) (now : ℕ) (backoffs : List ℕ) (s : Loop host) (session : SessionId)
      (pid : PseudoId) (seq : Seq) (cs : List (PseudoId × Seq))
      → Reach host io now backoffs s
      → lookup session s.active ≡ none
      → suc (length cs) < capacity
      → Lives s session ((pid, seq) ∷ cs) (run_events host (life session ((pid, seq) ∷ cs)) s)
  unfolding run_events
  life-Lives io now backoffs s session pid seq cs r free room =
      elim (chunk_uploaded-outcomes host session pid seq s) [
        | inl (id, busy, _) ↦ absurd (grind arith)
        | inr (_, done, (entered, found)) ↦
            let u = (handle_ws_event host (chunk_uploaded session pid seq) s).1 in
            let task = first_task s.next_id session (ingest_chunk pid seq) in
            let reached : Reach host io now backoffs u =
              next r (Step.bus_event s (chunk_uploaded session pid seq)) in
            let small : length task.inbox + length (life session cs) ≤ capacity =
              rw (length-life session cs) (omega arith) in
            let (fine, k) =
              run_events-own host session s.next_id (life session cs) task u refl
                (life-AllOwn session s.next_id cs host) small
                (reach-Runs host io now backoffs u session s.next_id task reached entered found) in
            rw done (
              fine,
              k.entered,
              k.found
                  ∙ ap (λ cmds. some (record task { inbox = ingest_chunk pid seq ∷ cmds }))
                      (commands-life session cs),
            )
      ]

  -- For a session that is not active in a reachable state, one to 63 chunk events and then its upload,
  -- handled one after the other, never make the loop wait; they leave the session active under a
  -- streaming runner. Started on the commands that then wait in its channel, the loop of that runner
  -- ends with a pipeline that has been given, for each speaker, the decoded chunks up to the first
  -- that the events do not tell of, each once and in order (but for those without samples), in
  -- whatever order the events come and the speakers mix; this if the data-api serves all chunks (and
  -- the numbers of the chunks have successors below 2 ^ 32).
  pub session_processed :
      (io : Io host) (now : ℕ) (backoffs : List ℕ) (s : Loop host) (session : SessionId)
      (content : PseudoId → ℕ → Bytes)
      → Serves host session content
      → Reach host io now backoffs s
      → lookup session s.active ≡ none
      → (first : PseudoId × Seq) (others : List (PseudoId × Seq)) → length others ≤ 62
      → (fuel : ℕ) (posting : Posting host) (pipeline : lib.Pipeline)
      → AllSeqs (map (λ c. c.1) (first ∷ others))
      → (let run = run_events host (life session (first ∷ others)) s in
          (run.0 ≡ ok tt)
          × ((id : TaskId) × (task : Task) × (lookup session run.1.active ≡ some id)
              × (find_task id run.1.tasks ≡ some task)
              × (task.mode ≡ streaming)
              × HeardAll lib content
                  (first ∷ others)
                  pipeline
                  (run_loop lib host
                    (suc fuel)
                    session
                    task.inbox
                    (started lib host posting pipeline)).1.pipeline))
  session_processed io now backoffs s session content serves r free (first_pid, first_seq) others
        few fuel posting pipeline small =
      let cs = (first_pid, first_seq) ∷ others in
      let (fine, entered, found) =
        life-Lives io now backoffs s session first_pid first_seq others r free (omega arith) in
      (
        fine,
        (
          s.next_id,
          _,
          entered,
          found,
          refl,
          finalized-HeardAll session content serves fuel cs posting pipeline small,
        ),
      )
