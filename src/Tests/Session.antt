-- ===== src/Tests/Session.antt =====
-- A session from its first chunk event to its upload, against a data-api where every request succeeds.
use chronicle_worker.Prelude.{inr, All, ℕ, ◌≡◌, refl, none, some, List, [], ◌∷◌, ◌++◌, arith, true}
use chronicle_worker.Ids.{PseudoId}
use chronicle_worker.Sets.{add}
use chronicle_worker.Exec.{ok}
use chronicle_worker.Runner.Reorder.{Bytes, arrange}
use chronicle_worker.Runner.Streaming.{
  RunnerCmd, ingest_chunk, finalize, abort, run_loop, started, place,
}
use chronicle_worker.Runner.Streaming.Absorb.{Serves}
use chronicle_worker.Runner.Streaming.Heard.{HeardAll}
use chronicle_worker.EventLoop.{Loop, Task, TaskId, RunnerMode, lookup, find_task, change_task}
use chronicle_worker.EventLoop.Handlers.{
  chunk_uploaded, session_uploaded, handle_ws_event, run_events, startup_reconcile, poll_reconcile,
}
use chronicle_worker.EventLoop.Steps.{Step, here, next, start}
use chronicle_worker.Session.{life, session_processed}
use chronicle_worker.Session.Turns.{Turns, leave, session_fifo}
use chronicle_worker.Session.Whole.{chunks_processed}
use chronicle_worker.Api.Requests.{At}
use chronicle_worker.Session.Isolated.{IsOwn, IsUnclaimed, run-IsOwn, run-IsUnclaimed}
use chronicle_worker.Runner.Succeeds.{Answering}
use chronicle_worker.Runner.Streaming.Succeeds.{Working}
use chronicle_worker.Runner.OneShot.Marked.{IsMarked}
use chronicle_worker.Session.Completes.{run-IsMarked}
use chronicle_worker.Session.Transcribed.{session_transcribed}
use chronicle_worker.Session.Ending.{run, IsDone, run-IsDone}
use chronicle_worker.Tests.World.{steady, steady_io, library, posting, recorded, recorded_posting}

abbrev begun : Loop steady
begun = (startup_reconcile steady (start steady steady_io 0 [])).1

free_nine : lookup 9 begun.active ≡ none
unfolding lookup startup_reconcile
free_nine = refl

abbrev frame : Bytes
frame = 1 ∷ 0 ∷ 3 ∷ 0 ∷ []

steady-Serves : Serves steady 9 (λ pid k. frame)
steady-Serves pid seq bearer w = (frame, refl, refl)

abbrev others : List (PseudoId × ℕ)
others = ("bob", 0) ∷ ("ann", 0) ∷ []

session_processed_example :
    (let run = run_events steady (life 9 (("ann", 1) ∷ others)) begun in
      (run.0 ≡ ok tt)
      × ((id : TaskId) × (task : Task) × (lookup 9 run.1.active ≡ some id)
          × (find_task id run.1.tasks ≡ some task)
          × (task.mode ≡ RunnerMode.streaming)
          × HeardAll library
              (λ pid k. frame)
              (("ann", 1) ∷ others)
              []
              (run_loop library steady 5 9 task.inbox
                (started library steady posting [])).1.pipeline))
session_processed_example =
    session_processed library steady steady_io 0 [] begun 9 (λ pid k. frame) steady-Serves here
      free_nine ("ann", 1) others (omega arith) 4 posting [] (ground arith)

-- The runner takes the first chunk, another session's chunk is announced, a poll is made, and then
-- come the other chunks and the upload.
abbrev first : Loop steady
first = (handle_ws_event steady (chunk_uploaded 9 "ann" 1) begun).1

abbrev nine : Task
nine = record {
  id = 2;
  session = 9;
  attempt = 1;
  mode = RunnerMode.streaming;
  inbox = ingest_chunk "ann" 1 ∷ [];
  receiving = true;
  reported = true;
}

active_nine : lookup 9 first.active ≡ some 2
unfolding lookup handle_ws_event startup_reconcile
active_nine = refl

found_nine : find_task 2 first.tasks ≡ some nine
unfolding find_task handle_ws_event startup_reconcile
found_nine = refl

abbrev taking : Loop steady
taking = record first { tasks = change_task 2 (leave []) first.tasks }

abbrev strangers : Loop steady
strangers = (handle_ws_event steady (chunk_uploaded 7 "eve" 3) taking).1

abbrev polled : Loop steady
polled = (poll_reconcile steady strangers).1

abbrev with_bob : Loop steady
with_bob = (handle_ws_event steady (chunk_uploaded 9 "bob" 0) polled).1

abbrev with_ann : Loop steady
with_ann = (handle_ws_event steady (chunk_uploaded 9 "ann" 0) with_bob).1

abbrev uploaded : Loop steady
uploaded = (handle_ws_event steady (session_uploaded 9) with_ann).1

abbrev rest_made : List RunnerCmd
rest_made = ingest_chunk "bob" 0 ∷ ingest_chunk "ann" 0 ∷ finalize ∷ []

took : Turns steady 9 2 first taking [] (ingest_chunk "ann" 1 ∷ [])
took = Turns.takes Turns.begin nine (ingest_chunk "ann" 1 ∷ []) [] found_nine refl

met : Turns steady 9 2 first polled [] (ingest_chunk "ann" 1 ∷ [])
unfolding handle_ws_event poll_reconcile startup_reconcile find_task lookup
met =
    Turns.other (Turns.event took (chunk_uploaded 7 "eve" 3) refl) (Step.poll_tick strangers) refl
      refl

turns : Turns steady 9 2 first uploaded rest_made (ingest_chunk "ann" 1 ∷ [])
unfolding handle_ws_event poll_reconcile startup_reconcile
turns =
    Turns.event
      (Turns.event (Turns.event met (chunk_uploaded 9 "bob" 0) refl) (chunk_uploaded 9 "ann" 0)
        refl)
      (session_uploaded 9) refl

session_fifo_example :
    (lookup 9 uploaded.active ≡ some 2)
    × ((now : Task) × (find_task 2 uploaded.tasks ≡ some now)
        × (ingest_chunk "ann" 1 ∷ rest_made ≡ ingest_chunk "ann" 1 ∷ now.inbox))
session_fifo_example =
    session_fifo steady steady_io 0 [] first uploaded 9 2 nine rest_made (ingest_chunk "ann" 1 ∷ [])
      (next here (Step.bus_event begun (chunk_uploaded 9 "ann" 1))) active_nine found_nine refl
      turns

from_start : Turns steady 9 begun.next_id first uploaded rest_made (ingest_chunk "ann" 1 ∷ [])
unfolding startup_reconcile
from_start = turns

chunks_processed_example :
    (task : Task) × (lookup 9 uploaded.active ≡ some begun.next_id)
    × (find_task begun.next_id uploaded.tasks ≡ some task)
    × HeardAll library
        (λ pid k. frame)
        (("ann", 1) ∷ others)
        []
        (run_loop library steady 5 9
          ((ingest_chunk "ann" 1 ∷ []) ++ task.inbox)
          (started library steady posting [])).1.pipeline
chunks_processed_example =
    chunks_processed library steady steady_io 0 [] begun uploaded 9 (λ pid k. frame) steady-Serves
      here free_nine "ann" 1 rest_made (ingest_chunk "ann" 1 ∷ []) (("ann", 1) ∷ others) from_start
      refl 4 posting [] (ground arith)

abbrev cmds : List RunnerCmd
cmds = ingest_chunk "ann" 0 ∷ finalize ∷ []

run_succeeds : (run library steady 5 9 RunnerMode.streaming none cmds posting).0 ≡ ok tt
unfolding run place arrange add
run_succeeds = refl

one_shot_succeeds :
    (run library recorded 5 9 RunnerMode.one_shot none [] recorded_posting).0 ≡ ok tt
unfolding run
one_shot_succeeds = refl

run-IsDone_example :
    IsDone library steady 9 (run library steady 5 9 RunnerMode.streaming none cmds posting).1
run-IsDone_example =
    run-IsDone library steady 5 9 RunnerMode.streaming none cmds posting (inr refl) run_succeeds

run-IsOwn_example :
    All (At (IsOwn 9)) (run library steady 5 9 RunnerMode.streaming none cmds posting).1.io.trace
run-IsOwn_example = run-IsOwn library steady 5 9 RunnerMode.streaming none cmds posting tt

run-IsUnclaimed_example :
    All
      (At (IsUnclaimed 9))
      (run library steady 5 9 RunnerMode.streaming none
        (ingest_chunk "ann" 0 ∷ abort ∷ [])
        posting).1.io.trace
run-IsUnclaimed_example =
    run-IsUnclaimed library steady 5 9 none (ingest_chunk "ann" 0 ∷ abort ∷ []) posting tt tt

steady-Answering : Answering steady
steady-Answering = record {
  answers = λ request w. (200, 1 ∷ 0 ∷ 3 ∷ 0 ∷ [], refl, omega arith, omega arith);
  audio = λ body. tt;
  participants = λ body. tt;
  chunks = λ body. tt;
}

library-Working : Working library
library-Working = record {
  whisper = tt;
  built = λ chain whisper. tt;
  finished = λ pipeline. tt;
  ran = λ audio pipeline. tt;
}

run-IsMarked_example :
    ((run library steady 5 9 RunnerMode.streaming none cmds posting).0 ≡ ok tt)
    × IsMarked library steady 9 (run library steady 5 9 RunnerMode.streaming none cmds posting).1.io
run-IsMarked_example =
    run-IsMarked library steady steady-Answering library-Working 4 9 RunnerMode.streaming none cmds
      posting (inr refl)

session_transcribed_example :
    (task : Task) × (lookup 9 uploaded.active ≡ some begun.next_id)
    × (find_task begun.next_id uploaded.tasks ≡ some task)
    × (let body =
          run library steady 5 9 task.mode none
            ((ingest_chunk "ann" 1 ∷ []) ++ task.inbox)
            posting in
        (body.0 ≡ ok tt) × IsMarked library steady 9 body.1.io)
session_transcribed_example =
    session_transcribed library steady steady-Answering library-Working steady_io 0 [] begun
      uploaded 9 here free_nine "ann" 1 rest_made (ingest_chunk "ann" 1 ∷ []) (("ann", 1) ∷ others)
      from_start refl 4 none posting
