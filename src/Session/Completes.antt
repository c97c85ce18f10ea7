-- ===== src/Session/Completes.antt =====
-- src/session_runner.rs: the body of a runner beside a data-api and a pipeline that answer.
use chronicle_worker.Prelude.{ℕ, suc, ◌≡◌, ◌⊎◌, inl, inr, true, String, Option, List}
use chronicle_worker.Ids.{SessionId}
use chronicle_worker.Exec.{Outcome, ok, err, pending}
use chronicle_worker.Exec.Returns.{IsOk, IsOk-ok, Succeeds}
use chronicle_worker.Http.{Host}
use chronicle_worker.Api.Sessions.{claim_session}
use chronicle_worker.Pipeline.{Foreign, Library}
use chronicle_worker.Runner.Wire.{CreateInputWire}
use chronicle_worker.Runner.Outputs.{Posting}
use chronicle_worker.Runner.Succeeds.{Answering, claim_session-Succeeds}
use chronicle_worker.Runner.Streaming.{RunnerCmd}
use chronicle_worker.Runner.Streaming.Finish.{IsLost}
use chronicle_worker.Runner.Streaming.Succeeds.{Working, run_streaming-Succeeds}
use chronicle_worker.Runner.OneShot.Succeeds.{run_one_shot-Succeeds}
use chronicle_worker.Runner.OneShot.Marked.{IsMarked}
use chronicle_worker.EventLoop.{RunnerMode, streaming, one_shot}
use chronicle_worker.Session.Ending.{run, is_finalized, run-IsDone}

not_lost : (r : Outcome (Unit {0})) → IsOk r → IsLost r → ⊥
not_lost (ok a) h l = l
not_lost (err e) h l = h
not_lost pending h l = h

module _ {t : Foreign} (lib : Library t) (host : Host (CreateInputWire t))
    (answering : Answering host) (working : Working lib) where
  run-Succeeds :
      (fuel : ℕ) (session : SessionId) (mode : RunnerMode) (url : Option String)
      (cmds : List RunnerCmd)
      → Succeeds (run lib host (suc fuel) session mode url cmds)
  unfolding run
  run-Succeeds fuel session streaming url cmds =
      run_streaming-Succeeds lib host answering working fuel session url cmds
  run-Succeeds fuel session one_shot url cmds =
      run_one_shot-Succeeds lib host answering working fuel session url

  -- If the data-api answers every request with a status of success and a body that can be read, and the
  -- pipeline can be set up and finished, then the body of a runner succeeds, in one-shot mode, and in
  -- streaming mode on commands where one to finalize comes before any to abort; and the last thing
  -- that it has done is the request that marks the session transcribed.
  pub run-IsMarked :
      (fuel : ℕ) (session : SessionId) (mode : RunnerMode) (url : Option String)
      (cmds : List RunnerCmd) (s : Posting host)
      → (mode ≡ one_shot) ⊎ (is_finalized cmds ≡ true)
      → ((run lib host (suc fuel) session mode url cmds s).0 ≡ ok tt)
        × IsMarked lib host session (run lib host (suc fuel) session mode url cmds s).1.io
  run-IsMarked fuel session mode url cmds s h =
      let done =
        IsOk-ok (run lib host (suc fuel) session mode url cmds s).0
          (run-Succeeds fuel session mode url cmds s) in
      (
        done,
        elim (run-IsDone lib host (suc fuel) session mode url cmds s h done) [
          | inl (u, (lost, _)) ↦ absurd (
              not_lost (claim_session host session u.io).0
                (claim_session-Succeeds host answering session u.io) lost)
          | inr marked ↦ marked
        ],
      )
