-- ===== src/Session/Ending.antt =====
-- src/session_runner.rs: the body of a runner in either of its modes, and how it ends.
use chronicle_worker.Prelude.{
  ℕ, ◌≡◌, ap, ◌⊎◌, inl, inr, Bool, true, false, Option, String, List, [], ◌∷◌,
}
use chronicle_worker.Ids.{SessionId}
use chronicle_worker.Exec.{Outcome, ok, err, pending, Exec, resume, settle, ◌>>=◌}
use chronicle_worker.Http.{Host}
use chronicle_worker.Api.Sessions.{claim_session}
use chronicle_worker.Pipeline.{Foreign, Library}
use chronicle_worker.Runner.Wire.{CreateInputWire}
use chronicle_worker.Runner.Outputs.{Posting}
use chronicle_worker.Runner.Streaming.{
  RunnerCmd, ingest_chunk, finalize, abort, Streaming, started, of_pipeline, write_and_mark,
  ingest_one, finalize_streaming, build_pipeline, run_loop, run_streaming,
}
use chronicle_worker.Runner.Streaming.Finish.{IsLost}
use chronicle_worker.Runner.OneShot.{run_one_shot}
use chronicle_worker.Runner.OneShot.Marked.{
  IsMarked, Ends, bind-Leaves, write_and_mark-Ends, claimed, run_one_shot-IsMarked,
}
use chronicle_worker.EventLoop.{RunnerMode, streaming, one_shot}

-- Whether a command to finalize comes before any to abort.
abbrev pub is_finalized : List RunnerCmd → Bool
is_finalized [] = false
is_finalized (ingest_chunk pseudo seq ∷ cmds) = is_finalized cmds
is_finalized (finalize ∷ cmds) = true
is_finalized (abort ∷ cmds) = false

module _ {t : Foreign} (lib : Library t) (host : Host (CreateInputWire t)) where
  -- A one-shot runner does not read its commands.
  unfoldable pub run :
      ℕ → SessionId → RunnerMode → Option String → List RunnerCmd → Exec (Posting host) Unit
  unfolding run_streaming run_one_shot
  run fuel session streaming url cmds = run_streaming lib host fuel session url cmds
  run fuel session one_shot url cmds = run_one_shot lib host fuel session url

  -- A claim was lost and nothing was done after it, or the last thing done is the request that marks
  -- the session transcribed.
  abbrev pub IsDone : SessionId → Posting host → Type 0
  IsDone session s' =
      ((s : Posting host) × (let claim = claim_session host session s.io in
          IsLost claim.0 × (s'.io ≡ claim.1)))
      ⊎ IsMarked lib host session s'.io

  finalize-IsDone :
      (session : SessionId) (pipeline : lib.Pipeline) (s : Posting host)
      → (finalize_streaming lib host session pipeline s).0 ≡ ok tt
      → IsDone session (finalize_streaming lib host session pipeline s).1
  unfolding finalize_streaming
  finalize-IsDone session pipeline s e =
      let (r, io) = claim_session host session s.io in
      let body : Exec (Posting host) (Unit {0}) =
        of_pipeline lib host (lib.finalize pipeline) >>= write_and_mark lib host session in
      let body-Ends =
        bind-Leaves (Ends lib host session) (of_pipeline lib host (lib.finalize pipeline))
          (write_and_mark lib host session) (write_and_mark-Ends lib host session) in
      elim (claimed lib host session body r (record s { io = io }) body-Ends e) [
        | inl (lost, same) ↦ inl (s, (lost, ap (λ (x : Posting host). x.io) same))
        | inr marked ↦ inr marked
      ]

  settled-IsDone :
      (session : SessionId) (r : Outcome (Unit {0}))
      (rest : Streaming lib host → Outcome (Unit {0}) × Streaming lib host) (s : Streaming lib host)
      → ((rest s).0 ≡ ok tt → IsDone session (rest s).1.posting)
      → (settle r (λ _. rest) (λ _. rest) s).0 ≡ ok tt
      → IsDone session (settle r (λ _. rest) (λ _. rest) s).1.posting
  settled-IsDone session (ok a) rest s k e = k e
  settled-IsDone session (err x) rest s k e = k e
  settled-IsDone session pending rest s k e = absurd cc

  run_loop-IsDone :
      (fuel : ℕ) (session : SessionId) (cmds : List RunnerCmd) (s : Streaming lib host)
      → is_finalized cmds ≡ true
      → (run_loop lib host fuel session cmds s).0 ≡ ok tt
      → IsDone session (run_loop lib host fuel session cmds s).1.posting
  unfolding run_loop
  run_loop-IsDone fuel session [] s f e = absurd cc
  run_loop-IsDone fuel session (abort ∷ cmds) s f e = absurd cc
  run_loop-IsDone fuel session (finalize ∷ cmds) s f e =
      finalize-IsDone session s.pipeline s.posting e
  run_loop-IsDone fuel session (ingest_chunk pseudo seq ∷ cmds) s f e =
      let (r, u) = ingest_one lib host fuel session pseudo seq s in
      settled-IsDone session r (run_loop lib host fuel session cmds) u
        (run_loop-IsDone fuel session cmds u f) e

  built-IsDone :
      (session : SessionId) (r : Outcome lib.Pipeline) (fuel : ℕ) (cmds : List RunnerCmd)
      (s : Posting host)
      → is_finalized cmds ≡ true
      → (let body : lib.Pipeline → Exec (Posting host) (Unit {0}) = λ pipeline posting.
            let (q, u) = run_loop lib host fuel session cmds (started lib host posting pipeline) in
            (q, u.posting) in
          (resume r body s).0 ≡ ok tt → IsDone session (resume r body s).1)
  built-IsDone session (ok pipeline) fuel cmds s f e =
      run_loop-IsDone fuel session cmds (started lib host s pipeline) f e
  built-IsDone session (err x) fuel cmds s f e = absurd cc
  built-IsDone session pending fuel cmds s f e = absurd cc

  -- A runner's body that succeeds, in one-shot mode, or in streaming mode on commands where one to
  -- finalize comes before any to abort, has either lost its claim and done nothing after that, or the
  -- last thing it has done is the request that marks the session transcribed.
  pub run-IsDone :
      (fuel : ℕ) (session : SessionId) (mode : RunnerMode) (url : Option String)
      (cmds : List RunnerCmd) (s : Posting host)
      → (mode ≡ one_shot) ⊎ (is_finalized cmds ≡ true)
      → (run fuel session mode url cmds s).0 ≡ ok tt
      → IsDone session (run fuel session mode url cmds s).1
  unfolding run run_streaming
  run-IsDone fuel session one_shot url cmds s h e =
      elim (run_one_shot-IsMarked lib host session fuel url s e) [
        | inl (lost, same) ↦ inl (s, (lost, same))
        | inr marked ↦ inr marked
      ]
  run-IsDone fuel session streaming url cmds s (inl other) e = absurd cc
  run-IsDone fuel session streaming url cmds s (inr f) e =
      let (r, u) = build_pipeline lib host url s in built-IsDone session r fuel cmds u f e
