-- ===== src/Runner/Streaming/Requests.antt =====
-- src/session_runner.rs: which requests a streaming runner makes.
use chronicle_worker.Prelude.{
  ℕ, String, Option, Bool-cases, inl, inr, List, [], ◌∷◌, ◌≡◌, refl, sym,
}
use mathlib.Core.Path.{subst}
use chronicle_worker.Ids.{SessionId, PseudoId, Seq}
use chronicle_worker.Error.{WorkerError}
use chronicle_worker.Sets.{contains}
use chronicle_worker.Exec.{Exec, ◌>>=◌}
use chronicle_worker.Exec.Keeps.{Keeps, Keeps-bind, Keeps-handle}
use chronicle_worker.Http.{Host, Endpoint, Parsed, parsed, broken}
use chronicle_worker.Api.Sessions.{claim_session, mark_transcribed}
use chronicle_worker.Api.Chunks.{download_chunk}
use chronicle_worker.Api.Requests.{download_chunk-Sends}
use chronicle_worker.Whisper.{Answer, HttpWhisperClient, from_config}
use chronicle_worker.Pipeline.{Foreign, Library, OperatorKind, PipelineOutput}
use chronicle_worker.Runner.Reorder.{Bytes, Chunk, arrange}
use chronicle_worker.Runner.Wire.{CreateInputWire}
use chronicle_worker.Runner.Outputs.{Posting, on_io, write_new_outputs}
use chronicle_worker.Runner.Requests.{
  Posts, on_io-Posts, write_new_outputs-Posts, claim_session-Sends, mark_transcribed-Sends,
}
use chronicle_worker.Runner.Streaming.{
  RunnerCmd, ingest_chunk, finalize, abort, Streaming, on_posting, of_pipeline, feed, after_arrange,
  place, speaker, set_speaker, ingest_one, unless_lost, with_claim, write_and_mark,
  finalize_streaming, with_whisper, operator_chain, build_pipeline, run_loop, started,
  run_streaming,
}

-- A command to finalize is not among these.
abbrev pub NoFinalize : List RunnerCmd → Type 0
NoFinalize [] = Unit
NoFinalize (ingest_chunk pseudo seq ∷ cmds) = NoFinalize cmds
NoFinalize (finalize ∷ cmds) = ⊥
NoFinalize (abort ∷ cmds) = Unit

module _ {t : Foreign} (lib : Library t) (host : Host (CreateInputWire t)) (P : Endpoint → Type 0)
    (p_auth : P Endpoint.auth) (session : SessionId)
    (p_rows : (kind : String) → P (Endpoint.resources session kind)) where
  abbrev Kept : Posting host → Type 0
  Kept = Posts lib host P p_auth

  abbrev KeptBy : Streaming lib host → Type 0
  KeptBy s = Kept s.posting

  pub of_pipeline-Posts : {A : Type 0} (r : Parsed A) → Keeps Kept (of_pipeline lib host r)
  of_pipeline-Posts (parsed a) s h = h
  of_pipeline-Posts (broken e) s h = h

  with_whisper-Posts :
      (client : Answer (HttpWhisperClient lib.floats.F32)) (chain : List OperatorKind)
      → Keeps Kept (
          with_whisper lib host client
            (λ whisper. of_pipeline lib host (lib.builder chain whisper)))
  with_whisper-Posts (Answer.ok whisper) chain = of_pipeline-Posts (lib.builder chain whisper)
  with_whisper-Posts (Answer.err e) chain = λ s h. h

  pub build_pipeline-Posts : (url : Option String) → Keeps Kept (build_pipeline lib host url)
  unfolding build_pipeline
  build_pipeline-Posts url =
      with_whisper-Posts (from_config lib.floats lib.server lib.settings)
        (operator_chain lib host url)

  feed-posting :
      (pseudo : PseudoId) (cs : List Chunk) (s : Streaming lib host)
      → (feed lib host session pseudo cs s).posting ≡ s.posting
  unfolding feed
  feed-posting pseudo [] s = refl
  feed-posting pseudo (c ∷ cs) s = feed-posting pseudo cs _

  after_arrange-Posts :
      (pseudo : PseudoId) (cs : List Chunk)
      → Keeps KeptBy (after_arrange lib host session pseudo cs)
  after_arrange-Posts pseudo [] s h = h
  after_arrange-Posts pseudo (c ∷ cs) s h =
      let fed = feed lib host session pseudo (c ∷ cs) s in
      let (drained, pipeline) = lib.emit fed.pipeline in
      write_new_outputs-Posts lib host P p_auth session p_rows drained fed.posting
        (subst Kept (sym (feed-posting pseudo (c ∷ cs) s)) h)

  place-Posts :
      (pseudo : PseudoId) (seq : Seq) (bytes : Bytes)
      → Keeps KeptBy (place lib host session pseudo seq bytes)
  unfolding place
  place-Posts pseudo seq bytes s h =
      let (ordered, sp) = arrange (speaker lib host pseudo s) seq bytes in
      after_arrange-Posts pseudo ordered (set_speaker lib host pseudo sp s) h

  module _ (p_chunk : (pid : PseudoId) (seq : ℕ) → P (Endpoint.chunk session pid seq)) where
    ingest_one-Posts :
        (fuel : ℕ) (pseudo : PseudoId) (seq : Seq)
        → Keeps KeptBy (ingest_one lib host fuel session pseudo seq)
    unfolding ingest_one
    ingest_one-Posts fuel pseudo seq s h =
        let download =
          on_posting lib host (on_io host (download_chunk host fuel session pseudo seq)) in
        elim (Bool-cases (contains seq (s.processed pseudo))) [
          | inl seen ↦ rw seen h
          | inr new ↦ rw new (
              Keeps-bind KeptBy download (place lib host session pseudo seq)
                (λ s h.
                  on_io-Posts lib host P p_auth (download_chunk host fuel session pseudo seq)
                    (download_chunk-Sends host P p_auth session pseudo seq (p_chunk pseudo seq)
                      fuel)
                    s.posting h)
                (place-Posts pseudo seq) s h)
        ]

    -- A body that starts from a pipeline that was built.
    built_then :
        (url : Option String) (body : lib.Pipeline → Exec (Posting host) Unit)
        → ((pipeline : lib.Pipeline) → Keeps Kept (body pipeline))
        → Keeps Kept (build_pipeline lib host url >>= body)
    built_then url body k =
        Keeps-bind Kept (build_pipeline lib host url) body (build_pipeline-Posts url) k

    -- What is asked without a command to finalize leaves the session's status alone.
    loop_unclaimed :
        (fuel : ℕ) (cmds : List RunnerCmd)
        → NoFinalize cmds
        → Keeps KeptBy (run_loop lib host fuel session cmds)
    unfolding run_loop
    loop_unclaimed fuel [] n s h = h
    loop_unclaimed fuel (abort ∷ cmds) n s h = h
    loop_unclaimed fuel (finalize ∷ cmds) n s h = absurd n
    loop_unclaimed fuel (ingest_chunk pseudo seq ∷ cmds) n s h =
        let rest = run_loop lib host fuel session cmds in
        Keeps-handle KeptBy (ingest_one lib host fuel session pseudo seq) (λ _. rest) (λ _. rest)
          (ingest_one-Posts fuel pseudo seq) (λ _. loop_unclaimed fuel cmds n)
          (λ _. loop_unclaimed fuel cmds n) s h

    pub run_streaming-unclaimed :
        (fuel : ℕ) (url : Option String) (cmds : List RunnerCmd)
        → NoFinalize cmds
        → Keeps Kept (run_streaming lib host fuel session url cmds)
    unfolding run_streaming
    run_streaming-unclaimed fuel url cmds n =
        built_then url _
          (λ pipeline posting h. loop_unclaimed fuel cmds n (started lib host posting pipeline) h)

  module _ (p_session : P (Endpoint.session session)) where
    unless_lost-Posts : (e : WorkerError) → Keeps Kept (unless_lost lib host e)
    unless_lost-Posts (WorkerError.claim_lost x) s h = h
    unless_lost-Posts e s h = h

    pub with_claim-Posts :
        (body : Exec (Posting host) Unit)
        → Keeps Kept body
        → Keeps Kept (with_claim lib host session body)
    with_claim-Posts body k =
        Keeps-handle Kept (on_io host (claim_session host session)) (λ _. body)
          (unless_lost lib host)
          (on_io-Posts lib host P p_auth (claim_session host session)
            (claim_session-Sends host P p_auth session p_session))
          (λ _. k) unless_lost-Posts

    pub mark-Posts : Keeps Kept (on_io host (mark_transcribed host session))
    mark-Posts =
        on_io-Posts lib host P p_auth (mark_transcribed host session)
          (mark_transcribed-Sends host P p_auth session p_session)

    pub write_and_mark-Posts :
        (out : PipelineOutput t) → Keeps Kept (write_and_mark lib host session out)
    unfolding write_and_mark
    write_and_mark-Posts out =
        Keeps-bind Kept (write_new_outputs lib host session out)
          (λ _. on_io host (mark_transcribed host session))
          (write_new_outputs-Posts lib host P p_auth session p_rows out) (λ _. mark-Posts)

    finalize-Posts :
        (pipeline : lib.Pipeline) → Keeps Kept (finalize_streaming lib host session pipeline)
    unfolding finalize_streaming
    finalize-Posts pipeline =
        with_claim-Posts
          (of_pipeline lib host (lib.finalize pipeline) >>= write_and_mark lib host session)
          (Keeps-bind Kept (of_pipeline lib host (lib.finalize pipeline))
            (write_and_mark lib host session) (of_pipeline-Posts (lib.finalize pipeline))
            write_and_mark-Posts)

    module _ (p_chunk : (pid : PseudoId) (seq : ℕ) → P (Endpoint.chunk session pid seq)) where
      run_loop-Posts :
          (fuel : ℕ) (cmds : List RunnerCmd) → Keeps KeptBy (run_loop lib host fuel session cmds)
      unfolding run_loop
      run_loop-Posts fuel [] s h = h
      run_loop-Posts fuel (abort ∷ cmds) s h = h
      run_loop-Posts fuel (finalize ∷ cmds) s h = finalize-Posts s.pipeline s.posting h
      run_loop-Posts fuel (ingest_chunk pseudo seq ∷ cmds) s h =
          let rest = run_loop lib host fuel session cmds in
          Keeps-handle KeptBy (ingest_one lib host fuel session pseudo seq) (λ _. rest) (λ _. rest)
            (ingest_one-Posts p_chunk fuel pseudo seq) (λ _. run_loop-Posts fuel cmds)
            (λ _. run_loop-Posts fuel cmds) s h

      pub run_streaming-Posts :
          (fuel : ℕ) (url : Option String) (cmds : List RunnerCmd)
          → Keeps Kept (run_streaming lib host fuel session url cmds)
      unfolding run_streaming
      run_streaming-Posts fuel url cmds =
          built_then p_chunk url _
            (λ pipeline posting h. run_loop-Posts fuel cmds (started lib host posting pipeline) h)
