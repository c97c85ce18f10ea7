-- ===== src/Runner/Streaming/Succeeds.antt =====
-- src/session_runner.rs: a streaming runner's body runs to its end, if the data-api and the pipeline
-- answer.
use chronicle_worker.Prelude.{ℕ, suc, String, inl, inr, Bool-cases, Option, List, [], ◌∷◌}
use chronicle_worker.Ids.{SessionId, PseudoId, Seq}
use chronicle_worker.Sets.{contains}
use chronicle_worker.Exec.{Outcome, ok, err, pending, Exec, settle}
use chronicle_worker.Exec.Returns.{IsOk, Succeeds, Succeeds-bind}
use chronicle_worker.Http.{Host, Parsed, parsed, broken}
use chronicle_worker.Api.{Call}
use chronicle_worker.Api.Sessions.{claim_session, mark_transcribed}
use chronicle_worker.Api.Chunks.{download_chunk}
use chronicle_worker.Pipeline.{Foreign, Library, OperatorKind, PipelineOutput, SessionAudio}
use chronicle_worker.Runner.Reorder.{Bytes, Chunk, arrange}
use chronicle_worker.Runner.Wire.{CreateInputWire}
use chronicle_worker.Runner.Outputs.{Posting, on_io, write_new_outputs}
use chronicle_worker.Runner.Succeeds.{
  IsParsed, Answering, claim_session-Succeeds, mark_transcribed-Succeeds, download_chunk-Succeeds,
  write_new_outputs-Succeeds,
}
use chronicle_worker.Runner.Streaming.{
  RunnerCmd, ingest_chunk, finalize, abort, Streaming, started, of_pipeline, write_and_mark, feed,
  on_posting, speaker, set_speaker, after_arrange, place, ingest_one, unless_lost, with_claim,
  finalize_streaming, operator_chain, with_whisper, build_pipeline, run_loop, run_streaming,
}
use chronicle_worker.Whisper.{HttpWhisperClient, client_of, from_config}

-- The pipeline library can be set up, and its two ways of finishing give an output.
pub record Working {t : Foreign} (lib : Library t) : Type 0 where
  pub whisper : IsParsed lib.server.http_client
  pub built :
      (chain : List OperatorKind) (whisper : HttpWhisperClient lib.floats.F32)
      → IsParsed (lib.builder chain whisper)
  pub finished : (pipeline : lib.Pipeline) → IsParsed (lib.finalize pipeline)
  pub ran :
      (audio : SessionAudio t) (pipeline : lib.Pipeline)
      → IsParsed (lib.run_one_shot audio pipeline)

module _ {t : Foreign} (lib : Library t) (host : Host (CreateInputWire t))
    (answering : Answering host) (working : Working lib) where
  pub of_pipeline-Succeeds :
      {S A : Type 0} (r : Parsed A) → IsParsed r → Succeeds (of_pipeline lib host {S = S} r)
  of_pipeline-Succeeds (parsed a) h s = tt
  of_pipeline-Succeeds (broken e) h s = absurd h

  pub on_io-Succeeds : {A : Type 0} (m : Call host A) → Succeeds m → Succeeds (on_io host m)
  on_io-Succeeds m k s = k s.io

  pub write_and_mark-Succeeds :
      (session : SessionId) (out : PipelineOutput t)
      → Succeeds (write_and_mark lib host session out)
  unfolding write_and_mark
  write_and_mark-Succeeds session out =
      Succeeds-bind (write_new_outputs lib host session out)
        (λ _. on_io host (mark_transcribed host session))
        (write_new_outputs-Succeeds lib host answering session out)
        (λ _.
          on_io-Succeeds (mark_transcribed host session)
            (mark_transcribed-Succeeds host answering session))

  settled-IsOk :
      (r : Outcome (Unit {0})) (body : Exec (Posting host) Unit) (s : Posting host)
      → IsOk r
      → Succeeds body
      → IsOk (settle r (λ _. body) (unless_lost lib host) s).0
  settled-IsOk (ok a) body s h k = k s
  settled-IsOk (err e) body s h k = absurd h
  settled-IsOk pending body s h k = absurd h

  pub with_claim-Succeeds :
      (session : SessionId) (body : Exec (Posting host) Unit)
      → Succeeds body
      → Succeeds (with_claim lib host session body)
  with_claim-Succeeds session body k s =
      settled-IsOk (claim_session host session s.io).0 body _
        (claim_session-Succeeds host answering session s.io) k

  finalize-Succeeds :
      (session : SessionId) (pipeline : lib.Pipeline)
      → Succeeds (finalize_streaming lib host session pipeline)
  unfolding finalize_streaming
  finalize-Succeeds session pipeline = with_claim-Succeeds session _ (
      Succeeds-bind (of_pipeline lib host (lib.finalize pipeline)) (write_and_mark lib host session)
        (of_pipeline-Succeeds (lib.finalize pipeline) (working.finished pipeline))
        (write_and_mark-Succeeds session))

  with_whisper-Succeeds :
      (http : Parsed (Unit {0})) (chain : List OperatorKind)
      → IsParsed http
      → Succeeds (
          with_whisper lib host {S = Posting host}
            (client_of lib.floats lib.server lib.settings http)
            (λ whisper. of_pipeline lib host (lib.builder chain whisper)))
  with_whisper-Succeeds (parsed a) chain h =
      of_pipeline-Succeeds (lib.builder chain _) (working.built chain _)
  with_whisper-Succeeds (broken e) chain h = λ s. absurd h

  pub build_pipeline-Succeeds :
      (url : Option String) → Succeeds (build_pipeline lib host {S = Posting host} url)
  unfolding build_pipeline from_config
  build_pipeline-Succeeds url =
      with_whisper-Succeeds lib.server.http_client (operator_chain lib host url) working.whisper

  after_arrange-Succeeds :
      (session : SessionId) (pseudo : PseudoId) (cs : List Chunk)
      → Succeeds (after_arrange lib host session pseudo cs)
  after_arrange-Succeeds session pseudo [] s = tt
  after_arrange-Succeeds session pseudo (c ∷ cs) s =
      let fed = feed lib host session pseudo (c ∷ cs) s in
      let (drained, pipeline) = lib.emit fed.pipeline in
      write_new_outputs-Succeeds lib host answering session drained fed.posting

  place-Succeeds :
      (session : SessionId) (pseudo : PseudoId) (seq : Seq) (bytes : Bytes)
      → Succeeds (place lib host session pseudo seq bytes)
  unfolding place
  place-Succeeds session pseudo seq bytes s =
      let (ordered, sp) = arrange (speaker lib host pseudo s) seq bytes in
      after_arrange-Succeeds session pseudo ordered (set_speaker lib host pseudo sp s)

  ingest_one-Succeeds :
      (fuel : ℕ) (session : SessionId) (pseudo : PseudoId) (seq : Seq)
      → Succeeds (ingest_one lib host (suc fuel) session pseudo seq)
  unfolding ingest_one
  ingest_one-Succeeds fuel session pseudo seq s =
      let download =
        on_posting lib host (on_io host (download_chunk host (suc fuel) session pseudo seq)) in
      elim (Bool-cases (contains seq (s.processed pseudo))) [
        | inl seen ↦ rw seen tt
        | inr new ↦ rw new (
            Succeeds-bind download (place lib host session pseudo seq)
              (λ s. download_chunk-Succeeds host answering fuel session pseudo seq s.posting.io)
              (place-Succeeds session pseudo seq) s)
      ]

  handled-IsOk :
      (r : Outcome (Unit {0})) (rest : Streaming lib host → Outcome (Unit {0}) × Streaming lib host)
      (s : Streaming lib host)
      → IsOk r
      → IsOk (rest s).0
      → IsOk (settle r (λ _. rest) (λ _. rest) s).0
  handled-IsOk (ok a) rest s h k = k
  handled-IsOk (err e) rest s h k = absurd h
  handled-IsOk pending rest s h k = absurd h

  run_loop-Succeeds :
      (fuel : ℕ) (session : SessionId) (cmds : List RunnerCmd)
      → Succeeds (run_loop lib host (suc fuel) session cmds)
  unfolding run_loop
  run_loop-Succeeds fuel session [] s = tt
  run_loop-Succeeds fuel session (abort ∷ cmds) s = tt
  run_loop-Succeeds fuel session (finalize ∷ cmds) s =
      finalize-Succeeds session s.pipeline s.posting
  run_loop-Succeeds fuel session (ingest_chunk pseudo seq ∷ cmds) s =
      let (r, u) = ingest_one lib host (suc fuel) session pseudo seq s in
      handled-IsOk r (run_loop lib host (suc fuel) session cmds) u
        (ingest_one-Succeeds fuel session pseudo seq s) (run_loop-Succeeds fuel session cmds u)

  pub run_streaming-Succeeds :
      (fuel : ℕ) (session : SessionId) (url : Option String) (cmds : List RunnerCmd)
      → Succeeds (run_streaming lib host (suc fuel) session url cmds)
  unfolding run_streaming
  run_streaming-Succeeds fuel session url cmds =
      Succeeds-bind (build_pipeline lib host url) _ (build_pipeline-Succeeds url)
        (λ pipeline posting.
          run_loop-Succeeds fuel session cmds (started lib host posting pipeline))
