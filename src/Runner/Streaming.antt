-- ===== src/Runner/Streaming.antt =====
-- The streaming runner of src/session_runner.rs. Its state is the network and the ids posted so far,
-- the pipeline, and the three maps, which are functions of the speaker: an absent entry reads as the
-- default that `entry(…).or_default()` puts there.
pub mod Requests
pub mod Succeeds
pub mod Finish
pub mod Ingest
pub mod Absorb
pub mod Heard
use chronicle_worker.Prelude.{
  ℕ, ◌*◌, ◌/◌, ◌%◌, String, Option, none, some, List, [], ◌∷◌, length, if◌then◌else◌,
}
use Prim.Native.String.{◌++◌}
use text.Mathlib.Text.{◌==◌ as str_eq}
use chronicle_worker.Prelude.Int.{pos}
use chronicle_worker.Ids.{SessionId, PseudoId, Seq}
use chronicle_worker.Config.{capture_sample_rate}
use chronicle_worker.Error.{WorkerError}
use chronicle_worker.Sets.{contains, add}
use chronicle_worker.Exec.{Exec, ok, pure, raise, handle, ◌>>=◌, ◌>>◌}
use chronicle_worker.Http.{Host, Parsed, parsed, broken}
use chronicle_worker.Decode.{decode_stereo_to_mono_i16}
use chronicle_worker.Api.Sessions.{claim_session, mark_transcribed}
use chronicle_worker.Api.Chunks.{download_chunk}
use chronicle_worker.Pipeline.{
  Foreign, Library, AudioChunk, PipelineOutput, OperatorKind, vad, transcription, filter, segment,
  meta_talk, beats, scenes,
}
use chronicle_worker.Whisper.{Answer, HttpWhisperClient, from_config}
use chronicle_worker.Runner.Reorder
use chronicle_worker.Runner.Reorder.{Bytes, Chunk, Speaker, arrange}
use chronicle_worker.Runner.Wire.{CreateInputWire}
use chronicle_worker.Runner.Outputs.{Posting, on_io, write_new_outputs}

pub data RunnerCmd : Type 0 where
  ingest_chunk : PseudoId → Seq → RunnerCmd
  finalize : RunnerCmd
  abort : RunnerCmd

-- m.insert(k, v)
abbrev pub update {ℓ} : {V : Type ℓ} → (PseudoId → V) → PseudoId → V → PseudoId → V
update m k v j = if str_eq k j then v else m j

module _ {t : Foreign} (lib : Library t) (host : Host (CreateInputWire t)) where
  pub record Streaming : Type 0 where
    pub posting : Posting host
    pub pipeline : lib.Pipeline
    pub processed : PseudoId → List ℕ
    pub pending_chunks : PseudoId → Reorder.Pending
    pub next_expected : PseudoId → ℕ

  -- The entries of the three maps at one speaker, and their replacement.
  abbrev pub speaker : PseudoId → Streaming → Speaker
  speaker pseudo s = record {
    processed = s.processed pseudo;
    pending = s.pending_chunks pseudo;
    next_expected = s.next_expected pseudo;
  }

  abbrev pub set_speaker : PseudoId → Speaker → Streaming → Streaming
  set_speaker pseudo sp s = record s {
    processed = update s.processed pseudo sp.processed;
    pending_chunks = update s.pending_chunks pseudo sp.pending;
    next_expected = update s.next_expected pseudo sp.next_expected;
  }

  abbrev pub on_posting : {A : Type 0} → Exec (Posting host) A → Exec Streaming A
  on_posting m s = let (r, posting) = m s.posting in (r, record s { posting = posting })

  abbrev pub of_pipeline : {S A : Type 0} → Parsed A → Exec S A
  of_pipeline (parsed a) = pure a
  of_pipeline (broken e) = raise (WorkerError.pipeline e)

  -- ((pcm.len() as u64) * 1000 / CAPTURE_SAMPLE_RATE as u64) as u32
  abbrev pub duration_ms : ℕ → ℕ
  duration_ms samples = samples * 1000 / capture_sample_rate % 4294967296

  unfoldable pub audio_chunk : SessionId → PseudoId → Chunk → AudioChunk t
  unfolding decode_stereo_to_mono_i16
  audio_chunk session pseudo (s, raw) = record {
    session_id = session;
    pseudo_id = pseudo;
    seq = s;
    capture_started_at = lib.timestamp (pos 0);
    duration_ms = duration_ms (length (decode_stereo_to_mono_i16 raw));
    pcm = decode_stereo_to_mono_i16 raw;
  }

  -- One turn of the loop over `ordered`, but for the insertion into `seen`: an empty chunk is passed
  -- over, and an error of the pipeline is only logged.
  unfoldable pub feed_one : SessionId → PseudoId → lib.Pipeline → Chunk → lib.Pipeline
  unfolding audio_chunk
  feed_one session pseudo pipeline c = elim (audio_chunk session pseudo c).pcm [
    | [] ↦ pipeline
    | _ ∷ _ ↦ (lib.ingest_chunk (audio_chunk session pseudo c) pipeline).1
  ]

  unfoldable pub feed : SessionId → PseudoId → List Chunk → Streaming → Streaming
  unfolding feed_one
  feed session pseudo [] s = s
  feed session pseudo (c ∷ cs) s = feed session pseudo cs (record s {
    processed = update s.processed pseudo (add c.0 (s.processed pseudo));
    pipeline = feed_one session pseudo s.pipeline c;
  })

  -- The drain that follows a feed: `emit` and the posting of what it gave.
  abbrev pub post_emitted : SessionId → Exec Streaming Unit
  post_emitted session s =
      let (drained, pipeline) = lib.emit s.pipeline in
      on_posting (write_new_outputs lib host session drained) (record s { pipeline = pipeline })

  abbrev pub after_arrange : SessionId → PseudoId → List Chunk → Exec Streaming Unit
  after_arrange session pseudo [] s = (ok tt, s)
  after_arrange session pseudo (c ∷ cs) s = post_emitted session (feed session pseudo (c ∷ cs) s)

  -- What `ingest_one` does with the bytes that it has downloaded. Its `ordered` is empty only where
  -- the source has buffered the chunk and returned.
  unfoldable pub place : SessionId → PseudoId → Seq → Bytes → Exec Streaming Unit
  unfolding feed
  place session pseudo seq bytes s =
      let (ordered, sp) = arrange (speaker pseudo s) seq bytes in
      after_arrange session pseudo ordered (set_speaker pseudo sp s)

  unfoldable pub ingest_one : ℕ → SessionId → PseudoId → Seq → Exec Streaming Unit
  ingest_one fuel session pseudo seq s =
      if contains seq (s.processed pseudo)
      then (ok tt, s)
      else (do
        bytes ← on_posting (on_io host (download_chunk host fuel session pseudo seq))
        place session pseudo seq bytes)
          s

  -- `Err(WorkerError::ClaimLost(_)) => return Ok(())`, any other error is handed on.
  abbrev pub unless_lost : {S : Type 0} → WorkerError → Exec S Unit
  unless_lost (WorkerError.claim_lost _) = pure tt
  unless_lost e = raise e

  -- The claim, and what the runner does once it has it.
  abbrev pub with_claim : SessionId → Exec (Posting host) Unit → Exec (Posting host) Unit
  with_claim session body = handle (on_io host (claim_session host session)) (λ _. body) unless_lost

  unfoldable pub write_and_mark : SessionId → PipelineOutput t → Exec (Posting host) Unit
  unfolding write_new_outputs mark_transcribed
  write_and_mark session output = do
    write_new_outputs lib host session output
    on_io host (mark_transcribed host session)

  unfoldable pub finalize_streaming : SessionId → lib.Pipeline → Exec (Posting host) Unit
  unfolding claim_session write_and_mark
  finalize_streaming session pipeline =
      with_claim session
        (do output ← of_pipeline (lib.finalize pipeline); write_and_mark session output)

  -- operator_chain: beats and scenes need an endpoint for the scene LLM.
  unfoldable pub operator_chain : Option String → List OperatorKind
  operator_chain none = vad ∷ transcription ∷ filter ∷ segment ∷ meta_talk ∷ []
  operator_chain (some url) =
      vad ∷ transcription ∷ filter ∷ segment ∷ meta_talk ∷ beats ∷ scenes ∷ []

  abbrev pub with_whisper :
      {S A : Type 0}
      → Answer (HttpWhisperClient lib.floats.F32)
      → (HttpWhisperClient lib.floats.F32 → Exec S A)
      → Exec S A
  with_whisper (Answer.ok whisper) f = f whisper
  with_whisper (Answer.err e) f = raise (WorkerError.config ("whisper: " ++ lib.show_whisper e))

  -- build_pipeline, for a configuration with this endpoint.
  unfoldable pub build_pipeline : {S : Type 0} → Option String → Exec S lib.Pipeline
  unfolding operator_chain from_config
  build_pipeline scene_llm_url =
      with_whisper (from_config lib.floats lib.server lib.settings)
        (λ whisper. of_pipeline (lib.builder (operator_chain scene_llm_url) whisper))

  -- The loop over the commands of the channel; the end of the list is the channel closed. An error of
  -- `ingest_one` is only logged.
  unfoldable pub run_loop : ℕ → SessionId → List RunnerCmd → Exec Streaming Unit
  unfolding ingest_one finalize_streaming
  run_loop fuel session [] s = (ok tt, s)
  run_loop fuel session (ingest_chunk pseudo seq ∷ cmds) s =
      let rest = run_loop fuel session cmds in
      handle (ingest_one fuel session pseudo seq) (λ _. rest) (λ _. rest) s
  run_loop fuel session (finalize ∷ cmds) s = on_posting (finalize_streaming session s.pipeline) s
  run_loop fuel session (abort ∷ cmds) s = (ok tt, s)

  abbrev pub started : Posting host → lib.Pipeline → Streaming
  started posting pipeline = record {
    posting = posting;
    pipeline = pipeline;
    processed = λ _. [];
    pending_chunks = λ _. [];
    next_expected = λ _. 0;
  }

  unfoldable pub run_streaming :
      ℕ → SessionId → Option String → List RunnerCmd → Exec (Posting host) Unit
  unfolding build_pipeline run_loop
  run_streaming fuel session scene_llm_url cmds = build_pipeline scene_llm_url >>= λ pipeline.
      λ posting.
        let (r, s) = run_loop fuel session cmds (started posting pipeline) in (r, s.posting)
