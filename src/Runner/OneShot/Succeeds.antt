-- ===== src/Runner/OneShot/Succeeds.antt =====
-- src/session_runner.rs: a one-shot run succeeds, if the data-api and the pipeline answer.
use chronicle_worker.Prelude.{ℕ, suc, String, Option, List, [], ◌∷◌, ◌++◌}
use chronicle_worker.Ids.{SessionId, PseudoId}
use chronicle_worker.Exec.{Exec, pure, ◌>>=◌}
use chronicle_worker.Exec.Returns.{IsOk-IsReturned, Succeeds, Succeeds-bind, Succeeds-handle}
use chronicle_worker.Http.{Host, ChunkInfo}
use chronicle_worker.Api.Sessions.{mark_transcribed}
use chronicle_worker.Api.Chunks.{list_participants, list_chunks, download_chunk}
use chronicle_worker.Pipeline.{Foreign, Library, PipelineOutput, SessionAudio, SessionTrack}
use chronicle_worker.Runner.Wire.{CreateInputWire}
use chronicle_worker.Runner.Outputs.{Posting, on_io}
use chronicle_worker.Runner.Succeeds.{
  Answering, mark_transcribed-Succeeds, list_participants-Succeeds, list_chunks-Succeeds,
  download_chunk-Succeeds,
}
use chronicle_worker.Runner.Streaming.{of_pipeline, write_and_mark, build_pipeline}
use chronicle_worker.Runner.OneShot.{
  sort_by_seq, consented, download_all, speaker_tracks, track, collect_tracks,
  collect_speaker_tracks, process_tracks, run_one_shot,
}
use chronicle_worker.Runner.Streaming.Succeeds.{
  Working, of_pipeline-Succeeds, on_io-Succeeds, write_and_mark-Succeeds, with_claim-Succeeds,
  build_pipeline-Succeeds,
}

module _ {t : Foreign} (lib : Library t) (host : Host (CreateInputWire t))
    (answering : Answering host) (working : Working lib) where
  download_all-Succeeds :
      (fuel : ℕ) (session : SessionId) (pid : PseudoId) (cs : List ChunkInfo)
      → Succeeds (download_all host (suc fuel) session pid cs)
  unfolding download_all
  download_all-Succeeds fuel session pid [] s = tt
  download_all-Succeeds fuel session pid (c ∷ cs) s =
      let rest = download_all host (suc fuel) session pid cs in
      let kept = download_all-Succeeds fuel session pid cs in
      Succeeds-handle (download_chunk host (suc fuel) session pid c.seq)
        (λ b. rest >>= λ later. pure (b ++ later)) (λ _. rest)
        (λ s.
          IsOk-IsReturned (download_chunk host (suc fuel) session pid c.seq s).0
            (download_chunk-Succeeds host answering fuel session pid c.seq s))
        (λ b. Succeeds-bind rest (λ later. pure (b ++ later)) kept (λ later s. tt)) (λ _. kept) s

  speaker_tracks-Succeeds :
      (fuel : ℕ) (session : SessionId) (pid : PseudoId) (cs : List ChunkInfo)
      → Succeeds (speaker_tracks lib host (suc fuel) session pid cs)
  speaker_tracks-Succeeds fuel session pid [] = λ s. tt
  speaker_tracks-Succeeds fuel session pid (c ∷ cs) =
      Succeeds-bind (download_all host (suc fuel) session pid (c ∷ cs))
        (λ raw. pure (track lib host pid c raw ∷ []))
        (download_all-Succeeds fuel session pid (c ∷ cs)) (λ raw s. tt)

  collect_tracks-Succeeds :
      (fuel : ℕ) (session : SessionId) (pids : List PseudoId)
      → Succeeds (collect_tracks lib host (suc fuel) session pids)
  unfolding collect_tracks
  collect_tracks-Succeeds fuel session [] s = tt
  collect_tracks-Succeeds fuel session (pid ∷ pids) s =
      let rest = collect_tracks lib host (suc fuel) session pids in
      Succeeds-bind (list_chunks host session pid)
        (λ chunks. speaker_tracks lib host (suc fuel) session pid (sort_by_seq chunks) >>= λ tracks.
          rest >>= λ later. pure (tracks ++ later))
        (list_chunks-Succeeds host answering session pid)
        (λ chunks.
          Succeeds-bind (speaker_tracks lib host (suc fuel) session pid (sort_by_seq chunks))
            (λ tracks. rest >>= λ later. pure (tracks ++ later))
            (speaker_tracks-Succeeds fuel session pid (sort_by_seq chunks))
            (λ tracks.
              Succeeds-bind rest (λ later. pure (tracks ++ later))
                (collect_tracks-Succeeds fuel session pids) (λ later s. tt)))
        s

  collect_speaker_tracks-Succeeds :
      (fuel : ℕ) (session : SessionId)
      → Succeeds (collect_speaker_tracks lib host (suc fuel) session)
  unfolding collect_speaker_tracks
  collect_speaker_tracks-Succeeds fuel session =
      Succeeds-bind (list_participants host session)
        (λ ps. collect_tracks lib host (suc fuel) session (consented ps))
        (list_participants-Succeeds host answering session)
        (λ ps. collect_tracks-Succeeds fuel session (consented ps))

  process_tracks-Succeeds :
      (session : SessionId) (url : Option String) (tracks : List (SessionTrack t))
      → Succeeds (process_tracks lib host session url tracks)
  process_tracks-Succeeds session url [] =
      on_io-Succeeds lib host answering working (mark_transcribed host session)
        (mark_transcribed-Succeeds host answering session)
  process_tracks-Succeeds session url (x ∷ xs) =
      let audio : SessionAudio t = record { session_id = session; tracks = x ∷ xs } in
      let write : PipelineOutput t → Exec (Posting host) (Unit {0}) =
        λ output s. write_and_mark lib host session output (record s { posted = [] }) in
      Succeeds-bind (build_pipeline lib host url)
        (λ pipeline. of_pipeline lib host (lib.run_one_shot audio pipeline) >>= write)
        (build_pipeline-Succeeds lib host answering working url)
        (λ pipeline.
          Succeeds-bind (of_pipeline lib host (lib.run_one_shot audio pipeline)) write
            (of_pipeline-Succeeds lib host answering working (lib.run_one_shot audio pipeline)
              (working.ran audio pipeline))
            (λ output s.
              write_and_mark-Succeeds lib host answering working session output
                (record s { posted = [] })))

  pub run_one_shot-Succeeds :
      (fuel : ℕ) (session : SessionId) (url : Option String)
      → Succeeds (run_one_shot lib host (suc fuel) session url)
  unfolding run_one_shot
  run_one_shot-Succeeds fuel session url =
      let collect = on_io host (collect_speaker_tracks lib host (suc fuel) session) in
      with_claim-Succeeds lib host answering working session
        (collect >>= process_tracks lib host session url)
        (Succeeds-bind collect (process_tracks lib host session url)
          (on_io-Succeeds lib host answering working
            (collect_speaker_tracks lib host (suc fuel) session)
            (collect_speaker_tracks-Succeeds fuel session))
          (process_tracks-Succeeds session url))
