-- ===== src/Runner/OneShot/Requests.antt =====
-- src/session_runner.rs: which requests a one-shot run makes.
use chronicle_worker.Prelude.{ℕ, String, List, [], ◌∷◌, ◌++◌, Option, All}
use chronicle_worker.Ids.{SessionId, PseudoId}
use chronicle_worker.Exec.{pure, ◌>>=◌}
use chronicle_worker.Exec.Keeps.{Keeps, Keeps-bind, Keeps-handle}
use chronicle_worker.Http.{Host, Endpoint, ChunkInfo}
use chronicle_worker.Api.{Io, Call}
use chronicle_worker.Api.Chunks.{list_participants, list_chunks, download_chunk}
use chronicle_worker.Api.Requests.{
  Sends, download_chunk-Sends, list_participants-Sends, list_chunks-Sends,
}
use chronicle_worker.Pipeline.{Foreign, Library, SessionTrack}
use chronicle_worker.Runner.Wire.{CreateInputWire}
use chronicle_worker.Runner.OneShot.{
  consented, sort_by_seq, download_all, speaker_tracks, collect_tracks, collect_speaker_tracks,
  track,
}
use chronicle_worker.Exec.{Exec}
use chronicle_worker.Pipeline.{SessionAudio, PipelineOutput}
use chronicle_worker.Runner.Outputs.{Posting, on_io}
use chronicle_worker.Runner.Requests.{Posts, on_io-Posts}
use chronicle_worker.Runner.Streaming.{of_pipeline, write_and_mark, build_pipeline}
use chronicle_worker.Runner.OneShot.{process_tracks, run_one_shot}
use chronicle_worker.Runner.Streaming.Requests.{
  of_pipeline-Posts, build_pipeline-Posts, with_claim-Posts, mark-Posts, write_and_mark-Posts,
}

-- The requests for a speaker's audio, and for the list of it.
abbrev pub Audio : (Endpoint → Type 0) → SessionId → PseudoId → Type 0
Audio P session pid =
    P (Endpoint.chunks session pid) × ((seq : ℕ) → P (Endpoint.chunk session pid seq))

module _ {Row : Type 0} (host : Host Row) (P : Endpoint → Type 0) (p_auth : P Endpoint.auth)
    (session : SessionId) where
  abbrev Lawful : Io host → Type 0
  Lawful = Sends host P p_auth

  download_all-Sends :
      (fuel : ℕ) (pid : PseudoId) (cs : List ChunkInfo)
      → Audio P session pid
      → Keeps Lawful (download_all host fuel session pid cs)
  unfolding download_all
  download_all-Sends fuel pid [] p s h = h
  download_all-Sends fuel pid (c ∷ cs) p s h =
      let rest = download_all host fuel session pid cs in
      let kept = download_all-Sends fuel pid cs p in
      Keeps-handle Lawful (download_chunk host fuel session pid c.seq)
        (λ b. rest >>= λ later. pure (b ++ later)) (λ _. rest)
        (download_chunk-Sends host P p_auth session pid c.seq (p.1 c.seq) fuel)
        (λ b. Keeps-bind Lawful rest (λ later. pure (b ++ later)) kept (λ later s h. h)) (λ _. kept)
        s h

module _ {t : Foreign} (lib : Library t) (host : Host (CreateInputWire t)) (P : Endpoint → Type 0)
    (p_auth : P Endpoint.auth) (session : SessionId) where
  abbrev Kept : Io host → Type 0
  Kept = Sends host P p_auth

  tracks-Sends :
      (fuel : ℕ) (pid : PseudoId) (cs : List ChunkInfo)
      → Audio P session pid
      → Keeps Kept (speaker_tracks lib host fuel session pid cs)
  tracks-Sends fuel pid [] p s h = h
  tracks-Sends fuel pid (c ∷ cs) p s h =
      Keeps-bind Kept (download_all host fuel session pid (c ∷ cs))
        (λ raw. pure (track lib host pid c raw ∷ []))
        (download_all-Sends host P p_auth session fuel pid (c ∷ cs) p) (λ raw s h. h) s h

  pub collect_tracks-Sends :
      (fuel : ℕ) (pids : List PseudoId)
      → All (Audio P session) pids
      → Keeps Kept (collect_tracks lib host fuel session pids)
  unfolding collect_tracks
  collect_tracks-Sends fuel [] p s h = h
  collect_tracks-Sends fuel (pid ∷ pids) p s h =
      let rest = collect_tracks lib host fuel session pids in
      let after : List ChunkInfo → Call host (List (SessionTrack t)) = λ chunks.
        speaker_tracks lib host fuel session pid (sort_by_seq chunks) >>= λ tracks.
        rest >>= λ later. pure (tracks ++ later) in
      Keeps-bind Kept (list_chunks host session pid) after
        (list_chunks-Sends host P p_auth session pid p.0.0)
        (λ chunks.
          Keeps-bind Kept (speaker_tracks lib host fuel session pid (sort_by_seq chunks))
            (λ tracks. rest >>= λ later. pure (tracks ++ later))
            (tracks-Sends fuel pid (sort_by_seq chunks) p.0)
            (λ tracks.
              Keeps-bind Kept rest (λ later. pure (tracks ++ later))
                (collect_tracks-Sends fuel pids p.1) (λ later s h. h)))
        s h

  module _ (p_rows : (kind : String) → P (Endpoint.resources session kind))
      (p_session : P (Endpoint.session session)) where
    abbrev Posted : Posting host → Type 0
    Posted = Posts lib host P p_auth

    process-Posts :
        (url : Option String) (tracks : List (SessionTrack t))
        → Keeps Posted (process_tracks lib host session url tracks)
    process-Posts url [] = mark-Posts lib host P p_auth session p_rows p_session
    process-Posts url (x ∷ xs) =
        let audio : SessionAudio t = record { session_id = session; tracks = x ∷ xs } in
        let write : PipelineOutput t → Exec (Posting host) (Unit {0}) =
          λ output s. write_and_mark lib host session output (record s { posted = [] }) in
        Keeps-bind Posted (build_pipeline lib host url)
          (λ pipeline. of_pipeline lib host (lib.run_one_shot audio pipeline) >>= write)
          (build_pipeline-Posts lib host P p_auth session p_rows url)
          (λ pipeline.
            Keeps-bind Posted (of_pipeline lib host (lib.run_one_shot audio pipeline)) write
              (of_pipeline-Posts lib host P p_auth session p_rows (lib.run_one_shot audio pipeline))
              (λ output s h.
                write_and_mark-Posts lib host P p_auth session p_rows p_session output
                  (record s { posted = [] }) h))

    All-every :
        (pids : List PseudoId)
        → ((pid : PseudoId) → Audio P session pid)
        → All (Audio P session) pids
    All-every [] h = tt
    All-every (pid ∷ pids) h = (h pid, All-every pids h)

    collect_speaker_tracks-Sends :
        P (Endpoint.participants session)
        → ((pid : PseudoId) → Audio P session pid)
        → (fuel : ℕ) → Keeps Kept (collect_speaker_tracks lib host fuel session)
    unfolding collect_speaker_tracks
    collect_speaker_tracks-Sends p_list p_audio fuel =
        Keeps-bind Kept (list_participants host session)
          (λ ps. collect_tracks lib host fuel session (consented ps))
          (list_participants-Sends host P p_auth session p_list)
          (λ ps. collect_tracks-Sends fuel (consented ps) (All-every (consented ps) p_audio))

    pub run_one_shot-Posts :
        P (Endpoint.participants session)
        → ((pid : PseudoId) → Audio P session pid)
        → (fuel : ℕ) (url : Option String) → Keeps Posted (run_one_shot lib host fuel session url)
    unfolding run_one_shot
    run_one_shot-Posts p_list p_audio fuel url =
        let collect = on_io host (collect_speaker_tracks lib host fuel session) in
        with_claim-Posts lib host P p_auth session p_rows p_session
          (collect >>= process_tracks lib host session url)
          (Keeps-bind Posted collect (process_tracks lib host session url)
            (on_io-Posts lib host P p_auth (collect_speaker_tracks lib host fuel session)
              (collect_speaker_tracks-Sends p_list p_audio fuel))
            (process-Posts url))
