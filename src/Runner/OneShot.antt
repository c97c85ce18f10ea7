-- ===== src/Runner/OneShot.antt =====
-- The one-shot runner of src/session_runner.rs, and the clearing of outputs before an admin rerun.
pub mod Requests
pub mod Succeeds
pub mod Consent
pub mod Marked
pub mod Clearing
pub mod Quiet
pub mod Cleared
pub mod Sorted
pub mod Agreement
use mathlib.Core.Option
use text.Mathlib.Text.{◌==◌ as str_eq}
use chronicle_worker.Prelude.{ℕ, String, Option, some, List, [], ◌∷◌, ◌++◌, leb, if◌then◌else◌}
use chronicle_worker.Prelude.Int.{ℤ, pos}
use chronicle_worker.Ids.{Uuid, SessionId, PseudoId}
use chronicle_worker.Exec.{Exec, pure, handle, ◌>>=◌, ◌>>◌}
use chronicle_worker.Http.{Host, Participant, ChunkInfo}
use chronicle_worker.Decode.{decode_stereo_to_mono_i16}
use chronicle_worker.Api.{Call}
use chronicle_worker.Api.Sessions.{mark_transcribed}
use chronicle_worker.Api.Chunks.{list_participants, list_chunks, download_chunk}
use chronicle_worker.Api.Outputs.{
  list_resource_ids, delete_resource, list_segment_ids, list_beat_ids, list_scene_ids,
  delete_segment, delete_beat, delete_scene,
}
use chronicle_worker.Pipeline.{Foreign, Library, SessionTrack}
use chronicle_worker.Runner.Wire.{CreateInputWire}
use chronicle_worker.Runner.Outputs.{Posting, on_io}
use chronicle_worker.Runner.Streaming.{of_pipeline, with_claim, write_and_mark, build_pipeline}

-- filter_map over the participants: those with an id and the full consent.
abbrev pub consented_one : Option PseudoId → Option String → List PseudoId
consented_one (some pid) (some scope) = if str_eq scope "full" then pid ∷ [] else []
consented_one _ _ = []

unfoldable pub consented : List Participant → List PseudoId
consented [] = []
consented (p ∷ ps) = consented_one p.pseudo_id p.consent_scope ++ consented ps

-- sort_by_key(|c| c.seq), which is stable
unfoldable pub insert_by_seq : ChunkInfo → List ChunkInfo → List ChunkInfo
insert_by_seq c [] = c ∷ []
insert_by_seq c (d ∷ ds) =
    let later = insert_by_seq c ds in if leb c.seq d.seq then c ∷ d ∷ ds else d ∷ later

unfoldable pub sort_by_seq : List ChunkInfo → List ChunkInfo
unfolding insert_by_seq
sort_by_seq [] = []
sort_by_seq (c ∷ cs) = insert_by_seq c (sort_by_seq cs)

-- chunks.first().and_then(…).unwrap_or(0), on a list that is not empty
abbrev pub started_at : ChunkInfo → ℤ
started_at c = Option.get_or c.capture_started_at (pos 0)

module _ {Row : Type 0} (host : Host Row) where
  -- The bytes of the chunks that can be downloaded, one after the other; a chunk that cannot is
  -- passed over.
  unfoldable pub download_all : ℕ → SessionId → PseudoId → List ChunkInfo → Call host (List ℕ)
  unfolding download_chunk
  download_all fuel session pseudo [] = pure []
  download_all fuel session pseudo (c ∷ cs) =
      let rest = download_all fuel session pseudo cs in
      handle (download_chunk host fuel session pseudo c.seq)
        (λ b. rest >>= λ later. pure (b ++ later)) (λ _. rest)

  -- Errors of the lists count as empty lists, and errors of the deletes are dropped.
  abbrev pub ids_or_none : Call host (List Uuid) → Call host (List Uuid)
  ids_or_none listed = handle listed pure (λ _. pure [])

  unfoldable pub delete_each : (Uuid → Call host Unit) → List Uuid → Call host Unit
  delete_each delete_one [] = pure tt
  delete_each delete_one (id ∷ ids) =
      let rest = delete_each delete_one ids in handle (delete_one id) (λ _. rest) (λ _. rest)

  -- The three lists are requested in turn; the source joins them, in an order that it leaves open.
  unfoldable pub clear_prior_outputs : SessionId → Call host Unit
  unfolding list_resource_ids delete_resource delete_each
  clear_prior_outputs session = do
    segs ← ids_or_none (list_segment_ids host session)
    beats ← ids_or_none (list_beat_ids host session)
    scenes ← ids_or_none (list_scene_ids host session)
    delete_each (delete_segment host) segs
    delete_each (delete_beat host) beats
    delete_each (delete_scene host) scenes

module _ {t : Foreign} (lib : Library t) (host : Host (CreateInputWire t)) where
  abbrev pub track : PseudoId → ChunkInfo → List ℕ → SessionTrack t
  track pid first raw = record {
    pseudo_id = pid;
    capture_started_at = lib.timestamp (started_at first);
    pcm = decode_stereo_to_mono_i16 raw;
  }

  -- The track of a speaker, from its chunks in order: none where there are no chunks.
  abbrev pub speaker_tracks :
      ℕ → SessionId → PseudoId → List ChunkInfo → Call host (List (SessionTrack t))
  speaker_tracks fuel session pid [] = pure []
  speaker_tracks fuel session pid (first ∷ rest) = do
    raw ← download_all host fuel session pid (first ∷ rest)
    pure (track pid first raw ∷ [])

  unfoldable pub collect_tracks : ℕ → SessionId → List PseudoId → Call host (List (SessionTrack t))
  unfolding list_chunks sort_by_seq download_all decode_stereo_to_mono_i16
  collect_tracks fuel session [] = pure []
  collect_tracks fuel session (pid ∷ pids) =
      let rest = collect_tracks fuel session pids in
      do
        chunks ← list_chunks host session pid
        tracks ← speaker_tracks fuel session pid (sort_by_seq chunks)
        later ← rest
        pure (tracks ++ later)

  unfoldable pub collect_speaker_tracks : ℕ → SessionId → Call host (List (SessionTrack t))
  unfolding list_participants consented collect_tracks
  collect_speaker_tracks fuel session = do
    participants ← list_participants host session
    collect_tracks fuel session (consented participants)

  abbrev pub process_tracks :
      SessionId → Option String → List (SessionTrack t) → Exec (Posting host) Unit
  process_tracks session url [] = on_io host (mark_transcribed host session)
  process_tracks session url (track ∷ tracks) = do
    pipeline ← build_pipeline lib host url
    output ←
        of_pipeline lib host
          (lib.run_one_shot (record { session_id = session; tracks = track ∷ tracks }) pipeline)
    λ s. write_and_mark lib host session output (record s { posted = [] })

  unfoldable pub run_one_shot : ℕ → SessionId → Option String → Exec (Posting host) Unit
  unfolding collect_speaker_tracks mark_transcribed build_pipeline write_and_mark
  run_one_shot fuel session url = with_claim lib host session (do
    tracks ← on_io host (collect_speaker_tracks fuel session)
    process_tracks session url tracks)
