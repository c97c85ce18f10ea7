-- ===== src/Runner/Outputs.antt =====
-- The posting of outputs in src/session_runner.rs. The state is that of the network, with the ids of
-- the segments that were posted before.
pub mod Batches
pub mod Posted
pub mod Dedup
use chronicle_worker.Prelude.{List, [], ◌∷◌, map, if◌then◌else◌}
use chronicle_worker.Ids.{Uuid, SessionId}
use chronicle_worker.Sets.{contains, add}
use chronicle_worker.Exec.{Exec, ok, pure, ◌>>◌}
use chronicle_worker.Http.{Host}
use chronicle_worker.Api.{Io, Call, sleep}
use chronicle_worker.Api.Outputs.{post_segments, post_beats, post_scenes}
use chronicle_worker.Pipeline.{Foreign, Library, Segment, Beat, Scene, PipelineOutput}
use chronicle_worker.Runner.Wire.{CreateInputWire, segment_wire, beat_wire, scene_wire}

-- slice::chunks(5)
unfoldable pub chunks_of_5 {ℓ} : {A : Type ℓ} → List A → List (List A)
chunks_of_5 (a ∷ b ∷ c ∷ d ∷ e ∷ rest) = (a ∷ b ∷ c ∷ d ∷ e ∷ []) ∷ chunks_of_5 rest
chunks_of_5 [] = []
chunks_of_5 xs = xs ∷ []

module _ {Row : Type 0} (host : Host Row) where
  unfoldable pub post_batches : SessionId → List (List Row) → Call host Unit
  unfolding post_segments
  post_batches session [] = pure tt
  post_batches session (batch ∷ batches) = do
    post_segments host session batch
    sleep host 50
    post_batches session batches

  unfoldable pub post_segments_chunked : SessionId → List Row → Call host Unit
  unfolding post_batches chunks_of_5
  post_segments_chunked session segs = post_batches session (chunks_of_5 segs)

  pub record Posting : Type 0 where
    pub io : Io host
    pub posted : List Uuid

  -- A network call where the ids are at hand.
  abbrev pub on_io : {A : Type 0} → Call host A → Exec Posting A
  on_io m s = let (r, io) = m s.io in (r, record s { io = io })

module _ {t : Foreign} where
  unfoldable pub new_segments : List Uuid → List (Segment t) → List (Segment t)
  unfolding contains
  new_segments posted [] = []
  new_segments posted (s ∷ rest) =
      let later = new_segments posted rest in if contains s.id posted then later else s ∷ later

  unfoldable pub mark_posted : List (Segment t) → List Uuid → List Uuid
  mark_posted [] posted = posted
  mark_posted (s ∷ rest) posted = mark_posted rest (add s.id posted)

module _ {t : Foreign} (lib : Library t) (host : Host (CreateInputWire t)) where
  abbrev pub insert_ids : List (Segment t) → Exec (Posting host) Unit
  insert_ids segs s = (ok tt, record s { posted = mark_posted segs s.posted })

  abbrev pub write_segments : SessionId → List (Segment t) → Exec (Posting host) Unit
  write_segments session [] = pure tt
  write_segments session (s ∷ rest) = do
    on_io host (post_segments_chunked host session (map (segment_wire lib) (s ∷ rest)))
    insert_ids (s ∷ rest)

  abbrev pub write_beats : SessionId → List (Beat t) → Call host Unit
  write_beats session [] = pure tt
  write_beats session (b ∷ rest) = post_beats host session (map (beat_wire lib) (b ∷ rest))

  abbrev pub write_scenes : SessionId → List (Scene t) → Call host Unit
  write_scenes session [] = pure tt
  write_scenes session (s ∷ rest) = post_scenes host session (map (scene_wire lib) (s ∷ rest))

  unfoldable pub write_new_outputs : SessionId → PipelineOutput t → Exec (Posting host) Unit
  unfolding new_segments mark_posted post_segments_chunked post_beats post_scenes
  write_new_outputs session out s =
      (do
        write_segments session (new_segments s.posted out.segments)
        on_io host (write_beats session out.beats)
        on_io host (write_scenes session out.scenes))
        s
