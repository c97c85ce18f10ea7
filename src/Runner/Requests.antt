-- ===== src/Runner/Requests.antt =====
-- src/session_runner.rs: which requests a runner makes. What holds of the requests that a runner may
-- make holds of all that its body adds to the trace.
use chronicle_worker.Prelude.{String, List, [], ◌∷◌, map, ◌==◌}
use chronicle_worker.Ids.{SessionId}
use chronicle_worker.Error.{WorkerError}
use chronicle_worker.Exec.{pure, raise, ◌>>◌}
use chronicle_worker.Exec.Keeps.{Keeps, Keeps-bind, Keeps-if}
use chronicle_worker.Http.{Host, patch, post, Endpoint, Payload}
use chronicle_worker.Api.{Io, Call, authorized, sleep, check_ok}
use chronicle_worker.Api.Sessions.{patch_status, claim_session, mark_transcribed}
use chronicle_worker.Api.Outputs.{bulk_insert, post_segments, post_beats, post_scenes}
use chronicle_worker.Api.Requests.{Sends, authorized-Sends, check_ok-Sends}
use chronicle_worker.Pipeline.{Foreign, Library, Segment, Beat, Scene, PipelineOutput}
use chronicle_worker.Runner.Wire.{CreateInputWire, segment_wire, beat_wire, scene_wire}
use chronicle_worker.Runner.Outputs.{
  Posting, on_io, post_batches, post_segments_chunked, chunks_of_5, new_segments, insert_ids,
  write_segments, write_beats, write_scenes, write_new_outputs,
}

module _ {Row : Type 0} (host : Host Row) (P : Endpoint → Type 0) (p_auth : P Endpoint.auth) where
  abbrev Lawful : Io host → Type 0
  Lawful = Sends host P p_auth

  patch_status-Sends :
      (id : SessionId) (status : String)
      → P (Endpoint.session id)
      → Keeps Lawful (patch_status host id status)
  unfolding patch_status
  patch_status-Sends id status p =
      Keeps-bind Lawful (authorized host patch (Endpoint.session id) (Payload.status status)) _
        (authorized-Sends host P p_auth patch (Endpoint.session id) (Payload.status status) p)
        (λ resp.
          let checked : Call host Unit = check_ok host resp >> pure tt in
          Keeps-if Lawful (resp.code == 409) (raise (WorkerError.claim_lost id)) _ (λ s h. h)
            (Keeps-if Lawful (resp.code == 404) (raise (WorkerError.not_found id)) checked
              (λ s h. h)
              (Keeps-bind Lawful (check_ok host resp) (λ _. pure tt)
                (check_ok-Sends host P p_auth resp) (λ _ s h. h))))

  pub claim_session-Sends :
      (id : SessionId) → P (Endpoint.session id) → Keeps Lawful (claim_session host id)
  unfolding claim_session
  claim_session-Sends id = patch_status-Sends id "transcribing"

  pub mark_transcribed-Sends :
      (id : SessionId) → P (Endpoint.session id) → Keeps Lawful (mark_transcribed host id)
  unfolding mark_transcribed
  mark_transcribed-Sends id = patch_status-Sends id "transcribed"

  module _ (id : SessionId) (p_rows : (kind : String) → P (Endpoint.resources id kind)) where
    bulk_insert-Sends :
        (kind : String) (rows : List Row) → Keeps Lawful (bulk_insert host id kind rows)
    unfolding bulk_insert
    bulk_insert-Sends kind [] s h = h
    bulk_insert-Sends kind (row ∷ rows) s h =
        Keeps-bind Lawful
          (authorized host post (Endpoint.resources id kind) (Payload.rows kind (row ∷ rows)))
          (λ resp. check_ok host resp >> pure tt)
          (authorized-Sends host P p_auth post (Endpoint.resources id kind)
            (Payload.rows kind (row ∷ rows)) (p_rows kind))
          (λ resp.
            Keeps-bind Lawful (check_ok host resp) (λ _. pure tt)
              (check_ok-Sends host P p_auth resp) (λ _ s h. h))
          s h

    post_batches-Sends : (batches : List (List Row)) → Keeps Lawful (post_batches host id batches)
    unfolding post_batches post_segments
    post_batches-Sends [] s h = h
    post_batches-Sends (batch ∷ batches) s h =
        Keeps-bind Lawful (post_segments host id batch)
          (λ _. sleep host 50 >> post_batches host id batches) (bulk_insert-Sends "segments" batch)
          (λ _.
            Keeps-bind Lawful (sleep host 50) (λ _. post_batches host id batches) (λ s h. (tt, h))
              (λ _. post_batches-Sends batches))
          s h

module _ {t : Foreign} (lib : Library t) (host : Host (CreateInputWire t)) (P : Endpoint → Type 0)
    (p_auth : P Endpoint.auth) where
  abbrev pub Posts : Posting host → Type 0
  Posts s = Sends host P p_auth s.io

  pub on_io-Posts :
      {A : Type 0} (m : Call host A) → Keeps (Sends host P p_auth) m → Keeps Posts (on_io host m)
  on_io-Posts m k s h = k s.io h

  module _ (id : SessionId) (p_rows : (kind : String) → P (Endpoint.resources id kind)) where
    write_segments-Posts : (segs : List (Segment t)) → Keeps Posts (write_segments lib host id segs)
    unfolding post_segments_chunked
    write_segments-Posts [] s h = h
    write_segments-Posts (x ∷ xs) s h =
        let rows = map (segment_wire lib) (x ∷ xs) in
        Keeps-bind Posts (on_io host (post_segments_chunked host id rows))
          (λ _. insert_ids lib host (x ∷ xs))
          (on_io-Posts (post_segments_chunked host id rows)
            (post_batches-Sends host P p_auth id p_rows (chunks_of_5 rows)))
          (λ _ s h. h) s h

    write_beats-Sends :
        (bs : List (Beat t)) → Keeps (Sends host P p_auth) (write_beats lib host id bs)
    unfolding post_beats
    write_beats-Sends [] s h = h
    write_beats-Sends (b ∷ bs) s h =
        bulk_insert-Sends host P p_auth id p_rows "beats" (map (beat_wire lib) (b ∷ bs)) s h

    write_scenes-Sends :
        (xs : List (Scene t)) → Keeps (Sends host P p_auth) (write_scenes lib host id xs)
    unfolding post_scenes
    write_scenes-Sends [] s h = h
    write_scenes-Sends (x ∷ xs) s h =
        bulk_insert-Sends host P p_auth id p_rows "scenes" (map (scene_wire lib) (x ∷ xs)) s h

    pub write_new_outputs-Posts :
        (out : PipelineOutput t) → Keeps Posts (write_new_outputs lib host id out)
    unfolding write_new_outputs
    write_new_outputs-Posts out s h =
        let segs = new_segments s.posted out.segments in
        let scenes = on_io host (write_scenes lib host id out.scenes) in
        Keeps-bind Posts (write_segments lib host id segs)
          (λ _. on_io host (write_beats lib host id out.beats) >> scenes)
          (write_segments-Posts segs)
          (λ _.
            Keeps-bind Posts (on_io host (write_beats lib host id out.beats)) (λ _. scenes)
              (on_io-Posts (write_beats lib host id out.beats) (write_beats-Sends out.beats))
              (λ _.
                on_io-Posts (write_scenes lib host id out.scenes) (write_scenes-Sends out.scenes)))
          s h
