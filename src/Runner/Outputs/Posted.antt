-- ===== src/Runner/Outputs/Posted.antt =====
-- Which requests the posting of outputs makes, in which order, and which ids it remembers.
use chronicle_worker.Prelude.{ap, ◌∙◌, true, String, List, [], ◌∷◌, ◌++◌, map}
use mathlib.Core.List.{append-nil}
use chronicle_worker.Ids.{Uuid, SessionId}
use chronicle_worker.Exec.{◌>>◌}
use chronicle_worker.Http.{Host, post, Endpoint, Payload}
use chronicle_worker.Api.{Action, waited, Io, sleep}
use chronicle_worker.Api.Plan.{
  Stops, Follows, Follows-eq, Follows-pure, Follows-then, Follows-sleep, Follows-request,
  check_then-IsQuiet, here, request,
}
use chronicle_worker.Api.Outputs.{bulk_insert, post_segments, post_beats, post_scenes}
use chronicle_worker.Pipeline.{Foreign, Library, Segment, Beat, Scene, PipelineOutput}
use chronicle_worker.Runner.Wire.{CreateInputWire, segment_wire, beat_wire, scene_wire}
use chronicle_worker.Runner.Outputs.{
  Posting, on_io, chunks_of_5, post_batches, post_segments_chunked, new_segments, write_segments,
  write_beats, write_scenes, insert_ids, write_new_outputs,
}
use chronicle_worker.Runner.Outputs.Batches.{
  fives, unposted, chunks_of_5-fives, new_segments-unposted,
}

module _ {Row : Type 0} (host : Host Row) where
  abbrev pub insert_plan : SessionId → String → List Row → String → List (Action Row)
  insert_plan session kind [] token = []
  insert_plan session kind (row ∷ rows) token =
      request host post (Endpoint.resources session kind) (Payload.rows kind (row ∷ rows)) token

  -- Each batch is one request, and a wait of 50 milliseconds follows it.
  abbrev pub batches_plan : SessionId → List (List Row) → String → List (Action Row)
  batches_plan session [] token = []
  batches_plan session (batch ∷ batches) token =
      insert_plan session "segments" batch token ++ (waited 50 ∷ batches_plan session batches token)

  bulk_insert-Follows :
      (session : SessionId) (kind : String) (rows : List Row)
      → Follows (here host) (insert_plan session kind rows) (bulk_insert host session kind rows)
  unfolding bulk_insert
  bulk_insert-Follows session kind [] = Follows-pure (here host) tt
  bulk_insert-Follows session kind (row ∷ rows) =
      Follows-request host post (Endpoint.resources session kind) (Payload.rows kind (row ∷ rows)) _
        (check_then-IsQuiet host tt)

  post_batches-Follows :
      (session : SessionId) (batches : List (List Row))
      → Follows (here host) (batches_plan session batches) (post_batches host session batches)
  unfolding post_batches
  post_batches-Follows session [] = Follows-pure (here host) tt
  post_batches-Follows session (batch ∷ batches) =
      Follows-then (here host) (insert_plan session "segments" batch)
        (λ token. waited 50 ∷ batches_plan session batches token) (post_segments host session batch)
        (sleep host 50 >> post_batches host session batches)
        (bulk_insert-Follows session "segments" batch)
        (Follows-then (here host) (λ token. waited 50 ∷ []) (batches_plan session batches)
          (sleep host 50) (post_batches host session batches) (Follows-sleep host 50)
          (post_batches-Follows session batches))

module _ {t : Foreign} (lib : Library t) (host : Host (CreateInputWire t)) where
  -- The segments that have not been posted, five at a time, then the beats, then the scenes.
  abbrev pub outputs_plan :
      SessionId → List Uuid → PipelineOutput t → String → List (Action (CreateInputWire t))
  outputs_plan session posted out token =
      batches_plan host session (fives (map (segment_wire lib) (unposted posted out.segments)))
        token
      ++ (insert_plan host session "beats" (map (beat_wire lib) out.beats) token
          ++ insert_plan host session "scenes" (map (scene_wire lib) out.scenes) token)

  abbrev pub io_of : Posting host → Io host
  io_of s = s.io

  segments_plan : SessionId → List (Segment t) → String → List (Action (CreateInputWire t))
  segments_plan session segs = batches_plan host session (chunks_of_5 (map (segment_wire lib) segs))

  insert_ids-Follows :
      (segs : List (Segment t)) → Follows io_of (λ token. []) (insert_ids lib host segs)
  insert_ids-Follows segs s = Follows-pure io_of tt s

  write_segments-Follows :
      (session : SessionId) (segs : List (Segment t))
      → Follows io_of (segments_plan session segs) (write_segments lib host session segs)
  unfolding segments_plan chunks_of_5 post_segments_chunked
  write_segments-Follows session [] = Follows-pure io_of tt
  write_segments-Follows session (s ∷ rest) =
      let plan = segments_plan session (s ∷ rest) in
      let batches = chunks_of_5 (map (segment_wire lib) (s ∷ rest)) in
      Follows-eq io_of (λ token. plan token ++ []) plan (write_segments lib host session (s ∷ rest))
        (λ token. append-nil (plan token))
        (Follows-then io_of plan (λ token. []) (on_io host (post_batches host session batches))
          (insert_ids lib host (s ∷ rest)) (λ u. post_batches-Follows host session batches u.io)
          (insert_ids-Follows (s ∷ rest)))

  write_beats-Follows :
      (session : SessionId) (bs : List (Beat t))
      → Follows
          (here host)
          (insert_plan host session "beats" (map (beat_wire lib) bs))
          (write_beats lib host session bs)
  unfolding post_beats
  write_beats-Follows session [] = Follows-pure (here host) tt
  write_beats-Follows session (b ∷ bs) =
      bulk_insert-Follows host session "beats" (map (beat_wire lib) (b ∷ bs))

  write_scenes-Follows :
      (session : SessionId) (ss : List (Scene t))
      → Follows
          (here host)
          (insert_plan host session "scenes" (map (scene_wire lib) ss))
          (write_scenes lib host session ss)
  unfolding post_scenes
  write_scenes-Follows session [] = Follows-pure (here host) tt
  write_scenes-Follows session (s ∷ ss) =
      bulk_insert-Follows host session "scenes" (map (scene_wire lib) (s ∷ ss))

  -- `write_new_outputs` always returns, and does what carrying out its plan does: the segments that
  -- have not been posted go out in order, five at a time, with a wait after each batch, then the beats
  -- and the scenes. The first answer whose status is not from 200 to 299, or that does not come, ends
  -- this, and the call succeeds just if there is none; the client is kept.
  pub write_new_outputs-Stops :
      (session : SessionId) (out : PipelineOutput t) (s : Posting host)
      → (let (r, s') = write_new_outputs lib host session out s in
          Stops true (outputs_plan session s.posted out s.io.client.session_token) s.io r s'.io)
  unfolding write_new_outputs segments_plan
  write_new_outputs-Stops session out s =
      let segs = new_segments s.posted out.segments in
      let beats = insert_plan host session "beats" (map (beat_wire lib) out.beats) in
      let scenes = insert_plan host session "scenes" (map (scene_wire lib) out.scenes) in
      let posts =
        write_segments lib host session segs
        >> (on_io host (write_beats lib host session out.beats)
            >> on_io host (write_scenes lib host session out.scenes)) in
      let follows : Follows io_of
          (λ token. segments_plan session segs token ++ (beats token ++ scenes token)) posts =
        Follows-then io_of (segments_plan session segs) (λ token. beats token ++ scenes token)
          (write_segments lib host session segs)
          (on_io host (write_beats lib host session out.beats)
            >> on_io host (write_scenes lib host session out.scenes))
          (write_segments-Follows session segs)
          (Follows-then io_of beats scenes (on_io host (write_beats lib host session out.beats))
            (on_io host (write_scenes lib host session out.scenes))
            (λ u. write_beats-Follows session out.beats u.io)
            (λ u. write_scenes-Follows session out.scenes u.io)) in
      Follows-eq io_of _ (outputs_plan session s.posted out) posts
        (λ token.
          ap (λ batches. batches_plan host session batches token ++ (beats token ++ scenes token))
            (chunks_of_5-fives (map (segment_wire lib) segs)
              ∙ ap (λ l. fives (map (segment_wire lib) l))
                  (new_segments-unposted s.posted out.segments)))
        follows s
