-- ===== src/Runner/Succeeds.antt =====
-- src/session_runner.rs: the calls that a runner makes succeed, if the data-api answers them.
use chronicle_worker.Prelude.{
  ℕ, suc, ◌≤◌, ◌<◌, ◌≡◌, true, false, String, List, [], ◌∷◌, map, arith, ◌==◌,
}
use chronicle_worker.Ids.{SessionId, PseudoId, Seq}
use chronicle_worker.Exec.{pure, ◌>>=◌, ◌>>◌}
use chronicle_worker.Exec.Returns.{IsOk, Succeeds, Succeeds-bind}
use chronicle_worker.Http.{
  Method, Host, Request, Reply, failed, response, get, patch, post, Endpoint, Payload, Parsed,
  parsed, broken,
}
use chronicle_worker.Api.{
  Io, Call, Response, authorized, receive, decoded, sleep, check_ok, is_success,
}
use chronicle_worker.Api.Sessions.{patch_status, claim_session, mark_transcribed}
use chronicle_worker.Api.Chunks.{list_participants, list_chunks, download_chunk}
use chronicle_worker.Api.Outputs.{bulk_insert, post_segments, post_beats, post_scenes}
use chronicle_worker.Pipeline.{Foreign, Library, Segment, Beat, Scene, PipelineOutput}
use chronicle_worker.Runner.Wire.{CreateInputWire, segment_wire, beat_wire, scene_wire}
use chronicle_worker.Runner.Outputs.{
  on_io, post_batches, post_segments_chunked, chunks_of_5, new_segments, insert_ids, write_segments,
  write_beats, write_scenes, write_new_outputs,
}

abbrev pub IsParsed : {A : Type 0} → Parsed A → Type 0
IsParsed (parsed a) = Unit
IsParsed (broken e) = ⊥

-- The data-api answers every request with a status of success, and its bodies can be read.
pub record Answering {Row : Type 0} (host : Host Row) : Type 0 where
  pub answers :
      (request : Request Row) (w : host.World)
      → (code : ℕ) × (body : host.Body) × ((host.send request w).0 ≡ response code body)
        × (200 ≤ code)
        × (code < 300)
  pub audio : (body : host.Body) → IsParsed (host.bytes body)
  pub participants : (body : host.Body) → IsParsed (host.json_participants body)
  pub chunks : (body : host.Body) → IsParsed (host.json_chunks body)

module _ {Row : Type 0} (host : Host Row) (answering : Answering host) where
  received_then :
      {A : Type 0} (reply : Reply host.Body) (f : Response host → Call host A) (s : Io host)
      → (code : ℕ) × (body : host.Body) × (reply ≡ response code body) × (200 ≤ code) × (code < 300)
      → ((resp : Response host) → 200 ≤ resp.code → resp.code < 300 → Succeeds (f resp))
      → IsOk ((receive host reply >>= f) s).0
  received_then (failed e) f s (code, body, h, low, high) k = absurd cc
  received_then (response c b) f s (code, body, h, low, high) k =
      let same : c ≡ code = grind arith in
      k (record { code = c; body = b }) (rw same low) (rw same high) s

  asked_then :
      {A : Type 0} (method : Method) (endpoint : Endpoint) (payload : Payload Row)
      (f : Response host → Call host A)
      → ((resp : Response host) → 200 ≤ resp.code → resp.code < 300 → Succeeds (f resp))
      → Succeeds (authorized host method endpoint payload >>= f)
  asked_then method endpoint payload f k s =
      received_then (host.send _ s.world).0 f _ (answering.answers _ s.world) k

  decoded-Succeeds : {A : Type 0} (r : Parsed A) → IsParsed r → Succeeds (decoded host r)
  decoded-Succeeds (parsed a) h s = tt
  decoded-Succeeds (broken e) h s = absurd h

  check_ok-Succeeds :
      (resp : Response host) → 200 ≤ resp.code → resp.code < 300 → Succeeds (check_ok host resp)
  unfolding check_ok
  check_ok-Succeeds resp low high s =
      let fine : is_success resp.code ≡ true = ground arith in rw fine tt

  checked-Succeeds :
      (resp : Response host)
      → 200 ≤ resp.code
      → resp.code < 300
      → Succeeds (check_ok host resp >> pure tt)
  checked-Succeeds resp low high =
      Succeeds-bind (check_ok host resp) (λ _. pure tt) (check_ok-Succeeds resp low high)
        (λ _ s. tt)

  patch_status-Succeeds :
      (id : SessionId) (status : String) → Succeeds (patch_status host id status)
  unfolding patch_status
  patch_status-Succeeds id status =
      asked_then patch (Endpoint.session id) (Payload.status status) _ (λ resp low high.
        let not_lost : (resp.code == 409) ≡ false = ground arith in
        let not_missing : (resp.code == 404) ≡ false = ground arith in
        rw (not_lost, not_missing) (checked-Succeeds resp low high))

  pub claim_session-Succeeds : (id : SessionId) → Succeeds (claim_session host id)
  unfolding claim_session
  claim_session-Succeeds id = patch_status-Succeeds id "transcribing"

  pub mark_transcribed-Succeeds : (id : SessionId) → Succeeds (mark_transcribed host id)
  unfolding mark_transcribed
  mark_transcribed-Succeeds id = patch_status-Succeeds id "transcribed"

  read_then :
      {A : Type 0} (endpoint : Endpoint) (read : host.Body → Parsed A)
      → ((body : host.Body) → IsParsed (read body))
      → Succeeds (do
        resp ← authorized host get endpoint Payload.empty
        resp ← check_ok host resp
        decoded host (read resp.body))
  read_then endpoint read reads = asked_then get endpoint Payload.empty _ (λ resp low high.
      Succeeds-bind (check_ok host resp) (λ resp. decoded host (read resp.body))
        (check_ok-Succeeds resp low high)
        (λ resp. decoded-Succeeds (read resp.body) (reads resp.body)))

  pub list_participants-Succeeds : (id : SessionId) → Succeeds (list_participants host id)
  unfolding list_participants
  list_participants-Succeeds id =
      read_then (Endpoint.participants id) host.json_participants answering.participants

  pub list_chunks-Succeeds : (id : SessionId) (pid : PseudoId) → Succeeds (list_chunks host id pid)
  unfolding list_chunks
  list_chunks-Succeeds id pid = read_then (Endpoint.chunks id pid) host.json_chunks answering.chunks

  pub download_chunk-Succeeds :
      (fuel : ℕ) (id : SessionId) (pid : PseudoId) (seq : Seq)
      → Succeeds (download_chunk host (suc fuel) id pid seq)
  unfolding download_chunk
  download_chunk-Succeeds fuel id pid seq =
      asked_then get (Endpoint.chunk id pid seq) Payload.empty _ (λ resp low high.
        let fine : is_success resp.code ≡ true = ground arith in
        rw fine (decoded-Succeeds (host.bytes resp.body) (answering.audio resp.body)))

  bulk_insert-Succeeds :
      (id : SessionId) (kind : String) (rows : List Row) → Succeeds (bulk_insert host id kind rows)
  unfolding bulk_insert
  bulk_insert-Succeeds id kind [] s = tt
  bulk_insert-Succeeds id kind (row ∷ rows) s =
      asked_then post (Endpoint.resources id kind) (Payload.rows kind (row ∷ rows)) _
        checked-Succeeds s

  post_batches-Succeeds :
      (id : SessionId) (batches : List (List Row)) → Succeeds (post_batches host id batches)
  unfolding post_batches post_segments
  post_batches-Succeeds id [] s = tt
  post_batches-Succeeds id (batch ∷ batches) s =
      Succeeds-bind (post_segments host id batch)
        (λ _. sleep host 50 >> post_batches host id batches)
        (bulk_insert-Succeeds id "segments" batch)
        (λ _.
          Succeeds-bind (sleep host 50) (λ _. post_batches host id batches) (λ s. tt)
            (λ _. post_batches-Succeeds id batches))
        s

module _ {t : Foreign} (lib : Library t) (host : Host (CreateInputWire t))
    (answering : Answering host) where
  on_io-Succeeds : {A : Type 0} (m : Call host A) → Succeeds m → Succeeds (on_io host m)
  on_io-Succeeds m k s = k s.io

  write_segments-Succeeds :
      (id : SessionId) (segs : List (Segment t)) → Succeeds (write_segments lib host id segs)
  unfolding post_segments_chunked
  write_segments-Succeeds id [] s = tt
  write_segments-Succeeds id (x ∷ xs) s =
      let rows = map (segment_wire lib) (x ∷ xs) in
      Succeeds-bind (on_io host (post_segments_chunked host id rows))
        (λ _. insert_ids lib host (x ∷ xs))
        (on_io-Succeeds (post_segments_chunked host id rows)
          (post_batches-Succeeds host answering id (chunks_of_5 rows)))
        (λ _ s. tt) s

  write_beats-Succeeds :
      (id : SessionId) (bs : List (Beat t)) → Succeeds (write_beats lib host id bs)
  unfolding post_beats
  write_beats-Succeeds id [] s = tt
  write_beats-Succeeds id (b ∷ bs) s =
      bulk_insert-Succeeds host answering id "beats" (map (beat_wire lib) (b ∷ bs)) s

  write_scenes-Succeeds :
      (id : SessionId) (xs : List (Scene t)) → Succeeds (write_scenes lib host id xs)
  unfolding post_scenes
  write_scenes-Succeeds id [] s = tt
  write_scenes-Succeeds id (x ∷ xs) s =
      bulk_insert-Succeeds host answering id "scenes" (map (scene_wire lib) (x ∷ xs)) s

  pub write_new_outputs-Succeeds :
      (id : SessionId) (out : PipelineOutput t) → Succeeds (write_new_outputs lib host id out)
  unfolding write_new_outputs
  write_new_outputs-Succeeds id out s =
      let segs = new_segments s.posted out.segments in
      let scenes = on_io host (write_scenes lib host id out.scenes) in
      Succeeds-bind (write_segments lib host id segs)
        (λ _. on_io host (write_beats lib host id out.beats) >> scenes)
        (write_segments-Succeeds id segs)
        (λ _.
          Succeeds-bind (on_io host (write_beats lib host id out.beats)) (λ _. scenes)
            (on_io-Succeeds (write_beats lib host id out.beats) (write_beats-Succeeds id out.beats))
            (λ _.
              on_io-Succeeds (write_scenes lib host id out.scenes)
                (write_scenes-Succeeds id out.scenes)))
        s
