-- ===== src/Api/Outputs.antt =====
-- The output calls of src/api_client.rs: bulk inserts, lists of ids and deletes.
use chronicle_worker.Prelude.{String, List, [], ◌∷◌, none, some, ◌==◌, if◌then◌else◌}
use chronicle_worker.Ids.{Uuid, SessionId}
use chronicle_worker.Exec.{pure, ◌>>=◌, ◌>>◌}
use chronicle_worker.Http.{get, post, delete, Endpoint, Payload, Shape, array, object, other, Host}
use chronicle_worker.Api.{Call, authorized, decoded, check_ok}

module _ {Row : Type 0} (host : Host Row) where
  unfoldable pub bulk_insert : SessionId → String → List Row → Call host Unit
  unfolding check_ok
  bulk_insert id kind [] = pure tt
  bulk_insert id kind (row ∷ rows) = do
    resp ← authorized host post (Endpoint.resources id kind) (Payload.rows kind (row ∷ rows))
    check_ok host resp
    pure tt

  unfoldable pub post_segments : SessionId → List Row → Call host Unit
  unfolding bulk_insert
  post_segments id rows = bulk_insert id "segments" rows

  unfoldable pub post_beats : SessionId → List Row → Call host Unit
  unfolding bulk_insert
  post_beats id rows = bulk_insert id "beats" rows

  unfoldable pub post_scenes : SessionId → List Row → Call host Unit
  unfolding bulk_insert
  post_scenes id rows = bulk_insert id "scenes" rows

  -- `[{id}, …]` and `{items: [{id}, …]}`; any other body has no rows.
  abbrev pub ids_of : host.Value → Shape host.Value → Call host (List Uuid)
  ids_of v array = decoded host (host.rows_of v)
  ids_of v (object (some items)) = decoded host (host.rows_of items)
  ids_of v (object none) = decoded host (host.rows_of host.empty_array)
  ids_of v other = pure []

  unfoldable pub list_resource_ids : SessionId → String → Call host (List Uuid)
  unfolding check_ok
  list_resource_ids id resource = do
    resp ← authorized host get (Endpoint.resources id resource) Payload.empty
    resp ← check_ok host resp
    v ← decoded host (host.json_value resp.body)
    ids_of v (host.shape v)

  unfoldable pub delete_resource : String → Uuid → Call host Unit
  unfolding check_ok
  delete_resource kind id = do
    resp ← authorized host delete (Endpoint.resource kind id) Payload.empty
    if resp.code == 404 then pure tt else (do check_ok host resp; pure tt)

  abbrev pub list_segment_ids : SessionId → Call host (List Uuid)
  list_segment_ids id = list_resource_ids id "segments"

  abbrev pub list_beat_ids : SessionId → Call host (List Uuid)
  list_beat_ids id = list_resource_ids id "beats"

  abbrev pub list_scene_ids : SessionId → Call host (List Uuid)
  list_scene_ids id = list_resource_ids id "scenes"

  abbrev pub delete_segment : Uuid → Call host Unit
  delete_segment id = delete_resource "segments" id

  abbrev pub delete_beat : Uuid → Call host Unit
  delete_beat id = delete_resource "beats" id

  abbrev pub delete_scene : Uuid → Call host Unit
  delete_scene id = delete_resource "scenes" id
