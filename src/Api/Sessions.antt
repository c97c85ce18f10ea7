-- ===== src/Api/Sessions.antt =====
-- The session calls of src/api_client.rs: lists by status, and the PATCH of a status with its
-- classification of answers.
pub mod Status
use chronicle_worker.Prelude.{String, List, ◌==◌, if◌then◌else◌}
use chronicle_worker.Ids.{SessionId}
use chronicle_worker.Error.{WorkerError}
use chronicle_worker.Exec.{pure, raise, ◌>>=◌, ◌>>◌}
use chronicle_worker.Http.{get, patch, Endpoint, Payload, SessionSummary, SessionDetail, Host}
use chronicle_worker.Api.{Call, authorized, decoded, check_ok}

module _ {Row : Type 0} (host : Host Row) where
  unfoldable pub list_sessions_by_status : String → Call host (List SessionSummary)
  unfolding check_ok
  list_sessions_by_status status = do
    resp ← authorized host get (Endpoint.sessions_by_status status) Payload.empty
    resp ← check_ok host resp
    decoded host (host.json_sessions resp.body)

  unfoldable pub get_session : SessionId → Call host SessionDetail
  unfolding check_ok
  get_session id = do
    resp ← authorized host get (Endpoint.session id) Payload.empty
    if resp.code == 404
        then raise (WorkerError.not_found id)
        else (do resp ← check_ok host resp; decoded host (host.json_session resp.body))

  unfoldable pub patch_status : SessionId → String → Call host Unit
  unfolding check_ok
  patch_status id status = do
    resp ← authorized host patch (Endpoint.session id) (Payload.status status)
    if resp.code == 409
        then raise (WorkerError.claim_lost id)
        else if resp.code == 404
        then raise (WorkerError.not_found id)
        else (do check_ok host resp; pure tt)

  unfoldable pub claim_session : SessionId → Call host Unit
  unfolding patch_status
  claim_session id = patch_status id "transcribing"

  unfoldable pub mark_transcribed : SessionId → Call host Unit
  unfolding patch_status
  mark_transcribed id = patch_status id "transcribed"

  unfoldable pub mark_failed : SessionId → Call host Unit
  unfolding patch_status
  mark_failed id = patch_status id "transcribing_failed"
