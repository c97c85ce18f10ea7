-- ===== src/Api/Sessions/Status.antt =====
-- How the answer to the PATCH of a status is classified.
use chronicle_worker.Prelude.{ℕ, ◌≤◌, ◌<◌, ◌≡◌, ◌↔◌, String, some, arith}
use chronicle_worker.Ids.{SessionId}
use chronicle_worker.Error.{WorkerError}
use chronicle_worker.Exec.{ok, err}
use chronicle_worker.Http.{patch, Endpoint, Payload, Host, Reply, response}
use chronicle_worker.Api.{Io}
use chronicle_worker.Api.Plan.{Follows, Follows-request, here, request}
use chronicle_worker.Api.Sessions.{patch_status}

module _ {Row : Type 0} (host : Host Row) where
  pub patch_status-Follows :
      (id : SessionId) (status : String)
      → Follows
          (here host)
          (request host patch (Endpoint.session id) (Payload.status status))
          (patch_status host id status)
  unfolding patch_status
  patch_status-Follows id status =
      Follows-request host patch (Endpoint.session id) (Payload.status status) _
        (λ resp s. ground arith)

  abbrev sent_patch : SessionId → String → Io host → Reply host.Body
  sent_patch id status s =
      (host.send
        (record {
          method = patch;
          endpoint = Endpoint.session id;
          bearer = some s.client.session_token;
          payload = Payload.status status;
        })
        s.world).0

  -- When the data-api answers with some status code, the call reports a lost claim exactly at 409, a
  -- missing session exactly at 404, and success exactly from 200 to 299.
  pub patch_status_classified :
      (id : SessionId) (status : String) (s : Io host) (code : ℕ) (body : host.Body)
      → sent_patch id status s ≡ response code body
      → (((patch_status host id status s).0 ≡ err (WorkerError.claim_lost id)) ↔ (code ≡ 409))
        × (((patch_status host id status s).0 ≡ err (WorkerError.not_found id)) ↔ (code ≡ 404))
        × (((patch_status host id status s).0 ≡ ok tt) ↔ ((200 ≤ code) × (code < 300)))
  unfolding patch_status
  patch_status_classified id status s code body h = (ground arith, ground arith, ground arith)
