-- ===== src/Runner/OneShot/Clearing.antt =====
-- src/session_runner.rs: the clearing of the outputs of an earlier run.
use chronicle_worker.Prelude.{String, List, [], ◌∷◌, none, some, ◌==◌, if◌then◌else◌}
use chronicle_worker.Ids.{Uuid, SessionId}
use chronicle_worker.Exec.{pure, raise, ◌>>=◌, ◌>>◌}
use chronicle_worker.Exec.Returns.{
  Returns, Returns-bind, Returns-if, Succeeds, Succeeds-bind, Succeeds-handle,
}
use chronicle_worker.Http.{
  Method, get, delete, Endpoint, Payload, Reply, failed, response, Parsed, parsed, broken, Shape,
  array, object, other, Host,
}
use chronicle_worker.Api.{
  Response, is_success, receive, authorized, decoded, check_ok, status_error,
}
use chronicle_worker.Api.Outputs.{ids_of, list_resource_ids, delete_resource}
use chronicle_worker.Runner.OneShot.{ids_or_none, delete_each, clear_prior_outputs}

module _ {Row : Type 0} (host : Host Row) where
  receive-Returns : (reply : Reply host.Body) → Returns (receive host reply)
  receive-Returns (failed e) s = tt
  receive-Returns (response code body) s = tt

  pub authorized-Returns :
      (method : Method) (endpoint : Endpoint) (payload : Payload Row)
      → Returns (authorized host method endpoint payload)
  authorized-Returns method endpoint payload s = receive-Returns (host.send _ s.world).0 _

  pub decoded-Returns : {A : Type 0} (r : Parsed A) → Returns (decoded host r)
  decoded-Returns (parsed a) s = tt
  decoded-Returns (broken e) s = tt

  pub check_ok-Returns : (resp : Response host) → Returns (check_ok host resp)
  unfolding check_ok
  check_ok-Returns resp =
      Returns-if (is_success resp.code) (pure resp) (raise (status_error host resp)) (λ s. tt)
        (λ s. tt)

  ids_of-Returns : (v : host.Value) (shape : Shape host.Value) → Returns (ids_of host v shape)
  ids_of-Returns v array = decoded-Returns (host.rows_of v)
  ids_of-Returns v (object (some items)) = decoded-Returns (host.rows_of items)
  ids_of-Returns v (object none) = decoded-Returns (host.rows_of host.empty_array)
  ids_of-Returns v other = λ s. tt

  pub list_resource_ids-Returns :
      (id : SessionId) (resource : String) → Returns (list_resource_ids host id resource)
  unfolding list_resource_ids
  list_resource_ids-Returns id resource =
      Returns-bind (authorized host get (Endpoint.resources id resource) Payload.empty)
        (λ resp. check_ok host resp >>= λ resp.
          decoded host (host.json_value resp.body) >>= λ v. ids_of host v (host.shape v))
        (authorized-Returns get (Endpoint.resources id resource) Payload.empty)
        (λ resp.
          Returns-bind (check_ok host resp)
            (λ resp. decoded host (host.json_value resp.body) >>= λ v. ids_of host v (host.shape v))
            (check_ok-Returns resp)
            (λ resp.
              Returns-bind (decoded host (host.json_value resp.body))
                (λ v. ids_of host v (host.shape v)) (decoded-Returns (host.json_value resp.body))
                (λ v. ids_of-Returns v (host.shape v))))

  pub delete_resource-Returns : (kind : String) (id : Uuid) → Returns (delete_resource host kind id)
  unfolding delete_resource
  delete_resource-Returns kind id =
      let checked = λ (resp : Response host). check_ok host resp >> pure tt in
      Returns-bind (authorized host delete (Endpoint.resource kind id) Payload.empty)
        (λ resp. if resp.code == 404 then pure tt else checked resp)
        (authorized-Returns delete (Endpoint.resource kind id) Payload.empty)
        (λ resp.
          Returns-if (resp.code == 404) (pure tt) (checked resp) (λ s. tt)
            (Returns-bind (check_ok host resp) (λ _. pure tt) (check_ok-Returns resp) (λ _ s. tt)))

  pub ids_or_none-Succeeds :
      (session : SessionId) (kind : String)
      → Succeeds (ids_or_none host (list_resource_ids host session kind))
  ids_or_none-Succeeds session kind =
      Succeeds-handle (list_resource_ids host session kind) pure (λ _. pure [])
        (list_resource_ids-Returns session kind) (λ a s. tt) (λ e s. tt)

  pub delete_each-Succeeds :
      (kind : String) (ids : List Uuid)
      → Succeeds (delete_each host (delete_resource host kind) ids)
  unfolding delete_each
  delete_each-Succeeds kind [] = λ s. tt
  delete_each-Succeeds kind (id ∷ ids) =
      Succeeds-handle (delete_resource host kind id)
        (λ _. delete_each host (delete_resource host kind) ids)
        (λ _. delete_each host (delete_resource host kind) ids) (delete_resource-Returns kind id)
        (λ _. delete_each-Succeeds kind ids) (λ _. delete_each-Succeeds kind ids)

  -- Whatever the data-api answers, the clearing ends without an error.
  pub clear_prior_outputs-Succeeds :
      (session : SessionId) → Succeeds (clear_prior_outputs host session)
  unfolding clear_prior_outputs
  clear_prior_outputs-Succeeds session =
      let deletes = λ (segs beats scenes : List Uuid).
        delete_each host (delete_resource host "segments") segs
        >> (delete_each host (delete_resource host "beats") beats
            >> delete_each host (delete_resource host "scenes") scenes) in
      Succeeds-bind (ids_or_none host (list_resource_ids host session "segments"))
        (λ segs. ids_or_none host (list_resource_ids host session "beats") >>= λ beats.
          ids_or_none host (list_resource_ids host session "scenes") >>= λ scenes.
          deletes segs beats scenes)
        (ids_or_none-Succeeds session "segments")
        (λ segs.
          Succeeds-bind (ids_or_none host (list_resource_ids host session "beats"))
            (λ beats. ids_or_none host (list_resource_ids host session "scenes") >>= λ scenes.
              deletes segs beats scenes)
            (ids_or_none-Succeeds session "beats")
            (λ beats.
              Succeeds-bind (ids_or_none host (list_resource_ids host session "scenes"))
                (λ scenes. deletes segs beats scenes) (ids_or_none-Succeeds session "scenes")
                (λ scenes.
                  Succeeds-bind (delete_each host (delete_resource host "segments") segs)
                    (λ _.
                      delete_each host (delete_resource host "beats") beats
                      >> delete_each host (delete_resource host "scenes") scenes)
                    (delete_each-Succeeds "segments" segs)
                    (λ _.
                      Succeeds-bind (delete_each host (delete_resource host "beats") beats)
                        (λ _. delete_each host (delete_resource host "scenes") scenes)
                        (delete_each-Succeeds "beats" beats)
                        (λ _. delete_each-Succeeds "scenes" scenes)))))
