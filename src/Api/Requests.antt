-- ===== src/Api/Requests.antt =====
-- Which requests the calls of src/api_client.rs make: what holds of each request of a call, and of the
-- handshake, holds of all that the call adds to the trace.
use chronicle_worker.Prelude.{
  ℕ, zero, suc, List, ◌∷◌, Option, none, some, All, ltb, ◌==◌, ◌&&◌, ◌+◌, arith, get_elem?,
  if◌then◌else◌,
}
use chronicle_worker.Ids.{SessionId, PseudoId, Seq}
use chronicle_worker.Error.{WorkerError}
use chronicle_worker.Exec.{pure, raise, ◌>>=◌, ◌>>◌}
use chronicle_worker.Exec.Keeps.{Keeps, Keeps-bind, Keeps-if}
use chronicle_worker.Http.{
  Method, get, Endpoint, Payload, Request, Reply, failed, response, Parsed, parsed, broken, Host,
}
use chronicle_worker.Api.{
  Action, sent, waited, Io, Response, Call, is_success, is_server_error, receive, dispatch,
  authorized, sleep, decoded, check_ok, status_error, re_authenticate,
}
use chronicle_worker.Api.Chunks.{
  list_participants, list_chunks, download_loop, download_chunk, chunk_error, max_5xx_retries,
  backoffs,
}

-- What each request to an endpoint has, whatever else stands in it.
abbrev pub At : {Row : Type 0} → (Endpoint → Type 0) → Action Row → Type 0
At P (waited ms) = Unit
At P (sent request) = P request.endpoint

module _ {Row : Type 0} (host : Host Row) (P : Endpoint → Type 0) (p_auth : P Endpoint.auth) where
  abbrev pub Sends : Io host → Type 0
  Sends s = All (At P) s.trace

  pub done-Sends : {A : Type 0} (a : A) → Keeps Sends (pure a)
  done-Sends a s h = h

  pub raise-Sends : (A : Type 0) (e : WorkerError) → Keeps Sends (raise {A = A} e)
  raise-Sends A e s h = h

  receive-Sends : (reply : Reply host.Body) → Keeps Sends (receive host reply)
  receive-Sends (failed e) s h = h
  receive-Sends (response code body) s h = h

  dispatch-Sends :
      (request : Request Row) → P request.endpoint → Keeps Sends (dispatch host request)
  dispatch-Sends request p s h =
      let (reply, world) = host.send request s.world in
      receive-Sends reply (record s { world = world; trace = sent request ∷ s.trace }) (p, h)

  pub authorized-Sends :
      (method : Method) (endpoint : Endpoint) (payload : Payload Row)
      → P endpoint
      → Keeps Sends (authorized host method endpoint payload)
  authorized-Sends method endpoint payload p s h =
      dispatch-Sends
        (record {
          method = method;
          endpoint = endpoint;
          bearer = some s.client.session_token;
          payload = payload;
        })
        p s h

  pub decoded-Sends : {A : Type 0} (r : Parsed A) → Keeps Sends (decoded host r)
  decoded-Sends (parsed a) s h = h
  decoded-Sends (broken e) s h = h

  pub check_ok-Sends : (resp : Response host) → Keeps Sends (check_ok host resp)
  unfolding check_ok
  check_ok-Sends resp =
      Keeps-if Sends (is_success resp.code) (pure resp) (raise (status_error host resp))
        (done-Sends resp) (raise-Sends (Response host) (status_error host resp))

  re_authenticate-Sends : Keeps Sends (re_authenticate host)
  unfolding re_authenticate
  re_authenticate-Sends s h = ground (arith, p_auth, h)

  module _ (id : SessionId) (pseudo : PseudoId) (seq : Seq)
      (p_chunk : P (Endpoint.chunk id pseudo seq)) where
    abbrev after_delay : Option ℕ → Call host (List ℕ) → Call host (List ℕ)
    after_delay d next = elim d [
      | none ↦ raise (WorkerError.api "panic: index out of bounds")
      | some delay ↦ sleep host delay >> next
    ]

    after_delay-Sends :
        (d : Option ℕ) (next : Call host (List ℕ))
        → Keeps Sends next
        → Keeps Sends (after_delay d next)
    after_delay-Sends none next k s h = h
    after_delay-Sends (some delay) next k s h =
        k (record s { trace = waited delay ∷ s.trace }) (tt, h)

    abbrev answered :
        ℕ → Call host (List ℕ) → Call host (List ℕ) → Response host → Call host (List ℕ)
    answered attempt again next resp =
        if is_success resp.code
        then decoded host (host.bytes resp.body)
        else if resp.code == 401
        then (re_authenticate host >> again)
        else if is_server_error resp.code && ltb attempt max_5xx_retries
        then after_delay (get_elem? backoffs attempt) next
        else raise (chunk_error host resp)

    answered-Sends :
        (attempt : ℕ) (again next : Call host (List ℕ)) (resp : Response host)
        → Keeps Sends again
        → Keeps Sends next
        → Keeps Sends (answered attempt again next resp)
    answered-Sends attempt again next resp ka kn =
        let failed_at : Call host (List ℕ) = raise (chunk_error host resp) in
        let late : Call host (List ℕ) = after_delay (get_elem? backoffs attempt) next in
        let retried : Call host (List ℕ) =
          if is_server_error resp.code && ltb attempt max_5xx_retries then late else failed_at in
        let refused : Call host (List ℕ) = re_authenticate host >> again in
        let other : Call host (List ℕ) = if resp.code == 401 then refused else retried in
        Keeps-if Sends (is_success resp.code) (decoded host (host.bytes resp.body)) other
          (decoded-Sends (host.bytes resp.body))
          (Keeps-if Sends (resp.code == 401) refused retried
            (Keeps-bind Sends (re_authenticate host) (λ _. again) re_authenticate-Sends (λ _. ka))
            (Keeps-if Sends (is_server_error resp.code && ltb attempt max_5xx_retries) late
              failed_at (after_delay-Sends (get_elem? backoffs attempt) next kn)
              (raise-Sends (List ℕ) (chunk_error host resp))))

    download_loop-Sends :
        (fuel attempt : ℕ) → Keeps Sends (download_loop host fuel id pseudo seq attempt)
    unfolding download_loop
    download_loop-Sends zero attempt s h = h
    download_loop-Sends (suc fuel) attempt s h =
        let again = download_loop host fuel id pseudo seq attempt in
        let next = download_loop host fuel id pseudo seq (attempt + 1) in
        Keeps-bind Sends (authorized host get (Endpoint.chunk id pseudo seq) Payload.empty)
          (answered attempt again next)
          (authorized-Sends get (Endpoint.chunk id pseudo seq) Payload.empty p_chunk)
          (λ resp.
            answered-Sends attempt again next resp (download_loop-Sends fuel attempt)
              (download_loop-Sends fuel (attempt + 1)))
          s h

    pub download_chunk-Sends : (fuel : ℕ) → Keeps Sends (download_chunk host fuel id pseudo seq)
    unfolding download_chunk
    download_chunk-Sends fuel = download_loop-Sends fuel 0

  checked-Sends :
      {A : Type 0} (read : host.Body → Parsed A) (endpoint : Endpoint)
      → P endpoint
      → Keeps Sends (do
        resp ← authorized host get endpoint Payload.empty
        resp ← check_ok host resp
        decoded host (read resp.body))
  checked-Sends read endpoint p =
      Keeps-bind Sends (authorized host get endpoint Payload.empty)
        (λ resp. check_ok host resp >>= λ resp. decoded host (read resp.body))
        (authorized-Sends get endpoint Payload.empty p)
        (λ resp.
          Keeps-bind Sends (check_ok host resp) (λ resp. decoded host (read resp.body))
            (check_ok-Sends resp) (λ resp. decoded-Sends (read resp.body)))

  pub list_participants-Sends :
      (id : SessionId) → P (Endpoint.participants id) → Keeps Sends (list_participants host id)
  unfolding list_participants
  list_participants-Sends id p = checked-Sends host.json_participants (Endpoint.participants id) p

  pub list_chunks-Sends :
      (id : SessionId) (pseudo : PseudoId)
      → P (Endpoint.chunks id pseudo)
      → Keeps Sends (list_chunks host id pseudo)
  unfolding list_chunks
  list_chunks-Sends id pseudo p = checked-Sends host.json_chunks (Endpoint.chunks id pseudo) p
