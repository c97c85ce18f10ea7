-- ===== src/Api.antt =====
-- src/api_client.rs: the client, the handshake and the handling of responses. The state holds the
-- client, the world behind the network, and the trace of what was done, newest first.
pub mod Plan
pub mod Sessions
pub mod Chunks
pub mod Outputs
pub mod Requests
pub mod Address
use Prim.Native.String.{◌++◌}
use chronicle_worker.Prelude.{
  ℕ, String, Bool, Option, none, some, List, [], ◌∷◌, leb, ltb, ◌==◌, ◌&&◌, if◌then◌else◌,
}
use chronicle_worker.Error.{WorkerError}
use chronicle_worker.Exec.{Outcome, Exec, ok, err, pending, pure, raise, ◌>>=◌, ◌>>◌}
use chronicle_worker.Http.{
  Method, get, post, Endpoint, Payload, Request, Reply, failed, response, Parsed, parsed, broken,
  Host,
}

pub record DataApiClient : Type 0 where
  pub base_url : String
  pub session_token : String
  pub shared_secret : String
  pub service_name : String

pub data Action (Row : Type 0) : Type 0 where
  sent : Request Row → Action Row
  waited : ℕ → Action Row

-- StatusCode::is_success, is_server_error
abbrev pub is_success : ℕ → Bool
is_success code = leb 200 code && ltb code 300

abbrev pub is_server_error : ℕ → Bool
is_server_error code = leb 500 code && ltb code 600

module _ {Row : Type 0} where
  pub record Io (host : Host Row) : Type 0 where
    pub client : DataApiClient
    pub world : host.World
    pub trace : List (Action Row)

  pub record Response (host : Host Row) : Type 0 where
    pub code : ℕ
    pub body : host.Body

  abbrev pub Call : Host Row → Type 0 → Type 0
  Call host A = Exec (Io host) A

module _ {Row : Type 0} (host : Host Row) where
  abbrev pub receive : Reply host.Body → Call host (Response host)
  receive (failed e) = raise (WorkerError.api e)
  receive (response code body) = pure (record { code = code; body = body })

  -- .send().await?
  abbrev pub dispatch : Request Row → Call host (Response host)
  dispatch request s =
      let (reply, world) = host.send request s.world in
      receive reply (record s { world = world; trace = sent request ∷ s.trace })

  -- A request with the authorization header of the current token.
  abbrev pub authorized : Method → Endpoint → Payload Row → Call host (Response host)
  authorized method endpoint payload s =
      dispatch
        (record {
          method = method;
          endpoint = endpoint;
          bearer = some s.client.session_token;
          payload = payload;
        })
        s

  -- tokio::time::sleep, in milliseconds
  abbrev pub sleep : ℕ → Call host Unit
  sleep ms s = (ok tt, record s { trace = waited ms ∷ s.trace })

  -- The `?` behind a decoder.
  abbrev pub decoded : {A : Type 0} → Parsed A → Call host A
  decoded (parsed a) = pure a
  decoded (broken e) = raise (WorkerError.api e)

  abbrev pub status_error : Response host → WorkerError
  status_error resp = WorkerError.api (host.show resp.code ++ (": " ++ host.text resp.body))

  unfoldable pub check_ok : Response host → Call host (Response host)
  check_ok resp = if is_success resp.code then pure resp else raise (status_error resp)

  unfoldable pub do_auth : Call host String
  do_auth s =
      let request : Request Row = record {
        method = post;
        endpoint = Endpoint.auth;
        bearer = none;
        payload = Payload.credentials s.client.shared_secret s.client.service_name;
      } in
      (dispatch request >>= λ resp.
      if is_success resp.code
      then decoded (host.json_token resp.body)
      else raise
          (WorkerError.api ("auth " ++ (host.show resp.code ++ (": " ++ host.text resp.body)))))
        s

  abbrev with_token : DataApiClient → Outcome String × Io host → Outcome (Io host) × host.World
  with_token client (ok token, s) =
      (ok (record s { client = record client { session_token = token } }), s.world)
  with_token client (err e, s) = (err e, s.world)
  with_token client (pending, s) = (pending, s.world)

  abbrev handshake : Parsed (Unit {0}) → DataApiClient → Exec host.World (Io host)
  handshake (broken e) client world = (err (WorkerError.api ("reqwest build: " ++ e)), world)
  handshake (parsed http) client world =
      with_token client (do_auth (record { client = client; world = world; trace = [] }))

  -- `http` is what reqwest's `Client::builder()` builds. The client's token is empty until the
  -- handshake has given one.
  unfoldable pub authenticate :
      Parsed (Unit {0}) → String → String → String → Exec host.World (Io host)
  unfolding do_auth
  authenticate http base_url shared_secret service_name = handshake http (record {
    base_url = base_url;
    session_token = "";
    shared_secret = shared_secret;
    service_name = service_name;
  })

  abbrev pub store_token : String → Call host Unit
  store_token token s = (ok tt, record s { client = record s.client { session_token = token } })

  unfoldable pub re_authenticate : Call host Unit
  unfolding do_auth
  re_authenticate = do token ← do_auth; store_token token

  unfoldable pub heartbeat : Call host Unit
  unfolding check_ok re_authenticate
  heartbeat = do
    resp ← authorized post Endpoint.heartbeat Payload.empty
    if resp.code == 401
        then (do
          re_authenticate
          retry ← authorized post Endpoint.heartbeat Payload.empty
          check_ok retry
          pure tt)
        else (do check_ok resp; pure tt)
