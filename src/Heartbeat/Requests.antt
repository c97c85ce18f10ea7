-- ===== src/Heartbeat/Requests.antt =====
-- src/api_client.rs and src/event_loop.rs: which requests a heartbeat makes.
use chronicle_worker.Prelude.{
  String, ◌≡◌, ◌⊎◌, ◌≢◌, Bool, true, false, Option, none, some, ◌∷◌, arith, leb, ◌==◌, ◌&&◌,
  if◌then◌else◌,
}
use chronicle_worker.Exec.{Outcome, pending}
use chronicle_worker.Http.{
  Host, post, Endpoint, Payload, Request, Reply, failed, response, Parsed, parsed, broken,
}
use chronicle_worker.Api.Plan.{is_ok}
use chronicle_worker.Api.{
  DataApiClient, Action, sent, Io, heartbeat, do_auth, re_authenticate, check_ok,
}

module _ {Row : Type 0} where
  abbrev pub beat_request : String → Request Row
  beat_request token = record {
    method = post;
    endpoint = Endpoint.heartbeat;
    bearer = some token;
    payload = Payload.empty;
  }

  abbrev pub auth_request : DataApiClient → Request Row
  auth_request client = record {
    method = post;
    endpoint = Endpoint.auth;
    bearer = none;
    payload = Payload.credentials client.shared_secret client.service_name;
  }

  abbrev pub beat_with : String → Action Row
  beat_with token = sent (beat_request token)

  abbrev pub auth_of : DataApiClient → Action Row
  auth_of client = sent (auth_request client)

module _ {Row : Type 0} (host : Host Row) where
  -- What an answer says: the token is no longer good, the heartbeat is taken, this is the new token.
  abbrev pub unauthorized : Reply host.Body → Bool
  unauthorized (failed e) = false
  unauthorized (response code body) = code == 401

  abbrev pub accepted : Reply host.Body → Bool
  accepted (failed e) = false
  accepted (response code body) = leb 200 code && leb code 299

  abbrev token_in : Parsed String → Option String
  token_in (parsed token) = some token
  token_in (broken e) = none

  abbrev pub granted : Reply host.Body → Option String
  granted (failed e) = none
  granted (response code body) =
      if leb 200 code && leb code 299 then token_in (host.json_token body) else none

  -- What becomes of a heartbeat, from the answers to its requests: to the first, to the handshake, and
  -- to the second. The token that the handshake grants is the client's from then on.
  abbrev pub Beaten : Io host → Outcome (Unit {0}) × Io host → Type 0
  Beaten s (r, t) =
      let first = beat_with s.client.session_token in
      let (reply, w) = host.send (beat_request s.client.session_token) s.world in
      let (auth, w') = host.send (auth_request s.client) w in
      ((unauthorized reply ≡ false)
        × (t.trace ≡ first ∷ s.trace)
        × (t.client ≡ s.client)
        × (is_ok r ≡ accepted reply))
      ⊎ ((unauthorized reply ≡ true)
          × (granted auth ≡ none)
          × (t.trace ≡ auth_of s.client ∷ first ∷ s.trace)
          × (t.client ≡ s.client)
          × (is_ok r ≡ false))
      ⊎ ((token : String) × (unauthorized reply ≡ true)
          × (granted auth ≡ some token)
          × (t.trace ≡ beat_with token ∷ auth_of s.client ∷ first ∷ s.trace)
          × (t.client ≡ record s.client { session_token = token })
          × (is_ok r ≡ accepted (host.send (beat_request token) w').0))

  -- A heartbeat is one request with the client's token. Unless the answer is 401, that is all, the
  -- client is kept, and the heartbeat succeeds just if the answer has a status from 200 to 299. After
  -- a 401 there is one handshake. If it grants no token, that is all and the heartbeat fails. If it
  -- grants one, the client keeps that token and makes one more request with it, and the heartbeat
  -- succeeds just if the answer to this one has a status from 200 to 299. It always returns.
  pub heartbeat-requests :
      (s : Io host) → ((heartbeat host s).0 ≢ pending) × Beaten s (heartbeat host s)
  unfolding heartbeat check_ok re_authenticate do_auth
  heartbeat-requests s = (ground arith, ground arith)
