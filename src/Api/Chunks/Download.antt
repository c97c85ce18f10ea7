-- ===== src/Api/Chunks/Download.antt =====
-- The loop of `download_chunk`: how long it waits, when it returns, and when it does not.
use chronicle_worker.Prelude.{
  ℕ, String, zero, suc, ◌+◌, ◌-◌, ◌*◌, ◌≤◌, ◌<◌, ◌≡◌, ◌≢◌, refl, List, [], ◌∷◌, arith, length, none,
  some, ◌==◌, if◌then◌else◌,
}
use chronicle_worker.Ids.{SessionId, PseudoId, Seq}
use chronicle_worker.Exec.{pending}
use chronicle_worker.Http.{
  get, post, Payload, Endpoint, Request, Reply, failed, response, parsed, Host,
}
use chronicle_worker.Api.{Action, sent, waited, Io, authorized, sleep, re_authenticate}
use chronicle_worker.Api.Chunks.{download_loop, download_chunk}

abbrev pub waits : {Row : Type 0} → List (Action Row) → ℕ
waits [] = 0
waits (sent request ∷ trace) = waits trace
waits (waited ms ∷ trace) = ms + waits trace

-- The waits that are left after some attempts have failed: 1 s, 2 s and 4 s in all.
abbrev budget : ℕ → ℕ
budget zero = 7000
budget (suc zero) = 6000
budget (suc (suc zero)) = 4000
budget (suc (suc (suc n))) = 0

module _ {Row : Type 0} (host : Host Row) where
  re_authenticate-waits : (s : Io host) → waits (re_authenticate host s).1.trace ≡ waits s.trace
  unfolding re_authenticate
  re_authenticate-waits s = ground arith

  abbrev auth_request : Io host → Request Row
  auth_request s = record {
    method = post;
    endpoint = Endpoint.auth;
    bearer = none;
    payload = Payload.credentials s.client.shared_secret s.client.service_name;
  }

  abbrev chunk_request : SessionId → PseudoId → Seq → Io host → Request Row
  chunk_request id pseudo seq s = record {
    method = get;
    endpoint = Endpoint.chunk id pseudo seq;
    bearer = some s.client.session_token;
    payload = Payload.empty;
  }

  -- The state once the request of a round has been answered.
  abbrev asked : SessionId → PseudoId → Seq → Io host → Io host
  asked id pseudo seq s = (authorized host get (Endpoint.chunk id pseudo seq) Payload.empty s).1

  -- The state once a wait is over too.
  abbrev rested : ℕ → Io host → Io host
  rested ms s = (sleep host ms s).1

  download_loop-waits :
      (fuel : ℕ) (id : SessionId) (pseudo : PseudoId) (seq : Seq) (attempt : ℕ) (s : Io host)
      → waits (download_loop host fuel id pseudo seq attempt s).1.trace
        ≤ waits s.trace + budget attempt
  unfolding download_loop
  download_loop-waits zero id pseudo seq attempt s = omega arith
  download_loop-waits (suc fuel) id pseudo seq zero s =
      let u = asked id pseudo seq s in
      ground (
        arith,
        re_authenticate-waits u,
        download_loop-waits fuel id pseudo seq 0 (re_authenticate host u).1,
        download_loop-waits fuel id pseudo seq 1 (rested 1000 u),
      )
  download_loop-waits (suc fuel) id pseudo seq (suc zero) s =
      let u = asked id pseudo seq s in
      ground (
        arith,
        re_authenticate-waits u,
        download_loop-waits fuel id pseudo seq 1 (re_authenticate host u).1,
        download_loop-waits fuel id pseudo seq 2 (rested 2000 u),
      )
  download_loop-waits (suc fuel) id pseudo seq (suc (suc zero)) s =
      let u = asked id pseudo seq s in
      ground (
        arith,
        re_authenticate-waits u,
        download_loop-waits fuel id pseudo seq 2 (re_authenticate host u).1,
        download_loop-waits fuel id pseudo seq 3 (rested 4000 u),
      )
  download_loop-waits (suc fuel) id pseudo seq (suc (suc (suc n))) s =
      let u = asked id pseudo seq s in
      ground (
        arith,
        re_authenticate-waits u,
        download_loop-waits fuel id pseudo seq (suc (suc (suc n))) (re_authenticate host u).1,
      )

  -- However the data-api answers and however many rounds are given, one download waits for at most
  -- seven seconds between its requests.
  pub download_chunk-waits :
      (fuel : ℕ) (id : SessionId) (pseudo : PseudoId) (seq : Seq) (s : Io host)
      → waits (download_chunk host fuel id pseudo seq s).1.trace ≤ waits s.trace + 7000
  unfolding download_chunk
  download_chunk-waits fuel id pseudo seq s = download_loop-waits fuel id pseudo seq 0 s

abbrev pub is_401 : {Body : Type 0} → Reply Body → ℕ
is_401 (failed e) = 0
is_401 (response code body) = if code == 401 then 1 else 0

-- The data-api has only so many answers with 401 left, in each of its states.
abbrev pub CoolsDown : {Row : Type 0} (host : Host Row) → (host.World → ℕ) → Type 0
CoolsDown {Row} host refusals =
    (request : Request Row) (w : host.World)
    → is_401 (host.send request w).0 + refusals (host.send request w).1 ≤ refusals w

module _ {Row : Type 0} (host : Host Row) (refusals : host.World → ℕ)
    (cools : CoolsDown host refusals) where
  re_authenticate-refusals :
      (s : Io host)
      → (refusals (re_authenticate host s).1.world ≤ refusals s.world)
        × ((re_authenticate host s).0 ≢ pending)
  unfolding re_authenticate
  re_authenticate-refusals s = ground (arith, cools (auth_request host s) s.world)

  -- The rounds that are left after some failed attempts, but for those that end in a 401.
  download_loop-returns :
      (fuel : ℕ) (id : SessionId) (pseudo : PseudoId) (seq : Seq) (attempt : ℕ) (s : Io host)
      → refusals s.world + (3 - attempt) < fuel
      → (download_loop host fuel id pseudo seq attempt s).0 ≢ pending
  unfolding download_loop
  download_loop-returns zero id pseudo seq attempt s h = absurd (omega arith)
  download_loop-returns (suc fuel) id pseudo seq zero s h =
      let u = asked host id pseudo seq s in
      ground (
        arith,
        cools (chunk_request host id pseudo seq s) s.world,
        re_authenticate-refusals u,
        download_loop-returns fuel id pseudo seq 0 (re_authenticate host u).1,
        download_loop-returns fuel id pseudo seq 1 (rested host 1000 u),
      )
  download_loop-returns (suc fuel) id pseudo seq (suc zero) s h =
      let u = asked host id pseudo seq s in
      ground (
        arith,
        cools (chunk_request host id pseudo seq s) s.world,
        re_authenticate-refusals u,
        download_loop-returns fuel id pseudo seq 1 (re_authenticate host u).1,
        download_loop-returns fuel id pseudo seq 2 (rested host 2000 u),
      )
  download_loop-returns (suc fuel) id pseudo seq (suc (suc zero)) s h =
      let u = asked host id pseudo seq s in
      ground (
        arith,
        cools (chunk_request host id pseudo seq s) s.world,
        re_authenticate-refusals u,
        download_loop-returns fuel id pseudo seq 2 (re_authenticate host u).1,
        download_loop-returns fuel id pseudo seq 3 (rested host 4000 u),
      )
  download_loop-returns (suc fuel) id pseudo seq (suc (suc (suc n))) s h =
      let u = asked host id pseudo seq s in
      ground (
        arith,
        cools (chunk_request host id pseudo seq s) s.world,
        re_authenticate-refusals u,
        download_loop-returns fuel id pseudo seq (suc (suc (suc n))) (re_authenticate host u).1,
      )

  -- Against a data-api with only so many answers with 401 left, a download returns, given at least
  -- four rounds more than those.
  pub download_chunk-returns :
      (fuel : ℕ) (id : SessionId) (pseudo : PseudoId) (seq : Seq) (s : Io host)
      → refusals s.world + 4 ≤ fuel
      → (download_chunk host fuel id pseudo seq s).0 ≢ pending
  unfolding download_chunk
  download_chunk-returns fuel id pseudo seq s h =
      download_loop-returns fuel id pseudo seq 0 s (omega arith)

-- The data-api hands out tokens, and refuses every request that bears one with a 401.
abbrev pub RefusesTokens : {Row : Type 0} (host : Host Row) → host.Body → String → Type 0
RefusesTokens {Row} host body token =
    (host.json_token body ≡ parsed token)
    × ((request : Request Row) (w : host.World)
        → (host.send request w).0
          ≡ response (elim request.bearer [ none ↦ 200 | some t ↦ 401 ]) body)

module _ {Row : Type 0} (host : Host Row) (body : host.Body) (token : String)
    (refuses : RefusesTokens host body token) where
  download_loop-endless :
      (fuel : ℕ) (id : SessionId) (pseudo : PseudoId) (seq : Seq) (attempt : ℕ) (s : Io host)
      → (let (r, s') = download_loop host fuel id pseudo seq attempt s in
          (r ≡ pending) × (length s'.trace ≡ length s.trace + 2 * fuel))
  unfolding download_loop
  download_loop-endless zero id pseudo seq attempt s = (refl, omega arith)
  download_loop-endless (suc fuel) id pseudo seq attempt s =
      let u = asked host id pseudo seq s in
      ground (
        arith,
        refuses.0,
        refuses.1 (chunk_request host id pseudo seq s) s.world,
        refuses.1 (auth_request host u) u.world,
        download_loop-endless fuel id pseudo seq attempt (re_authenticate host u).1,
      )

  -- Against a data-api that hands out tokens and refuses every request that bears one with 401, a
  -- download has not returned after any number of rounds, and it has made two requests in each.
  pub download_chunk-endless :
      (fuel : ℕ) (id : SessionId) (pseudo : PseudoId) (seq : Seq) (s : Io host)
      → (let (r, s') = download_chunk host fuel id pseudo seq s in
          (r ≡ pending) × (length s'.trace ≡ length s.trace + 2 * fuel))
  unfolding download_chunk
  download_chunk-endless fuel id pseudo seq s = download_loop-endless fuel id pseudo seq 0 s
