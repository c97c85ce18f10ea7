-- ===== src/Tests/Api.antt =====
-- The client of src/api_client.rs against small data-apis.
use chronicle_worker.Prelude.{
  ℕ, zero, suc, ◌+◌, ◌-◌, ◌*◌, ◌≤◌, ◌<◌, ◌≡◌, ◌≢◌, refl, ◌↔◌, none, some, [], ◌∷◌, arith, length,
}
use chronicle_worker.Error.{WorkerError}
use chronicle_worker.Exec.{ok, err, pending}
use chronicle_worker.Http.{Host}
use chronicle_worker.Api.{Io}
use chronicle_worker.Api.Sessions.{patch_status}
use chronicle_worker.Api.Sessions.Status.{patch_status_classified}
use chronicle_worker.Api.Chunks.{download_chunk}
use chronicle_worker.Api.Chunks.Download.{
  CoolsDown, RefusesTokens, download_chunk-returns, download_chunk-endless,
}
use chronicle_worker.Api.{heartbeat}
use chronicle_worker.Heartbeat.{heartbeat_loop}
use chronicle_worker.Heartbeat.Requests.{Beaten, heartbeat-requests}
use chronicle_worker.Tests.World.{answering, Row, client}

-- As many requests as the state says are answered with 401, and the others succeed.
abbrev cooling : Host Row
cooling = answering (λ request w. elim w [ zero ↦ 200 | suc n ↦ 401 ]) (λ w. w - 1)

-- Every request with a token is answered with 401.
abbrev refusing : Host Row
refusing = answering (λ request w. elim request.bearer [ none ↦ 200 | some t ↦ 401 ]) (λ w. w)

-- Another worker holds every session.
abbrev taken : Host Row
taken = answering (λ request w. 409) (λ w. w)

-- Every request fails in the server.
abbrev broken_down : Host Row
broken_down = answering (λ request w. 500) (λ w. w)

abbrev cooling_io : Io cooling
cooling_io = record { client = client; world = 2; trace = [] }

abbrev refusing_io : Io refusing
refusing_io = record { client = client; world = 0; trace = [] }

abbrev taken_io : Io taken
taken_io = record { client = client; world = 0; trace = [] }

abbrev broken_down_io : Io broken_down
broken_down_io = record { client = client; world = 0; trace = [] }

cooling-CoolsDown : CoolsDown cooling (λ w. w)
cooling-CoolsDown request w = ground arith

refusing-RefusesTokens : RefusesTokens refusing (1 ∷ 0 ∷ 3 ∷ 0 ∷ []) "token"
refusing-RefusesTokens = (refl, λ request w. refl)

abbrev conflict : ℕ
conflict = 409

patch_status_classified_example :
    (((patch_status taken 7 "transcribing" taken_io).0 ≡ err (WorkerError.claim_lost 7))
      ↔ (conflict ≡ 409))
    × (((patch_status taken 7 "transcribing" taken_io).0 ≡ err (WorkerError.not_found 7))
        ↔ (conflict ≡ 404))
    × (((patch_status taken 7 "transcribing" taken_io).0 ≡ ok tt)
        ↔ ((200 ≤ conflict) × (conflict < 300)))
patch_status_classified_example =
    patch_status_classified taken 7 "transcribing" taken_io 409 (1 ∷ 0 ∷ 3 ∷ 0 ∷ []) refl

download_chunk-returns_example : (download_chunk cooling 6 7 "ann" 0 cooling_io).0 ≢ pending
download_chunk-returns_example =
    download_chunk-returns cooling (λ w. w) cooling-CoolsDown 6 7 "ann" 0 cooling_io (omega arith)

download_chunk-endless_example :
    (let (r, s') = download_chunk refusing 50 7 "ann" 0 refusing_io in
      (r ≡ pending) × (length s'.trace ≡ 0 + 2 * 50))
download_chunk-endless_example =
    download_chunk-endless refusing (1 ∷ 0 ∷ 3 ∷ 0 ∷ []) "token" refusing-RefusesTokens 50 7 "ann" 0
      refusing_io

heartbeat-requests_example :
    ((heartbeat cooling cooling_io).0 ≢ pending)
    × Beaten cooling cooling_io (heartbeat cooling cooling_io)
heartbeat-requests_example = heartbeat-requests cooling cooling_io

-- One heartbeat is answered, and one is not.
beats_noted :
    (heartbeat_loop cooling
      (30000 ∷ 60000 ∷ [])
      (record { io = cooling_io; last_heartbeat = none })).last_heartbeat
    ≡ some 60000
unfolding heartbeat_loop
beats_noted = refl
