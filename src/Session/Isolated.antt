-- ===== src/Session/Isolated.antt =====
-- src/session_runner.rs: whose data a runner touches.
use chronicle_worker.Prelude.{ℕ, ◌≡◌, refl, String, Option, List, All}
use chronicle_worker.Ids.{SessionId}
use chronicle_worker.Http.{Host, Endpoint}
use chronicle_worker.Api.Requests.{At}
use chronicle_worker.Pipeline.{Foreign, Library}
use chronicle_worker.Runner.Wire.{CreateInputWire}
use chronicle_worker.Runner.Outputs.{Posting}
use chronicle_worker.Runner.Streaming.{RunnerCmd}
use chronicle_worker.Runner.Streaming.Requests.{
  NoFinalize, run_streaming-Posts, run_streaming-unclaimed,
}
use chronicle_worker.Runner.OneShot.Requests.{run_one_shot-Posts}
use chronicle_worker.EventLoop.{RunnerMode, streaming, one_shot}
use chronicle_worker.Session.Ending.{run}

-- The requests about this session, and the handshake.
abbrev pub IsOwn : SessionId → Endpoint → Type 0
IsOwn session Endpoint.auth = Unit
IsOwn session Endpoint.heartbeat = ⊥
IsOwn session (Endpoint.sessions_by_status status) = ⊥
IsOwn session (Endpoint.session id) = id ≡ session
IsOwn session (Endpoint.participants id) = id ≡ session
IsOwn session (Endpoint.chunks id pid) = id ≡ session
IsOwn session (Endpoint.chunk id pid seq) = id ≡ session
IsOwn session (Endpoint.resources id kind) = id ≡ session
IsOwn session (Endpoint.resource kind id) = ⊥

-- Of these, the requests that leave the status of the session alone.
abbrev pub IsUnclaimed : SessionId → Endpoint → Type 0
IsUnclaimed session (Endpoint.session id) = ⊥
IsUnclaimed session Endpoint.auth = Unit
IsUnclaimed session Endpoint.heartbeat = ⊥
IsUnclaimed session (Endpoint.sessions_by_status status) = ⊥
IsUnclaimed session (Endpoint.participants id) = id ≡ session
IsUnclaimed session (Endpoint.chunks id pid) = id ≡ session
IsUnclaimed session (Endpoint.chunk id pid seq) = id ≡ session
IsUnclaimed session (Endpoint.resources id kind) = id ≡ session
IsUnclaimed session (Endpoint.resource kind id) = ⊥

module _ {t : Foreign} (lib : Library t) (host : Host (CreateInputWire t)) where
  -- If the requests so far were about a session or the handshake, then so are all after the body of a
  -- runner of that session, whatever its mode, its commands and the answers: it makes no request
  -- about another session.
  pub run-IsOwn :
      (fuel : ℕ) (session : SessionId) (mode : RunnerMode) (url : Option String)
      (cmds : List RunnerCmd) (s : Posting host)
      → All (At (IsOwn session)) s.io.trace
      → All (At (IsOwn session)) (run lib host fuel session mode url cmds s).1.io.trace
  unfolding run
  run-IsOwn fuel session streaming url cmds s h =
      run_streaming-Posts lib host (IsOwn session) tt session (λ kind. refl) refl (λ pid seq. refl)
        fuel url cmds s h
  run-IsOwn fuel session one_shot url cmds s h =
      run_one_shot-Posts lib host (IsOwn session) tt session (λ kind. refl) refl refl
        (λ pid. (refl, λ seq. refl)) fuel url s h

  -- If the requests so far left the status of a session alone, and no command to finalize comes before
  -- one to abort, then the body of a streaming runner leaves it alone too: it neither claims the
  -- session nor marks it, however many chunks it has processed.
  pub run-IsUnclaimed :
      (fuel : ℕ) (session : SessionId) (url : Option String) (cmds : List RunnerCmd)
      (s : Posting host)
      → NoFinalize cmds
      → All (At (IsUnclaimed session)) s.io.trace
      → All (At (IsUnclaimed session)) (run lib host fuel session streaming url cmds s).1.io.trace
  unfolding run
  run-IsUnclaimed fuel session url cmds s n h =
      run_streaming-unclaimed lib host (IsUnclaimed session) tt session (λ kind. refl)
        (λ pid seq. refl) fuel url cmds n s h
