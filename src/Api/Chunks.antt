-- ===== src/Api/Chunks.antt =====
-- The participant and chunk calls of src/api_client.rs. The loop of `download_chunk` has no bound of
-- its own on answers with 401, so it takes fuel and is `pending` when that runs out.
pub mod Download
use Prim.Native.String.{◌++◌}
use chronicle_worker.Prelude.{
  ℕ, zero, suc, ◌+◌, String, List, [], ◌∷◌, Option, none, some, ◌==◌, ltb, ◌&&◌, get_elem?,
  if◌then◌else◌,
}
use chronicle_worker.Ids.{SessionId, PseudoId, Seq}
use chronicle_worker.Error.{WorkerError}
use chronicle_worker.Exec.{pending, pure, raise, ◌>>=◌, ◌>>◌}
use chronicle_worker.Http.{get, Endpoint, Payload, Participant, ChunkInfo, Host}
use chronicle_worker.Api.{
  Call, Response, authorized, decoded, sleep, is_success, is_server_error, check_ok,
  re_authenticate,
}

abbrev pub max_5xx_retries : ℕ
max_5xx_retries = 3

-- In milliseconds.
abbrev pub backoffs : List ℕ
backoffs = 1000 ∷ 2000 ∷ 4000 ∷ []

module _ {Row : Type 0} (host : Host Row) where
  unfoldable pub list_participants : SessionId → Call host (List Participant)
  unfolding check_ok
  list_participants id = do
    resp ← authorized host get (Endpoint.participants id) Payload.empty
    resp ← check_ok host resp
    decoded host (host.json_participants resp.body)

  unfoldable pub list_chunks : SessionId → PseudoId → Call host (List ChunkInfo)
  unfolding check_ok
  list_chunks id pseudo = do
    resp ← authorized host get (Endpoint.chunks id pseudo) Payload.empty
    resp ← check_ok host resp
    decoded host (host.json_chunks resp.body)

  abbrev pub chunk_error : Response host → WorkerError
  chunk_error resp =
      WorkerError.api ("chunk " ++ (host.show resp.code ++ (": " ++ host.text resp.body)))

  -- `backoffs[attempt]` panics out of range, which `attempt < max_5xx_retries` rules out.
  unfoldable pub download_loop : ℕ → SessionId → PseudoId → Seq → ℕ → Call host (List ℕ)
  unfolding re_authenticate
  download_loop zero id pseudo seq attempt s = (pending, s)
  download_loop (suc fuel) id pseudo seq attempt s =
      let again = download_loop fuel id pseudo seq attempt in
      let next = download_loop fuel id pseudo seq (attempt + 1) in
      (authorized host get (Endpoint.chunk id pseudo seq) Payload.empty >>= λ resp.
      if is_success resp.code
      then decoded host (host.bytes resp.body)
      else if resp.code == 401
      then (re_authenticate host >> again)
      else if is_server_error resp.code && ltb attempt max_5xx_retries
      then elim (get_elem? backoffs attempt) [
        | none ↦ raise (WorkerError.api "panic: index out of bounds")
        | some delay ↦ sleep host delay >> next
      ]
      else raise (chunk_error resp))
        s

  unfoldable pub download_chunk : ℕ → SessionId → PseudoId → Seq → Call host (List ℕ)
  unfolding download_loop
  download_chunk fuel id pseudo seq = download_loop fuel id pseudo seq 0
