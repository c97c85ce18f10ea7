-- ===== src/Error.antt =====
-- src/error.rs: the one error type, its retry classification, and `Result`.
use chronicle_worker.Prelude.{String, Bool, true, false}
use chronicle_worker.Ids.{SessionId}

pub data WorkerError : Type 0 where
  api : String → WorkerError
  claim_lost : SessionId → WorkerError
  not_found : SessionId → WorkerError
  pipeline : String → WorkerError
  web_socket : String → WorkerError
  admin : String → WorkerError
  config : String → WorkerError

unfoldable pub is_retryable_session_failure : WorkerError → Bool
is_retryable_session_failure (api _) = true
is_retryable_session_failure (pipeline _) = true
is_retryable_session_failure (web_socket _) = true
is_retryable_session_failure (claim_lost _) = false
is_retryable_session_failure (not_found _) = false
is_retryable_session_failure (admin _) = false
is_retryable_session_failure (config _) = false

pub data Result {ℓ} (A : Type ℓ) : Type ℓ where
  ok : A → Result A
  err : WorkerError → Result A
