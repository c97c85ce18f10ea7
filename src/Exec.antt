-- ===== src/Exec.antt =====
-- Asynchronous code as a state transformer. `ok` and `err` are Rust's `Ok` and `Err`; `pending` means
-- that a loop has used up the rounds that the model gives it and has not returned. What was done
-- before an error stays done, so the state comes back beside every outcome.
pub mod Keeps
pub mod Returns
use chronicle_worker.Error.{WorkerError}

pub data Outcome {ℓ} (A : Type ℓ) : Type ℓ where
  ok : A → Outcome A
  err : WorkerError → Outcome A
  pending : Outcome A

abbrev pub Exec : Type 0 → Type 0 → Type 0
Exec S A = S → Outcome A × S

module _ {S A : Type 0} where
  abbrev pub pure : A → Exec S A
  pure a s = (ok a, s)

  abbrev pub raise : WorkerError → Exec S A
  raise e s = (err e, s)

module _ {S A B : Type 0} where
  abbrev pub resume : Outcome A → (A → Exec S B) → Exec S B
  resume (ok a) f s = f a s
  resume (err e) f s = (err e, s)
  resume pending f s = (pending, s)

  infixl 10 ◌>>=◌ ◌>>◌
  abbrev pub ◌>>=◌ : Exec S A → (A → Exec S B) → Exec S B
  ◌>>=◌ m f s = let (r, t) = m s in resume r f t

  abbrev pub ◌>>◌ : Exec S A → Exec S B → Exec S B
  m >> n = m >>= λ _. n

  abbrev pub settle : Outcome A → (A → Exec S B) → (WorkerError → Exec S B) → Exec S B
  settle (ok a) f g s = f a s
  settle (err e) f g s = g e s
  settle pending f g s = (pending, s)

  -- `match` on a call's result: its error is handed on as a value.
  abbrev pub handle : Exec S A → (A → Exec S B) → (WorkerError → Exec S B) → Exec S B
  handle m f g s = let (r, t) = m s in settle r f g t
