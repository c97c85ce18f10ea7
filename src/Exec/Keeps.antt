-- ===== src/Exec/Keeps.antt =====
-- Invariants of calls, one rule for each way in which a call is put together.
use chronicle_worker.Prelude.{Bool, true, false, if◌then◌else◌}
use chronicle_worker.Error.{WorkerError}
use chronicle_worker.Exec.{Outcome, ok, err, pending, Exec, resume, settle, handle, ◌>>=◌}

-- Whatever its outcome, `m` keeps `P`.
abbrev pub Keeps : {S A : Type 0} → (S → Type 0) → Exec S A → Type 0
Keeps {S} P m = (s : S) → P s → P (m s).1

module _ {S A B : Type 0} (P : S → Type 0) where
  keeps_resume :
      (r : Outcome A) (f : A → Exec S B) (s : S)
      → ((a : A) → Keeps P (f a))
      → P s
      → P (resume r f s).1
  keeps_resume (ok a) f s k h = k a s h
  keeps_resume (err e) f s k h = h
  keeps_resume pending f s k h = h

  pub Keeps-bind :
      (call : Exec S A) (next : A → Exec S B)
      → Keeps P call
      → ((result : A) → Keeps P (next result))
      → Keeps P (call >>= next)
  Keeps-bind call next kept later s h = keeps_resume (call s).0 next (call s).1 later (kept s h)

  keeps_settle :
      (r : Outcome A) (f : A → Exec S B) (g : WorkerError → Exec S B) (s : S)
      → ((a : A) → Keeps P (f a))
      → ((e : WorkerError) → Keeps P (g e))
      → P s
      → P (settle r f g s).1
  keeps_settle (ok a) f g s k l h = k a s h
  keeps_settle (err e) f g s k l h = l e s h
  keeps_settle pending f g s k l h = h

  pub Keeps-handle :
      (m : Exec S A) (f : A → Exec S B) (g : WorkerError → Exec S B)
      → Keeps P m
      → ((a : A) → Keeps P (f a))
      → ((e : WorkerError) → Keeps P (g e))
      → Keeps P (handle m f g)
  Keeps-handle m f g km kf kg s h = keeps_settle (m s).0 f g (m s).1 kf kg (km s h)

pub Keeps-if :
    {S A : Type 0} (P : S → Type 0) (b : Bool) (m n : Exec S A)
    → Keeps P m
    → Keeps P n
    → Keeps P (if b then m else n)
Keeps-if P true m n km kn = km
Keeps-if P false m n km kn = kn
