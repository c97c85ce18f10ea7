-- ===== src/Exec/Returns.antt =====
-- Which calls return, and which of them without an error, one rule for each way of composing calls.
use chronicle_worker.Prelude.{◌≡◌, refl, Bool, true, false, if◌then◌else◌}
use chronicle_worker.Error.{WorkerError}
use chronicle_worker.Exec.{Outcome, ok, err, pending, Exec, resume, settle, handle, ◌>>=◌}

abbrev pub IsReturned : {A : Type 0} → Outcome A → Type 0
IsReturned pending = ⊥
IsReturned _ = Unit

abbrev pub IsOk : {A : Type 0} → Outcome A → Type 0
IsOk (ok a) = Unit
IsOk _ = ⊥

pub IsOk-IsReturned : {A : Type 0} (r : Outcome A) → IsOk r → IsReturned r
IsOk-IsReturned (ok a) h = tt
IsOk-IsReturned (err e) h = tt
IsOk-IsReturned pending h = h

pub IsOk-ok : (r : Outcome (Unit {0})) → IsOk r → r ≡ ok tt
IsOk-ok (ok a) h = refl
IsOk-ok (err e) h = absurd h
IsOk-ok pending h = absurd h

abbrev pub Returns : {S A : Type 0} → Exec S A → Type 0
Returns {S} m = (s : S) → IsReturned (m s).0

abbrev pub Succeeds : {S A : Type 0} → Exec S A → Type 0
Succeeds {S} m = (s : S) → IsOk (m s).0

module _ {S A B : Type 0} where
  resume-IsReturned :
      (r : Outcome A) (f : A → Exec S B) (s : S)
      → IsReturned r
      → ((a : A) → Returns (f a))
      → IsReturned (resume r f s).0
  resume-IsReturned (ok a) f s h k = k a s
  resume-IsReturned (err e) f s h k = tt
  resume-IsReturned pending f s h k = h

  pub Returns-bind :
      (m : Exec S A) (f : A → Exec S B) → Returns m → ((a : A) → Returns (f a)) → Returns (m >>= f)
  Returns-bind m f h k s = resume-IsReturned (m s).0 f (m s).1 (h s) k

  resume-IsOk :
      (r : Outcome A) (f : A → Exec S B) (s : S)
      → IsOk r
      → ((a : A) → Succeeds (f a))
      → IsOk (resume r f s).0
  resume-IsOk (ok a) f s h k = k a s
  resume-IsOk (err e) f s h k = h
  resume-IsOk pending f s h k = h

  pub Succeeds-bind :
      (m : Exec S A) (f : A → Exec S B)
      → Succeeds m
      → ((a : A) → Succeeds (f a))
      → Succeeds (m >>= f)
  Succeeds-bind m f h k s = resume-IsOk (m s).0 f (m s).1 (h s) k

  settle-IsOk :
      (r : Outcome A) (f : A → Exec S B) (g : WorkerError → Exec S B) (s : S)
      → IsReturned r
      → ((a : A) → Succeeds (f a))
      → ((e : WorkerError) → Succeeds (g e))
      → IsOk (settle r f g s).0
  settle-IsOk (ok a) f g s h k l = k a s
  settle-IsOk (err e) f g s h k l = l e s
  settle-IsOk pending f g s h k l = h

  -- A handled call has no error of its own.
  pub Succeeds-handle :
      (m : Exec S A) (f : A → Exec S B) (g : WorkerError → Exec S B)
      → Returns m
      → ((a : A) → Succeeds (f a))
      → ((e : WorkerError) → Succeeds (g e))
      → Succeeds (handle m f g)
  Succeeds-handle m f g h k l s = settle-IsOk (m s).0 f g (m s).1 (h s) k l

pub Returns-if :
    {S A : Type 0} (b : Bool) (m n : Exec S A)
    → Returns m
    → Returns n
    → Returns (if b then m else n)
Returns-if true m n km kn = km
Returns-if false m n km kn = kn
