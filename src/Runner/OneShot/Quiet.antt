-- ===== src/Runner/OneShot/Quiet.antt =====
-- Calls of src/api_client.rs that read an answer and leave the state as it is.
use chronicle_worker.Prelude.{◌≡◌, refl, ◌∙◌, Bool-cases, inl, inr, none, some}
use chronicle_worker.Error.{WorkerError}
use chronicle_worker.Exec.{Outcome, ok, err, pending, Exec, resume, settle, ◌>>=◌}
use chronicle_worker.Exec.Returns.{IsReturned}
use chronicle_worker.Http.{
  Reply, failed, response, Parsed, parsed, broken, Shape, array, object, other, Host,
}
use chronicle_worker.Api.{Response, is_success, receive, decoded, check_ok}
use chronicle_worker.Api.Outputs.{ids_of}

-- A call that leaves the state as it is.
abbrev pub IsQuiet : {S A : Type 0} → Exec S A → Type 0
IsQuiet {S} m = (s : S) → (m s).1 ≡ s

module _ {S A B : Type 0} where
  pub resume-IsQuiet :
      (r : Outcome A) (f : A → Exec S B) (s : S) → ((a : A) → IsQuiet (f a)) → (resume r f s).1 ≡ s
  resume-IsQuiet (ok a) f s q = q a s
  resume-IsQuiet (err e) f s q = refl
  resume-IsQuiet pending f s q = refl

  pub settle-IsQuiet :
      (r : Outcome A) (f : A → Exec S B) (g : WorkerError → Exec S B) (s : S)
      → ((a : A) → IsQuiet (f a))
      → ((e : WorkerError) → IsQuiet (g e))
      → (settle r f g s).1 ≡ s
  settle-IsQuiet (ok a) f g s q p = q a s
  settle-IsQuiet (err e) f g s q p = p e s
  settle-IsQuiet pending f g s q p = refl

  pub bind-IsQuiet :
      (m : Exec S A) (f : A → Exec S B) → IsQuiet m → ((a : A) → IsQuiet (f a)) → IsQuiet (m >>= f)
  bind-IsQuiet m f q p s = resume-IsQuiet (m s).0 f (m s).1 p ∙ q s

  -- A call that goes on in the same way after an error.
  pub settle-both :
      (r : Outcome A) (m : Exec S B) (s : S) → IsReturned r → settle r (λ _. m) (λ _. m) s ≡ m s
  settle-both (ok a) m s h = refl
  settle-both (err e) m s h = refl
  settle-both pending m s h = absurd h

module _ {Row : Type 0} (host : Host Row) where
  pub receive-IsQuiet : (reply : Reply host.Body) → IsQuiet (receive host reply)
  receive-IsQuiet (failed e) s = refl
  receive-IsQuiet (response code body) s = refl

  pub decoded-IsQuiet : {A : Type 0} (r : Parsed A) → IsQuiet (decoded host r)
  decoded-IsQuiet (parsed a) s = refl
  decoded-IsQuiet (broken e) s = refl

  pub check_ok-IsQuiet : (resp : Response host) → IsQuiet (check_ok host resp)
  unfolding check_ok
  check_ok-IsQuiet resp s = elim (Bool-cases (is_success resp.code)) [
    | inl e ↦ rw e refl
    | inr e ↦ rw e refl
  ]

  pub ids_of-IsQuiet : (v : host.Value) (shape : Shape host.Value) → IsQuiet (ids_of host v shape)
  ids_of-IsQuiet v array = decoded-IsQuiet (host.rows_of v)
  ids_of-IsQuiet v (object (some items)) = decoded-IsQuiet (host.rows_of items)
  ids_of-IsQuiet v (object none) = decoded-IsQuiet (host.rows_of host.empty_array)
  ids_of-IsQuiet v other = λ s. refl
