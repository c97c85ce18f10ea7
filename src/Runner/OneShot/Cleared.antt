-- ===== src/Runner/OneShot/Cleared.antt =====
-- src/session_runner.rs: which requests the clearing of an earlier run's outputs makes.
use mathlib.Core.Path.{subst}
use chronicle_worker.Prelude.{
  ◌≡◌, refl, ap, sym, ◌∙◌, String, Bool-cases, inl, inr, List, [], ◌∷◌, ◌++◌, ◌==◌, if◌then◌else◌,
}
use chronicle_worker.Ids.{Uuid, SessionId}
use chronicle_worker.Exec.{Outcome, ok, err, pending, Exec, pure, resume, ◌>>=◌, ◌>>◌}
use chronicle_worker.Exec.Returns.{IsOk}
use chronicle_worker.Http.{Method, get, delete, Endpoint, Payload, Host}
use chronicle_worker.Api.{DataApiClient, Action, Io, Response, Call, authorized, decoded, check_ok}
use chronicle_worker.Api.Plan.{onto, onto-append, request}
use chronicle_worker.Api.Outputs.{ids_of, list_resource_ids, delete_resource}
use chronicle_worker.Runner.OneShot.{ids_or_none, delete_each, clear_prior_outputs}
use chronicle_worker.Runner.OneShot.Clearing.{
  delete_resource-Returns, ids_or_none-Succeeds, delete_each-Succeeds,
}
use chronicle_worker.Runner.OneShot.Quiet.{
  IsQuiet, resume-IsQuiet, bind-IsQuiet, settle-IsQuiet, settle-both, receive-IsQuiet,
  decoded-IsQuiet, check_ok-IsQuiet, ids_of-IsQuiet,
}

-- The ids that a list has given.
abbrev pub got : Outcome (List Uuid) → List Uuid
got (ok ids) = ids
got _ = []

resume-got :
    {S B : Type 0} (r : Outcome (List Uuid)) (f : List Uuid → Exec S B) (s : S)
    → IsOk r
    → resume r f s ≡ f (got r) s
resume-got (ok ids) f s h = refl
resume-got (err e) f s h = absurd h
resume-got pending f s h = absurd h

resume-done :
    {S B : Type 0} (r : Outcome (Unit {0})) (m : Exec S B) (s : S)
    → IsOk r
    → resume r (λ _. m) s ≡ m s
resume-done (ok _) m s h = refl
resume-done (err e) m s h = absurd h
resume-done pending m s h = absurd h

module _ {Row : Type 0} (host : Host Row) where
  -- The call keeps the client, and makes these requests.
  abbrev pub Adds : List (Action Row) → Io host → Io host → Type 0
  Adds actions s t = (t.client ≡ s.client) × (t.trace ≡ onto actions s.trace)

  authorized-Adds :
      (method : Method) (endpoint : Endpoint) (s : Io host)
      → Adds
          (request host method endpoint Payload.empty s.client.session_token)
          s
          (authorized host method endpoint Payload.empty s).1
  authorized-Adds method endpoint s =
      let quiet = receive-IsQuiet host (host.send _ s.world).0 _ in
      (ap (λ t. t.client) quiet, ap (λ t. t.trace) quiet)

  then-Adds :
      {A B : Type 0} (m : Call host A) (f : A → Call host B) (actions : List (Action Row))
      (s : Io host)
      → Adds actions s (m s).1
      → ((a : A) → IsQuiet (f a))
      → Adds actions s ((m >>= f) s).1
  then-Adds m f actions s h q = subst (Adds actions s) (sym (resume-IsQuiet (m s).0 f (m s).1 q)) h

  -- The list of one kind is requested once.
  ids_or_none-Adds :
      (session : SessionId) (kind : String) (s : Io host)
      → Adds
          (request host get (Endpoint.resources session kind) Payload.empty s.client.session_token)
          s
          (ids_or_none host (list_resource_ids host session kind) s).1
  unfolding list_resource_ids
  ids_or_none-Adds session kind s =
      let read = λ (resp : Response host). check_ok host resp >>= λ resp.
      decoded host (host.json_value resp.body) >>= λ v. ids_of host v (host.shape v) in
      let listed =
        then-Adds (authorized host get (Endpoint.resources session kind) Payload.empty) read
          (request host get (Endpoint.resources session kind) Payload.empty s.client.session_token)
          s (authorized-Adds get (Endpoint.resources session kind) s)
          (λ resp.
            bind-IsQuiet (check_ok host resp)
              (λ resp.
                decoded host (host.json_value resp.body) >>= λ v. ids_of host v (host.shape v))
              (check_ok-IsQuiet host resp)
              (λ resp.
                bind-IsQuiet (decoded host (host.json_value resp.body))
                  (λ v. ids_of host v (host.shape v))
                  (decoded-IsQuiet host (host.json_value resp.body))
                  (λ v. ids_of-IsQuiet host v (host.shape v)))) in
      let (r, t) = list_resource_ids host session kind s in
      subst
        (Adds
          (request host get (Endpoint.resources session kind) Payload.empty s.client.session_token)
          s)
        (sym (settle-IsQuiet r pure (λ _. pure []) t (λ a u. refl) (λ e u. refl))) listed

  delete_resource-Adds :
      (kind : String) (id : Uuid) (s : Io host)
      → Adds
          (request host delete (Endpoint.resource kind id) Payload.empty s.client.session_token)
          s
          (delete_resource host kind id s).1
  unfolding delete_resource
  delete_resource-Adds kind id s =
      let checked = λ (resp : Response host).
        if resp.code == 404 then pure tt else (check_ok host resp >> pure tt) in
      then-Adds (authorized host delete (Endpoint.resource kind id) Payload.empty) checked
        (request host delete (Endpoint.resource kind id) Payload.empty s.client.session_token) s
        (authorized-Adds delete (Endpoint.resource kind id) s)
        (λ resp t. elim (Bool-cases (resp.code == 404)) [
          | inl e ↦ rw e refl
          | inr e ↦ rw e (
              bind-IsQuiet (check_ok host resp) (λ _. pure tt) (check_ok-IsQuiet host resp)
                (λ _ u. refl) t)
        ])

  abbrev pub deletes : String → String → List Uuid → List (Action Row)
  deletes token kind [] = []
  deletes token kind (id ∷ ids) =
      request host delete (Endpoint.resource kind id) Payload.empty token ++ deletes token kind ids

  both-Adds :
      (xs ys : String → List (Action Row)) (s t u : Io host)
      → Adds (xs s.client.session_token) s t
      → Adds (ys t.client.session_token) t u
      → Adds (xs s.client.session_token ++ ys s.client.session_token) s u
  both-Adds xs ys s t u (c, e) (d, f) = (
    d ∙ c,
    f
        ∙ ap (λ (k : DataApiClient). onto (ys k.session_token) t.trace) c
        ∙ ap (onto (ys s.client.session_token)) e
        ∙ sym (onto-append (xs s.client.session_token) (ys s.client.session_token) s.trace),
  )

  delete_each-Adds :
      (kind : String) (ids : List Uuid) (s : Io host)
      → Adds
          (deletes s.client.session_token kind ids)
          s
          (delete_each host (delete_resource host kind) ids s).1
  unfolding delete_each
  delete_each-Adds kind [] s = (refl, refl)
  delete_each-Adds kind (id ∷ ids) s =
      let (r, t) = delete_resource host kind id s in
      let both =
        both-Adds (request host delete (Endpoint.resource kind id) Payload.empty)
          (λ token. deletes token kind ids) s t
          (delete_each host (delete_resource host kind) ids t).1 (delete_resource-Adds kind id s)
          (delete_each-Adds kind ids t) in
      subst
        (λ (run : Outcome (Unit {0}) × Io host).
          Adds (deletes s.client.session_token kind (id ∷ ids)) s run.1)
        (sym (
          settle-both r (delete_each host (delete_resource host kind) ids) t
            (delete_resource-Returns host kind id s)))
        both

  abbrev deletion : List Uuid → List Uuid → List Uuid → Call host Unit
  deletion segs beats scenes =
      delete_each host (delete_resource host "segments") segs
      >> (delete_each host (delete_resource host "beats") beats
          >> delete_each host (delete_resource host "scenes") scenes)

  abbrev removals : List Uuid → List Uuid → List Uuid → String → List (Action Row)
  removals segs beats scenes token =
      deletes token "segments" segs
      ++ (deletes token "beats" beats ++ deletes token "scenes" scenes)

  deletion-Adds :
      (segs beats scenes : List Uuid) (s : Io host)
      → Adds (removals segs beats scenes s.client.session_token) s (deletion segs beats scenes s).1
  deletion-Adds segs beats scenes s =
      let last = delete_each host (delete_resource host "scenes") scenes in
      let (r, t) = delete_each host (delete_resource host "segments") segs s in
      let (q, u) = delete_each host (delete_resource host "beats") beats t in
      let run : deletion segs beats scenes s ≡ last u =
        resume-done r (delete_each host (delete_resource host "beats") beats >> last) t
          (delete_each-Succeeds host "segments" segs s)
        ∙ resume-done q last u (delete_each-Succeeds host "beats" beats t) in
      let two =
        both-Adds (λ token. deletes token "beats" beats) (λ token. deletes token "scenes" scenes) t
          u (last u).1 (delete_each-Adds "beats" beats t) (delete_each-Adds "scenes" scenes u) in
      subst
        (λ (run : Outcome (Unit {0}) × Io host).
          Adds (removals segs beats scenes s.client.session_token) s run.1)
        (sym run)
        (both-Adds (λ token. deletes token "segments" segs)
          (λ token. deletes token "beats" beats ++ deletes token "scenes" scenes) s t (last u).1
          (delete_each-Adds "segments" segs s) two)

  abbrev list_request : SessionId → String → String → List (Action Row)
  list_request session kind token =
      request host get (Endpoint.resources session kind) Payload.empty token

  -- The requests for these ids, with this token.
  abbrev pub clearing : SessionId → List Uuid → List Uuid → List Uuid → String → List (Action Row)
  clearing session segs beats scenes token =
      list_request session "segments" token
      ++ (list_request session "beats" token
          ++ (list_request session "scenes" token ++ removals segs beats scenes token))

  -- Clearing the outputs of a session lists its segments, beats and scenes, once each, and then asks
  -- for the deletion of each id that a list has given, once for each time it stands there, and makes
  -- no other request; a list that fails counts as empty, and a deletion that fails stops nothing.
  pub clear_prior_outputs-Adds :
      (session : SessionId) (s : Io host)
      → (let (segs, s1) = ids_or_none host (list_resource_ids host session "segments") s in
          let (beats, s2) = ids_or_none host (list_resource_ids host session "beats") s1 in
          let (scenes, s3) = ids_or_none host (list_resource_ids host session "scenes") s2 in
          Adds
            (clearing session (got segs) (got beats) (got scenes) s.client.session_token)
            s
            (clear_prior_outputs host session s).1)
  unfolding clear_prior_outputs
  clear_prior_outputs-Adds session s =
      let (r1, s1) = ids_or_none host (list_resource_ids host session "segments") s in
      let (r2, s2) = ids_or_none host (list_resource_ids host session "beats") s1 in
      let (r3, s3) = ids_or_none host (list_resource_ids host session "scenes") s2 in
      let end = deletion (got r1) (got r2) (got r3) in
      let with_scenes = λ (segs beats : List Uuid).
        ids_or_none host (list_resource_ids host session "scenes") >>= λ scenes.
        deletion segs beats scenes in
      let with_beats = λ (segs : List Uuid).
        ids_or_none host (list_resource_ids host session "beats") >>= λ beats.
        with_scenes segs beats in
      let run : clear_prior_outputs host session s ≡ end s3 =
        resume-got r1 with_beats s1 (ids_or_none-Succeeds host session "segments" s)
        ∙ resume-got r2 (with_scenes (got r1)) s2 (ids_or_none-Succeeds host session "beats" s1)
        ∙ resume-got r3 (deletion (got r1) (got r2)) s3
            (ids_or_none-Succeeds host session "scenes" s2) in
      let rest = removals (got r1) (got r2) (got r3) in
      let one =
        both-Adds (list_request session "scenes") rest s2 s3 (end s3).1
          (ids_or_none-Adds session "scenes" s2) (deletion-Adds (got r1) (got r2) (got r3) s3) in
      let two =
        both-Adds (list_request session "beats")
          (λ token. list_request session "scenes" token ++ rest token) s1 s2 (end s3).1
          (ids_or_none-Adds session "beats" s1) one in
      subst
        (λ (run : Outcome (Unit {0}) × Io host).
          Adds (clearing session (got r1) (got r2) (got r3) s.client.session_token) s run.1)
        (sym run)
        (both-Adds (list_request session "segments")
          (λ token.
            list_request session "beats" token
            ++ (list_request session "scenes" token ++ rest token))
          s s1 (end s3).1 (ids_or_none-Adds session "segments" s) two)
