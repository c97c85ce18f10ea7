-- ===== src/Runner/OneShot/Marked.antt =====
-- How a one-shot run of src/session_runner.rs ends when it succeeds.
use chronicle_worker.Prelude.{
  ℕ, ◌≡◌, refl, ap, sym, ◌∙◌, ◌⊎◌, inl, inr, String, List, [], ◌∷◌, Option, some, Bool, true, arith,
}
use chronicle_worker.Ids.{SessionId}
use chronicle_worker.Error.{WorkerError}
use chronicle_worker.Exec.{Outcome, ok, err, pending, Exec, resume, settle, ◌>>=◌}
use chronicle_worker.Http.{Host, patch, Endpoint, Payload}
use chronicle_worker.Api.{Action, sent, Io}
use chronicle_worker.Api.Plan.{Stops, request}
use chronicle_worker.Api.Sessions.{claim_session, mark_transcribed}
use chronicle_worker.Api.Sessions.Status.{patch_status-Follows}
use chronicle_worker.Pipeline.{Foreign, Library, SessionTrack, SessionAudio, PipelineOutput}
use chronicle_worker.Runner.Wire.{CreateInputWire}
use chronicle_worker.Runner.Outputs.{Posting, on_io, write_new_outputs}
use chronicle_worker.Runner.Streaming.{of_pipeline, unless_lost, write_and_mark, build_pipeline}
use chronicle_worker.Runner.Streaming.Finish.{IsLost}
use chronicle_worker.Runner.OneShot.{collect_speaker_tracks, process_tracks, run_one_shot}

-- Whenever the call succeeds, it leaves a state with `Q`.
abbrev pub Leaves : {S A : Type 0} → (S → Type 0) → Exec S A → Type 0
Leaves {A} Q m = (s : _) (a : A) → (m s).0 ≡ ok a → Q (m s).1

module _ {S A B : Type 0} (Q : S → Type 0) where
  resume-Leaves :
      (r : Outcome A) (f : A → Exec S B) (s : S) (b : B)
      → ((a : A) → Leaves Q (f a))
      → (resume r f s).0 ≡ ok b
      → Q (resume r f s).1
  resume-Leaves (ok a) f s b k e = k a s b e
  resume-Leaves (err x) f s b k e = absurd cc
  resume-Leaves pending f s b k e = absurd cc

  pub bind-Leaves :
      (m : Exec S A) (f : A → Exec S B) → ((a : A) → Leaves Q (f a)) → Leaves Q (m >>= f)
  bind-Leaves m f k s b e = resume-Leaves (m s).0 f (m s).1 b k e

module _ {t : Foreign} (lib : Library t) (host : Host (CreateInputWire t))
    (session : SessionId) where
  -- The last request of the trace marks the session transcribed.
  abbrev pub IsMarked : Io host → Type 0
  IsMarked io =
      (token : String) × (before : List (Action (CreateInputWire t))) × (io.trace
        ≡ sent (record {
          method = patch;
          endpoint = Endpoint.session session;
          bearer = some token;
          payload = Payload.status "transcribed";
        })
          ∷ before)

  abbrev pub Ends : Posting host → Type 0
  Ends s = IsMarked s.io

  Stops-IsMarked :
      (s s' : Io host) (r : Outcome (Unit {0}))
      → Stops true
          (request host patch
            (Endpoint.session session)
            (Payload.status "transcribed")
            s.client.session_token)
          s
          r
          s'
      → IsMarked s'
  Stops-IsMarked s s' r c = (
    s.client.session_token,
    s.trace,
    sym (ap (λ (x : Bool × Io host). x.1.trace) c.carried) ∙ ground arith,
  )

  mark-Ends : Leaves Ends (on_io host (mark_transcribed host session))
  unfolding mark_transcribed
  mark-Ends s a e =
      Stops-IsMarked s.io (mark_transcribed host session s.io).1
        (mark_transcribed host session s.io).0
        (patch_status-Follows host session "transcribed" s.io)

  pub write_and_mark-Ends :
      (out : PipelineOutput t) → Leaves Ends (write_and_mark lib host session out)
  unfolding write_and_mark
  write_and_mark-Ends out =
      bind-Leaves Ends (write_new_outputs lib host session out)
        (λ _. on_io host (mark_transcribed host session)) (λ _. mark-Ends)

  process-Ends :
      (url : Option String) (tracks : List (SessionTrack t))
      → Leaves Ends (process_tracks lib host session url tracks)
  process-Ends url [] = mark-Ends
  process-Ends url (x ∷ xs) =
      let audio : SessionAudio t = record { session_id = session; tracks = x ∷ xs } in
      let post : PipelineOutput t → Exec (Posting host) (Unit {0}) =
        λ output s. write_and_mark lib host session output (record s { posted = [] }) in
      bind-Leaves Ends (build_pipeline lib host url)
        (λ pipeline. of_pipeline lib host (lib.run_one_shot audio pipeline) >>= post)
        (λ pipeline.
          bind-Leaves Ends (of_pipeline lib host (lib.run_one_shot audio pipeline)) post
            (λ output s a e. write_and_mark-Ends output (record s { posted = [] }) a e))

  body-Ends :
      (fuel : ℕ) (url : Option String)
      → Leaves Ends (
          on_io host (collect_speaker_tracks lib host fuel session)
          >>= process_tracks lib host session url)
  body-Ends fuel url =
      bind-Leaves Ends (on_io host (collect_speaker_tracks lib host fuel session))
        (process_tracks lib host session url) (process-Ends url)

  pub claimed :
      (body : Exec (Posting host) (Unit {0})) (r : Outcome (Unit {0})) (u : Posting host)
      → Leaves Ends body
      → (settle r (λ _. body) (unless_lost lib host) u).0 ≡ ok tt
      → (IsLost r × ((settle r (λ _. body) (unless_lost lib host) u).1 ≡ u))
        ⊎ Ends (settle r (λ _. body) (unless_lost lib host) u).1
  claimed body (ok a) u k e = inr (k u tt e)
  claimed body (err (WorkerError.claim_lost x)) u k e = inl (tt, refl)
  claimed body (err x) u k e = absurd cc
  claimed body pending u k e = absurd cc

  -- After a one-shot run that succeeds, either the claim was lost and nothing was done after it,
  -- or the last thing done is the request that marks the session transcribed.
  pub run_one_shot-IsMarked :
      (fuel : ℕ) (url : Option String) (s : Posting host)
      → (run_one_shot lib host fuel session url s).0 ≡ ok tt
      → (let claim = claim_session host session s.io in
          let s' = (run_one_shot lib host fuel session url s).1 in
          (IsLost claim.0 × (s'.io ≡ claim.1)) ⊎ IsMarked s'.io)
  unfolding run_one_shot
  run_one_shot-IsMarked fuel url s e =
      let (r, io) = claim_session host session s.io in
      let u = record s { io = io } in
      let body : Exec (Posting host) (Unit {0}) =
        on_io host (collect_speaker_tracks lib host fuel session)
        >>= process_tracks lib host session url in
      elim (claimed body r u (body-Ends fuel url) e) [
        | inl (lost, same) ↦ inl (lost, ap (λ (x : Posting host). x.io) same)
        | inr marked ↦ inr marked
      ]
