-- ===== src/Runner/Streaming/Finish.antt =====
-- The end of a streaming session: the claim, the outputs and the mark, in this order.
use mathlib.Core.Path.{subst}
use chronicle_worker.Prelude.{◌≡◌, refl, Bool, true, false, ◌⊎◌, inl, inr, String, List, [], ◌++◌}
use chronicle_worker.Ids.{SessionId, Uuid}
use chronicle_worker.Error.{WorkerError}
use chronicle_worker.Exec.{Outcome, ok, err, pending, Exec, settle}
use chronicle_worker.Http.{patch, Endpoint, Payload, Host, Parsed, parsed, broken}
use chronicle_worker.Api.{DataApiClient, Action, Io}
use chronicle_worker.Api.Plan.{Stops, Stops-then, request}
use chronicle_worker.Api.Sessions.{claim_session, mark_transcribed}
use chronicle_worker.Api.Sessions.Status.{patch_status-Follows}
use chronicle_worker.Pipeline.{Foreign, Library, PipelineOutput}
use chronicle_worker.Runner.Wire.{CreateInputWire}
use chronicle_worker.Runner.Outputs.{Posting, on_io, write_new_outputs}
use chronicle_worker.Runner.Outputs.Posted.{io_of, outputs_plan, write_new_outputs-Stops}
use chronicle_worker.Runner.Streaming.{unless_lost, with_claim, write_and_mark}

abbrev pub IsLost : Outcome (Unit {0}) → Type 0
IsLost (err (WorkerError.claim_lost _)) = Unit
IsLost _ = ⊥

module _ {t : Foreign} (lib : Library t) (host : Host (CreateInputWire t)) where
  abbrev pub status_plan : SessionId → String → String → List (Action (CreateInputWire t))
  status_plan session status = request host patch (Endpoint.session session) (Payload.status status)

  abbrev pub marked_plan :
      SessionId → List Uuid → PipelineOutput t → String → List (Action (CreateInputWire t))
  marked_plan session posted out token =
      outputs_plan lib host session posted out token ++ status_plan session "transcribed" token

  pub write_and_mark-Stops :
      (session : SessionId) (out : PipelineOutput t) (s : Posting host)
      → (let (r, s') = write_and_mark lib host session out s in
          Stops true (marked_plan session s.posted out s.io.client.session_token) s.io r s'.io)
  unfolding write_and_mark mark_transcribed
  write_and_mark-Stops session out s =
      let token = s.io.client.session_token in
      let (r, s') = write_new_outputs lib host session out s in
      let c = write_new_outputs-Stops lib host session out s in
      Stops-then (io_of lib host) true (outputs_plan lib host session s.posted out token)
        (status_plan session "transcribed" token) s.io s'.io r c
        (on_io host (mark_transcribed host session)) s' refl
        (subst
          (λ (x : DataApiClient).
            Stops true (status_plan session "transcribed" x.session_token) s'.io
              (mark_transcribed host session s'.io).0 (mark_transcribed host session s'.io).1)
          c.same_client (patch_status-Follows host session "transcribed" s'.io))

  -- The claim was lost, nothing more was done and the runner is content; or the plan is carried out,
  -- and what comes after it is good if `last` says so.
  abbrev pub LostOr :
      Outcome (Unit {0})
      → Io host
      → Bool
      → List (Action (CreateInputWire t))
      → Io host
      → Outcome (Unit {0})
      → Io host
      → Type 0
  LostOr claim claimed_io last plan s r s' =
      (IsLost claim × (r ≡ ok tt) × (s' ≡ claimed_io)) ⊎ Stops last plan s r s'

  claimed :
      (last : Bool) (claim plan : List (Action (CreateInputWire t))) (s : Io host)
      (r : Outcome (Unit {0})) (u : Posting host)
      → Stops true claim s r u.io
      → (body : Exec (Posting host) (Unit {0})) → Stops last plan u.io (body u).0 (body u).1.io
      → (let (r', u') = settle r (λ _. body) (unless_lost lib host) u in
          LostOr r u.io last (claim ++ plan) s r' u'.io)
  claimed last claim plan s (ok a) u c body d =
      inr (Stops-then (io_of lib host) last claim plan s u.io (ok a) c body u refl d)
  claimed last claim plan s pending u c body d = absurd c.returned
  claimed last claim plan s (err (WorkerError.claim_lost x)) u c body d = inl (tt, refl, refl)
  claimed last claim plan s (err e) u c body d =
      inr (Stops-then (io_of lib host) last claim plan s u.io (err e) c body u refl d)

  -- A body whose plan depends on the token and on the ids posted before, run under the claim.
  pub with_claim-LostOr :
      (session : SessionId) (last : Bool) (plan : String → List (Action (CreateInputWire t)))
      (s : Posting host) (body : Exec (Posting host) (Unit {0}))
      → ((u : Posting host)
          → u.posted ≡ s.posted
          → Stops last (plan u.io.client.session_token) u.io (body u).0 (body u).1.io)
      → (let claim = claim_session host session s.io in
          let (r, s') = with_claim lib host session body s in
          let token = s.io.client.session_token in
          LostOr claim.0 claim.1 last
            (status_plan session "transcribing" token ++ plan token)
            s.io
            r
            s'.io)
  unfolding claim_session
  with_claim-LostOr session last plan s body follows =
      let c = patch_status-Follows host session "transcribing" s.io in
      let (r, io) = claim_session host session s.io in
      let u = record s { io = io } in
      claimed last (status_plan session "transcribing" s.io.client.session_token)
        (plan s.io.client.session_token) s.io r u c body
        (subst
          (λ (x : DataApiClient). Stops last (plan x.session_token) u.io (body u).0 (body u).1.io)
          c.same_client (follows u refl))

  -- What is done with the pipeline's answer: nothing if it is an error.
  abbrev pub answer_plan :
      SessionId → List Uuid → Parsed (PipelineOutput t) → String → List (Action (CreateInputWire t))
  answer_plan session posted (parsed out) token = marked_plan session posted out token
  answer_plan session posted (broken e) token = []

  abbrev pub is_answer : Parsed (PipelineOutput t) → Bool
  is_answer (parsed out) = true
  is_answer (broken e) = false
