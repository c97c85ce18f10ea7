-- ===== src/Runner/Streaming/Absorb.antt =====
-- The loop of the streaming runner of src/session_runner.rs, as a fold over the chunks that it is
-- told of: one reorder buffer for each speaker, in front of the pipeline.
use text.Mathlib.Text.{◌==◌ as str_eq}
use mathlib.Core.Path.{subst}
use chronicle_worker.Prelude.{
  ℕ, suc, ◌≡◌, ◌≢◌, refl, ap, ◌∙◌, inl, inr, Bool-cases, String, List, [], ◌∷◌, map, Option, some,
  arith, if◌then◌else◌,
}
use chronicle_worker.Ids.{SessionId, PseudoId, Seq}
use chronicle_worker.Sets.{contains}
use chronicle_worker.Exec.{Outcome, ok, err, pending, settle}
use chronicle_worker.Http.{Host, get, Endpoint, Payload, response, parsed}
use chronicle_worker.Api.{Io}
use chronicle_worker.Api.Plan.{Returned}
use chronicle_worker.Api.Chunks.{download_loop, download_chunk}
use chronicle_worker.Pipeline.{Foreign, Library}
use chronicle_worker.Runner.Reorder.{Bytes, Chunk, Speaker, arrange, arrive}
use chronicle_worker.Runner.Wire.{CreateInputWire}
use chronicle_worker.Runner.Outputs.{write_new_outputs}
use chronicle_worker.Runner.Outputs.Posted.{write_new_outputs-Stops}
use chronicle_worker.Runner.Streaming.{
  RunnerCmd, ingest_chunk, update, Streaming, speaker, set_speaker, feed, after_arrange, place,
  ingest_one, run_loop,
}
use chronicle_worker.Runner.Streaming.Ingest.{
  fed_pipeline, drained_pipeline, Ingested, arrival, ingest_one-Ingested,
}

-- The data-api serves the chunks of a session: each speaker's chunk has these bytes, whoever asks.
abbrev pub Serves : {Row : Type 0} (host : Host Row) → SessionId → (PseudoId → ℕ → Bytes) → Type 0
Serves {Row} host session content =
    (pid : PseudoId) (seq : Seq) (bearer : Option String) (w : host.World)
    → (body : host.Body) × ((host.send
          (record {
            method = get;
            endpoint = Endpoint.chunk session pid seq;
            bearer = bearer;
            payload = Payload.empty;
          })
          w).0
        ≡ response 200 body)
      × (host.bytes body ≡ parsed (content pid seq))

-- The commands that tell of these chunks.
abbrev pub told_of : List (PseudoId × Seq) → List RunnerCmd
told_of = map (λ c. ingest_chunk c.0 c.1)

settle-same :
    {S A B : Type 0} (r : Outcome A) (f : S → Outcome B × S) (s : S)
    → r ≢ pending
    → settle r (λ _. f) (λ _. f) s ≡ f s
settle-same (ok a) f s h = refl
settle-same (err e) f s h = refl
settle-same pending f s h = absurd (h refl)

module _ {t : Foreign} (lib : Library t) (host : Host (CreateInputWire t))
    (session : SessionId) where
  -- What becomes of the buffers and of the pipeline: each chunk arrives at the buffer of its
  -- speaker, and what that releases is fed to the pipeline, which is drained after it.
  abbrev pub absorb :
      (PseudoId → ℕ → Bytes)
      → List (PseudoId × Seq)
      → (PseudoId → Speaker)
      → lib.Pipeline
      → (PseudoId → Speaker) × lib.Pipeline
  absorb content [] m p = (m, p)
  absorb content ((pid, seq) ∷ cs) m p =
      let (ordered, sp) = arrive (m pid) (seq, content pid seq) in
      absorb content cs (update m pid sp)
        (drained_pipeline lib host ordered (fed_pipeline lib host session pid ordered p))

  Returned-ne-pending : {A : Type 0} (r : Outcome A) → Returned r → r ≢ pending
  Returned-ne-pending r back e = subst (λ (x : Outcome _). Returned x) e back

  after_arrange-returns :
      (pid : PseudoId) (cs : List Chunk) (s : Streaming lib host)
      → (after_arrange lib host session pid cs s).0 ≢ pending
  after_arrange-returns pid [] s e = cc
  after_arrange-returns pid (c ∷ cs) s e =
      let u = feed lib host session pid (c ∷ cs) s in
      let (out, pipeline) = lib.emit u.pipeline in
      Returned-ne-pending (write_new_outputs lib host session out u.posting).0
        (write_new_outputs-Stops lib host session out u.posting).returned e

  place-returns :
      (pid : PseudoId) (seq : Seq) (bytes : Bytes) (s : Streaming lib host)
      → (place lib host session pid seq bytes s).0 ≢ pending
  unfolding place
  place-returns pid seq bytes s =
      let (ordered, sp) = arrange (speaker lib host pid s) seq bytes in
      after_arrange-returns pid ordered (set_speaker lib host pid sp s)

  module _ (content : PseudoId → ℕ → Bytes) (serves : Serves host session content) (fuel : ℕ) where
    pub downloads :
        (pid : PseudoId) (seq : Seq) (io : Io host)
        → (download_chunk host (suc fuel) session pid seq io).0 ≡ ok (content pid seq)
    unfolding download_chunk download_loop
    downloads pid seq io =
        let (body, a, b) = serves pid seq (some io.client.session_token) io.world in
        ground (arith, a, b)

    ingest_one-returns :
        (pid : PseudoId) (seq : Seq) (s : Streaming lib host)
        → (ingest_one lib host (suc fuel) session pid seq s).0 ≢ pending
    unfolding ingest_one
    ingest_one-returns pid seq s = elim (Bool-cases (contains seq (s.processed pid))) [
      | inl old ↦ rw old (λ e. cc)
      | inr new ↦
          rw (new, downloads pid seq s.posting.io) (place-returns pid seq (content pid seq) _)
    ]

    -- The state after one command.
    abbrev told : PseudoId → Seq → Streaming lib host → Streaming lib host
    told pid seq s = (ingest_one lib host (suc fuel) session pid seq s).1

    run_loop-cons :
        (pid : PseudoId) (seq : Seq) (cmds : List RunnerCmd) (s : Streaming lib host)
        → run_loop lib host (suc fuel) session (ingest_chunk pid seq ∷ cmds) s
          ≡ run_loop lib host (suc fuel) session cmds (told pid seq s)
    unfolding run_loop
    run_loop-cons pid seq cmds s =
        settle-same (ingest_one lib host (suc fuel) session pid seq s).0
          (run_loop lib host (suc fuel) session cmds) (told pid seq s)
          (ingest_one-returns pid seq s)

    told-Ingested :
        (pid : PseudoId) (seq : Seq) (s : Streaming lib host)
        → Ingested lib host session pid s
            (arrive (speaker lib host pid s) (seq, content pid seq))
            (told pid seq s)
    told-Ingested pid seq s =
        subst
          (λ (got : Outcome Bytes).
            Ingested lib host session pid s (arrival lib host seq got (speaker lib host pid s))
              (told pid seq s))
          (downloads pid seq s.posting.io)
          (ingest_one-Ingested lib host (suc fuel) session pid seq s)

    abbrev pub Agrees : Streaming lib host → (PseudoId → Speaker) → lib.Pipeline → Type 0
    Agrees s m p = ((j : PseudoId) → speaker lib host j s ≡ m j) × (s.pipeline ≡ p)

    told-Agrees :
        (pid : PseudoId) (seq : Seq) (s : Streaming lib host) (m : PseudoId → Speaker)
        → ((j : PseudoId) → speaker lib host j s ≡ m j)
        → (let (ordered, sp) = arrive (m pid) (seq, content pid seq) in
            Agrees (told pid seq s) (update m pid sp) (
              drained_pipeline lib host ordered
                (fed_pipeline lib host session pid ordered s.pipeline)))
    told-Agrees pid seq s m same =
        let (speakers, pipeline) =
          subst
            (λ x.
              Ingested lib host session pid s (arrive x (seq, content pid seq)) (told pid seq s))
            (same pid) (told-Ingested pid seq s) in
        (
          λ j.
              speakers j
              ∙ ap (λ x. if str_eq pid j then (arrive (m pid) (seq, content pid seq)).1 else x)
                  (same j),
          pipeline,
        )

    absorbed :
        (cs : List (PseudoId × Seq)) (s : Streaming lib host) (m : PseudoId → Speaker)
        (p : lib.Pipeline)
        → Agrees s m p
        → (let (m', p') = absorb content cs m p in
            Agrees (run_loop lib host (suc fuel) session (told_of cs) s).1 m' p')
    unfolding run_loop
    absorbed [] s m p a = a
    absorbed ((pid, seq) ∷ cs) s m p (same, e) =
        let (ordered, sp) = arrive (m pid) (seq, content pid seq) in
        let after : lib.Pipeline → lib.Pipeline =
          λ q. drained_pipeline lib host ordered (fed_pipeline lib host session pid ordered q) in
        let (speakers, q) = told-Agrees pid seq s m same in
        rw (run_loop-cons pid seq (told_of cs) s)
          (absorbed cs (told pid seq s) (update m pid sp) (after p) (speakers, q ∙ ap after e))

    pub run_loop-absorb :
        (cs : List (PseudoId × Seq)) (s : Streaming lib host)
        → (let (m, p) = absorb content cs (λ j. speaker lib host j s) s.pipeline in
            Agrees (run_loop lib host (suc fuel) session (told_of cs) s).1 m p)
    run_loop-absorb cs s = absorbed cs s (λ j. speaker lib host j s) s.pipeline ((λ j. refl), refl)
