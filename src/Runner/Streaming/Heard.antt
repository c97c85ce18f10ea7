-- ===== src/Runner/Streaming/Heard.antt =====
-- src/session_runner.rs: what the loop of the streaming runner gives to the pipeline, over all
-- speakers.
use text.Mathlib.Text.{◌==◌ as str_eq}
use text.Mathlib.TextEquality.{eq_iff}
use mathlib.Core.Path.{subst}
use chronicle_worker.Prelude.{
  ℕ, suc, ◌<◌, ◌≡◌, refl, ap, sym, ◌∙◌, inl, inr, true, false, Bool-cases, List, [], ◌∷◌, ◌++◌, map,
  if◌then◌else◌,
}
use chronicle_worker.Prelude.Int.{ℤ}
use chronicle_worker.Ids.{SessionId, PseudoId, Seq}
use chronicle_worker.Sets.{contains}
use chronicle_worker.Http.{Host}
use chronicle_worker.Decode.{decode_stereo_to_mono_i16}
use chronicle_worker.Pipeline.{Foreign, Library, AudioChunk}
use chronicle_worker.Runner.Reorder.{Bytes, Chunk, Speaker, fresh, arrive, arrivals}
use chronicle_worker.Runner.Reorder.Drain.{span}
use chronicle_worker.Runner.Reorder.Order.{AllSeqs, deliveries, arrivals_prefix, contained-below}
use chronicle_worker.Runner.Wire.{CreateInputWire}
use chronicle_worker.Runner.Outputs.{Posting}
use chronicle_worker.Runner.Streaming.{update, started, run_loop, audio_chunk, feed_one}
use chronicle_worker.Runner.Streaming.Ingest.{fed_pipeline, drained_pipeline}
use chronicle_worker.Runner.Streaming.Absorb.{Serves, told_of, absorb, run_loop-absorb}

-- The numbers of one speaker's chunks.
abbrev pub seqs_of : PseudoId → List (PseudoId × Seq) → List ℕ
seqs_of j [] = []
seqs_of j ((pid, seq) ∷ cs) = let rest = seqs_of j cs in if str_eq pid j then seq ∷ rest else rest

-- All numbers below `n` are there.
abbrev pub AllBelow : ℕ → List ℕ → Type 0
AllBelow n seqs = (k : ℕ) → k < n → contains k seqs ≡ true

-- Numbered samples, but for those that are empty.
abbrev pub voiced : ℕ → List ℤ → List (ℕ × List ℤ) → List (ℕ × List ℤ)
voiced k [] later = later
voiced k (x ∷ xs) later = (k, x ∷ xs) ∷ later

abbrev pub voiced_each : List Chunk → List (ℕ × List ℤ) → List (ℕ × List ℤ)
voiced_each [] later = later
voiced_each ((k, raw) ∷ cs) later = voiced k (decode_stereo_to_mono_i16 raw) (voiced_each cs later)

voiced_each-append :
    (xs ys : List Chunk) (later : List (ℕ × List ℤ))
    → voiced_each (xs ++ ys) later ≡ voiced_each xs (voiced_each ys later)
voiced_each-append [] ys later = refl
voiced_each-append ((k, raw) ∷ xs) ys later =
    ap (voiced k (decode_stereo_to_mono_i16 raw)) (voiced_each-append xs ys later)

-- The decoded chunks 0 to `n - 1` of a stream with these contents, where `n` is the least number that
-- is missing among these.
abbrev pub Leads : (ℕ → Bytes) → List ℕ → List (ℕ × List ℤ) → Type 0
Leads content seqs given =
    (n : ℕ) × AllBelow n seqs
    × (contains n seqs ≡ false)
    × (given ≡ voiced_each (span content n 0) [])

arrivals-Leads :
    (content : ℕ → Bytes) (seqs : List ℕ)
    → AllSeqs seqs
    → Leads content seqs (voiced_each (arrivals fresh (deliveries content seqs)).0 [])
arrivals-Leads content seqs small =
    let (fed, _, missing) = arrivals_prefix content seqs small in
    let n = (arrivals fresh (deliveries content seqs)).1.next_expected in
    (
      n,
      λ k below. contained-below content seqs k small below,
      missing,
      ap (λ cs. voiced_each cs []) fed,
    )

seqs_of-AllSeqs :
    (j : PseudoId) (cs : List (PseudoId × Seq))
    → AllSeqs (map (λ c. c.1) cs)
    → AllSeqs (seqs_of j cs)
seqs_of-AllSeqs j [] small = tt
seqs_of-AllSeqs j ((pid, seq) ∷ cs) small = elim (Bool-cases (str_eq pid j)) [
  | inl e ↦ rw e (small.0, seqs_of-AllSeqs j cs small.1)
  | inr e ↦ rw e (seqs_of-AllSeqs j cs small.1)
]

module _ {t : Foreign} (lib : Library t) where
  -- The second pipeline is the first one, given these chunks in this order, and drained any number of
  -- times in between.
  pub data Heard : lib.Pipeline → List (AudioChunk t) → lib.Pipeline → Type 0 where
    still : {p : lib.Pipeline} → Heard p [] p
    ingested :
        {p q : lib.Pipeline} {log : List (AudioChunk t)}
        → (a : AudioChunk t) → Heard (lib.ingest_chunk a p).1 log q
        → Heard p (a ∷ log) q
    drained :
        {p q : lib.Pipeline} {log : List (AudioChunk t)}
        → Heard (lib.emit p).1 log q
        → Heard p log q

  -- The numbers and the samples of the chunks of one speaker.
  abbrev pub of_speaker : PseudoId → List (AudioChunk t) → List (ℕ × List ℤ)
  of_speaker j [] = []
  of_speaker j (a ∷ log) =
      let later = of_speaker j log in if str_eq a.pseudo_id j then (a.seq, a.pcm) ∷ later else later

  -- The pipeline has been given, for each speaker, the decoded chunks of the stream up to the first
  -- that has not been told of, each once and in order.
  abbrev pub HeardAll :
      (PseudoId → ℕ → Bytes) → List (PseudoId × Seq) → lib.Pipeline → lib.Pipeline → Type 0
  HeardAll content cs p q =
      (log : List (AudioChunk t)) × Heard p log q
      × ((j : PseudoId) → Leads (content j) (seqs_of j cs) (of_speaker j log))

  module _ (host : Host (CreateInputWire t)) (session : SessionId) where
    abbrev sound : AudioChunk t → List ℤ → List (AudioChunk t) → List (AudioChunk t)
    sound a [] log = log
    sound a (x ∷ xs) log = a ∷ log

    abbrev sounds : PseudoId → List Chunk → List (AudioChunk t) → List (AudioChunk t)
    sounds pid [] log = log
    sounds pid (c ∷ cs) log =
        let a = audio_chunk lib host session pid c in sound a a.pcm (sounds pid cs log)

    unless_empty-Heard :
        (a : AudioChunk t) (pcm : List ℤ) (p q : lib.Pipeline) (log : List (AudioChunk t))
        → Heard (elim pcm [ [] ↦ p | _ ∷ _ ↦ (lib.ingest_chunk a p).1 ]) log q
        → Heard p (sound a pcm log) q
    unless_empty-Heard a [] p q log h = h
    unless_empty-Heard a (x ∷ xs) p q log h = ingested a h

    feed_one-Heard :
        (pid : PseudoId) (c : Chunk) (p q : lib.Pipeline) (log : List (AudioChunk t))
        → Heard (feed_one lib host session pid p c) log q
        → (let a = audio_chunk lib host session pid c in Heard p (sound a a.pcm log) q)
    unfolding feed_one
    feed_one-Heard pid c p q log h =
        let a = audio_chunk lib host session pid c in unless_empty-Heard a a.pcm p q log h

    fed-Heard :
        (pid : PseudoId) (cs : List Chunk) (p q : lib.Pipeline) (log : List (AudioChunk t))
        → Heard (fed_pipeline lib host session pid cs p) log q
        → Heard p (sounds pid cs log) q
    fed-Heard pid [] p q log h = h
    fed-Heard pid (c ∷ cs) p q log h =
        feed_one-Heard pid c p q (sounds pid cs log)
          (fed-Heard pid cs (feed_one lib host session pid p c) q log h)

    released-Heard :
        (pid : PseudoId) (cs : List Chunk) (p q : lib.Pipeline) (log : List (AudioChunk t))
        → Heard (drained_pipeline lib host cs (fed_pipeline lib host session pid cs p)) log q
        → Heard p (sounds pid cs log) q
    released-Heard pid [] p q log h = h
    released-Heard pid (c ∷ cs) p q log h = fed-Heard pid (c ∷ cs) p q log (drained h)

    sound_own :
        (a : AudioChunk t) (pcm : List ℤ) (j : PseudoId) (log : List (AudioChunk t))
        → a.pcm ≡ pcm
        → str_eq a.pseudo_id j ≡ true
        → of_speaker j (sound a pcm log) ≡ voiced a.seq pcm (of_speaker j log)
    sound_own a [] j log e same = refl
    sound_own a (x ∷ xs) j log e same = rw (same, e) refl

    sound_other :
        (a : AudioChunk t) (pcm : List ℤ) (j : PseudoId) (log : List (AudioChunk t))
        → str_eq a.pseudo_id j ≡ false
        → of_speaker j (sound a pcm log) ≡ of_speaker j log
    sound_other a [] j log other = refl
    sound_other a (x ∷ xs) j log other = rw other refl

    sounds_own :
        (pid j : PseudoId) (cs : List Chunk) (log : List (AudioChunk t))
        → str_eq pid j ≡ true
        → of_speaker j (sounds pid cs log) ≡ voiced_each cs (of_speaker j log)
    unfolding audio_chunk
    sounds_own pid j [] log same = refl
    sounds_own pid j ((k, raw) ∷ cs) log same =
        let pcm = decode_stereo_to_mono_i16 raw in
        sound_own (audio_chunk lib host session pid (k, raw)) pcm j (sounds pid cs log) refl same
        ∙ ap (voiced k pcm) (sounds_own pid j cs log same)

    sounds_others :
        (pid j : PseudoId) (cs : List Chunk) (log : List (AudioChunk t))
        → str_eq pid j ≡ false
        → of_speaker j (sounds pid cs log) ≡ of_speaker j log
    unfolding audio_chunk
    sounds_others pid j [] log other = refl
    sounds_others pid j ((k, raw) ∷ cs) log other =
        sound_other (audio_chunk lib host session pid (k, raw)) (decode_stereo_to_mono_i16 raw) j
          (sounds pid cs log) other
        ∙ sounds_others pid j cs log other

    module _ (content : PseudoId → ℕ → Bytes) where
      abbrev log_of : List (PseudoId × Seq) → (PseudoId → Speaker) → List (AudioChunk t)
      log_of [] m = []
      log_of ((pid, seq) ∷ cs) m =
          let (ordered, sp) = arrive (m pid) (seq, content pid seq) in
          sounds pid ordered (log_of cs (update m pid sp))

      log_of-Heard :
          (cs : List (PseudoId × Seq)) (m : PseudoId → Speaker) (p : lib.Pipeline)
          → Heard p (log_of cs m) (absorb lib host session content cs m p).1
      log_of-Heard [] m p = still
      log_of-Heard ((pid, seq) ∷ cs) m p =
          let (ordered, sp) = arrive (m pid) (seq, content pid seq) in
          released-Heard pid ordered p _ (log_of cs (update m pid sp)) (
            log_of-Heard cs (update m pid sp)
              (drained_pipeline lib host ordered (fed_pipeline lib host session pid ordered p)))

      log_of-arrivals :
          (cs : List (PseudoId × Seq)) (m : PseudoId → Speaker) (j : PseudoId)
          → of_speaker j (log_of cs m)
            ≡ voiced_each (arrivals (m j) (deliveries (content j) (seqs_of j cs))).0 []
      unfolding arrivals
      log_of-arrivals [] m j = refl
      log_of-arrivals ((pid, seq) ∷ cs) m j =
          let (ordered, sp) = arrive (m pid) (seq, content pid seq) in
          let log = log_of cs (update m pid sp) in
          let later = log_of-arrivals cs (update m pid sp) j in
          let after = deliveries (content j) (seqs_of j cs) in
          elim (Bool-cases (str_eq pid j)) [
            | inl e ↦
                let same : pid ≡ j = (eq_iff pid j).0 e in
                let here : update m pid sp j ≡ sp = rw e refl in
                rw e (
                  subst
                    (λ i.
                      of_speaker j (sounds pid ordered log)
                      ≡ voiced_each (arrivals (m i) ((seq, content i seq) ∷ after)).0 [])
                    same
                    (sounds_own pid j ordered log e
                      ∙ ap (voiced_each ordered)
                          (later ∙ ap (λ x. voiced_each (arrivals x after).0 []) here)
                      ∙ sym (voiced_each-append ordered (arrivals sp after).0 [])))
            | inr e ↦ sounds_others pid j ordered log e ∙ later ∙ rw e refl
          ]

      -- Told of chunks, in whatever order and of whatever speakers, and then closed, the
      -- loop of the streaming runner, started with empty buffers, ends with a pipeline that has been given, for each speaker, the decoded chunks up to the first that it was not told
      -- of, each once and in order, but for those without samples; this if the data-api serves all
      -- chunks of the session, and all numbers have successors below 2 ^ 32.
      pub run_loop-HeardAll :
          Serves host session content
          → (fuel : ℕ) (cs : List (PseudoId × Seq)) (posting : Posting host)
            (pipeline : lib.Pipeline)
          → AllSeqs (map (λ c. c.1) cs)
          → HeardAll content cs pipeline
              (run_loop lib host
                (suc fuel)
                session
                (told_of cs)
                (started lib host posting pipeline)).1.pipeline
      run_loop-HeardAll serves fuel cs posting pipeline small =
          let s = started lib host posting pipeline in
          let (_, ends) = run_loop-absorb lib host session content serves fuel cs s in
          let m : PseudoId → Speaker = λ j. fresh in
          (
            log_of cs m,
            subst (λ q. Heard pipeline (log_of cs m) q) (sym ends) (log_of-Heard cs m pipeline),
            λ j.
                subst (Leads (content j) (seqs_of j cs)) (sym (log_of-arrivals cs m j))
                  (arrivals-Leads (content j) (seqs_of j cs) (seqs_of-AllSeqs j cs small)),
          )
