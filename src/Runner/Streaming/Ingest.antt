-- ===== src/Runner/Streaming/Ingest.antt =====
-- The streaming runner feeds each speaker's chunks as the reorder buffer of that speaker says.
use text.Mathlib.Text.{◌==◌ as str_eq}
use text.Mathlib.TextEquality.{eq_iff}
use chronicle_worker.Prelude.{
  ℕ, ◌≡◌, refl, ap, ◌∙◌, inl, inr, true, false, List, [], ◌∷◌, arith, Bool-cases, if◌then◌else◌,
}
use chronicle_worker.Ids.{SessionId, PseudoId, Seq}
use chronicle_worker.Sets.{contains, add}
use chronicle_worker.Exec.{Outcome, ok, err, pending, resume}
use chronicle_worker.Api.Chunks.{download_chunk}
use chronicle_worker.Runner.Outputs.{Posting}
use chronicle_worker.Http.{Host}
use chronicle_worker.Pipeline.{Foreign, Library}
use chronicle_worker.Runner.Reorder.{Bytes, Chunk, Speaker, arrange, mark, arrive}
use chronicle_worker.Runner.Wire.{CreateInputWire}
use chronicle_worker.Runner.Streaming.{
  Streaming, update, speaker, set_speaker, feed_one, feed, after_arrange, place, ingest_one,
}

module _ {t : Foreign} (lib : Library t) (host : Host (CreateInputWire t)) where
  -- The pipeline after the chunks of a list, and after the `emit` that follows a feed.
  abbrev pub fed_pipeline : SessionId → PseudoId → List Chunk → lib.Pipeline → lib.Pipeline
  fed_pipeline session pseudo [] p = p
  fed_pipeline session pseudo (c ∷ cs) p =
      fed_pipeline session pseudo cs (feed_one lib host session pseudo p c)

  abbrev pub drained_pipeline : List Chunk → lib.Pipeline → lib.Pipeline
  drained_pipeline [] p = p
  drained_pipeline (c ∷ cs) p = (lib.emit p).1

  update_self {ℓ} : {V : Type ℓ} (m : PseudoId → V) (k : PseudoId) (v : V) → update m k v k ≡ v
  update_self m k v = ground (arith, eq_iff k k)

  abbrev with_processed : Speaker → List ℕ → Speaker
  with_processed sp seen = record sp { processed = seen }

  feed-speaker :
      (session : SessionId) (pseudo : PseudoId) (cs : List Chunk) (s : Streaming lib host)
      → speaker lib host pseudo (feed lib host session pseudo cs s)
        ≡ with_processed (speaker lib host pseudo s) (mark cs (s.processed pseudo))
  unfolding feed mark
  feed-speaker session pseudo [] s = refl
  feed-speaker session pseudo (c ∷ cs) s =
      feed-speaker session pseudo cs _
      ∙ ap (λ seen. with_processed (speaker lib host pseudo s) (mark cs seen))
          (update_self s.processed pseudo (add c.0 (s.processed pseudo)))

  feed-pipeline :
      (session : SessionId) (pseudo : PseudoId) (cs : List Chunk) (s : Streaming lib host)
      → (feed lib host session pseudo cs s).pipeline ≡ fed_pipeline session pseudo cs s.pipeline
  unfolding feed
  feed-pipeline session pseudo [] s = refl
  feed-pipeline session pseudo (c ∷ cs) s = feed-pipeline session pseudo cs _

  feed_others :
      (session : SessionId) (pseudo j : PseudoId) (cs : List Chunk) (s : Streaming lib host)
      → str_eq pseudo j ≡ false
      → speaker lib host j (feed lib host session pseudo cs s) ≡ speaker lib host j s
  unfolding feed
  feed_others session pseudo j [] s h = refl
  feed_others session pseudo j (c ∷ cs) s h = feed_others session pseudo j cs _ h ∙ rw h refl

  set_speaker_self :
      (pseudo : PseudoId) (sp : Speaker) (s : Streaming lib host)
      → speaker lib host pseudo (set_speaker lib host pseudo sp s) ≡ sp
  set_speaker_self pseudo sp s = ground (arith, eq_iff pseudo pseudo)

  after_arrange-speaker :
      (session : SessionId) (pseudo : PseudoId) (cs : List Chunk) (s : Streaming lib host)
      → speaker lib host pseudo (after_arrange lib host session pseudo cs s).1
        ≡ with_processed (speaker lib host pseudo s) (mark cs (s.processed pseudo))
  unfolding mark
  after_arrange-speaker session pseudo [] s = refl
  after_arrange-speaker session pseudo (c ∷ cs) s = feed-speaker session pseudo (c ∷ cs) s

  after_arrange-pipeline :
      (session : SessionId) (pseudo : PseudoId) (cs : List Chunk) (s : Streaming lib host)
      → (after_arrange lib host session pseudo cs s).1.pipeline
        ≡ drained_pipeline cs (fed_pipeline session pseudo cs s.pipeline)
  after_arrange-pipeline session pseudo [] s = refl
  after_arrange-pipeline session pseudo (c ∷ cs) s =
      ap (λ p. (lib.emit p).1) (feed-pipeline session pseudo (c ∷ cs) s)

  after_arrange_others :
      (session : SessionId) (pseudo j : PseudoId) (cs : List Chunk) (s : Streaming lib host)
      → str_eq pseudo j ≡ false
      → speaker lib host j (after_arrange lib host session pseudo cs s).1 ≡ speaker lib host j s
  after_arrange_others session pseudo j [] s h = refl
  after_arrange_others session pseudo j (c ∷ cs) s h = feed_others session pseudo j (c ∷ cs) s h

  -- What a download brings to its speaker: nothing if it failed.
  abbrev pub arrival : Seq → Outcome Bytes → Speaker → List Chunk × Speaker
  arrival seq (ok bytes) sp = arrive sp (seq, bytes)
  arrival seq (err e) sp = ([], sp)
  arrival seq pending sp = ([], sp)

  abbrev pub Ingested :
      SessionId → PseudoId → Streaming lib host → List Chunk × Speaker → Streaming lib host → Type 0
  Ingested session pseudo s (ordered, sp) s' =
      ((j : PseudoId)
        → speaker lib host j s' ≡ (if str_eq pseudo j then sp else speaker lib host j s))
      × (s'.pipeline ≡ drained_pipeline ordered (fed_pipeline session pseudo ordered s.pipeline))

  processed-arrange :
      (sp : Speaker) (seq : Seq) (bytes : Bytes) → (arrange sp seq bytes).1.processed ≡ sp.processed
  unfolding arrange
  processed-arrange sp seq bytes = ground arith

  arrive_new :
      (sp : Speaker) (seq : Seq) (bytes : Bytes)
      → contains seq sp.processed ≡ false
      → arrive sp (seq, bytes) ≡ (
        (arrange sp seq bytes).0,
        with_processed (arrange sp seq bytes).1 (mark (arrange sp seq bytes).0 sp.processed),
      )
  arrive_new sp seq bytes h = unfold arrive in rw h refl

  place-speaker :
      (session : SessionId) (pseudo : PseudoId) (seq : Seq) (bytes : Bytes) (s : Streaming lib host)
      (j : PseudoId)
      → speaker lib host j (place lib host session pseudo seq bytes s).1 ≡ (
          if str_eq pseudo j
          then with_processed
              (arrange (speaker lib host pseudo s) seq bytes).1
              (mark (arrange (speaker lib host pseudo s) seq bytes).0 (s.processed pseudo))
          else speaker lib host j s)
  unfolding place
  place-speaker session pseudo seq bytes s j =
      let sp = speaker lib host pseudo s in
      let (ordered, sp') = arrange sp seq bytes in
      let u = set_speaker lib host pseudo sp' s in
      elim (Bool-cases (str_eq pseudo j)) [
        | inl e ↦
            let same : pseudo ≡ j = (eq_iff pseudo j).0 e in
            rw e (
              rw (← same) (
                after_arrange-speaker session pseudo ordered u
                ∙ ap (λ (x : Speaker). with_processed x (mark ordered x.processed))
                    (set_speaker_self pseudo sp' s)
                ∙ ap (λ seen. with_processed sp' (mark ordered seen))
                    (processed-arrange sp seq bytes)))
        | inr e ↦ rw e (after_arrange_others session pseudo j ordered u e ∙ rw e refl)
      ]

  place-Ingested :
      (session : SessionId) (pseudo : PseudoId) (seq : Seq) (bytes : Bytes) (s : Streaming lib host)
      → contains seq (s.processed pseudo) ≡ false
      → Ingested session pseudo s
          (arrive (speaker lib host pseudo s) (seq, bytes))
          (place lib host session pseudo seq bytes s).1
  place-Ingested session pseudo seq bytes s h =
      rw (arrive_new (speaker lib host pseudo s) seq bytes h) (
        place-speaker session pseudo seq bytes s,
        unfold place in
            after_arrange-pipeline session pseudo (arrange (speaker lib host pseudo s) seq bytes).0
              _,
      )

  ingest_old :
      (fuel : ℕ) (session : SessionId) (pseudo : PseudoId) (seq : Seq) (s : Streaming lib host)
      (r : Outcome Bytes)
      → contains seq (s.processed pseudo) ≡ true
      → (arrival seq r (speaker lib host pseudo s) ≡ ([], speaker lib host pseudo s))
        × (ingest_one lib host fuel session pseudo seq s ≡ (ok tt, s))
  unfolding ingest_one arrive
  ingest_old fuel session pseudo seq s (ok b) h = (rw h refl, rw h refl)
  ingest_old fuel session pseudo seq s (err e) h = (refl, rw h refl)
  ingest_old fuel session pseudo seq s pending h = (refl, rw h refl)

  Ingested-none :
      (session : SessionId) (pseudo : PseudoId) (s : Streaming lib host) (posting : Posting host)
      → Ingested session pseudo s ([], speaker lib host pseudo s) (record s { posting = posting })
  Ingested-none session pseudo s posting = (λ j. ground (arith, eq_iff pseudo j), refl)

  ingest_new :
      (session : SessionId) (pseudo : PseudoId) (seq : Seq) (s : Streaming lib host)
      (posting : Posting host)
      → contains seq (s.processed pseudo) ≡ false
      → (r : Outcome Bytes)
      → Ingested session pseudo s
          (arrival seq r (speaker lib host pseudo s))
          (resume r (place lib host session pseudo seq) (record s { posting = posting })).1
  ingest_new session pseudo seq s posting h (ok b) =
      place-Ingested session pseudo seq b (record s { posting = posting }) h
  ingest_new session pseudo seq s posting h (err e) = Ingested-none session pseudo s posting
  ingest_new session pseudo seq s posting h pending = Ingested-none session pseudo s posting

  -- Whatever its outcome, `ingest_one` leaves its speaker's entries of the three maps as the arrival
  -- of the downloaded chunk at the reorder buffer does, or as they were if the download fails; those
  -- of other speakers do not change; and the pipeline has been fed the chunks that the buffer
  -- released, in order, and drained after them.
  pub ingest_one-Ingested :
      (fuel : ℕ) (session : SessionId) (pseudo : PseudoId) (seq : Seq) (s : Streaming lib host)
      → (let got = (download_chunk host fuel session pseudo seq s.posting.io).0 in
          Ingested session pseudo s
            (arrival seq got (speaker lib host pseudo s))
            (ingest_one lib host fuel session pseudo seq s).1)
  ingest_one-Ingested fuel session pseudo seq s =
      let (got, io) = download_chunk host fuel session pseudo seq s.posting.io in
      elim (Bool-cases (contains seq (s.processed pseudo))) [
        | inl old ↦
            let (a, b) = ingest_old fuel session pseudo seq s got old in
            rw (a, b) (Ingested-none session pseudo s s.posting)
        | inr new ↦
            unfold ingest_one in
            rw new (ingest_new session pseudo seq s (record s.posting { io = io }) new got)
      ]
