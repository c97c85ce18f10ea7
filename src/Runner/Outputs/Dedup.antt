-- ===== src/Runner/Outputs/Dedup.antt =====
-- The ids that the posting of outputs remembers, and what they keep from being sent again.
use mathlib.Core.Path.{subst}
use chronicle_worker.Prelude.{
  ◌≡◌, refl, inl, inr, true, false, List, [], ◌∷◌, arith, All, Bool-cases,
}
use chronicle_worker.Ids.{Uuid, SessionId}
use chronicle_worker.Sets.{contains, add, contains-add}
use chronicle_worker.Exec.{ok}
use chronicle_worker.Http.{Host}
use chronicle_worker.Pipeline.{Foreign, Library, Segment, PipelineOutput}
use chronicle_worker.Runner.Wire.{CreateInputWire}
use chronicle_worker.Runner.Outputs.{
  Posting, new_segments, mark_posted, write_segments, write_new_outputs,
}

module _ {t : Foreign} where
  mark_posted_mono :
      (segs : List (Segment t)) (posted : List Uuid) (k : Uuid)
      → contains k posted ≡ true
      → contains k (mark_posted segs posted) ≡ true
  unfolding mark_posted
  mark_posted_mono [] posted k h = h
  mark_posted_mono (s ∷ rest) posted k h =
      mark_posted_mono rest (add s.id posted) k (ground (arith, contains-add k s.id posted))

  abbrev AllPosted : List Uuid → List (Segment t) → Type 0
  AllPosted posted = All (λ (s : Segment t). contains s.id posted ≡ true)

  new_segments-[] :
      (segs : List (Segment t)) (posted : List Uuid)
      → AllPosted posted segs
      → new_segments posted segs ≡ []
  unfolding new_segments
  new_segments-[] [] posted h = refl
  new_segments-[] (s ∷ rest) posted h = rw h.0 (new_segments-[] rest posted h.1)

  new_segments-old :
      (s : Segment t) (rest : List (Segment t)) (old : List Uuid)
      → contains s.id old ≡ true
      → new_segments old rest ≡ new_segments old (s ∷ rest)
  unfolding new_segments
  new_segments-old s rest old h = rw h

  new_segments-new :
      (s : Segment t) (rest : List (Segment t)) (old : List Uuid)
      → contains s.id old ≡ false
      → s ∷ new_segments old rest ≡ new_segments old (s ∷ rest)
  unfolding new_segments
  new_segments-new s rest old h = rw h

  mark_new-AllPosted :
      (segs : List (Segment t)) (old posted : List Uuid)
      → ((k : Uuid) → contains k old ≡ true → contains k posted ≡ true)
      → AllPosted (mark_posted (new_segments old segs) posted) segs
  unfolding mark_posted
  mark_new-AllPosted [] old posted h = tt
  mark_new-AllPosted (s ∷ rest) old posted h = elim (Bool-cases (contains s.id old)) [
    | inl e ↦
        subst (λ l. AllPosted (mark_posted l posted) (s ∷ rest)) (new_segments-old s rest old e)
          (
            mark_posted_mono (new_segments old rest) posted s.id (h s.id e),
            mark_new-AllPosted rest old posted h,
          )
    | inr e ↦
        let posted' = add s.id posted in
        subst (λ l. AllPosted (mark_posted l posted) (s ∷ rest)) (new_segments-new s rest old e)
          (
            mark_posted_mono (new_segments old rest) posted' s.id
                (ground (arith, contains-add s.id s.id posted)),
            mark_new-AllPosted rest old posted'
                (λ k p. ground (arith, h k, contains-add k s.id posted)),
          )
  ]

module _ {t : Foreign} (lib : Library t) (host : Host (CreateInputWire t)) where
  write_segments-posted :
      (session : SessionId) (segs : List (Segment t)) (s : Posting host)
      → (write_segments lib host session segs s).0 ≡ ok tt
      → (write_segments lib host session segs s).1.posted ≡ mark_posted segs s.posted
  unfolding mark_posted
  write_segments-posted session [] s h = refl
  write_segments-posted session (x ∷ xs) s h = ground arith

  posted-write :
      (session : SessionId) (out : PipelineOutput t) (s : Posting host)
      → (write_new_outputs lib host session out s).0 ≡ ok tt
      → (write_new_outputs lib host session out s).1.posted
        ≡ mark_posted (new_segments s.posted out.segments) s.posted
  posted-write session out s h =
      unfold write_new_outputs in
      ground (arith, write_segments-posted session (new_segments s.posted out.segments) s)

  -- After a call of `write_new_outputs` that succeeds, no segment of its output counts as new.
  pub new_segments-write :
      (session : SessionId) (out : PipelineOutput t) (s : Posting host)
      → (write_new_outputs lib host session out s).0 ≡ ok tt
      → new_segments (write_new_outputs lib host session out s).1.posted out.segments ≡ []
  new_segments-write session out s h = rw (posted-write session out s h) (
      new_segments-[] out.segments _ (mark_new-AllPosted out.segments s.posted s.posted (λ k p. p)))
