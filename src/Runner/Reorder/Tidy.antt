-- ===== src/Runner/Reorder/Tidy.antt =====
-- One arrival at the reorder buffer of src/session_runner.rs, and the invariant that it keeps.
use chronicle_worker.Prelude.{
  ℕ, zero, suc, ◌+◌, ◌≤◌, ◌<◌, ◌≡◌, refl, sym, ap, ◌∙◌, inl, inr, Bool, true, false, Option, List,
  [], ◌∷◌, some, none, arith, ltb, ◌==◌, ◌||◌, length, Bool-cases,
}
use chronicle_worker.Sets.{contains}
use chronicle_worker.Runner.Reorder.{
  Bytes, Chunk, Pending, Speaker, u32_limit, lookup, insert, drain, mark, arrive,
}
use chronicle_worker.Runner.Reorder.Buffer.{
  lookup-insert, countdown, contains-countdown, add-countdown,
}
use chronicle_worker.Runner.Reorder.Drain.{span, Holds, Drained, next_seq-suc, drain-Drained}

abbrev pub is_some {ℓ} : {A : Type ℓ} → Option A → Bool
is_some none = false
is_some (some a) = true

-- Numbers below `next_expected` have been processed, numbers above it that have arrived wait in the
-- buffer, and `next_expected` itself has not arrived.
pub record Tidy (content : ℕ → Bytes) (sp : Speaker) (arrived : ℕ → Bool) : Type 0 where
  pub counted : sp.processed ≡ countdown sp.next_expected
  pub low : (k : ℕ) → k ≤ sp.next_expected → lookup k sp.pending ≡ none
  pub known : (k : ℕ) → arrived k ≡ (ltb k sp.next_expected || is_some (lookup k sp.pending))
  pub holds : Holds content sp.pending

abbrev pub Feeds : (ℕ → Bytes) → ℕ → List Chunk → ℕ → Type 0
Feeds content from fed to = (fed ≡ span content (length fed) from) × (to ≡ from + length fed)

mark-span :
    (content : ℕ → Bytes) (n m : ℕ) → mark (span content n m) (countdown m) ≡ countdown (m + n)
unfolding mark span
mark-span content zero m = ap countdown (omega arith)
mark-span content (suc n) m =
    ap (mark (span content n (suc m))) (add-countdown m)
    ∙ mark-span content n (suc m)
    ∙ ap countdown (omega arith)

module _ (content : ℕ → Bytes) (sp : Speaker) (arrived : ℕ → Bool) (t : Tidy content sp arrived)
    (seq : ℕ) (small : suc seq < u32_limit) where
  abbrev Arrived : List Chunk × Speaker → Type 0
  Arrived (fed, sp') =
      Tidy content sp' (λ k. seq == k || arrived k)
      × Feeds content sp.next_expected fed sp'.next_expected

  again : contains seq sp.processed ≡ true → Arrived ([], sp)
  unfolding span
  again h =
      let below : ltb seq sp.next_expected ≡ true =
        cc (t.counted, contains-countdown seq sp.next_expected) in
      (
        record {
          counted = t.counted;
          low = t.low;
          known = λ k. ground (arith, t.known k);
          holds = t.holds;
        },
        (refl, omega arith),
      )

  buffered :
      contains seq sp.processed ≡ false
      → (seq == sp.next_expected) ≡ false
      → Arrived ([], record sp { pending = insert seq (content seq) sp.pending })
  unfolding span
  buffered h e =
      let above : ltb seq sp.next_expected ≡ false =
        cc (t.counted, contains-countdown seq sp.next_expected) in
      (
        record {
          counted = t.counted;
          low = λ k p. ground (arith, lookup-insert seq k (content seq) sp.pending, t.low k);
          known = λ k. ground (arith, lookup-insert seq k (content seq) sp.pending, t.known k);
          holds =
              λ k b p. ground (arith, lookup-insert seq k (content seq) sp.pending, t.holds k b);
        },
        (refl, omega arith),
      )

  expected :
      (seq == sp.next_expected) ≡ true
      → (fed : List Chunk) (end : ℕ) (left : Pending)
      → Drained content (suc seq) sp.pending fed end left
      → Arrived (
        (seq, content seq) ∷ fed,
        record {
          processed = mark ((seq, content seq) ∷ fed) sp.processed;
          pending = left;
          next_expected = end;
        },
      )
  unfolding span
  expected e fed end left d =
      let here : seq ≡ sp.next_expected = ground arith in
      let run : (seq, content seq) ∷ fed ≡ span content (suc (length fed)) seq =
        ap (◌∷◌ (seq, content seq)) d.run in
      (
        record {
          counted =
              ap (λ l. mark l sp.processed) run
              ∙ ap (mark (span content (suc (length fed)) seq))
                  (t.counted ∙ ap countdown (sym here))
              ∙ mark-span content (suc (length fed)) seq
              ∙ ap countdown (omega (arith, d.ends));
          low = λ k p. ground (arith, d.rest k, d.gap, t.low k, d.ends);
          known = λ k. ground (arith, t.known k, d.rest k, d.had k, d.ends);
          holds = λ k b p. ground (arith, d.rest k, t.holds k b);
        },
        (run ∙ ap (span content (suc (length fed))) here, omega (arith, d.ends)),
      )

  pub arrive-Arrived : Arrived (arrive sp (seq, content seq))
  unfolding arrive
  arrive-Arrived = elim (Bool-cases (contains seq sp.processed)) [
    | inl old ↦ rw (old, arrive) (again old)
    | inr new ↦ elim (Bool-cases (seq == sp.next_expected)) [
      | inl e ↦
          let (fed, end, left) = drain (length sp.pending) (suc seq) sp.pending in
          rw (new, e, arrive, next_seq-suc seq small)
            (expected e fed end left (
              drain-Drained content (length sp.pending) (suc seq) sp.pending (omega arith) t.holds))
      | inr e ↦ rw (new, e, arrive) (buffered new e)
    ]
  ]
