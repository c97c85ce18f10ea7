-- ===== src/Runner/Reorder/Gap.antt =====
-- src/session_runner.rs: a chunk that never arrives, in `ingest_one`.
use chronicle_worker.Prelude.{
  ℕ, zero, suc, ◌+◌, ◌≤◌, ◌<◌, ◌≡◌, false, Bool-cases, inl, inr, List, arith, ltb, All,
}
use chronicle_worker.Sets.{contains}
use chronicle_worker.Runner.Reorder.{Bytes, Chunk, fresh, arrivals}
use chronicle_worker.Runner.Reorder.Drain.{span}
use chronicle_worker.Runner.Reorder.Order.{AllSeqs, deliveries, arrivals_prefix, contained-below}

span-below :
    (content : ℕ → Bytes) (g n m : ℕ) → m + n ≤ g → All (λ (c : Chunk). c.0 < g) (span content n m)
unfolding span
span-below content g zero m h = tt
span-below content g (suc n) m h = (omega arith, span-below content g n (suc m) (omega arith))

-- If all numbers that arrive have a successor below 2 ^ 32 and the chunk with the number `missing`
-- does not arrive, then the pipeline is fed only chunks with smaller numbers.
pub arrivals_gap :
    (content : ℕ → Bytes) (seqs : List ℕ) (missing : ℕ)
    → AllSeqs seqs
    → contains missing seqs ≡ false
    → All (λ (c : Chunk). c.0 < missing) (arrivals fresh (deliveries content seqs)).0
arrivals_gap content seqs missing h gap =
    let (whole, _, _) = arrivals_prefix content seqs h in
    let sp = (arrivals fresh (deliveries content seqs)).1 in
    elim (Bool-cases (ltb missing sp.next_expected)) [
      | inl below ↦ let had = contained-below content seqs missing h (ground arith) in absurd cc
      | inr beyond ↦ rw whole (span-below content missing sp.next_expected 0 (ground arith))
    ]
