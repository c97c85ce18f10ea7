-- ===== src/Runner/Reorder/Drain.antt =====
-- The loop that takes consecutive chunks out of the buffer.
use chronicle_worker.Prelude.{
  ℕ, zero, suc, ◌+◌, ◌≤◌, ◌<◌, ◌≡◌, refl, ap, inl, inr, List, [], ◌∷◌, some, none, arith, ltb, leb,
  ◌&&◌, length, Option-cases, if◌then◌else◌,
}
use chronicle_worker.Runner.Reorder.{
  Bytes, Chunk, Pending, u32_limit, lookup, without, next_seq, drain,
}
use chronicle_worker.Runner.Reorder.Buffer.{lookup-without, length-without}

-- The chunks m, …, m + n - 1 of a stream with the given contents.
unfoldable pub span : (ℕ → Bytes) → ℕ → ℕ → List Chunk
span content zero m = []
span content (suc n) m = (m, content m) ∷ span content n (suc m)

pub length-span : (content : ℕ → Bytes) (n m : ℕ) → length (span content n m) ≡ n
unfolding span
length-span content zero m = refl
length-span content (suc n) m = ap suc (length-span content n (suc m))

-- Each buffered chunk is the stream's chunk of its number, and its successor is a u32.
abbrev pub Holds : (ℕ → Bytes) → Pending → Type 0
Holds content buf =
    (k : ℕ) (b : Bytes) → lookup k buf ≡ some b → (b ≡ content k) × (suc k < u32_limit)

pub record Drained (content : ℕ → Bytes) (next : ℕ) (buf : Pending) (fed : List Chunk) (end : ℕ)
    (left : Pending) : Type 0 where
  pub run : fed ≡ span content (length fed) next
  pub ends : end ≡ next + length fed
  pub gap : lookup end left ≡ none
  pub rest : (k : ℕ) → lookup k left ≡ (if leb next k && ltb k end then none else lookup k buf)
  pub had : (k : ℕ) → next ≤ k → k < end → lookup k buf ≡ some (content k)

Holds-without :
    (content : ℕ → Bytes) (n : ℕ) (buf : Pending)
    → Holds content buf
    → Holds content (without n buf)
Holds-without content n buf h k b e = ground (arith, lookup-without n k buf, h k b)

lookup-[] : (k : ℕ) (buf : Pending) → length buf ≤ 0 → lookup k buf ≡ none
unfolding lookup
lookup-[] k [] h = refl
lookup-[] k (c ∷ buf) h = absurd (omega arith)

pub next_seq-suc : (n : ℕ) → suc n < u32_limit → next_seq n ≡ suc n
unfolding next_seq
next_seq-suc n h = omega arith

Drained-stop :
    (content : ℕ → Bytes) (next : ℕ) (buf : Pending)
    → lookup next buf ≡ none
    → Drained content next buf [] next buf
unfolding span
Drained-stop content next buf h = record {
  run = refl;
  ends = omega arith;
  gap = h;
  rest = λ k. ground arith;
  had = λ k p q. absurd (omega arith);
}

Drained-step :
    (content : ℕ → Bytes) (next : ℕ) (buf : Pending) (fed : List Chunk) (end : ℕ) (left : Pending)
    → lookup next buf ≡ some (content next)
    → Drained content (suc next) (without next buf) fed end left
    → Drained content next buf ((next, content next) ∷ fed) end left
unfolding span
Drained-step content next buf fed end left h d = record {
  run = ap (◌∷◌ (next, content next)) d.run;
  ends = omega (arith, d.ends);
  gap = d.gap;
  rest = λ k. ground (arith, d.rest k, d.ends, lookup-without next k buf);
  had = λ k p q. ground (arith, d.had k, lookup-without next k buf);
}

-- With the buffer's length as fuel, the loop takes out exactly the run of chunks that starts at
-- `next`, in order, and stops at the first number that is not in the buffer.
pub drain-Drained :
    (content : ℕ → Bytes) (fuel next : ℕ) (buf : Pending)
    → length buf ≤ fuel
    → Holds content buf
    → (let (fed, end, left) = drain fuel next buf in Drained content next buf fed end left)
unfolding drain
drain-Drained content zero next buf h hold = Drained-stop content next buf (lookup-[] next buf h)
drain-Drained content (suc fuel) next buf h hold = elim (Option-cases (lookup next buf)) [
  | inl e ↦ rw (e, drain) (Drained-stop content next buf e)
  | inr (b, e) ↦
      let (same, small) = hold next b e in
      let ih =
        drain-Drained content fuel (suc next) (without next buf)
          (omega (arith, length-without next buf b e)) (Holds-without content next buf hold) in
      rw (e, drain, next_seq-suc next small, same)
        (Drained-step content next buf _ _ _ (rw (← same) e) ih)
]
