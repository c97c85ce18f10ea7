-- ===== src/Runner/Reorder/Order.antt =====
-- What a sequence of arrivals feeds to the pipeline, whatever their order.
use mathlib.Core.Path.{ap₂}
use native.Mathlib.Nat.{suc-add}
use chronicle_worker.Prelude.{
  ℕ, zero, suc, ◌+◌, ◌≤◌, ◌<◌, ◌≡◌, refl, sym, ap, ◌∙◌, length-append, inl, inr, Bool, true, false,
  List, [], ◌∷◌, ◌++◌, map, arith, ◌==◌, ◌||◌, length, All, Bool-cases,
}
use chronicle_worker.Sets.{contains}
use chronicle_worker.Runner.Reorder.{
  Bytes, Chunk, Speaker, fresh, u32_limit, lookup, arrive, arrivals,
}
use chronicle_worker.Runner.Reorder.Buffer.{countdown}
use chronicle_worker.Runner.Reorder.Drain.{span}
use chronicle_worker.Runner.Reorder.Tidy.{Tidy, Feeds, arrive-Arrived}

-- The arrivals of chunks with these numbers, in this order, from a stream with these contents.
abbrev pub deliveries : (ℕ → Bytes) → List ℕ → List Chunk
deliveries content = map (λ k. (k, content k))

-- Each number is that of a chunk whose successor is a u32.
abbrev pub AllSeqs : List ℕ → Type 0
AllSeqs = All (λ k. suc k < u32_limit)

abbrev pub arrived_after : (ℕ → Bool) → List ℕ → ℕ → Bool
arrived_after arrived [] k = arrived k
arrived_after arrived (j ∷ js) k = arrived_after (λ i. j == i || arrived i) js k

span-append :
    (content : ℕ → Bytes) (n m k : ℕ) (xs : List Chunk)
    → xs ≡ span content k (m + n)
    → span content n m ++ xs ≡ span content (n + k) m
unfolding span
span-append content zero m k xs h = h ∙ ap₂ (span content) (omega arith) (omega arith)
span-append content (suc n) m k xs h = rw suc-add (
    ap (◌∷◌ (m, content m))
      (span-append content n (suc m) k xs (h ∙ ap (span content k) (omega arith))))

Feeds-append :
    (content : ℕ → Bytes) (m n o : ℕ) (fed later : List Chunk)
    → Feeds content m fed n
    → Feeds content n later o
    → Feeds content m (fed ++ later) o
Feeds-append content m n o fed later (p, e) (q, f) = (
  ap (λ l. l ++ later) p
      ∙ span-append content (length fed) m (length later) later
          (q ∙ ap (span content (length later)) e)
      ∙ ap (λ n. span content n m) (sym (length-append fed later)),
  omega (arith, length-append fed later),
)

pub arrivals-Tidy :
    (content : ℕ → Bytes) (seqs : List ℕ) (sp : Speaker) (arrived : ℕ → Bool)
    → Tidy content sp arrived
    → AllSeqs seqs
    → (let (fed, sp') = arrivals sp (deliveries content seqs) in
        Tidy content sp' (arrived_after arrived seqs)
        × Feeds content sp.next_expected fed sp'.next_expected)
unfolding arrivals span
arrivals-Tidy content [] sp arrived t h = (t, (refl, omega arith))
arrivals-Tidy content (k ∷ ks) sp arrived t h =
    let (t', f) = arrive-Arrived content sp arrived t k h.0 in
    let (fed, sp') = arrive sp (k, content k) in
    let (later, sp'') = arrivals sp' (deliveries content ks) in
    let (t'', g) = arrivals-Tidy content ks sp' (λ i. k == i || arrived i) t' h.1 in
    (t'', Feeds-append content _ _ _ fed later f g)

arrived_after-contains :
    (arrived : ℕ → Bool) (seqs : List ℕ) (k : ℕ)
    → arrived_after arrived seqs k ≡ (contains k seqs || arrived k)
unfolding contains
arrived_after-contains arrived [] k = refl
arrived_after-contains arrived (j ∷ js) k =
    ground (arith, arrived_after-contains (λ i. j == i || arrived i) js k)

pub Tidy-fresh : (content : ℕ → Bytes) → Tidy content fresh (λ k. false)
unfolding countdown lookup
Tidy-fresh content = record {
  counted = refl;
  low = λ k h. refl;
  known = λ k. ground arith;
  holds = λ k b h. cc;
}

fed_contained :
    (content : ℕ → Bytes) (seqs : List ℕ) (n m : ℕ)
    → ((k : ℕ) → k < m + n → contains k seqs ≡ true)
    → All (λ (c : Chunk). contains c.0 seqs ≡ true) (span content n m)
unfolding span
fed_contained content seqs zero m h = tt
fed_contained content seqs (suc n) m h =
    (h m (omega arith), fed_contained content seqs n (suc m) (λ k p. h k (omega arith)))

-- If all numbers that arrive have a successor below 2 ^ 32: whatever the order of the arrivals and
-- however often a chunk arrives, the pipeline is fed the chunks 0, 1, …, n - 1 of the stream, each
-- once and in order; all of them have arrived, and `n`, the number that is expected next, has not.
pub arrivals_prefix :
    (content : ℕ → Bytes) (seqs : List ℕ)
    → AllSeqs seqs
    → (let (fed, sp) = arrivals fresh (deliveries content seqs) in
        (fed ≡ span content sp.next_expected 0)
        × All (λ (c : Chunk). contains c.0 seqs ≡ true) fed
        × (contains sp.next_expected seqs ≡ false))
arrivals_prefix content seqs h =
    let (t, (p, e)) = arrivals-Tidy content seqs fresh (λ k. false) (Tidy-fresh content) h in
    let (fed, sp) = arrivals fresh (deliveries content seqs) in
    let whole : fed ≡ span content sp.next_expected 0 =
      p ∙ ap (λ n. span content n 0) (omega (arith, e)) in
    (
      whole,
      rw whole (
          fed_contained content seqs sp.next_expected 0
            (λ k q. ground (arith, t.known k, arrived_after-contains (λ i. false) seqs k))),
      ground (
        arith,
        t.known sp.next_expected,
        t.low sp.next_expected,
        arrived_after-contains (λ i. false) seqs sp.next_expected,
      ),
    )

All-contained :
    (content : ℕ → Bytes) (seqs : List ℕ) (k n m : ℕ)
    → All (λ (c : Chunk). contains c.0 seqs ≡ true) (span content n m)
    → m ≤ k
    → k < m + n
    → contains k seqs ≡ true
unfolding span
All-contained content seqs k zero m a h q = absurd (omega arith)
All-contained content seqs k (suc n) m a h q = elim (Bool-cases (k == m)) [
  | inl e ↦ let here : k ≡ m = ground arith in rw here a.0
  | inr e ↦ All-contained content seqs k n (suc m) a.1 (ground arith) (omega arith)
]

-- A number below the next expected one has arrived.
pub contained-below :
    (content : ℕ → Bytes) (seqs : List ℕ) (k : ℕ)
    → AllSeqs seqs
    → k < (arrivals fresh (deliveries content seqs)).1.next_expected
    → contains k seqs ≡ true
contained-below content seqs k h q =
    let (whole, all, _) = arrivals_prefix content seqs h in
    All-contained content seqs k _ 0 (rw whole at all) (omega arith) (omega arith)

-- If all numbers that arrive have a successor below 2 ^ 32: two sequences of arrivals of the same
-- chunks, in whatever orders and with whatever repetitions, feed the same to the pipeline.
arrivals_order_free :
    (content : ℕ → Bytes) (xs ys : List ℕ)
    → AllSeqs xs
    → AllSeqs ys
    → ((k : ℕ) → contains k xs ≡ contains k ys)
    → (arrivals fresh (deliveries content xs)).0 ≡ (arrivals fresh (deliveries content ys)).0
arrivals_order_free content xs ys hx hy same =
    let (px, _, nx) = arrivals_prefix content xs hx in
    let (py, _, ny) = arrivals_prefix content ys hy in
    let m = (arrivals fresh (deliveries content xs)).1.next_expected in
    let n = (arrivals fresh (deliveries content ys)).1.next_expected in
    let le : m ≡ n =
      ground
        (arith, same m, same n, contained-below content ys m hy, contained-below content xs n hx) in
    px ∙ ap (λ k. span content k 0) le ∙ sym py
