-- ===== src/Runner/Reorder/Buffer.antt =====
-- Laws of the buffer and of the set of processed numbers.
use chronicle_worker.Prelude.{
  ℕ, zero, suc, ◌≤◌, ◌<◌, ◌≡◌, refl, List, [], ◌∷◌, none, some, arith, ltb, ◌==◌, length,
  if◌then◌else◌,
}
use chronicle_worker.Sets.{contains, add}
use chronicle_worker.Runner.Reorder.{Bytes, Pending, lookup, insert, without}

pub lookup-insert :
    (seq n : ℕ) (bytes : Bytes) (buf : Pending)
    → lookup n (insert seq bytes buf) ≡ (if seq == n then some bytes else lookup n buf)
unfolding lookup insert
lookup-insert seq n bytes [] = refl
lookup-insert seq n bytes ((other, old) ∷ buf) = ground (arith, lookup-insert seq n bytes buf)

pub lookup-without :
    (k j : ℕ) (m : Pending) → lookup j (without k m) ≡ (if k == j then none else lookup j m)
unfolding lookup without
lookup-without k j [] = ground arith
lookup-without k j ((i, w) ∷ m) = ground (arith, lookup-without k j m)

length-without-le : (k : ℕ) (m : Pending) → length (without k m) ≤ length m
unfolding without
length-without-le k [] = omega arith
length-without-le k ((j, v) ∷ m) = ground (arith, length-without-le k m)

-- Taking an entry out makes the buffer shorter.
pub length-without :
    (k : ℕ) (m : Pending) (v : Bytes) → lookup k m ≡ some v → length (without k m) < length m
unfolding lookup without
length-without k [] v h = cc
length-without k ((j, w) ∷ m) v h = ground (arith, length-without-le k m, length-without k m v)

-- n - 1, …, 1, 0
unfoldable pub countdown : ℕ → List ℕ
countdown zero = []
countdown (suc n) = n ∷ countdown n

pub contains-countdown : (k n : ℕ) → contains k (countdown n) ≡ ltb k n
unfolding contains countdown
contains-countdown k zero = ground arith
contains-countdown k (suc n) = ground (arith, contains-countdown k n)

pub add-countdown : (n : ℕ) → add n (countdown n) ≡ countdown (suc n)
unfolding add countdown
add-countdown n = rw contains-countdown (ground arith)
