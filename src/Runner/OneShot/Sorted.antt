-- ===== src/Runner/OneShot/Sorted.antt =====
-- src/session_runner.rs: the order in which the one-shot runner downloads the chunks of a speaker.
use mathlib.Core.List.{Permᴰ}
use chronicle_worker.Prelude.{
  ℕ, zero, suc, ◌≡◌, refl, ap, ◌∙◌, inl, inr, Bool-cases, List, [], ◌∷◌, map, arith, leb,
  if◌then◌else◌,
}
use chronicle_worker.Http.{ChunkInfo}
use chronicle_worker.Runner.OneShot.{insert_by_seq, sort_by_seq}

abbrev pub seqs_of : List ChunkInfo → List ℕ
seqs_of = map (λ c. c.seq)

-- m, …, m + n - 1
abbrev pub numbers : ℕ → ℕ → List ℕ
numbers zero m = []
numbers (suc n) m = m ∷ numbers n (suc m)

unfoldable insert_number : ℕ → List ℕ → List ℕ
insert_number k [] = k ∷ []
insert_number k (j ∷ js) =
    let later = insert_number k js in if leb k j then k ∷ j ∷ js else j ∷ later

unfoldable sort_numbers : List ℕ → List ℕ
unfolding insert_number
sort_numbers [] = []
sort_numbers (k ∷ ks) = insert_number k (sort_numbers ks)

seqs_of-insert_by_seq :
    (c : ChunkInfo) (ds : List ChunkInfo)
    → seqs_of (insert_by_seq c ds) ≡ insert_number c.seq (seqs_of ds)
unfolding insert_by_seq insert_number
seqs_of-insert_by_seq c [] = refl
seqs_of-insert_by_seq c (d ∷ ds) = elim (Bool-cases (leb c.seq d.seq)) [
  | inl e ↦ rw e refl
  | inr e ↦ rw e (ap (◌∷◌ d.seq) (seqs_of-insert_by_seq c ds))
]

seqs_of-sort_by_seq : (cs : List ChunkInfo) → seqs_of (sort_by_seq cs) ≡ sort_numbers (seqs_of cs)
unfolding sort_by_seq sort_numbers
seqs_of-sort_by_seq [] = refl
seqs_of-sort_by_seq (c ∷ cs) =
    seqs_of-insert_by_seq c (sort_by_seq cs) ∙ ap (insert_number c.seq) (seqs_of-sort_by_seq cs)

insert_number-swap :
    (j k : ℕ) (js : List ℕ)
    → insert_number j (insert_number k js) ≡ insert_number k (insert_number j js)
unfolding insert_number
insert_number-swap j k [] = ground arith
insert_number-swap j k (i ∷ js) = ground (arith, insert_number-swap j k js)

sort_numbers-eq : {ks js : List ℕ} → Permᴰ ks js → sort_numbers ks ≡ sort_numbers js
unfolding sort_numbers
sort_numbers-eq Permᴰ.nil = refl
sort_numbers-eq (Permᴰ.cons {a} {b} {l₁} {l₂} e d) = rw (e, sort_numbers-eq d) refl
sort_numbers-eq (Permᴰ.swap {a} {b} {a'} {b'} {l} e e') =
    rw (e, e') (insert_number-swap b' a' (sort_numbers l))
sort_numbers-eq (Permᴰ.trans d d') = sort_numbers-eq d ∙ sort_numbers-eq d'

insert_number-first : (m n : ℕ) → insert_number m (numbers n (suc m)) ≡ m ∷ numbers n (suc m)
unfolding insert_number
insert_number-first m zero = refl
insert_number-first m (suc n) = ground arith

sort_numbers-numbers : (n m : ℕ) → sort_numbers (numbers n m) ≡ numbers n m
unfolding sort_numbers
sort_numbers-numbers zero m = refl
sort_numbers-numbers (suc n) m =
    ap (insert_number m) (sort_numbers-numbers n (suc m)) ∙ insert_number-first m n

-- Chunks 0 to n - 1, listed in any order, are sorted into theirs.
pub sort_by_seq-numbers :
    (n : ℕ) (listed : List ChunkInfo)
    → Permᴰ (seqs_of listed) (numbers n 0)
    → seqs_of (sort_by_seq listed) ≡ numbers n 0
sort_by_seq-numbers n listed d =
    seqs_of-sort_by_seq listed ∙ sort_numbers-eq d ∙ sort_numbers-numbers n 0
