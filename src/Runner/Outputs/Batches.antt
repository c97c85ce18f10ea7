-- ===== src/Runner/Outputs/Batches.antt =====
-- The cutting of the rows into batches of five, and the segments that are new.
use mathlib.Core.List.{flatten}
use chronicle_worker.Ids.{Uuid}
use chronicle_worker.Sets.{contains}
use chronicle_worker.Pipeline.{Foreign, Segment}
use chronicle_worker.Prelude.{
  Bool, true, false, Bool-cases, inl, inr, ℕ, zero, suc, ◌+◌, ◌/◌, ◌≤◌, ◌≡◌, refl, ap, List, [],
  ◌∷◌, arith, length, All,
}
use chronicle_worker.Runner.Outputs.{chunks_of_5, new_segments}

-- The batches are the rows in order, each batch has from one to five of them, and there are as many
-- batches as fives in the rows, rounded up.
pub chunks_of_5-flatten :
    {A : Type 0} (xs : List A)
    → (flatten (chunks_of_5 xs) ≡ xs)
      × All (λ b. (1 ≤ length b) × (length b ≤ 5)) (chunks_of_5 xs)
      × (length (chunks_of_5 xs) ≡ (length xs + 4) / 5)
unfolding chunks_of_5 flatten
chunks_of_5-flatten [] = (refl, tt, omega arith)
chunks_of_5-flatten (a ∷ []) = (refl, (omega arith, tt), omega arith)
chunks_of_5-flatten (a ∷ b ∷ []) = (refl, (omega arith, tt), omega arith)
chunks_of_5-flatten (a ∷ b ∷ c ∷ []) = (refl, (omega arith, tt), omega arith)
chunks_of_5-flatten (a ∷ b ∷ c ∷ d ∷ []) = (refl, (omega arith, tt), omega arith)
chunks_of_5-flatten (a ∷ b ∷ c ∷ d ∷ e ∷ rest) =
    let (whole, sizes, count) = chunks_of_5-flatten rest in
    (
      ap (λ l. a ∷ b ∷ c ∷ d ∷ e ∷ l) whole,
      ((omega arith, omega arith), sizes),
      omega (arith, count),
    )

-- The first `n` of a list, and the others.
abbrev leading {ℓ} : {A : Type ℓ} → ℕ → List A → List A
leading zero xs = []
leading (suc n) [] = []
leading (suc n) (x ∷ xs) = x ∷ leading n xs

abbrev trailing {ℓ} : {A : Type ℓ} → ℕ → List A → List A
trailing zero xs = xs
trailing (suc n) [] = []
trailing (suc n) (x ∷ xs) = trailing n xs

-- Five at a time, at most so many times.
abbrev fives_within {ℓ} : {A : Type ℓ} → ℕ → List A → List (List A)
fives_within zero xs = []
fives_within (suc n) [] = []
fives_within (suc n) (x ∷ xs) = leading 5 (x ∷ xs) ∷ fives_within n (trailing 5 (x ∷ xs))

-- Five at a time, until none is left.
abbrev pub fives {ℓ} : {A : Type ℓ} → List A → List (List A)
fives xs = fives_within (length xs) xs

chunks_of_5-within :
    {A : Type 0} (n : ℕ) (xs : List A) → length xs ≤ n → chunks_of_5 xs ≡ fives_within n xs
unfolding chunks_of_5
chunks_of_5-within zero [] h = refl
chunks_of_5-within zero (x ∷ xs) h = absurd (omega arith)
chunks_of_5-within (suc n) [] h = refl
chunks_of_5-within (suc zero) (a ∷ []) h = refl
chunks_of_5-within (suc (suc n)) (a ∷ []) h = refl
chunks_of_5-within (suc zero) (a ∷ b ∷ []) h = refl
chunks_of_5-within (suc (suc n)) (a ∷ b ∷ []) h = refl
chunks_of_5-within (suc zero) (a ∷ b ∷ c ∷ []) h = refl
chunks_of_5-within (suc (suc n)) (a ∷ b ∷ c ∷ []) h = refl
chunks_of_5-within (suc zero) (a ∷ b ∷ c ∷ d ∷ []) h = refl
chunks_of_5-within (suc (suc n)) (a ∷ b ∷ c ∷ d ∷ []) h = refl
chunks_of_5-within (suc n) (a ∷ b ∷ c ∷ d ∷ e ∷ rest) h =
    ap (◌∷◌ (a ∷ b ∷ c ∷ d ∷ e ∷ [])) (chunks_of_5-within n rest (omega (arith, h)))

pub chunks_of_5-fives : {A : Type 0} (xs : List A) → chunks_of_5 xs ≡ fives xs
chunks_of_5-fives xs = chunks_of_5-within (length xs) xs (omega arith)

module _ {t : Foreign} where
  abbrev unless_known : Bool → Segment t → List (Segment t) → List (Segment t)
  unless_known true s later = later
  unless_known false s later = s ∷ later

  -- The segments whose ids are not among these.
  abbrev pub unposted : List Uuid → List (Segment t) → List (Segment t)
  unposted posted [] = []
  unposted posted (s ∷ segs) = unless_known (contains s.id posted) s (unposted posted segs)

  pub new_segments-unposted :
      (posted : List Uuid) (segs : List (Segment t))
      → new_segments posted segs ≡ unposted posted segs
  unfolding new_segments
  new_segments-unposted posted [] = refl
  new_segments-unposted posted (s ∷ segs) =
      let later = new_segments-unposted posted segs in
      elim (Bool-cases (contains s.id posted)) [
        | inl e ↦ rw e later
        | inr e ↦ rw e (ap (◌∷◌ s) later)
      ]
