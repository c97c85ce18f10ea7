-- ===== src/Strings/Digits.antt =====
-- Decimal numerals, and their parsing.
use chronicle_worker.Prelude.{
  ℕ, zero, suc, ◌+◌, ◌-◌, ◌*◌, ◌/◌, ◌%◌, ◌≤◌, ◌<◌, ◌≡◌, ◌≢◌, refl, ap, sym, ◌∙◌, inl, inr,
  Bool-cases, List, [], ◌∷◌, ◌++◌, arith, ltb, All, All-append, if◌then◌else◌,
}
use mathlib.Core.List.{append_assoc, append-nil}
use chronicle_worker.Strings.{u64_limit, number, parse_digits, parse_u64}

-- The decimal numeral of a number below 10 ^ fuel, without leading zeros.
unfoldable pub numeral : ℕ → ℕ → List ℕ
numeral zero n = []
numeral (suc fuel) n =
    let rest = numeral fuel (n / 10) in
    if ltb n 10 then (48 + n) ∷ [] else rest ++ (48 + n % 10) ∷ []

-- A u64 has at most 20 digits.
abbrev pub decimal : ℕ → List ℕ
decimal n = numeral 20 n

abbrev pub IsDigits : List ℕ → Type 0
IsDigits = All (λ (c : ℕ). (48 ≤ c) × (c ≤ 57))

numeral-IsDigits : (fuel n : ℕ) → IsDigits (numeral fuel n)
unfolding numeral
numeral-IsDigits zero n = tt
numeral-IsDigits (suc fuel) n = elim (Bool-cases (ltb n 10)) [
  | inl small ↦ rw (small, All) ((ground arith, ground arith), tt)
  | inr large ↦
      rw (large, All)
        (All-append (λ (c : ℕ). (48 ≤ c) × (c ≤ 57)) (numeral fuel (n / 10)) ((48 + n % 10) ∷ [])
          (numeral-IsDigits fuel (n / 10)) ((omega arith, omega arith), tt))
]

abbrev pub power_10 : ℕ → ℕ
power_10 zero = 1
power_10 (suc n) = 10 * power_10 n

parse_digits-step :
    (n d : ℕ) (rest : List ℕ)
    → d < 10
    → n * 10 + d < u64_limit
    → parse_digits n ((48 + d) ∷ rest) ≡ parse_digits (n * 10 + d) rest
unfolding parse_digits
parse_digits-step n d rest small h =
    let same : 48 + d - 48 ≡ d = omega arith in rw same (ground arith)

-- What parsing goes on from, once a numeral has been read.
parse_digits-numeral :
    (fuel n : ℕ) (rest : List ℕ)
    → n < u64_limit
    → n < power_10 fuel
    → parse_digits 0 (numeral fuel n ++ rest) ≡ parse_digits n rest
unfolding numeral
parse_digits-numeral zero n rest h p = ap (λ k. parse_digits k rest) (omega arith)
parse_digits-numeral (suc fuel) n rest h p = elim (Bool-cases (ltb n 10)) [
  | inl small ↦ rw small (
      parse_digits-step 0 n rest (ground arith) (omega arith)
      ∙ ap (λ k. parse_digits k rest) (omega arith))
  | inr large ↦
      let whole : n / 10 * 10 + n % 10 ≡ n = omega arith in
      rw (large, append_assoc)
        (parse_digits-numeral fuel (n / 10) ((48 + n % 10) ∷ rest) (omega arith) (omega arith)
          ∙ parse_digits-step (n / 10) (n % 10) rest (omega arith) (omega arith)
          ∙ ap (λ k. parse_digits k rest) whole)
]

concat-ne-nil : (cs : List ℕ) (c : ℕ) → cs ++ c ∷ [] ≢ []
concat-ne-nil [] c e = cc
concat-ne-nil (d ∷ ds) c e = cc

pub decimal-ne-nil : (n : ℕ) → decimal n ≢ []
unfolding numeral
decimal-ne-nil n = elim (Bool-cases (ltb n 10)) [
  | inl small ↦ rw small (λ e. cc)
  | inr large ↦ rw large (concat-ne-nil (numeral 19 (n / 10)) (48 + n % 10))
]

pub decimal-IsDigits : (n : ℕ) → IsDigits (decimal n)
decimal-IsDigits n = numeral-IsDigits 20 n

-- A text that begins with a digit is read as its digits.
parse_u64-digits : (cs : List ℕ) → cs ≢ [] → IsDigits cs → parse_u64 cs ≡ parse_digits 0 cs
unfolding parse_u64
parse_u64-digits [] h d = absurd (h refl)
parse_u64-digits (c ∷ []) h d = refl
parse_u64-digits (c ∷ e ∷ es) h d = ground arith

-- Every u64 is read back from its numeral.
pub parse_u64-decimal : (n : ℕ) → n < u64_limit → parse_u64 (decimal n) ≡ number n
unfolding parse_digits
parse_u64-decimal n h =
    parse_u64-digits (decimal n) (decimal-ne-nil n) (decimal-IsDigits n)
    ∙ ap (parse_digits 0) (sym (append-nil (decimal n)))
    ∙ parse_digits-numeral 20 n [] h (omega arith)
