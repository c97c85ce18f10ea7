-- ===== src/Config/Bounds.antt =====
-- src/config.rs: what `retry_backoffs` and the client's secret can come to.
use chronicle_worker.Prelude.{
  ℕ, ◌+◌, ◌-◌, ◌*◌, ◌<◌, inl, inr, Bool-cases, List, [], ◌∷◌, arith, ◌==◌, All, ltb,
}
use chronicle_worker.Error.{WorkerError, Result, ok, err}
use chronicle_worker.Strings.{
  codes, split, trim, u64_limit, parse_u64, parse_digits, is_digit, ParseResult, number, failed,
}
use chronicle_worker.Config.{Config, delays_of, delay_of, delay, retry_backoffs}

abbrev IsBelow : ParseResult → Type 0
IsBelow (number n) = n < u64_limit
IsBelow (failed e) = Unit

parse_digits-IsBelow : (n : ℕ) (cs : List ℕ) → n < u64_limit → IsBelow (parse_digits n cs)
unfolding parse_digits
parse_digits-IsBelow n [] h = h
parse_digits-IsBelow n (c ∷ cs) h = elim (Bool-cases (is_digit c)) [
  | inl digit ↦ elim (Bool-cases (ltb (n * 10 + (c - 48)) u64_limit)) [
    | inl small ↦ rw (digit, small) (parse_digits-IsBelow (n * 10 + (c - 48)) cs (ground arith))
    | inr large ↦ rw (digit, large) tt
  ]
  | inr other ↦ rw other tt
]

parse_u64-IsBelow : (cs : List ℕ) → IsBelow (parse_u64 cs)
unfolding parse_u64
parse_u64-IsBelow [] = tt
parse_u64-IsBelow (c ∷ []) = parse_digits-IsBelow 0 (c ∷ []) (omega arith)
parse_u64-IsBelow (c ∷ d ∷ ds) = elim (Bool-cases (c == 43)) [
  | inl plus ↦ rw plus (parse_digits-IsBelow 0 (d ∷ ds) (omega arith))
  | inr other ↦ rw other (parse_digits-IsBelow 0 (c ∷ d ∷ ds) (omega arith))
]

-- A schedule of durations that fit, or an error of the configuration.
abbrev pub IsSchedule : Result (List ℕ) → Type 0
IsSchedule (ok delays) = All (λ (ms : ℕ). ms < u64_limit) delays
IsSchedule (err (WorkerError.config text)) = Unit
IsSchedule (err _) = ⊥

delay-IsSchedule :
    (parsed : ParseResult) (later : Result (List ℕ))
    → IsBelow parsed
    → IsSchedule later
    → IsSchedule (delay parsed later)
delay-IsSchedule (failed e) later h k = tt
delay-IsSchedule (number ms) (ok delays) h k = (h, k)
delay-IsSchedule (number ms) (err e) h k = k

delay_of-IsSchedule :
    (cs : List ℕ) (later : Result (List ℕ)) → IsSchedule later → IsSchedule (delay_of cs later)
delay_of-IsSchedule [] later k = k
delay_of-IsSchedule (c ∷ cs) later k =
    delay-IsSchedule (parse_u64 (c ∷ cs)) later (parse_u64-IsBelow (c ∷ cs)) k

delays_of-IsSchedule : (pieces : List (List ℕ)) → IsSchedule (delays_of pieces)
unfolding delays_of
delays_of-IsSchedule [] = tt
delays_of-IsSchedule (piece ∷ pieces) =
    delay_of-IsSchedule (trim piece) (delays_of pieces) (delays_of-IsSchedule pieces)

-- Whatever the text, `retry_backoffs` gives delays below 2 ^ 64 or an error of the configuration.
retry_backoffs-IsSchedule :
    {F32 SocketAddr : Type 0} (cfg : Config F32 SocketAddr) → IsSchedule (retry_backoffs cfg)
unfolding retry_backoffs
retry_backoffs-IsSchedule cfg = delays_of-IsSchedule (split 44 (codes cfg.retry_backoff_ms))
