-- ===== src/Config/Delays.antt =====
-- src/config.rs: which texts `retry_backoffs` takes for schedules.
use chronicle_worker.Prelude.{
  ℕ, ◌<◌, ◌≡◌, ◌≢◌, refl, ap, ◌∙◌, false, Option, none, some, List, [], ◌∷◌, ◌++◌, map, arith, ◌==◌,
  All, All-append,
}
use chronicle_worker.Error.{Result, ok}
use chronicle_worker.Strings.{codes, split, is_whitespace, u64_limit, parse_u64}
use chronicle_worker.Strings.Digits.{
  decimal, IsDigits, decimal-IsDigits, decimal-ne-nil, parse_u64-decimal,
}
use chronicle_worker.Strings.Csv.{join, Lacks, split-join, IsBlank, IsSolid, trim-padded}
use chronicle_worker.Config.{Config, delays_of, delay_of, delay, retry_backoffs}

-- A piece as it may be written: a delay, or nothing, between blanks.
pub record Piece : Type 0 where
  pub before : List ℕ
  pub delay : Option ℕ
  pub after : List ℕ

abbrev pub numeral_of : Option ℕ → List ℕ
numeral_of none = []
numeral_of (some ms) = decimal ms

abbrev pub text_of : Piece → List ℕ
text_of piece = piece.before ++ (numeral_of piece.delay ++ piece.after)

abbrev pub add_delay : Option ℕ → List ℕ → List ℕ
add_delay none delays = delays
add_delay (some ms) delays = ms ∷ delays

abbrev pub delays_in : List Piece → List ℕ
delays_in [] = []
delays_in (piece ∷ pieces) = add_delay piece.delay (delays_in pieces)

abbrev pub IsU64 : Option ℕ → Type 0
IsU64 none = Unit
IsU64 (some ms) = ms < u64_limit

abbrev pub IsWritten : Piece → Type 0
IsWritten piece = IsBlank piece.before × IsU64 piece.delay × IsBlank piece.after

blank-Lacks : (ws : List ℕ) → IsBlank ws → Lacks 44 ws
unfolding is_whitespace
blank-Lacks [] h = tt
blank-Lacks (c ∷ ws) h = (ground arith, blank-Lacks ws h.1)

digits-Lacks : (cs : List ℕ) → IsDigits cs → Lacks 44 cs
digits-Lacks [] h = tt
digits-Lacks (c ∷ cs) h = (ground arith, digits-Lacks cs h.1)

digits-IsSolid : (cs : List ℕ) → IsDigits cs → IsSolid cs
unfolding is_whitespace
digits-IsSolid [] h = tt
digits-IsSolid (c ∷ cs) h = (ground arith, digits-IsSolid cs h.1)

numeral_of-IsDigits : (delay : Option ℕ) → IsDigits (numeral_of delay)
numeral_of-IsDigits none = tt
numeral_of-IsDigits (some ms) = decimal-IsDigits ms

text_of-Lacks : (piece : Piece) → IsWritten piece → Lacks 44 (text_of piece)
text_of-Lacks piece (b, _, a) =
    All-append (λ (c : ℕ). (c == 44) ≡ false) piece.before (numeral_of piece.delay ++ piece.after)
      (blank-Lacks piece.before b)
      (All-append (λ (c : ℕ). (c == 44) ≡ false) (numeral_of piece.delay) piece.after
        (digits-Lacks (numeral_of piece.delay) (numeral_of-IsDigits piece.delay))
        (blank-Lacks piece.after a))

All-Lacks : (pieces : List Piece) → All IsWritten pieces → All (Lacks 44) (map text_of pieces)
All-Lacks [] h = tt
All-Lacks (piece ∷ pieces) h = (text_of-Lacks piece h.0, All-Lacks pieces h.1)

delay_of-ne-nil :
    (cs : List ℕ) (later : Result (List ℕ))
    → cs ≢ []
    → delay_of cs later ≡ delay (parse_u64 cs) later
delay_of-ne-nil [] later h = absurd (h refl)
delay_of-ne-nil (c ∷ cs) later h = refl

delay_of-numeral :
    (written : Option ℕ) (delays : List ℕ)
    → IsU64 written
    → delay_of (numeral_of written) (ok delays) ≡ ok (add_delay written delays)
delay_of-numeral none delays h = refl
delay_of-numeral (some ms) delays h =
    delay_of-ne-nil (decimal ms) (ok delays) (decimal-ne-nil ms)
    ∙ ap (λ r. delay r (ok delays)) (parse_u64-decimal ms h)

delays_of-written :
    (pieces : List Piece)
    → All IsWritten pieces
    → delays_of (map text_of pieces) ≡ ok (delays_in pieces)
unfolding delays_of
delays_of-written [] h = refl
delays_of-written (piece ∷ pieces) ((b, u, a), h) =
    ap (λ cs. delay_of cs (delays_of (map text_of pieces)))
      (trim-padded piece.before (numeral_of piece.delay) piece.after b
        (digits-IsSolid (numeral_of piece.delay) (numeral_of-IsDigits piece.delay)) a)
    ∙ ap (delay_of (numeral_of piece.delay)) (delays_of-written pieces h)
    ∙ delay_of-numeral piece.delay (delays_in pieces) u

-- A schedule is read back from its text: delays in milliseconds, each below 2 ^ 64 and written in
-- decimal, with commas between them and blanks around them, where a piece may also be missing.
pub retry_backoffs-written :
    {F32 SocketAddr : Type 0} (cfg : Config F32 SocketAddr) (first : Piece) (pieces : List Piece)
    → All IsWritten (first ∷ pieces)
    → codes cfg.retry_backoff_ms ≡ join 44 (map text_of (first ∷ pieces))
    → retry_backoffs cfg ≡ ok (delays_in (first ∷ pieces))
unfolding retry_backoffs
retry_backoffs-written cfg first pieces h e =
    ap (λ cs. delays_of (split 44 cs)) e
    ∙ ap delays_of
        (split-join 44 (text_of first) (map text_of pieces) (All-Lacks (first ∷ pieces) h))
    ∙ delays_of-written (first ∷ pieces) h
