-- ===== src/Strings.antt =====
-- What the worker uses of Rust's `str`, on the code points of a text.
pub mod Digits
pub mod Csv
pub mod Search
use Prim.Native.Char.{code}
use chronicle_worker.Prelude.{
  ℕ, ◌+◌, ◌-◌, ◌*◌, String, Bool, true, false, ◌&&◌, ◌||◌, List, [], ◌∷◌, leb, ltb, ◌==◌,
  if◌then◌else◌,
}

abbrev pub codes : String → List ℕ
codes String.[] = []
codes (String.◌∷◌ c s) = code c ∷ codes s

-- str::split(char): a text without the separator is one piece.
abbrev pub extend : ℕ → List (List ℕ) → List (List ℕ)
extend c [] = (c ∷ []) ∷ []
extend c (piece ∷ pieces) = (c ∷ piece) ∷ pieces

unfoldable pub split : ℕ → List ℕ → List (List ℕ)
split sep [] = [] ∷ []
split sep (c ∷ cs) = let rest = split sep cs in if c == sep then [] ∷ rest else extend c rest

abbrev within : ℕ → ℕ → ℕ → Bool
within lo hi c = leb lo c && leb c hi

-- char::is_whitespace, the property White_Space of Unicode
unfoldable pub is_whitespace : ℕ → Bool
is_whitespace c =
    within 9 13 c
    || c == 32
    || c == 133
    || c == 160
    || c == 5760
    || within 8192 8202 c
    || within 8232 8233 c
    || c == 8239
    || c == 8287
    || c == 12288

unfoldable pub trim_start : List ℕ → List ℕ
trim_start [] = []
trim_start (c ∷ cs) = let rest = trim_start cs in if is_whitespace c then rest else c ∷ cs

abbrev pub keep_before : ℕ → List ℕ → List ℕ
keep_before c [] = if is_whitespace c then [] else c ∷ []
keep_before c (d ∷ ds) = c ∷ d ∷ ds

unfoldable pub trim_end : List ℕ → List ℕ
trim_end [] = []
trim_end (c ∷ cs) = keep_before c (trim_end cs)

unfoldable pub trim : List ℕ → List ℕ
unfolding trim_start trim_end
trim cs = trim_end (trim_start cs)

abbrev pub u64_limit : ℕ
u64_limit = 18446744073709551616

-- The errors of str::parse::<u64> and their texts. An empty text is one of them.
pub data ParseIntError : Type 0 where
  empty invalid_digit pos_overflow : ParseIntError

unfoldable pub message : ParseIntError → String
message empty = "cannot parse integer from empty string"
message invalid_digit = "invalid digit found in string"
message pos_overflow = "number too large to fit in target type"

pub data ParseResult : Type 0 where
  number : ℕ → ParseResult
  failed : ParseIntError → ParseResult

abbrev pub is_digit : ℕ → Bool
is_digit c = leb 48 c && leb c 57

-- The loop of `from_str_radix(…, 10)`.
unfoldable pub parse_digits : ℕ → List ℕ → ParseResult
parse_digits n [] = number n
parse_digits n (c ∷ cs) =
    let next = n * 10 + (c - 48) in
    let rest = parse_digits next cs in
    if is_digit c
    then if ltb next u64_limit then rest else failed pos_overflow
    else failed invalid_digit

-- A `+` in front of something is passed over.
unfoldable pub parse_u64 : List ℕ → ParseResult
unfolding parse_digits
parse_u64 [] = failed empty
parse_u64 (c ∷ []) = parse_digits 0 (c ∷ [])
parse_u64 (c ∷ d ∷ ds) =
    let signed = parse_digits 0 (d ∷ ds) in if c == 43 then signed else parse_digits 0 (c ∷ d ∷ ds)
