-- ===== src/Decode/Frames.antt =====
-- How frames are cut: the number of samples, and when the decoder may run chunk by chunk.
use chronicle_worker.Prelude.{
  ℕ, ◌+◌, ◌/◌, ◌%◌, ◌≤◌, ◌≡◌, ◌≢◌, refl, ap, List, [], ◌∷◌, ◌++◌, arith, length, length-append,
}
use chronicle_worker.Decode.{average, from_le_bytes, decode_stereo_to_mono_i16}

-- The number of samples is that of the bytes divided by four, rounded down.
pub length-decode : (raw : List ℕ) → length (decode_stereo_to_mono_i16 raw) ≡ length raw / 4
unfolding decode_stereo_to_mono_i16
length-decode [] = omega arith
length-decode (a ∷ []) = omega arith
length-decode (a ∷ b ∷ []) = omega arith
length-decode (a ∷ b ∷ c ∷ []) = omega arith
length-decode (a ∷ b ∷ c ∷ d ∷ rest) = omega (arith, length-decode rest)

-- If the first chunk holds whole frames, then the samples of two chunks decoded one by one are the
-- samples of their concatenation.
pub decode-append :
    (xs ys : List ℕ)
    → length xs % 4 ≡ 0
    → decode_stereo_to_mono_i16 (xs ++ ys)
      ≡ decode_stereo_to_mono_i16 xs ++ decode_stereo_to_mono_i16 ys
unfolding decode_stereo_to_mono_i16
decode-append [] ys h = refl
decode-append (a ∷ []) ys h = absurd (omega arith)
decode-append (a ∷ b ∷ []) ys h = absurd (omega arith)
decode-append (a ∷ b ∷ c ∷ []) ys h = absurd (omega arith)
decode-append (a ∷ b ∷ c ∷ d ∷ rest) ys h =
    ap (◌∷◌ (average (from_le_bytes a b) (from_le_bytes c d))) (decode-append rest ys (omega arith))

-- Whenever a chunk ends inside a frame that the next chunk completes, the samples of the two
-- decoded one by one are not those of their concatenation.
decode-append_ragged :
    (xs ys : List ℕ)
    → 4 ≤ length xs % 4 + length ys % 4
    → decode_stereo_to_mono_i16 (xs ++ ys)
      ≢ decode_stereo_to_mono_i16 xs ++ decode_stereo_to_mono_i16 ys
decode-append_ragged xs ys h e = omega (
  arith,
  ap length e,
  length-append (decode_stereo_to_mono_i16 xs) (decode_stereo_to_mono_i16 ys),
  length-decode xs,
  length-decode ys,
  length-decode (xs ++ ys),
  length-append xs ys,
)
