-- ===== src/Tests/Decode.antt =====
-- The downmix of src/decode.rs on small inputs.
use chronicle_worker.Prelude.{◌≡◌, refl, List, [], ◌∷◌, arith}
use chronicle_worker.Prelude.Int.{pos, negsuc, ◌+ℤ◌, ◌≤ℤ◌, half}
use chronicle_worker.Decode.{average, decode_stereo_to_mono_i16}
use chronicle_worker.Decode.Samples.{average-mean}
use chronicle_worker.Prelude.{ℕ}

-- A frame of 1 and 3, and two bytes of another.
abbrev ragged : List ℕ
ragged = 1 ∷ 0 ∷ 3 ∷ 0 ∷ 255 ∷ 255 ∷ []

decode_two :
    decode_stereo_to_mono_i16 (1 ∷ 0 ∷ 3 ∷ 0 ∷ 254 ∷ 255 ∷ 255 ∷ 255 ∷ []) ≡ pos 2 ∷ negsuc 0 ∷ []
unfolding decode_stereo_to_mono_i16
decode_two = refl

average-mean_example :
    (average (negsuc 4) (pos 2) ≡ half (negsuc 4 +ℤ pos 2))
    × (negsuc 4 ≤ℤ average (negsuc 4) (pos 2))
    × (average (negsuc 4) (pos 2) ≤ℤ pos 2)
    × (average (pos 2) (negsuc 4) ≡ average (negsuc 4) (pos 2))
average-mean_example = average-mean (negsuc 4) (pos 2) (ground arith) (ground arith) (ground arith)
