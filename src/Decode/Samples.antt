-- ===== src/Decode/Samples.antt =====
-- What one decoded sample is: the mean of its two channels, with no wrap-around on the way.
use chronicle_worker.Prelude.{ℕ, ◌≡◌, List, [], ◌∷◌, arith, All}
use chronicle_worker.Prelude.Int.{ℤ, ◌+ℤ◌, ◌≤ℤ◌, half, InRange}
use chronicle_worker.Decode.{u16_mod, IsByte, from_le_bytes, average, decode_stereo_to_mono_i16}

pub from_le_bytes-InRange :
    (lo hi : ℕ) → IsByte lo → IsByte hi → InRange u16_mod (from_le_bytes lo hi)
unfolding from_le_bytes
from_le_bytes-InRange lo hi p q = ground arith

average-InRange : (l r : ℤ) → InRange u16_mod l → InRange u16_mod r → InRange u16_mod (average l r)
unfolding average
average-InRange l r p q = ground arith

-- For two 16-bit samples, the smaller one first, `average` is their sum divided by two and rounded
-- towards zero, lies between them, and does not depend on which channel is which.
pub average-mean :
    (l r : ℤ)
    → InRange u16_mod l
    → InRange u16_mod r
    → l ≤ℤ r
    → (average l r ≡ half (l +ℤ r))
      × (l ≤ℤ average l r)
      × (average l r ≤ℤ r)
      × (average r l ≡ average l r)
unfolding average
average-mean l r p q h = (ground arith, ground arith, ground arith, ground arith)

-- If all of the raw data are bytes, then every sample decoded from them is a 16-bit sample.
decode-InRange :
    (raw : List ℕ) → All IsByte raw → All (InRange u16_mod) (decode_stereo_to_mono_i16 raw)
unfolding decode_stereo_to_mono_i16
decode-InRange [] h = tt
decode-InRange (a ∷ []) h = tt
decode-InRange (a ∷ b ∷ []) h = tt
decode-InRange (a ∷ b ∷ c ∷ []) h = tt
decode-InRange (a ∷ b ∷ c ∷ d ∷ rest) (ha, (hb, (hc, (hd, hr)))) =
    let l = from_le_bytes-InRange a b ha hb in
    let r = from_le_bytes-InRange c d hc hd in (average-InRange _ _ l r, decode-InRange rest hr)
