-- ===== src/Decode.antt =====
-- src/decode.rs: the downmix of interleaved 16-bit little-endian stereo to mono samples. A byte is a
-- number below 256 and a sample an integer; the casts to i32 and i16 are written out.
pub mod Samples
pub mod Frames
use chronicle_worker.Prelude.{ℕ, ◌+◌, ◌*◌, ◌<◌, List, [], ◌∷◌}
use chronicle_worker.Prelude.Int.{ℤ, ◌+ℤ◌, half, signed, wrap}

abbrev pub u16_mod : ℕ
u16_mod = 65536

abbrev pub u32_mod : ℕ
u32_mod = 4294967296

abbrev pub IsByte : ℕ → Type 0
IsByte b = b < 256

-- i16::from_le_bytes([lo, hi])
unfoldable pub from_le_bytes : ℕ → ℕ → ℤ
unfolding signed
from_le_bytes lo hi = signed u16_mod (lo + 256 * hi)

-- ((l + r) / 2) as i16, the sum and the quotient in i32
unfoldable pub average : ℤ → ℤ → ℤ
unfolding wrap half ◌+ℤ◌
average l r = wrap u16_mod (half (wrap u32_mod (l +ℤ r)))

-- chunks_exact(4): what is left of fewer than four bytes is dropped.
unfoldable pub decode_stereo_to_mono_i16 : List ℕ → List ℤ
unfolding from_le_bytes average
decode_stereo_to_mono_i16 (a ∷ b ∷ c ∷ d ∷ rest) =
    average (from_le_bytes a b) (from_le_bytes c d) ∷ decode_stereo_to_mono_i16 rest
decode_stereo_to_mono_i16 _ = []
