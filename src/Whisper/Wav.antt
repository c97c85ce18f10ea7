-- ===== src/Whisper/Wav.antt =====
-- The encoder of src/whisper.rs, with the arithmetic of f32 as a parameter.
pub mod RoundTrip
use chronicle_worker.Prelude.{ℕ, ◌+◌, ◌*◌, ◌/◌, ◌%◌, String, List, [], ◌∷◌, ◌++◌, length}
use chronicle_worker.Prelude.Int.{ℤ, pos, residue}

-- `clamp_unit x` is x.clamp(-1.0, 1.0); `i16_max` is i16::MAX as f32; `as_i16` is the cast.
pub record Floats : Type 1 where
  pub F32 : Type 0
  pub clamp_unit : F32 → F32
  pub mul : F32 → F32 → F32
  pub div : F32 → F32 → F32
  pub sum : List F32 → F32
  pub of_usize : ℕ → F32
  pub i16_max : F32
  pub as_i16 : F32 → ℤ
  pub default_logprob : F32
  pub to_text : F32 → String

abbrev pub wav_bytes_per_sample : ℕ
wav_bytes_per_sample = 2

abbrev pub u32_limit : ℕ
u32_limit = 4294967296

-- u32::to_le_bytes, u16::to_le_bytes
abbrev pub le_bytes_4 : ℕ → List ℕ
le_bytes_4 n = n % 256 ∷ (n / 256 % 256) ∷ (n / 65536 % 256) ∷ (n / 16777216 % 256) ∷ []

abbrev pub le_bytes_2 : ℕ → List ℕ
le_bytes_2 n = n % 256 ∷ (n / 256 % 256) ∷ []

-- The bytes of "RIFF", "WAVE", "fmt " and "data".
abbrev pub riff : List ℕ
riff = 82 ∷ 73 ∷ 70 ∷ 70 ∷ []

abbrev pub wave : List ℕ
wave = 87 ∷ 65 ∷ 86 ∷ 69 ∷ []

abbrev pub fmt_tag : List ℕ
fmt_tag = 102 ∷ 109 ∷ 116 ∷ 32 ∷ []

abbrev pub data_tag : List ℕ
data_tag = 100 ∷ 97 ∷ 116 ∷ 97 ∷ []

module _ (f : Floats) where
  -- (s.clamp(-1.0, 1.0) * i16::MAX as f32) as i16
  abbrev pub quantise : f.F32 → ℤ
  quantise s = f.as_i16 (f.mul (f.clamp_unit s) f.i16_max)

  -- The loop over the samples; i16::to_le_bytes are the bytes of the residue.
  unfoldable pub sample_bytes : List f.F32 → List ℕ
  unfolding residue
  sample_bytes [] = []
  sample_bytes (s ∷ rest) = le_bytes_2 (residue 65536 (quantise s)) ++ sample_bytes rest

  -- The lengths as they are computed in u32, where a release build wraps.
  unfoldable pub data_len : List f.F32 → ℕ
  data_len audio = length audio % u32_limit * wav_bytes_per_sample % u32_limit

  unfoldable pub header : List f.F32 → ℕ → List ℕ
  unfolding data_len
  header audio sample_rate =
      riff
      ++ (le_bytes_4 ((36 + data_len audio) % u32_limit)
          ++ (wave
              ++ (fmt_tag
                  ++ (le_bytes_4 16
                      ++ (le_bytes_2 1
                          ++ (le_bytes_2 1
                              ++ (le_bytes_4 sample_rate
                                  ++ (le_bytes_4 (sample_rate * wav_bytes_per_sample % u32_limit)
                                      ++ (le_bytes_2 wav_bytes_per_sample
                                          ++ (le_bytes_2 16
                                              ++ (data_tag ++ le_bytes_4 (data_len audio))))))))))))

  unfoldable pub encode_wav_pcm16 : List f.F32 → ℕ → List ℕ
  unfolding header sample_bytes
  encode_wav_pcm16 audio sample_rate = header audio sample_rate ++ sample_bytes audio
