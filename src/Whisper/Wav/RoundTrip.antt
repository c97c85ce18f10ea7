-- ===== src/Whisper/Wav/RoundTrip.antt =====
-- src/whisper.rs: what a reader of WAV files makes of the file that the encoder writes. The reader
-- is written after the format, not after the encoder.
use chronicle_worker.Prelude.{
  ℕ, zero, suc, ◌+◌, ◌*◌, ◌/◌, ◌%◌, ◌<◌, ◌≡◌, refl, ap, ◌∙◌, Bool, true, false, ◌&&◌, Option, none,
  some, List, [], ◌∷◌, ◌++◌, map, length, arith, ◌==◌, if◌then◌else◌,
}
use chronicle_worker.Prelude.Int.{ℤ, pos, negsuc, residue, signed, InRange}
use chronicle_worker.Decode.{from_le_bytes}
use chronicle_worker.Whisper.Wav.{
  Floats, quantise, sample_bytes, data_len, header, encode_wav_pcm16, u32_limit, le_bytes_4, riff,
  wave, fmt_tag, data_tag,
}

abbrev first_bytes : ℕ → List ℕ → List ℕ
first_bytes zero bytes = []
first_bytes (suc n) [] = []
first_bytes (suc n) (b ∷ bytes) = b ∷ first_bytes n bytes

abbrev past_bytes : ℕ → List ℕ → List ℕ
past_bytes zero bytes = bytes
past_bytes (suc n) [] = []
past_bytes (suc n) (b ∷ bytes) = past_bytes n bytes

-- A file cut into fields of the given widths, the last field being what is left.
abbrev fields : List ℕ → List ℕ → List (List ℕ)
fields [] bytes = bytes ∷ []
fields (n ∷ widths) bytes = first_bytes n bytes ∷ fields widths (past_bytes n bytes)

abbrev little_endian : List ℕ → ℕ
little_endian [] = 0
little_endian (b ∷ bytes) = b + 256 * little_endian bytes

abbrev same : List ℕ → List ℕ → Bool
same [] [] = true
same (x ∷ xs) (y ∷ ys) = (x == y) && same xs ys
same _ _ = false

abbrev pub samples_in : List ℕ → List ℤ
samples_in (lo ∷ hi ∷ rest) = from_le_bytes lo hi ∷ samples_in rest
samples_in _ = []

abbrev widths : List ℕ
widths = 4 ∷ 4 ∷ 4 ∷ 4 ∷ 4 ∷ 2 ∷ 2 ∷ 4 ∷ 4 ∷ 2 ∷ 2 ∷ 4 ∷ 4 ∷ []

-- The sizes agree with what follows them.
abbrev sizes_agree : ℕ → ℕ → List ℕ → Bool
sizes_agree file_size data_size bytes =
    (file_size == 36 + length bytes) && (data_size == length bytes)

-- The rate in bytes and the width of a frame are those of 16-bit mono.
abbrev rates_agree : ℕ → ℕ → ℕ → Bool
rates_agree rate byte_rate frame = (byte_rate == 2 * rate) && (frame == 2)

abbrev read_fields : List (List ℕ) → Option (ℕ × List ℤ)
read_fields
      (a ∷ file_size ∷ b ∷ c ∷ fmt_size ∷ format ∷ channels ∷ rate ∷ byte_rate ∷ frame ∷ bits ∷ d
        ∷ data_size ∷ bytes ∷ []) =
    if same a riff
      && same b wave
      && same c fmt_tag
      && same d data_tag
      && (little_endian fmt_size == 16)
      && (little_endian format == 1)
      && (little_endian channels == 1)
      && (little_endian bits == 16)
      && rates_agree (little_endian rate) (little_endian byte_rate) (little_endian frame)
      && sizes_agree (little_endian file_size) (little_endian data_size) bytes
    then some (little_endian rate, samples_in bytes)
    else none
read_fields _ = none

-- The rate and the samples of a WAV file of 16-bit mono PCM; none of another file.
abbrev pub read_wav : List ℕ → Option (ℕ × List ℤ)
read_wav bytes = read_fields (fields widths bytes)

little_endian-le_bytes_4 : (n : ℕ) → n < u32_limit → little_endian (le_bytes_4 n) ≡ n
little_endian-le_bytes_4 n h = omega arith

sample_read :
    (q : ℤ)
    → InRange 65536 q
    → from_le_bytes (residue 65536 q % 256) (residue 65536 q / 256 % 256) ≡ q
unfolding from_le_bytes residue signed
sample_read (pos n) h = ground arith
sample_read (negsuc n) h = ground arith

little_endian-wrapped :
    (m n : ℕ) → m ≡ n → n < u32_limit → little_endian (le_bytes_4 (m % u32_limit)) ≡ n
little_endian-wrapped m n e h = omega arith

fields_agree :
    (found byte_rate file_size data_size rate : ℕ) (bytes : List ℕ)
    → found ≡ rate
    → byte_rate ≡ 2 * rate
    → file_size ≡ 36 + length bytes
    → data_size ≡ length bytes
    → if◌then◌else◌ {A = Option (ℕ × List ℤ)}
        (rates_agree found byte_rate 2 && sizes_agree file_size data_size bytes)
        (some (found, samples_in bytes))
        none
      ≡ some (rate, samples_in bytes)
fields_agree found byte_rate file_size data_size rate bytes a b c d = ground arith

module _ (f : Floats) (fits : (x : f.F32) → InRange 65536 (f.as_i16 x)) where
  samples_in-sample_bytes :
      (audio : List f.F32) → samples_in (sample_bytes f audio) ≡ map (quantise f) audio
  unfolding sample_bytes
  samples_in-sample_bytes [] = refl
  samples_in-sample_bytes (s ∷ audio) =
      rw (sample_read (quantise f s) (fits _), samples_in-sample_bytes audio) refl

  length-sample_bytes : (audio : List f.F32) → length (sample_bytes f audio) ≡ 2 * length audio
  unfolding sample_bytes
  length-sample_bytes [] = refl
  length-sample_bytes (s ∷ audio) = omega (arith, length-sample_bytes audio)

  read_wav-fields :
      (audio : List f.F32) (rate : ℕ) (bytes : List ℕ)
      → length bytes ≡ 2 * length audio
      → 36 + 2 * length audio < u32_limit
      → 2 * rate < u32_limit
      → read_wav (header f audio rate ++ bytes) ≡ some (rate, samples_in bytes)
  unfolding header data_len
  read_wav-fields audio rate bytes l h k =
      fields_agree (little_endian (le_bytes_4 rate))
        (little_endian (le_bytes_4 (rate * 2 % u32_limit)))
        (little_endian (le_bytes_4 ((36 + data_len f audio) % u32_limit)))
        (little_endian (le_bytes_4 (data_len f audio))) rate bytes
        (little_endian-le_bytes_4 rate (omega arith))
        (little_endian-wrapped (rate * 2) (2 * rate) (omega arith) k)
        (little_endian-wrapped (36 + data_len f audio) (36 + length bytes) (omega arith)
          (omega arith))
        (little_endian-wrapped (length audio % u32_limit * 2) (length bytes) (omega arith)
          (omega arith))

  -- The file that the encoder writes has 44 bytes and two for each sample, and a reader of WAV files
  -- gets the rate and the samples back from it, each sample as the encoder quantised it: where
  -- the cast to i16 gives 16-bit integers, the file's size fits in 32 bits, and so does the rate
  -- in bytes.
  pub read_wav-encode_wav_pcm16 :
      (audio : List f.F32) (rate : ℕ)
      → 36 + 2 * length audio < u32_limit
      → 2 * rate < u32_limit
      → (read_wav (encode_wav_pcm16 f audio rate) ≡ some (rate, map (quantise f) audio))
        × (length (encode_wav_pcm16 f audio rate) ≡ 44 + 2 * length audio)
  unfolding encode_wav_pcm16 header
  read_wav-encode_wav_pcm16 audio rate h k = (
    read_wav-fields audio rate (sample_bytes f audio) (length-sample_bytes audio) h k
        ∙ ap (λ samples. some (rate, samples)) (samples_in-sample_bytes audio),
    omega (arith, length-sample_bytes audio),
  )
