-- ===== src/Tests/Units.antt =====
-- The unit tests that stand in src/decode.rs, src/retry.rs and src/whisper.rs: what each asserts, as a
-- statement on the definitions here, and that it holds. A duration that a test asserts within bounds
-- is given exactly, since the clock of the tests is paused and moves only with the sleeps.
use chronicle_worker.Prelude.{ℕ, ◌≡◌, refl, Option, none, some, List, [], ◌∷◌, length, get_elem?}
use chronicle_worker.Prelude.Int.{pos, negsuc}
use chronicle_worker.Decode.{decode_stereo_to_mono_i16}
use chronicle_worker.Retry.{
  RetryEntry, RetryQueue, Scheduled, queued, exhausted, panic, slept, notified, entry, schedule,
  next_ready,
}
use chronicle_worker.Whisper.Wav.{Floats, encode_wav_pcm16}

abbrev EmptyInputProducesEmptyOutput : Type 0
EmptyInputProducesEmptyOutput = decode_stereo_to_mono_i16 [] ≡ []

empty_input_holds : EmptyInputProducesEmptyOutput
unfolding decode_stereo_to_mono_i16
empty_input_holds = refl

-- L = 16384 and R = -16384.
abbrev SingleStereoFrameAveragesChannels : Type 0
SingleStereoFrameAveragesChannels =
    decode_stereo_to_mono_i16 (0x00 ∷ 0x40 ∷ 0x00 ∷ 0xC0 ∷ []) ≡ pos 0 ∷ []

single_frame_holds : SingleStereoFrameAveragesChannels
unfolding decode_stereo_to_mono_i16
single_frame_holds = refl

-- The bytes of i16::MAX.
abbrev FullScalePositiveFrameNearPeak : Type 0
FullScalePositiveFrameNearPeak =
    decode_stereo_to_mono_i16 (0xFF ∷ 0x7F ∷ 0xFF ∷ 0x7F ∷ []) ≡ pos 32767 ∷ []

full_scale_holds : FullScalePositiveFrameNearPeak
unfolding decode_stereo_to_mono_i16
full_scale_holds = refl

abbrev OddLengthInputTruncatesTrailingPartialFrame : Type 0
OddLengthInputTruncatesTrailingPartialFrame =
    length (decode_stereo_to_mono_i16 (0x00 ∷ 0x40 ∷ 0x00 ∷ 0xC0 ∷ 0xFF ∷ [])) ≡ 1

odd_length_holds : OddLengthInputTruncatesTrailingPartialFrame
unfolding decode_stereo_to_mono_i16
odd_length_holds = refl

abbrev ThreeBytesYieldsNothing : Type 0
ThreeBytesYieldsNothing = decode_stereo_to_mono_i16 (0x01 ∷ 0x02 ∷ 0x03 ∷ []) ≡ []

three_bytes_holds : ThreeBytesYieldsNothing
unfolding decode_stereo_to_mono_i16
three_bytes_holds = refl

-- The bytes of i16::MIN.
abbrev NoI16OverflowNearSaturation : Type 0
NoI16OverflowNearSaturation =
    decode_stereo_to_mono_i16 (0x00 ∷ 0x80 ∷ 0x00 ∷ 0x80 ∷ []) ≡ negsuc 32767 ∷ []

no_overflow_holds : NoI16OverflowNearSaturation
unfolding decode_stereo_to_mono_i16
no_overflow_holds = refl

-- q.schedule(session, attempt).await, and then q.next_ready().await, whose sleep ends on time: the
-- entry, the queue after it and the time.
abbrev ready_of :
    RetryQueue → Option (RetryEntry × List RetryEntry × ℕ) → Option (RetryEntry × RetryQueue × ℕ)
ready_of q none = none
ready_of q (some (e, rest, woke)) = some (e, record q { inner = rest }, woke)

abbrev awaited : Scheduled → ℕ → Option (RetryEntry × RetryQueue × ℕ)
awaited (queued e q) now = ready_of q (next_ready q.inner now (slept 0 ∷ []))
awaited exhausted now = none
awaited panic now = none

abbrev three_delays : RetryQueue
three_delays = record { inner = []; backoffs = 30000 ∷ 120000 ∷ 600000 ∷ [] }

abbrev ScheduleSpacingMatchesConfig : Type 0
ScheduleSpacingMatchesConfig =
    (awaited (schedule three_delays 9 1 0) 0 ≡ some (entry 9 1 30000, three_delays, 30000))
    × (awaited (schedule three_delays 9 2 30000) 30000
        ≡ some (entry 9 2 150000, three_delays, 150000))
    × (awaited (schedule three_delays 9 3 150000) 150000
        ≡ some (entry 9 3 750000, three_delays, 750000))
    × (schedule three_delays 9 4 750000 ≡ exhausted)

schedule_spacing_holds : ScheduleSpacingMatchesConfig
unfolding schedule next_ready
schedule_spacing_holds = (refl, refl, refl, refl)

-- After a minute an entry is scheduled, which is due 30 seconds later.
abbrev EmptyQueueWaitsForeverUntilPushed : Type 0
EmptyQueueWaitsForeverUntilPushed =
    (next_ready [] 0 [] ≡ none)
    × (next_ready [] 0 (notified (entry 9 1 90000 ∷ []) 60000 ∷ []) ≡ none)
    × (next_ready [] 0 (notified (entry 9 1 90000 ∷ []) 60000 ∷ slept 0 ∷ [])
        ≡ some (entry 9 1 90000, [], 90000))

empty_queue_holds : EmptyQueueWaitsForeverUntilPushed
unfolding next_ready
empty_queue_holds = (refl, refl, refl)

-- The bytes of RIFF and WAVE at 0 and 8, and the length for eight samples, whatever the floats are.
abbrev WavHeaderIs44BytesForNonzeroAudio : (f : Floats) → f.F32 → Type 0
WavHeaderIs44BytesForNonzeroAudio f zero_sample =
    let z = zero_sample in
    let wav = encode_wav_pcm16 f (z ∷ z ∷ z ∷ z ∷ z ∷ z ∷ z ∷ z ∷ []) 16000 in
    (get_elem? wav 0 ≡ some 82)
    × (get_elem? wav 1 ≡ some 73)
    × (get_elem? wav 2 ≡ some 70)
    × (get_elem? wav 3 ≡ some 70)
    × (get_elem? wav 8 ≡ some 87)
    × (get_elem? wav 9 ≡ some 65)
    × (get_elem? wav 10 ≡ some 86)
    × (get_elem? wav 11 ≡ some 69)
    × (length wav ≡ 60)

wav_header_holds : (f : Floats) (z : f.F32) → WavHeaderIs44BytesForNonzeroAudio f z
unfolding encode_wav_pcm16
wav_header_holds f z = (refl, refl, refl, refl, refl, refl, refl, refl, refl)
