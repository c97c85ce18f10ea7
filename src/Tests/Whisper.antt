-- ===== src/Tests/Whisper.antt =====
-- The client of src/whisper.rs with numbers for floats, and a server that is overloaded.
use chronicle_worker.Prelude.{
  ℕ, ◌+◌, ◌*◌, ◌≡◌, refl, String, none, some, List, [], ◌∷◌, map, length, arith,
}
use chronicle_worker.Prelude.Int.{InRange}
use chronicle_worker.Http.{parsed}
use chronicle_worker.Whisper.{
  Server, Reply, WhisperError, fatal, err, HttpWhisperClient, transcribe, form,
}
use chronicle_worker.Whisper.Wav.{quantise, encode_wav_pcm16}
use chronicle_worker.Whisper.Wav.RoundTrip.{read_wav, read_wav-encode_wav_pcm16}
use chronicle_worker.Tests.World.{floats}
use chronicle_worker.Whisper.Answers.{Classes, transcribe-Classes}

as_i16_fits : (x : ℕ) → InRange 65536 (floats.as_i16 x)
as_i16_fits x = (omega arith, omega arith)

abbrev audio : List ℕ
audio = 1 ∷ 300 ∷ 32767 ∷ []

read_wav-encode_wav_pcm16_example :
    (read_wav (encode_wav_pcm16 floats audio 16000) ≡ some (16000, map (quantise floats) audio))
    × (length (encode_wav_pcm16 floats audio 16000) ≡ 44 + 2 * 3)
read_wav-encode_wav_pcm16_example =
    read_wav-encode_wav_pcm16 floats as_i16_fits audio 16000 (omega arith) (omega arith)

abbrev overloaded : Server ℕ
overloaded = record {
  World = ℕ;
  Body = String;
  http_client = parsed tt;
  wav_mime = parsed tt;
  post = λ url fields w. (Reply.response 429 "later", w + 1);
  text = λ body. body;
  json =
      λ body. parsed (record { text = body; language = none; avg_logprob = none; segments = [] });
  show = λ n. "5";
  status_text = λ code. "429 Too Many Requests";
}

abbrev whisper : HttpWhisperClient ℕ
whisper = record {
  endpoint = "http://whisper";
  model = "large";
  language = some "en";
  initial_prompt = none;
  temperature = 0;
  beam_size = 5;
  no_speech_threshold = 6;
  compression_ratio_threshold = 24;
}

transcribe-Classes_example :
    (let posted =
        overloaded.post whisper.endpoint
          (form floats overloaded whisper (encode_wav_pcm16 floats audio 16000))
          0 in
      let run = transcribe floats overloaded whisper audio 16000 0 in
      (run.1 ≡ posted.1) × Classes floats overloaded posted.0 run.0)
    × (transcribe floats overloaded whisper [] 16000 0 ≡ (err (fatal "empty audio"), 0))
transcribe-Classes_example =
    transcribe-Classes floats overloaded whisper 1 (300 ∷ 32767 ∷ []) 16000 0 refl

overload_passes :
    (transcribe floats overloaded whisper audio 16000 0).0
    ≡ err (WhisperError.transient "429 Too Many Requests: later")
unfolding transcribe
overload_passes = refl
