-- ===== src/Whisper.antt =====
-- src/whisper.rs: the client that the pipeline library calls for transcriptions. Floats, the HTTP
-- stack and the library's own types are parameters; a text of an error is kept.
pub mod Wav
pub mod Answers
use Prim.Native.String.{◌++◌ as joined}
use chronicle_worker.Prelude.{
  ℕ, String, Bool, true, false, ◌||◌, Option, none, some, List, [], ◌∷◌, ◌++◌, leb, ltb, ◌==◌,
  length, if◌then◌else◌,
}
use chronicle_worker.Http.{Parsed, parsed, broken}
use chronicle_worker.Config.{Config}
use chronicle_worker.Api.{is_success, is_server_error}
use chronicle_worker.Whisper.Wav.{Floats, encode_wav_pcm16}

-- WhisperError and Transcription of the pipeline library.
pub data WhisperError : Type 0 where
  transient fatal : String → WhisperError

pub record Transcription (F32 : Type 0) : Type 0 where
  pub text : String
  pub confidence : F32
  pub language : Option String

pub data Answer (A : Type 0) : Type 0 where
  ok : A → Answer A
  err : WhisperError → Answer A

-- A field of the multipart form.
pub data Field : Type 0 where
  text_field : String → String → Field
  file_field : String → String → String → List ℕ → Field

-- A reqwest::Error, with what `classify` asks of it.
pub record SendError : Type 0 where
  pub is_timeout : Bool
  pub is_connect : Bool
  pub is_request : Bool
  pub text : String

pub record WhisperSegmentSnippet (F32 : Type 0) : Type 0 where
  pub avg_logprob : Option F32

pub record WhisperResp (F32 : Type 0) : Type 0 where
  pub text : String
  pub language : Option String
  pub avg_logprob : Option F32
  pub segments : List (WhisperSegmentSnippet F32)

pub data Reply (Body : Type 0) : Type 0 where
  unsent : SendError → Reply Body
  response : ℕ → Body → Reply Body

-- reqwest, serde and the Whisper server.
pub record Server (F32 : Type 0) : Type 1 where
  pub World : Type 0
  pub Body : Type 0
  pub http_client : Parsed (Unit {0})
  pub wav_mime : Parsed (Unit {0})
  pub post : String → List Field → World → Reply Body × World
  pub text : Body → String
  pub json : Body → Parsed (WhisperResp F32)
  pub show : ℕ → String
  pub status_text : ℕ → String

pub record HttpWhisperClient (F32 : Type 0) : Type 0 where
  pub endpoint : String
  pub model : String
  pub language : Option String
  pub initial_prompt : Option String
  pub temperature : F32
  pub beam_size : ℕ
  pub no_speech_threshold : F32
  pub compression_ratio_threshold : F32

unfoldable pub classify : SendError → WhisperError
classify e = if e.is_timeout || e.is_connect || e.is_request then transient e.text else fatal e.text

abbrev pub optional_field : String → Option String → List Field
optional_field name none = []
optional_field name (some value) = text_field name value ∷ []

module _ (f : Floats) (server : Server f.F32) where
  abbrev pub client_of :
      {SocketAddr : Type 0}
      → Config f.F32 SocketAddr
      → Parsed (Unit {0})
      → Answer (HttpWhisperClient f.F32)
  client_of cfg (broken e) = err (fatal (joined "http build: " e))
  client_of cfg (parsed http) = ok (record {
    endpoint = cfg.whisper_url;
    model = cfg.whisper_model;
    language = some "en";
    initial_prompt = cfg.whisper_initial_prompt;
    temperature = cfg.whisper_temperature;
    beam_size = cfg.whisper_beam_size;
    no_speech_threshold = cfg.whisper_no_speech_threshold;
    compression_ratio_threshold = cfg.whisper_compression_ratio_threshold;
  })

  unfoldable pub from_config :
      {SocketAddr : Type 0} → Config f.F32 SocketAddr → Answer (HttpWhisperClient f.F32)
  from_config cfg = client_of cfg server.http_client

  -- The values of the segments that have one.
  unfoldable pub logprobs : List (WhisperSegmentSnippet f.F32) → List f.F32
  logprobs [] = []
  logprobs (s ∷ rest) =
      let later = logprobs rest in elim s.avg_logprob [ none ↦ later | some v ↦ v ∷ later ]

  abbrev pub mean : List f.F32 → Option f.F32
  mean [] = none
  mean (v ∷ vs) = some (f.div (f.sum (v ∷ vs)) (f.of_usize (length (v ∷ vs))))

  unfoldable pub average_segment_logprob : List (WhisperSegmentSnippet f.F32) → Option f.F32
  unfolding logprobs
  average_segment_logprob segments = mean (logprobs segments)

  abbrev pub first_of : Option f.F32 → Option f.F32 → f.F32
  first_of (some v) other = v
  first_of none (some v) = v
  first_of none none = f.default_logprob

  unfoldable pub confidence_of : WhisperResp f.F32 → f.F32
  unfolding average_segment_logprob
  confidence_of resp = first_of resp.avg_logprob (average_segment_logprob resp.segments)

  unfoldable pub form : HttpWhisperClient f.F32 → List ℕ → List Field
  form c wav =
      text_field "model" c.model
      ∷ text_field "response_format" "json"
      ∷ text_field "temperature" (f.to_text c.temperature)
      ∷ text_field "beam_size" (server.show c.beam_size)
      ∷ text_field "no_speech_threshold" (f.to_text c.no_speech_threshold)
      ∷ text_field "compression_ratio_threshold" (f.to_text c.compression_ratio_threshold)
      ∷ file_field "file" "audio.wav" "audio/wav" wav
      ∷ (optional_field "language" c.language ++ optional_field "prompt" c.initial_prompt)

  abbrev pub read_json : Parsed (WhisperResp f.F32) → Answer (Transcription f.F32)
  read_json (broken e) = err (transient (joined "json: " e))
  read_json (parsed resp) =
      ok (record { text = resp.text; confidence = confidence_of resp; language = resp.language })

  abbrev pub read_reply : Reply server.Body → Answer (Transcription f.F32)
  read_reply (unsent e) = err (classify e)
  read_reply (response code body) =
      let msg = joined (server.status_text code) (joined ": " (server.text body)) in
      if is_success code
      then read_json (server.json body)
      else if is_server_error code || code == 408 || code == 429
      then err (transient msg)
      else err (fatal msg)

  abbrev pub exchange :
      HttpWhisperClient f.F32
      → List ℕ
      → Parsed (Unit {0})
      → server.World
      → Answer (Transcription f.F32) × server.World
  exchange c wav (broken e) w = (err (fatal (joined "mime: " e)), w)
  exchange c wav (parsed mime) w =
      let (reply, w') = server.post c.endpoint (form c wav) w in (read_reply reply, w')

  -- The encoding writes to memory, which does not fail.
  unfoldable pub transcribe :
      HttpWhisperClient f.F32
      → List f.F32
      → ℕ
      → server.World
      → Answer (Transcription f.F32) × server.World
  unfolding encode_wav_pcm16 form confidence_of classify
  transcribe c [] sample_rate w = (err (fatal "empty audio"), w)
  transcribe c (a ∷ audio) sample_rate w =
      exchange c (encode_wav_pcm16 f (a ∷ audio) sample_rate) server.wav_mime w
