-- ===== src/Config.antt =====
-- src/config.rs: the configuration and what is computed from it. clap fills the fields from the
-- environment; floats and socket addresses are types of their own.
pub mod Delays
pub mod Bounds
use chronicle_worker.Prelude.{ℕ, ◌*◌, String, Bool, true, false, Option, none, some, List, [], ◌∷◌}
use Prim.Native.String.{◌++◌}
use chronicle_worker.Error.{WorkerError, Result, ok, err}
use chronicle_worker.Strings.{codes, split, trim, ParseResult, number, failed, message, parse_u64}

abbrev pub capture_sample_rate : ℕ
capture_sample_rate = 48000

pub record Config (F32 SocketAddr : Type 0) : Type 0 where
  pub data_api_url : String
  pub shared_secret : Option String
  pub legacy_shared_secret : Option String
  pub poll_interval_secs : ℕ
  pub whisper_url : String
  pub whisper_model : String
  pub whisper_initial_prompt : Option String
  pub whisper_temperature : F32
  pub whisper_beam_size : ℕ
  pub whisper_no_speech_threshold : F32
  pub whisper_compression_ratio_threshold : F32
  pub vad_model_path : String
  pub vad_threshold : F32
  pub vad_min_speech_ms : ℕ
  pub vad_min_silence_ms : ℕ
  pub vad_pad_ms : ℕ
  pub filter_min_confidence : F32
  pub filter_max_cps : F32
  pub filter_min_alpha : ℕ
  pub admin_enabled : Bool
  pub admin_bind_addr : SocketAddr
  pub retry_backoff_ms : String
  pub log_level : String
  pub scene_llm_url : Option String
  pub scene_llm_model : String
  pub gm_speaker_id : Option String

-- The configuration when nothing is set in the environment: the default values. `float` reads the
-- literals of f32, and `addr` a socket address.
abbrev pub default_config :
    {F32 SocketAddr : Type 0} → (String → F32) → (String → SocketAddr) → Config F32 SocketAddr
default_config float addr = record {
  data_api_url = "http://127.0.0.1:8001";
  shared_secret = none;
  legacy_shared_secret = none;
  poll_interval_secs = 10;
  whisper_url = "http://localhost:8300/v1/audio/transcriptions";
  whisper_model = "Systran/faster-whisper-large-v3";
  whisper_initial_prompt = none;
  whisper_temperature = float "0.0";
  whisper_beam_size = 5;
  whisper_no_speech_threshold = float "0.6";
  whisper_compression_ratio_threshold = float "2.4";
  vad_model_path = "models/silero_vad_v6.onnx";
  vad_threshold = float "0.5";
  vad_min_speech_ms = 250;
  vad_min_silence_ms = 800;
  vad_pad_ms = 100;
  filter_min_confidence = float "-1.5";
  filter_max_cps = float "35.0";
  filter_min_alpha = 2;
  admin_enabled = false;
  admin_bind_addr = addr "127.0.0.1:8020";
  retry_backoff_ms = "30000,120000,600000";
  log_level = "chronicle_worker=info,chronicle_pipeline=info";
  scene_llm_url = none;
  scene_llm_model = "qwen2.5:7b";
  gm_speaker_id = none;
}

-- .map(str::trim).filter(…).map(parse).collect(): the first error ends it.
abbrev pub delay : ParseResult → Result (List ℕ) → Result (List ℕ)
delay (failed e) later = err (WorkerError.config ("RETRY_BACKOFF_MS: " ++ message e))
delay (number ms) (ok delays) = ok (ms ∷ delays)
delay (number ms) (err e) = err e

abbrev pub delay_of : List ℕ → Result (List ℕ) → Result (List ℕ)
delay_of [] later = later
delay_of (c ∷ cs) later = delay (parse_u64 (c ∷ cs)) later

unfoldable pub delays_of : List (List ℕ) → Result (List ℕ)
unfolding trim parse_u64 message
delays_of [] = ok []
delays_of (piece ∷ pieces) = delay_of (trim piece) (delays_of pieces)

abbrev pub secret_or : Option String → Option String → Result String
secret_or (some secret) legacy = ok secret
secret_or none (some secret) = ok secret
secret_or none none =
    err (WorkerError.config "SHARED_SECRET (or DATA_API_SHARED_SECRET) must be set")

module _ {F32 SocketAddr : Type 0} where
  unfoldable pub resolved_shared_secret : Config F32 SocketAddr → Result String
  resolved_shared_secret cfg = secret_or cfg.shared_secret cfg.legacy_shared_secret

  -- In milliseconds.
  unfoldable pub retry_backoffs : Config F32 SocketAddr → Result (List ℕ)
  unfolding split delays_of
  retry_backoffs cfg = delays_of (split 44 (codes cfg.retry_backoff_ms))

  -- In milliseconds.
  unfoldable pub poll_interval : Config F32 SocketAddr → ℕ
  poll_interval cfg = cfg.poll_interval_secs * 1000
