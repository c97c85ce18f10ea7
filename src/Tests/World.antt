-- ===== src/Tests/World.antt =====
-- Stand-ins for the code that the worker calls: a data-api whose state is a number, and a pipeline
-- that remembers the chunks it was given.
use chronicle_worker.Prelude.{ℕ, ◌/◌, ◌%◌, String, none, some, List, [], ◌∷◌}
use chronicle_worker.Prelude.Int.{ℤ, pos}
use chronicle_worker.Ids.{Uuid}
use chronicle_worker.Http.{Host, Request, response, parsed, Shape}
use chronicle_worker.Api.{DataApiClient, Io}
use chronicle_worker.Pipeline.{Foreign, Library, AudioChunk, Segment, PipelineOutput}
use chronicle_worker.Config.{default_config}
use chronicle_worker.Whisper.{Server, Reply}
use chronicle_worker.Whisper.Wav.{Floats}
use chronicle_worker.Runner.Wire.{CreateInputWire}
use chronicle_worker.Runner.Outputs.{Posting}

-- Each request is answered with a status code that depends on the request and on the state.
abbrev pub answering : {Row : Type 0} → (Request Row → ℕ → ℕ) → (ℕ → ℕ) → Host Row
answering code later = record {
  World = ℕ;
  Body = List ℕ;
  Value = Unit;
  send = λ request w. (response (code request w) (1 ∷ 0 ∷ 3 ∷ 0 ∷ []), later w);
  text = λ body. "";
  bytes = λ body. parsed body;
  show = λ n. "";
  json_token = λ body. parsed "token";
  json_sessions = λ body. parsed (record { id = 7; status = "uploaded" } ∷ []);
  json_session = λ body. parsed (record { id = 7; status = "uploaded"; started_at = none });
  json_participants = λ body. parsed [];
  json_chunks = λ body. parsed [];
  json_value = λ body. parsed tt;
  shape = λ v. Shape.array;
  rows_of = λ v. parsed [];
  empty_array = tt;
}

abbrev pub foreign : Foreign
foreign = record { F32 = ℕ; F64 = ℕ; Value = String; MetaTalk = String; Timestamp = ℤ }

abbrev pub Row : Type 0
Row = CreateInputWire foreign

abbrev pub a_segment : Uuid → Segment foreign
a_segment id = record {
  id = id;
  start_ms = ℤ.pos 0;
  end_ms = ℤ.pos 10;
  pseudo_id = "ann";
  text = "hello";
  original = "hello";
  confidence = 1;
  language = none;
  meta_talk = none;
}

abbrev pub output : PipelineOutput foreign
output = record {
  segments = a_segment 1 ∷ a_segment 2 ∷ [];
  beats = [];
  scenes =
      record { id = 3; start_ms = ℤ.pos 0; end_ms = ℤ.pos 10; label = "inn"; confidence = 1 } ∷ [];
}

-- Floats are natural numbers here.
abbrev pub floats : Floats
floats = record {
  F32 = ℕ;
  clamp_unit = λ x. x;
  mul = λ x y. x;
  div = λ x y. x / y;
  sum = λ xs. 0;
  of_usize = λ n. n;
  i16_max = 32767;
  as_i16 = λ n. pos (n % 32768);
  default_logprob = 0;
  to_text = λ x. "";
}

-- A transcription server that hears nothing.
abbrev silent : Server ℕ
silent = record {
  World = Unit;
  Body = Unit;
  http_client = parsed tt;
  wav_mime = parsed tt;
  post = λ url fields w. (Reply.response 200 tt, w);
  text = λ body. "";
  json = λ body. parsed (record { text = ""; language = none; avg_logprob = none; segments = [] });
  show = λ n. "";
  status_text = λ n. "";
}

abbrev pub library : Library foreign
library = record {
  Pipeline = List (AudioChunk foreign);
  SocketAddr = String;
  floats = floats;
  server = silent;
  settings = default_config (λ x. 0) (λ addr. addr);
  show_whisper = λ e. "";
  builder = λ chain whisper. parsed [];
  ingest_chunk = λ chunk fed. (parsed tt, chunk ∷ fed);
  emit = λ fed. (output, fed);
  finalize = λ fed. parsed output;
  run_one_shot = λ audio fed. parsed output;
  to_f64 = λ x. x;
  as_i64 = λ x. x;
  timestamp = λ x. x;
  uuid_text = λ id. "id";
  json_flags = λ m. m;
  json_original = λ text confidence language. text;
}

abbrev pub client : DataApiClient
client = record {
  base_url = "http://data";
  session_token = "first";
  shared_secret = "secret";
  service_name = "worker";
}

-- Every request succeeds.
abbrev pub steady : Host Row
steady = answering (λ request w. 200) (λ w. w)

abbrev pub steady_io : Io steady
steady_io = record { client = client; world = 0; trace = [] }

abbrev pub posting : Posting steady
posting = record { io = steady_io; posted = 1 ∷ [] }

-- The data-api, with two participants in every session, and one chunk of each.
abbrev pub recorded : Host Row
recorded = record steady {
  json_participants = λ body. parsed (
      record { id = 1; pseudo_id = some "ann"; consent_scope = some "full" }
      ∷ record { id = 2; pseudo_id = some "bob"; consent_scope = some "none" }
      ∷ []);
  json_chunks = λ body. parsed (record { seq = 0; capture_started_at = none } ∷ []);
}

abbrev pub recorded_posting : Posting recorded
recorded_posting = record { io = record { client = client; world = 0; trace = [] }; posted = [] }
