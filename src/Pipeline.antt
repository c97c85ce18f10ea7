-- ===== src/Pipeline.antt =====
-- What src/session_runner.rs sees of chronicle-pipeline, which the worker links: the types that it
-- passes, with the fields that the worker reads or writes, and the library as a parameter.
use chronicle_worker.Prelude.{ℕ, String, Option, List}
use chronicle_worker.Prelude.Int.{ℤ}
use chronicle_worker.Ids.{Uuid, PseudoId}
use chronicle_worker.Http.{Parsed}
use chronicle_worker.Config.{Config}
use chronicle_worker.Whisper.{Server, WhisperError, HttpWhisperClient}
use chronicle_worker.Whisper.Wav.{Floats}

pub data OperatorKind : Type 0 where
  vad transcription filter segment meta_talk beats scenes : OperatorKind

pub data BeatKind : Type 0 where
  combat_start combat_end discovery dialogue_climax scene_break unknown : BeatKind

-- The types of the library, of serde and of chrono that the worker only hands on: floats, JSON
-- values, `MetaTalk` and `Timestamp`.
pub record Foreign : Type 1 where
  pub F32 : Type 0
  pub F64 : Type 0
  pub Value : Type 0
  pub MetaTalk : Type 0
  pub Timestamp : Type 0

module _ (t : Foreign) where
  pub record Segment : Type 0 where
    pub id : Uuid
    pub start_ms : t.Timestamp
    pub end_ms : t.Timestamp
    pub pseudo_id : PseudoId
    pub text : String
    pub original : String
    pub confidence : t.F32
    pub language : Option String
    pub meta_talk : Option t.MetaTalk

  pub record Beat : Type 0 where
    pub id : Uuid
    pub t_ms : t.Timestamp
    pub label : String
    pub kind : BeatKind
    pub confidence : t.F32

  pub record Scene : Type 0 where
    pub id : Uuid
    pub start_ms : t.Timestamp
    pub end_ms : t.Timestamp
    pub label : String
    pub confidence : t.F32

  pub record AudioChunk : Type 0 where
    pub session_id : Uuid
    pub pseudo_id : PseudoId
    pub seq : ℕ
    pub capture_started_at : t.Timestamp
    pub duration_ms : ℕ
    pub pcm : List ℤ

  pub record SessionTrack : Type 0 where
    pub pseudo_id : PseudoId
    pub capture_started_at : t.Timestamp
    pub pcm : List ℤ

  pub record SessionAudio : Type 0 where
    pub session_id : Uuid
    pub tracks : List SessionTrack

  pub record PipelineOutput : Type 0 where
    pub segments : List Segment
    pub beats : List Beat
    pub scenes : List Scene

-- The operations. An error carries its text. `builder` stands for `Pipeline::builder(…).build()` with
-- all of the configuration but the chain of operators and the Whisper client fixed; what the Whisper
-- client needs, and the configuration that it is made from, stand here, too.
pub record Library (t : Foreign) : Type 1 where
  pub Pipeline : Type 0
  pub SocketAddr : Type 0
  pub floats : Floats
  pub server : Server floats.F32
  pub settings : Config floats.F32 SocketAddr
  pub show_whisper : WhisperError → String
  pub builder : List OperatorKind → HttpWhisperClient floats.F32 → Parsed Pipeline
  pub ingest_chunk : AudioChunk t → Pipeline → Parsed (Unit {0}) × Pipeline
  pub emit : Pipeline → PipelineOutput t × Pipeline
  pub finalize : Pipeline → Parsed (PipelineOutput t)
  pub run_one_shot : SessionAudio t → Pipeline → Parsed (PipelineOutput t)
  pub to_f64 : t.F32 → t.F64
  pub as_i64 : t.Timestamp → ℤ
  pub timestamp : ℤ → t.Timestamp
  pub uuid_text : Uuid → String
  pub json_flags : t.MetaTalk → t.Value
  pub json_original : String → t.F32 → Option String → t.Value
