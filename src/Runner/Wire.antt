-- ===== src/Runner/Wire.antt =====
-- The wire conversions of src/session_runner.rs, and `CreateInputWire` of src/api_client.rs.
use chronicle_worker.Prelude.{String, Option, none, some}
use chronicle_worker.Prelude.Int.{ℤ}
use chronicle_worker.Ids.{PseudoId}
use chronicle_worker.Pipeline.{
  Foreign, Library, Segment, Beat, Scene, BeatKind, combat_start, combat_end, discovery,
  dialogue_climax, scene_break, unknown,
}
use mathlib.Core.Option

pub record CreateInputWire (t : Foreign) : Type 0 where
  pub client_id : String
  pub start_ms : ℤ
  pub end_ms : ℤ
  pub pseudo_id : Option PseudoId
  pub text : Option String
  pub title : Option String
  pub summary : Option String
  pub confidence : Option t.F64
  pub flags : Option t.Value
  pub original : Option t.Value

unfoldable pub beat_kind_label : BeatKind → String
beat_kind_label combat_start = "Combat begins"
beat_kind_label combat_end = "Combat ends"
beat_kind_label discovery = "Discovery"
beat_kind_label dialogue_climax = "Dialogue climax"
beat_kind_label scene_break = "Scene break"
beat_kind_label unknown = "Unknown beat"

module _ {t : Foreign} (lib : Library t) where
  unfoldable pub segment_wire : Segment t → CreateInputWire t
  segment_wire s = record {
    client_id = lib.uuid_text s.id;
    start_ms = lib.as_i64 s.start_ms;
    end_ms = lib.as_i64 s.end_ms;
    pseudo_id = some s.pseudo_id;
    text = some s.text;
    title = none;
    summary = none;
    confidence = some (lib.to_f64 s.confidence);
    flags = Option.map lib.json_flags s.meta_talk;
    original = some (lib.json_original s.original s.confidence s.language);
  }

  unfoldable pub beat_wire : Beat t → CreateInputWire t
  unfolding beat_kind_label
  beat_wire b = record {
    client_id = lib.uuid_text b.id;
    start_ms = lib.as_i64 b.t_ms;
    end_ms = lib.as_i64 b.t_ms;
    pseudo_id = none;
    text = none;
    title = some b.label;
    summary = some (beat_kind_label b.kind);
    confidence = some (lib.to_f64 b.confidence);
    flags = none;
    original = none;
  }

  unfoldable pub scene_wire : Scene t → CreateInputWire t
  scene_wire s = record {
    client_id = lib.uuid_text s.id;
    start_ms = lib.as_i64 s.start_ms;
    end_ms = lib.as_i64 s.end_ms;
    pseudo_id = none;
    text = none;
    title = some s.label;
    summary = some "";
    confidence = some (lib.to_f64 s.confidence);
    flags = none;
    original = none;
  }
