-- ===== src/Runner/OneShot/Agreement.antt =====
-- src/session_runner.rs: the two runners on the same chunks.
use text.Mathlib.Text.{◌==◌ as str_eq}
use chronicle_worker.Prelude.{ℕ, ◌%◌, ◌≡◌, List, [], ◌∷◌, ◌++◌, length, if◌then◌else◌}
use chronicle_worker.Prelude.Int.{ℤ}
use chronicle_worker.Ids.{SessionId, PseudoId}
use chronicle_worker.Exec.{ok}
use chronicle_worker.Http.{Host}
use chronicle_worker.Decode.{decode_stereo_to_mono_i16}
use chronicle_worker.Pipeline.{Foreign, Library, SessionTrack, AudioChunk}
use chronicle_worker.Api.{Io}
use chronicle_worker.Api.Chunks.{download_chunk}
use chronicle_worker.Runner.Wire.{CreateInputWire}
use chronicle_worker.Runner.Reorder.{Bytes, Chunk}
use chronicle_worker.Runner.Streaming.Absorb.{Serves as Streams}
use chronicle_worker.Runner.Streaming.Heard.{seqs_of as told_seqs, Heard}
use chronicle_worker.Runner.OneShot.Sorted.{seqs_of}

-- The contents of these chunks, one after the other.
abbrev joined : (ℕ → Bytes) → List ℕ → Bytes
joined content [] = []
joined content (k ∷ ks) = content k ++ joined content ks

-- Each chunk has whole frames.
abbrev pub IsWhole : (ℕ → Bytes) → Type 0
IsWhole content = (k : ℕ) → length (content k) % 4 ≡ 0

abbrev decoded_each : List Chunk → List ℤ
decoded_each [] = []
decoded_each ((k, raw) ∷ cs) = decode_stereo_to_mono_i16 raw ++ decoded_each cs

abbrev samples : List (ℕ × List ℤ) → List ℤ
samples [] = []
samples (c ∷ cs) = c.1 ++ samples cs

module _ {t : Foreign} (lib : Library t) (host : Host (CreateInputWire t)) where
  -- Every download of chunk `k` of the speaker gives `content k`.
  abbrev pub Serves : ℕ → SessionId → PseudoId → (ℕ → Bytes) → Type 0
  Serves fuel session pseudo content =
      (k : ℕ) (s : Io host) → (download_chunk host fuel session pseudo k s).0 ≡ ok (content k)

  abbrev pub pcm_of : List (SessionTrack t) → List ℤ
  pcm_of [] = []
  pcm_of (a ∷ tracks) = a.pcm ++ pcm_of tracks

  -- The samples of one speaker's chunks, in the order in which they were given to the pipeline.
  abbrev pub samples_of : PseudoId → List (AudioChunk t) → List ℤ
  samples_of pseudo [] = []
  samples_of pseudo (a ∷ log) =
      let later = samples_of pseudo log in
      if str_eq a.pseudo_id pseudo then a.pcm ++ later else later
