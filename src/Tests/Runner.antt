-- ===== src/Tests/Runner.antt =====
-- The runners of src/session_runner.rs against small inputs.
use mathlib.Core.List.{flatten}
use chronicle_worker.Prelude.{
  ℕ, some, length, ◌≤◌, ◌<◌, ◌≡◌, refl, true, false, List, [], ◌∷◌, arith, All,
}
use chronicle_worker.Ids.{PseudoId}
use chronicle_worker.Sets.{contains}
use chronicle_worker.Exec.{ok}
use chronicle_worker.Api.Plan.{Stops}
use chronicle_worker.Runner.Reorder.{Bytes, Chunk, fresh, arrivals}
use chronicle_worker.Runner.Reorder.Drain.{span}
use chronicle_worker.Runner.Reorder.Order.{deliveries, arrivals_prefix}
use chronicle_worker.Runner.Reorder.Gap.{arrivals_gap}
use chronicle_worker.Runner.Outputs.{new_segments, write_new_outputs, chunks_of_5}
use chronicle_worker.Runner.Outputs.Batches.{chunks_of_5-flatten}
use chronicle_worker.Runner.Outputs.Posted.{outputs_plan, write_new_outputs-Stops}
use chronicle_worker.Runner.Outputs.Dedup.{new_segments-write}
use chronicle_worker.Runner.Streaming.{Streaming, started}
use chronicle_worker.Runner.Streaming.{run_loop}
use chronicle_worker.Runner.Streaming.Absorb.{Serves, told_of}
use chronicle_worker.Runner.Streaming.Heard.{HeardAll, run_loop-HeardAll}
use chronicle_worker.Runner.OneShot.{collect_speaker_tracks}
use chronicle_worker.Runner.OneShot.Consent.{IsPermitted, collect_speaker_tracks-IsPermitted}
use chronicle_worker.Http.{Host, Participant, parsed}
use chronicle_worker.Api.{Io}
use chronicle_worker.Api.Requests.{At}
use chronicle_worker.Api.Chunks.{list_participants}
use chronicle_worker.Tests.World.{Row, client, library, output, steady, steady_io, posting}

abbrev content : ℕ → Bytes
content k = k ∷ []

abbrev shuffled : List ℕ
shuffled = 2 ∷ 0 ∷ 0 ∷ 4 ∷ 1 ∷ []

shuffled_fed :
    (arrivals fresh (deliveries content shuffled)).0 ≡ (0, 0 ∷ []) ∷ (1, 1 ∷ []) ∷ (2, 2 ∷ []) ∷ []
unfolding arrivals chronicle_worker.Sets.add
shuffled_fed = refl

arrivals_prefix_example :
    (let (fed, sp) = arrivals fresh (deliveries content shuffled) in
      (fed ≡ span content sp.next_expected 0)
      × All (λ (c : Chunk). contains c.0 shuffled ≡ true) fed
      × (contains sp.next_expected shuffled ≡ false))
arrivals_prefix_example = arrivals_prefix content shuffled (ground arith)

same_chunks : (k : ℕ) → contains k (1 ∷ 0 ∷ []) ≡ contains k (0 ∷ 1 ∷ 0 ∷ [])
unfolding contains
same_chunks k = ground arith

without_three : contains 3 shuffled ≡ false
unfolding contains
without_three = refl

arrivals_gap_example : All (λ (c : Chunk). c.0 < 3) (arrivals fresh (deliveries content shuffled)).0
arrivals_gap_example = arrivals_gap content shuffled 3 (ground arith) without_three

abbrev streaming : Streaming library steady
streaming = started library steady posting []

write_new_outputs-Stops_example :
    (let (r, s') = write_new_outputs library steady 7 output posting in
      Stops true (outputs_plan library steady 7 (1 ∷ []) output "first") steady_io r s'.io)
write_new_outputs-Stops_example = write_new_outputs-Stops library steady 7 output posting

written : (write_new_outputs library steady 7 output posting).0 ≡ ok tt
unfolding write_new_outputs
written = refl

new_segments-write_example :
    new_segments (write_new_outputs library steady 7 output posting).1.posted output.segments ≡ []
new_segments-write_example = new_segments-write library steady 7 output posting written

abbrev rows : List ℕ
rows = 1 ∷ 2 ∷ 3 ∷ 4 ∷ 5 ∷ 6 ∷ 7 ∷ []

chunks_of_5-flatten_example :
    (flatten (chunks_of_5 rows) ≡ rows)
    × All (λ b. (1 ≤ length b) × (length b ≤ 5)) (chunks_of_5 rows)
    × (length (chunks_of_5 rows) ≡ 2)
chunks_of_5-flatten_example = chunks_of_5-flatten rows

abbrev frame : Bytes
frame = 1 ∷ 0 ∷ 3 ∷ 0 ∷ []

steady-Serves : Serves steady 7 (λ pid k. frame)
steady-Serves pid seq bearer w = (frame, refl, refl)

abbrev told : List (PseudoId × ℕ)
told = ("ann", 1) ∷ ("bob", 0) ∷ ("ann", 0) ∷ []

run_loop-HeardAll_example :
    HeardAll library
      (λ pid k. frame)
      told
      []
      (run_loop library steady 5 7 (told_of told) streaming).1.pipeline
run_loop-HeardAll_example =
    run_loop-HeardAll library steady 7 (λ pid k. frame) steady-Serves 4 told posting []
      (ground arith)

abbrev participants : List Participant
participants =
    record { id = 1; pseudo_id = some "ann"; consent_scope = some "full" }
    ∷ record { id = 2; pseudo_id = some "bob"; consent_scope = some "none" }
    ∷ []

-- The data-api, with these participants in every session.
abbrev attended : Host Row
attended = record steady { json_participants = λ body. parsed participants }

abbrev attended_io : Io attended
attended_io = record { client = client; world = 0; trace = [] }

listed : (list_participants attended 7 attended_io).0 ≡ ok participants
unfolding list_participants
listed = refl

collect_speaker_tracks-IsPermitted_example :
    All
      (At (IsPermitted participants))
      (collect_speaker_tracks library attended 4 7 attended_io).1.trace
collect_speaker_tracks-IsPermitted_example =
    collect_speaker_tracks-IsPermitted library attended participants 4 7 attended_io listed tt
