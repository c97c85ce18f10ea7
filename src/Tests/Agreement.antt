-- ===== src/Tests/Agreement.antt =====
-- The two runners of src/session_runner.rs on two chunks, listed and delivered out of order.
use chronicle_worker.Prelude.{ℕ, none, List, [], ◌∷◌}
use chronicle_worker.Ids.{PseudoId}
use chronicle_worker.Http.{Host, ChunkInfo, parsed}
use chronicle_worker.Api.{Io}
use chronicle_worker.Runner.Outputs.{Posting}
use chronicle_worker.Runner.Reorder.{Bytes}
use chronicle_worker.Runner.Streaming.Heard.{Heard}
use chronicle_worker.Tests.World.{Row, client, steady}

abbrev frame : Bytes
frame = 1 ∷ 0 ∷ 3 ∷ 0 ∷ []

abbrev listed : List ChunkInfo
listed =
    record { seq = 1; capture_started_at = none }
    ∷ record { seq = 0; capture_started_at = none }
    ∷ []

-- The data-api, with these chunks of every speaker.
abbrev listing : Host Row
listing = record steady { json_chunks = λ body. parsed listed }

abbrev listing_io : Io listing
listing_io = record { client = client; world = 0; trace = [] }

abbrev posting : Posting listing
posting = record { io = listing_io; posted = [] }

abbrev told : List (PseudoId × ℕ)
told = ("ann", 1) ∷ ("bob", 5) ∷ ("ann", 0) ∷ ("ann", 1) ∷ []
