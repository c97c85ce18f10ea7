-- ===== src/Tests/Clearing.antt =====
-- The clearing of outputs in src/session_runner.rs, against a data-api that lists two of each kind.
use chronicle_worker.Prelude.{◌≡◌, refl, List, [], ◌∷◌, length}
use chronicle_worker.Ids.{Uuid}
use chronicle_worker.Http.{Host, parsed}
use chronicle_worker.Api.{Io}
use chronicle_worker.Api.Outputs.{list_resource_ids}
use chronicle_worker.Runner.OneShot.{clear_prior_outputs}
use chronicle_worker.Runner.OneShot.Cleared.{Adds, clearing, clear_prior_outputs-Adds}
use chronicle_worker.Tests.World.{Row, steady, client}

abbrev listing : Host Row
listing = record steady { rows_of = λ v. parsed (5 ∷ 6 ∷ []) }

abbrev listing_io : Io listing
listing_io = record { client = client; world = 0; trace = [] }

abbrev two : List Uuid
two = 5 ∷ 6 ∷ []

clear_prior_outputs-Adds_example :
    Adds listing
      (clearing listing 7 two two two "first")
      listing_io
      (clear_prior_outputs listing 7 listing_io).1
unfolding list_resource_ids
clear_prior_outputs-Adds_example = clear_prior_outputs-Adds listing 7 listing_io

nine_requests : length (clear_prior_outputs listing 7 listing_io).1.trace ≡ 9
unfolding clear_prior_outputs
nine_requests = refl
