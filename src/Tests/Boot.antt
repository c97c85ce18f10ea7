-- ===== src/Tests/Boot.antt =====
-- The start of the worker against a data-api where every request succeeds.
use chronicle_worker.Prelude.{◌≡◌, ◌↔◌, refl, String, [], ◌∷◌}
use chronicle_worker.Error.{WorkerError, Result}
use chronicle_worker.Exec.{Outcome}
use chronicle_worker.Http.{parsed, broken}
use chronicle_worker.Strings.{is_whitespace}
use chronicle_worker.Config.{resolved_shared_secret}
use chronicle_worker.Api.{Io, authenticate}
use chronicle_worker.EventLoop.{Loop}
use chronicle_worker.EventLoop.Handlers.{startup_reconcile}
use chronicle_worker.EventLoop.Steps.{start}
use chronicle_worker.Boot.{done, failed, panicked, Given, main}
use chronicle_worker.Boot.Started.{IsBegun, main-done}
use chronicle_worker.Tests.World.{steady, steady_io}
use chronicle_worker.Tests.Config.{usual}

abbrev given : Given
given = record { http = parsed tt; bound = parsed tt }

abbrev taken : Given
taken = record { http = parsed tt; bound = broken "address in use" }

abbrev begun : Loop steady
begun = (startup_reconcile steady (start steady steady_io 0 (30000 ∷ 120000 ∷ []))).1

main-done_example : (main steady (λ a. a) given usual 0 0 ≡ done begun) ↔ (
    (secret : String) × (io : Io steady) × (resolved_shared_secret usual ≡ Result.ok secret)
    × ((authenticate steady given.http usual.data_api_url secret "chronicle-worker" 0).0
        ≡ Outcome.ok io)
    × IsBegun steady (λ a. a) given usual 0 io begun)
main-done_example = main-done steady (λ a. a) given usual 0 0 begun

address_taken :
    main steady (λ a. a) taken usual 0 0
    ≡ failed (WorkerError.admin "bind 127.0.0.1:8020: address in use")
unfolding main is_whitespace
address_taken = refl

zero_interval : main steady (λ a. a) given (record usual { poll_interval_secs = 0 }) 0 0 ≡ panicked
unfolding main is_whitespace
zero_interval = refl
