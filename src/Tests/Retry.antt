-- ===== src/Tests/Retry.antt =====
-- The queue of src/retry.rs on small inputs.
use chronicle_worker.Prelude.{◌≡◌, ◌≢◌, refl, none, some, List, [], ◌∷◌}
use chronicle_worker.Retry.{
  RetryQueue, entry, slept, notified, Wake, schedule, next_ready, queued, exhausted,
}
use chronicle_worker.Retry.Ready.{Delivers, next_ready-Delivers, next_ready-ne-none}

-- The default schedule, with one entry waiting.
abbrev queue : RetryQueue
queue = record { inner = entry 1 2 500 ∷ []; backoffs = 30000 ∷ 60000 ∷ 120000 ∷ [] }

abbrev wakes : List Wake
wakes = notified (entry 2 2 400 ∷ []) 100 ∷ slept 5 ∷ []

schedule_second :
    schedule queue 9 2 1000
    ≡ queued (entry 9 2 61000) (record queue { inner = entry 9 2 61000 ∷ entry 1 2 500 ∷ [] })
unfolding schedule
schedule_second = refl

schedule_fourth : schedule queue 9 4 1000 ≡ exhausted
unfolding schedule
schedule_fourth = refl

next_ready-wakes : next_ready queue.inner 0 wakes ≡ some (entry 2 2 400, entry 1 2 500 ∷ [], 405)
unfolding next_ready
next_ready-wakes = refl

next_ready-Delivers_example : Delivers queue.inner wakes (entry 2 2 400) (entry 1 2 500 ∷ []) 405
next_ready-Delivers_example =
    next_ready-Delivers queue.inner 0 wakes (entry 2 2 400) (entry 1 2 500 ∷ []) 405
      next_ready-wakes

next_ready-ne-none_example :
    next_ready (entry 1 2 500 ∷ []) 0 (notified [] 100 ∷ slept 5 ∷ []) ≢ none
next_ready-ne-none_example = next_ready-ne-none (entry 1 2 500) [] 0 5 (notified [] 100 ∷ [])
