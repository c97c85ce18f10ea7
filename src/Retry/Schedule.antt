-- ===== src/Retry/Schedule.antt =====
-- What `schedule` does on each of its branches.
use chronicle_worker.Prelude.{
  ℕ, zero, suc, Bool-cases, leb, ◌==◌, ◌+◌, ◌-◌, ◌≤◌, ◌<◌, ◌≡◌, ◌⊎◌, inl, inr, refl, some, ◌∷◌,
  arith, length, get_elem?, get_elem?-some,
}
use chronicle_worker.Ids.{SessionId}
use chronicle_worker.Retry.{RetryQueue, Scheduled, queued, exhausted, panic, entry, schedule}

abbrev pub Outcome : RetryQueue → SessionId → ℕ → ℕ → Scheduled → Type 0
Outcome q session attempt now r =
    ((0 < attempt)
      × (attempt ≤ length q.backoffs)
      × ((delay : ℕ) × (get_elem? q.backoffs (attempt - 1) ≡ some delay)
          × (r ≡ (
              let e = entry session attempt (now + delay) in
              queued e (record q { inner = e ∷ q.inner })))))
    ⊎ (((length q.backoffs < attempt) ⊎ (length q.backoffs ≡ 0)) × (r ≡ exhausted))
    ⊎ ((attempt ≡ 0) × (0 < length q.backoffs) × (r ≡ panic))

-- An attempt from 1 to the length of the schedule is queued: it is due after the delay that stands
-- at its place, counted from 1, and the other entries stay. An attempt past the end, and any attempt
-- under an empty schedule, is refused. Attempt 0 under a schedule that is not empty panics.
pub schedule-Outcome :
    (q : RetryQueue) (session : SessionId) (attempt now : ℕ)
    → Outcome q session attempt now (schedule q session attempt now)
unfolding schedule
schedule-Outcome q session zero now = elim (Bool-cases (length q.backoffs == 0)) [
  | inl e ↦ inr (inl (inr (ground arith), ground arith))
  | inr n ↦ inr (inr (refl, ground arith, ground arith))
]
schedule-Outcome q session (suc i) now = elim (Bool-cases (leb (suc i) (length q.backoffs))) [
  | inl within ↦
      let (delay, found) = get_elem?-some q.backoffs i (ground arith) in
      inl (omega arith, ground arith, (delay, ground arith, ground arith))
  | inr past ↦ inr (inl (inl (ground arith), ground arith))
]
