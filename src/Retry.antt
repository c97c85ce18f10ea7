-- ===== src/Retry.antt =====
-- src/retry.rs: the queue of session retries. Times and delays are milliseconds. The heap is a list
-- of entries: `peek` gives a greatest entry by `cmp`, as BinaryHeap does (the first one of equals).
pub mod Schedule
pub mod Ready
use chronicle_worker.Prelude.{
  ℕ, zero, suc, ◌+◌, ◌-◌, Bool, true, false, Option, none, some, List, [], ◌∷◌, ◌++◌, length, leb,
  ltb, ◌==◌, ◌||◌, get_elem?, if◌then◌else◌,
}
use Prim.Native.Nat.{compare, Ordering}
use chronicle_worker.Ids.{SessionId}

pub record RetryEntry : Type 0 where
  pub session : SessionId
  pub attempt : ℕ
  pub due_at : ℕ

abbrev pub entry : SessionId → ℕ → ℕ → RetryEntry
entry session attempt due_at = record { session = session; attempt = attempt; due_at = due_at }

-- The order is reversed, so that the greatest entry is due first.
unfoldable pub cmp : RetryEntry → RetryEntry → Ordering
cmp self other = compare other.due_at self.due_at

pub record RetryQueue : Type 0 where
  pub inner : List RetryEntry
  pub backoffs : List ℕ

unfoldable pub new : List ℕ → RetryQueue
new backoffs = record { inner = []; backoffs = backoffs }

unfoldable pub max_attempts : RetryQueue → ℕ
max_attempts q = length q.backoffs

-- BinaryHeap::push
unfoldable pub push : RetryEntry → List RetryEntry → List RetryEntry
push e heap = e ∷ heap

abbrev pub greater : RetryEntry → Option RetryEntry → RetryEntry
greater e none = e
greater e (some top) = elim (cmp e top) [ Ordering.lt ↦ top | _ ↦ e ]

-- BinaryHeap::peek
unfoldable pub peek : List RetryEntry → Option RetryEntry
unfolding cmp
peek [] = none
peek (e ∷ heap) = some (greater e (peek heap))

-- BinaryHeap::pop removes the entry that `peek` gives.
unfoldable pub pop : List RetryEntry → List RetryEntry
unfolding cmp peek
pop [] = []
pop (e ∷ heap) =
    let rest = pop heap in
    elim (peek heap) [
      | none ↦ []
      | some top ↦ elim (cmp e top) [ Ordering.lt ↦ e ∷ rest | _ ↦ heap ]
    ]

-- What a call of `schedule` comes to. An attempt of 0 would index the schedule at -1 and panic.
pub data Scheduled : Type 0 where
  queued : RetryEntry → RetryQueue → Scheduled
  exhausted : Scheduled
  panic : Scheduled

abbrev enqueue : RetryQueue → SessionId → ℕ → ℕ → Option ℕ → Scheduled
enqueue q session attempt now none = panic
enqueue q session attempt now (some delay) =
    let e = entry session attempt (now + delay) in queued e (record q { inner = push e q.inner })

-- schedule[idx - 1]
abbrev pub index_before : List ℕ → ℕ → Option ℕ
index_before backoffs zero = none
index_before backoffs (suc i) = get_elem? backoffs i

-- `now` is Instant::now().
unfoldable pub schedule : RetryQueue → SessionId → ℕ → ℕ → Scheduled
unfolding push
schedule q session attempt now =
    if ltb (length q.backoffs) attempt || length q.backoffs == 0
    then exhausted
    else enqueue q session attempt now (index_before q.backoffs attempt)

-- The time that `next_ready` sleeps for, from `now`: a day when nothing is queued.
unfoldable pub sleep_for : List RetryEntry → ℕ → ℕ
unfolding peek
sleep_for heap now = elim (peek heap) [ none ↦ 86_400_000 | some e ↦ e.due_at - now ]

-- The end of a round of `next_ready`, at the instant at which it woke up.
unfoldable pub take_due : List RetryEntry → ℕ → Option (RetryEntry × List RetryEntry)
unfolding peek pop
take_due heap now = elim (peek heap) [
  | none ↦ none
  | some top ↦ if leb top.due_at now then some (top, pop heap) else none
]

-- Why a round of `next_ready` ends: its sleep is over, possibly `late` by some time, or another task
-- has pushed entries and notified it `after` some part of that sleep.
pub data Wake : Type 0 where
  slept : ℕ → Wake
  notified : List RetryEntry → ℕ → Wake

-- One round, from `now`: the instant at which it wakes up and the heap that it then sees.
unfoldable pub round : List RetryEntry → ℕ → Wake → List RetryEntry × ℕ
unfolding sleep_for
round heap now (slept late) = (heap, now + sleep_for heap now + late)
round heap now (notified pushed after) = (pushed ++ heap, now + after)

-- next_ready over the wake-ups that the scheduler gives it; `none` while it still waits. A result is
-- the entry, the heap without it, and the time.
unfoldable pub next_ready :
    List RetryEntry → ℕ → List Wake → Option (RetryEntry × List RetryEntry × ℕ)
unfolding round take_due
next_ready heap now [] = none
next_ready heap now (w ∷ ws) =
    let (seen, woke) = round heap now w in
    let later = next_ready seen woke ws in
    elim (take_due seen woke) [ none ↦ later | some (top, rest) ↦ some (top, rest, woke) ]

unfoldable pub len : RetryQueue → ℕ
len q = length q.inner

unfoldable pub is_empty : RetryQueue → Bool
is_empty q = elim q.inner [ [] ↦ true | _ ∷ _ ↦ false ]
