-- ===== src/Retry/Ready.antt =====
-- `next_ready` gives the entry that is due first, when it is due, and loses no other.
use mathlib.Core.Path.{subst}
use mathlib.Core.List.{Perm, append_assoc}
use mathlib.Core.List.Perm
use chronicle_worker.Prelude.{
  ℕ, ◌+◌, ◌≤◌, ◌≡◌, ◌≢◌, ◌⊎◌, inl, inr, refl, ap, none, some, List, [], ◌∷◌, ◌++◌, arith, All,
  Option-cases,
}
use chronicle_worker.Retry.{
  RetryEntry, Wake, slept, notified, peek, pop, sleep_for, take_due, round, next_ready,
}

abbrev DueFrom : ℕ → List RetryEntry → Type 0
DueFrom t heap = All (λ (e : RetryEntry). t ≤ e.due_at) heap

DueFrom-mono : (s t : ℕ) (heap : List RetryEntry) → s ≤ t → DueFrom t heap → DueFrom s heap
DueFrom-mono s t [] h d = tt
DueFrom-mono s t (e ∷ heap) h d = (omega arith, DueFrom-mono s t heap h d.1)

DueFrom-[] : (t : ℕ) {heap : List RetryEntry} → heap ≡ [] → DueFrom t heap
DueFrom-[] t h = rw h tt

pub peek-none : (heap : List RetryEntry) → peek heap ≡ none → heap ≡ []
unfolding peek
peek-none [] h = refl
peek-none (e ∷ heap) h = cc

-- The greatest entry is due first.
pub peek-DueFrom :
    (heap : List RetryEntry) (top : RetryEntry) → peek heap ≡ some top → DueFrom top.due_at heap
unfolding peek
peek-DueFrom [] top h = cc
peek-DueFrom (e ∷ heap) top h = elim (Option-cases (peek heap)) [
  | inl p ↦ ground (arith, DueFrom-[] top.due_at (peek-none heap p))
  | inr (t, p) ↦ ground (arith, peek-DueFrom heap t p, DueFrom-mono top.due_at t.due_at heap)
]

pub pop-perm :
    (heap : List RetryEntry) (top : RetryEntry) → peek heap ≡ some top → Perm heap (top ∷ pop heap)
unfolding peek pop
pop-perm [] top h = cc
pop-perm (e ∷ heap) top h = elim (Option-cases (peek heap)) [
  | inl p ↦
      rw (p, pop) (let e≡top : e ≡ top = ground arith in rw (peek-none heap p, e≡top) (Perm.refl _))
  | inr (t, p) ↦ ground (
    arith,
    Perm.refl (e ∷ heap),
    Perm.trans (Perm.cons e (pop-perm heap t p)) (Perm.swap t e (pop heap)),
  )
]

-- The entries that the rounds of a wait were given, the newest first.
abbrev pub pushed_in : List Wake → List RetryEntry
pushed_in [] = []
pushed_in (slept late ∷ ws) = pushed_in ws
pushed_in (notified pushed after ∷ ws) = pushed_in ws ++ pushed

abbrev pub Delivers : List RetryEntry → List Wake → RetryEntry → List RetryEntry → ℕ → Type 0
Delivers heap ws top rest woke =
    (top.due_at ≤ woke)
    × DueFrom top.due_at rest
    × ((used : List Wake) × (unused : List Wake) × (ws ≡ used ++ unused)
        × Perm (pushed_in used ++ heap) (top ∷ rest))

-- What holds of all entries holds of those that `pop` leaves, and of the one that it takes.
pub All-pop : (P : RetryEntry → Type 0) (heap : List RetryEntry) → All P heap → All P (pop heap)
unfolding pop
All-pop P [] d = tt
All-pop P (e ∷ heap) d = ground (arith, All-pop P heap d.1)

pub All-peek :
    (P : RetryEntry → Type 0) (heap : List RetryEntry) (top : RetryEntry)
    → All P heap
    → peek heap ≡ some top
    → P top
unfolding peek
All-peek P [] top d h = cc
All-peek P (e ∷ heap) top d h = elim (Option-cases (peek heap)) [
  | inl p ↦ let here : e ≡ top = ground arith in subst P here d.0
  | inr (t, p) ↦
      let which : (e ≡ top) ⊎ (t ≡ top) = ground arith in
      elim which [
        | inl here ↦ subst P here d.0
        | inr later ↦ subst P later (All-peek P heap t d.1 p)
      ]
]

-- A sleep that is over wakes up when the top entry is due.
take_due-slept :
    (e : RetryEntry) (heap : List RetryEntry) (now late : ℕ)
    → take_due (e ∷ heap) (now + sleep_for (e ∷ heap) now + late) ≢ none
unfolding take_due sleep_for
take_due-slept e heap now late h = ground arith

pub take_due-some :
    (heap : List RetryEntry) (now : ℕ) (top : RetryEntry) (rest : List RetryEntry)
    → take_due heap now ≡ some (top, rest)
    → (peek heap ≡ some top) × (rest ≡ pop heap) × (top.due_at ≤ now)
unfolding take_due
take_due-some heap now top rest h = ground arith

take_due-Delivers :
    (heap : List RetryEntry) (now : ℕ) (top : RetryEntry) (rest : List RetryEntry)
    → take_due heap now ≡ some (top, rest)
    → (top.due_at ≤ now) × DueFrom top.due_at rest × Perm heap (top ∷ rest)
take_due-Delivers heap now top rest h =
    let (p, r, due) = take_due-some heap now top rest h in
    (
      due,
      rw r (All-pop (λ e. top.due_at ≤ e.due_at) heap (peek-DueFrom heap top p)),
      rw r (pop-perm heap top p),
    )

-- One round back: the entries that it was given come before those of the later rounds.
Delivers-round :
    (heap : List RetryEntry) (now : ℕ) (w : Wake) (ws : List Wake) (top : RetryEntry)
    (rest : List RetryEntry) (woke : ℕ)
    → Delivers (round heap now w).0 ws top rest woke
    → Delivers heap (w ∷ ws) top rest woke
unfolding round
Delivers-round heap now (slept late) ws top rest woke (due, first, (used, unused, e, p)) =
    (due, first, (slept late ∷ used, unused, ap (◌∷◌ (slept late)) e, p))
Delivers-round heap now (notified ps after) ws top rest woke (due, first, (used, unused, e, p)) = (
  due,
  first,
  (notified ps after ∷ used, unused, ap (◌∷◌ (notified ps after)) e, rw append_assoc p),
)

-- What `next_ready` gives is due at the time at which it gives it, no entry left in the heap is due
-- earlier, and the entry and the heap left are exactly the entries that were queued when it began
-- and those pushed while it waited.
pub next_ready-Delivers :
    (heap : List RetryEntry) (now : ℕ) (ws : List Wake) (top : RetryEntry) (rest : List RetryEntry)
    (woke : ℕ)
    → next_ready heap now ws ≡ some (top, rest, woke)
    → Delivers heap ws top rest woke
unfolding next_ready
next_ready-Delivers heap now [] top rest woke h = cc
next_ready-Delivers heap now (w ∷ ws) top rest woke h =
    let (seen, at) = round heap now w in
    elim (Option-cases (take_due seen at)) [
      | inl waits ↦
          Delivers-round heap now w ws top rest woke
            (next_ready-Delivers seen at ws top rest woke (ground arith))
      | inr ((t, r), e) ↦
          let taken : take_due seen at ≡ some (top, rest) = ground arith in
          let here : woke ≡ at = ground arith in
          let (due, first, p) = take_due-Delivers seen at top rest taken in
          Delivers-round heap now w ws top rest woke (rw here due, first, ([], ws, refl, p))
    ]

-- Whatever notifications come first, a wait over a heap that is not empty has ended once its sleep
-- is over, however late.
pub next_ready-ne-none :
    (e : RetryEntry) (heap : List RetryEntry) (now late : ℕ) (ws : List Wake)
    → next_ready (e ∷ heap) now (ws ++ slept late ∷ []) ≢ none
unfolding next_ready
next_ready-ne-none e heap now late [] h = ground (arith, take_due-slept e heap now late)
next_ready-ne-none e heap now late (slept l ∷ ws) h = ground (arith, take_due-slept e heap now l)
next_ready-ne-none e heap now late (notified [] after ∷ ws) h =
    ground (arith, next_ready-ne-none e heap (now + after) late ws)
next_ready-ne-none e heap now late (notified (p ∷ ps) after ∷ ws) h =
    ground (arith, next_ready-ne-none p (ps ++ e ∷ heap) (now + after) late ws)
