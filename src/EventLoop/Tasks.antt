-- ===== src/EventLoop/Tasks.antt =====
-- src/event_loop.rs: the task that a number leads to.
use mathlib.Core.Path.{subst}
use chronicle_worker.Prelude.{
  ◌≡◌, refl, ap, sym, ◌∙◌, inl, inr, Bool-cases, true, List, [], ◌∷◌, ◌++◌, some, ◌==◌, ==→eq,
  arith,
}
use chronicle_worker.EventLoop.{Task, TaskId, find_task, change_task}

pub find_task-id :
    (id : TaskId) (tasks : List Task) (task : Task) → find_task id tasks ≡ some task → task.id ≡ id
unfolding find_task
find_task-id id [] task e = absurd (grind arith)
find_task-id id (t ∷ tasks) task e = elim (Bool-cases (t.id == id)) [
  | inl hit ↦
      let found : find_task id (t ∷ tasks) ≡ some t = rw hit refl in
      let this : t ≡ task = cc in subst (λ (u : Task). u.id ≡ id) this (==→eq t.id id hit)
  | inr miss ↦
      let later : find_task id (t ∷ tasks) ≡ find_task id tasks = rw miss refl in
      find_task-id id tasks task (sym later ∙ e)
]

pub find_task-change_task :
    (id : TaskId) (f : Task → Task) (tasks : List Task) (task : Task)
    → ((t : Task) → (f t).id ≡ t.id)
    → find_task id tasks ≡ some task
    → find_task id (change_task id f tasks) ≡ some (f task)
unfolding find_task change_task
find_task-change_task id f [] task same e = absurd (grind arith)
find_task-change_task id f (t ∷ tasks) task same e = elim (Bool-cases (t.id == id)) [
  | inl hit ↦
      let found : find_task id (t ∷ tasks) ≡ some t = rw hit refl in
      let this : t ≡ task = cc in
      let changed : ((f t).id == id) ≡ true = ap (λ i. i == id) (same t) ∙ hit in
      rw (hit, changed) (ap (λ u. some (f u)) this)
  | inr miss ↦
      let later : find_task id (t ∷ tasks) ≡ find_task id tasks = rw miss refl in
      rw (miss, miss) (find_task-change_task id f tasks task same (sym later ∙ e))
]

-- The task that is found stands somewhere in the list, and a change takes place there.
pub find_task-split :
    (id : TaskId) (f : Task → Task) (tasks : List Task) (task : Task)
    → find_task id tasks ≡ some task
    → (before : List Task) × (after : List Task) × (tasks ≡ before ++ task ∷ after)
      × (change_task id f tasks ≡ before ++ f task ∷ after)
unfolding find_task change_task
find_task-split id f [] task e = absurd (grind arith)
find_task-split id f (t ∷ tasks) task e = elim (Bool-cases (t.id == id)) [
  | inl hit ↦
      let found : find_task id (t ∷ tasks) ≡ some t = rw hit refl in
      let this : t ≡ task = cc in
      let changed : change_task id f (t ∷ tasks) ≡ f t ∷ tasks = rw hit refl in
      ([], tasks, ap (λ u. u ∷ tasks) this, changed ∙ ap (λ u. f u ∷ tasks) this)
  | inr miss ↦
      let later : find_task id (t ∷ tasks) ≡ find_task id tasks = rw miss refl in
      let kept : change_task id f (t ∷ tasks) ≡ t ∷ change_task id f tasks = rw miss refl in
      let (before, after, split, changed) = find_task-split id f tasks task (sym later ∙ e) in
      (t ∷ before, after, ap (◌∷◌ t) split, kept ∙ ap (◌∷◌ t) changed)
]
