-- ===== src/EventLoop/Entries.antt =====
-- src/event_loop.rs: what holds of all tasks or entries, after a change and at one that is looked up.
use chronicle_worker.Prelude.{
  ◌≡◌, refl, sym, ◌∙◌, inl, inr, Bool-cases, List, [], ◌∷◌, some, arith, All, ◌==◌, ==→eq,
}
use mathlib.Core.Path.{subst}
use chronicle_worker.Ids.{SessionId}
use chronicle_worker.EventLoop.{Task, TaskId, ActiveMap, lookup, remove, find_task, change_task}
use chronicle_worker.EventLoop.Kept.{IsSameRun, if_motive}

pub same_run :
    (Q : TaskId → SessionId → Type 0) (t u : Task)
    → IsSameRun u t
    → Q t.id t.session
    → Q u.id u.session
same_run Q t u (i, s, _) h = subst (λ id. Q id u.session) (sym i) (subst (Q t.id) (sym s) h)

pub change_task-runs :
    (Q : TaskId → SessionId → Type 0) (id : TaskId) (f : Task → Task) (tasks : List Task)
    → ((t : Task) → IsSameRun (f t) t)
    → All (λ (t : Task). Q t.id t.session) tasks
    → All (λ (t : Task). Q t.id t.session) (change_task id f tasks)
unfolding change_task
change_task-runs Q id f [] same h = tt
change_task-runs Q id f (t ∷ tasks) same h =
    if_motive (All (λ (t : Task). Q t.id t.session)) (t.id == id) (f t ∷ tasks)
      (t ∷ change_task id f tasks) (same_run Q t (f t) (same t) h.0, h.1)
      (h.0, change_task-runs Q id f tasks same h.1)

pub All-map :
    {A : Type 0} (P Q : A → Type 0) (xs : List A) → ((a : A) → P a → Q a) → All P xs → All Q xs
All-map P Q [] f h = tt
All-map P Q (x ∷ xs) f h = (f x h.0, All-map P Q xs f h.1)

pub All-remove :
    (P : SessionId × TaskId → Type 0) (session : SessionId) (m : ActiveMap)
    → All P m
    → All P (remove session m)
unfolding remove
All-remove P session [] h = tt
All-remove P session ((j, v) ∷ m) h = elim (Bool-cases (j == session)) [
  | inl e ↦ rw e (All-remove P session m h.1)
  | inr e ↦ rw e (h.0, All-remove P session m h.1)
]

pub lookup-All :
    (P : SessionId × TaskId → Type 0) (m : ActiveMap) (session : SessionId) (id : TaskId)
    → lookup session m ≡ some id
    → All P m
    → P (session, id)
unfolding lookup
lookup-All P [] session id e h = absurd (grind arith)
lookup-All P ((j, v) ∷ m) session id e h = elim (Bool-cases (j == session)) [
  | inl hit ↦
      let found : lookup session ((j, v) ∷ m) ≡ some v = rw hit refl in
      let key : j ≡ session = ==→eq j session hit in
      let number : v ≡ id = cc in
      subst (λ id. P (session, id)) number (subst (λ k. P (k, v)) key h.0)
  | inr miss ↦
      let later : lookup session ((j, v) ∷ m) ≡ lookup session m = rw miss refl in
      lookup-All P m session id (sym later ∙ e) h.1
]

pub find_task-All :
    (P : Task → Type 0) (tasks : List Task) (id : TaskId) (task : Task)
    → find_task id tasks ≡ some task
    → All P tasks
    → P task × (task.id ≡ id)
unfolding find_task
find_task-All P [] id task e h = absurd (grind arith)
find_task-All P (t ∷ tasks) id task e h = elim (Bool-cases (t.id == id)) [
  | inl hit ↦
      let found : find_task id (t ∷ tasks) ≡ some t = rw hit refl in
      let this : t ≡ task = cc in
      subst (λ task. P task × (task.id ≡ id)) this (h.0, ==→eq t.id id hit)
  | inr miss ↦
      let later : find_task id (t ∷ tasks) ≡ find_task id tasks = rw miss refl in
      find_task-All P tasks id task (sym later ∙ e) h.1
]
