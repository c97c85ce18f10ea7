-- ===== src/Sets.antt =====
-- The hash sets of numbers in src/session_runner.rs, as lists of their members.
use chronicle_worker.Prelude.{ℕ, ◌≡◌, Bool, false, List, [], ◌∷◌, arith, ◌==◌, ◌||◌, if◌then◌else◌}

-- HashSet::contains, insert
unfoldable pub contains : ℕ → List ℕ → Bool
contains k [] = false
contains k (j ∷ js) = j == k || contains k js

unfoldable pub add : ℕ → List ℕ → List ℕ
unfolding contains
add k js = if contains k js then js else k ∷ js

pub contains-add : (k j : ℕ) (js : List ℕ) → contains k (add j js) ≡ (j == k || contains k js)
unfolding contains add
contains-add k j js = ground arith
