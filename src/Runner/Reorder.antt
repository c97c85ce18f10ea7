-- ===== src/Runner/Reorder.antt =====
-- The reorder buffer of `ingest_one` in src/session_runner.rs: what the three maps hold for one
-- speaker, and the chunks that go to the pipeline when one more arrives. The BTreeMap, which is
-- never iterated, is a list of keys with their bytes.
pub mod Buffer
pub mod Drain
pub mod Tidy
pub mod Order
pub mod Gap
use chronicle_worker.Prelude.{
  ℕ, zero, suc, ◌+◌, ◌%◌, List, [], ◌∷◌, ◌++◌, Option, none, some, ◌==◌, length, if◌then◌else◌,
}
use chronicle_worker.Sets.{contains, add}

abbrev pub Bytes : Type 0
Bytes = List ℕ

abbrev pub Chunk : Type 0
Chunk = ℕ × Bytes

abbrev pub Pending : Type 0
Pending = List Chunk

-- BTreeMap: the value at a key, `insert`, and the map that `remove` leaves
unfoldable pub lookup : ℕ → Pending → Option Bytes
lookup n [] = none
lookup n ((seq, bytes) ∷ buf) = if seq == n then some bytes else lookup n buf

unfoldable pub insert : ℕ → Bytes → Pending → Pending
insert n bytes [] = (n, bytes) ∷ []
insert n bytes ((seq, old) ∷ buf) =
    let later = insert n bytes buf in if seq == n then (n, bytes) ∷ buf else (seq, old) ∷ later

unfoldable pub without : ℕ → Pending → Pending
without n [] = []
without n ((seq, bytes) ∷ buf) =
    let rest = without n buf in if seq == n then rest else (seq, bytes) ∷ rest

-- `+ 1` on a u32, which wraps in a release build.
abbrev pub u32_limit : ℕ
u32_limit = 4294967296

unfoldable pub next_seq : ℕ → ℕ
next_seq n = (n + 1) % u32_limit

-- The entries of `processed`, `pending` and `next_expected` at one speaker; an absent entry is the
-- default that `entry(…).or_default()` puts there.
pub record Speaker : Type 0 where
  pub processed : List ℕ
  pub pending : Pending
  pub next_expected : ℕ

abbrev pub fresh : Speaker
fresh = record { processed = []; pending = []; next_expected = 0 }

-- while let Some(b) = buf.remove(next) { … }: the chunks taken, the next number and the buffer left.
-- Each round takes an entry out, so the buffer's length is fuel enough.
unfoldable pub drain : ℕ → ℕ → Pending → List Chunk × ℕ × Pending
unfolding lookup without next_seq
drain zero next buf = ([], next, buf)
drain (suc fuel) next buf =
    let rest = drain fuel (next_seq next) (without next buf) in
    elim (lookup next buf) [
      | none ↦ ([], next, buf)
      | some b ↦ ((next, b) ∷ rest.0, rest.1, rest.2)
    ]

-- Where the chunk that has been downloaded goes: into the buffer, or to the pipeline with the
-- buffered ones that follow it. The list is `ordered`.
unfoldable pub arrange : Speaker → ℕ → Bytes → List Chunk × Speaker
unfolding insert drain next_seq
arrange sp seq bytes =
    let taken = drain (length sp.pending) (next_seq seq) sp.pending in
    if seq == sp.next_expected
    then ((seq, bytes) ∷ taken.0, record sp { pending = taken.2; next_expected = taken.1 })
    else ([], record sp { pending = insert seq bytes sp.pending })

-- seen.insert(s), for each chunk that is fed
unfoldable pub mark : List Chunk → List ℕ → List ℕ
mark [] seen = seen
mark ((s, _) ∷ rest) seen = mark rest (add s seen)

-- What the arrival of a chunk feeds to the pipeline, and the bookkeeping after it.
unfoldable pub arrive : Speaker → Chunk → List Chunk × Speaker
unfolding contains arrange mark
arrive sp (seq, bytes) =
    let (ordered, sp') = arrange sp seq bytes in
    if contains seq sp.processed
    then ([], sp)
    else (ordered, record sp' { processed = mark ordered sp.processed })

-- A sequence of arrivals: all that is fed, in order.
unfoldable pub arrivals : Speaker → List Chunk → List Chunk × Speaker
unfolding arrive
arrivals sp [] = ([], sp)
arrivals sp (c ∷ cs) =
    let (fed, sp') = arrive sp c in let (later, sp'') = arrivals sp' cs in (fed ++ later, sp'')
