-- ===== src/Strings/Search.antt =====
-- The searches of Rust's `str` for a text within a text: prefixes, the first occurrence, and what
-- a text behind an occurrence does not change.
use mathlib.Core.List.{append_assoc, append-nil}
use chronicle_worker.Prelude.{
  ℕ, ◌≤◌, ◌≡◌, refl, ap, sym, ◌∙◌, inl, inr, Bool, Bool-cases, true, false, Option, none, some,
  List, [], ◌∷◌, ◌++◌, length, length-append, arith, ◌==◌, ==_refl, if◌then◌else◌,
}

-- str::strip_prefix
unfoldable pub strip_prefix : List ℕ → List ℕ → Option (List ℕ)
strip_prefix [] text = some text
strip_prefix (p ∷ ps) [] = none
strip_prefix (p ∷ ps) (c ∷ cs) = let rest = strip_prefix ps cs in if p == c then rest else none

unfoldable pub starts_with : List ℕ → List ℕ → Bool
unfolding strip_prefix
starts_with ps text = elim (strip_prefix ps text) [ none ↦ false | some _ ↦ true ]

abbrev replaced : List ℕ → Option (List ℕ) → List ℕ → List ℕ
replaced to none later = later
replaced to (some rest) later = to ++ rest

-- str::replacen(from, to, 1)
unfoldable pub replace_first : List ℕ → List ℕ → List ℕ → List ℕ
unfolding strip_prefix
replace_first ps to [] = replaced to (strip_prefix ps []) []
replace_first ps to (c ∷ cs) = replaced to (strip_prefix ps (c ∷ cs)) (c ∷ replace_first ps to cs)

abbrev behind : ℕ → Option (List ℕ × List ℕ) → Option (List ℕ × List ℕ)
behind c none = none
behind c (some (head, tail)) = some (c ∷ head, tail)

abbrev found_or : Option (List ℕ) → Option (List ℕ × List ℕ) → Option (List ℕ × List ℕ)
found_or none later = later
found_or (some rest) later = some ([], rest)

-- str::split_once
unfoldable pub split_once : List ℕ → List ℕ → Option (List ℕ × List ℕ)
unfolding strip_prefix
split_once ps [] = found_or (strip_prefix ps []) none
split_once ps (c ∷ cs) = found_or (strip_prefix ps (c ∷ cs)) (behind c (split_once ps cs))

abbrev followed : List ℕ → Option (List ℕ) → Option (List ℕ)
followed after none = none
followed after (some rest) = some (rest ++ after)

strip_prefix-append :
    (ps text after : List ℕ)
    → length ps ≤ length text
    → strip_prefix ps (text ++ after) ≡ followed after (strip_prefix ps text)
unfolding strip_prefix
strip_prefix-append [] text after h = refl
strip_prefix-append (p ∷ ps) [] after h = absurd (omega arith)
strip_prefix-append (p ∷ ps) (c ∷ cs) after h = elim (Bool-cases (p == c)) [
  | inl e ↦ rw e (strip_prefix-append ps cs after (omega arith))
  | inr e ↦ rw e refl
]

pub strip_prefix-found : (ps after : List ℕ) → strip_prefix ps (ps ++ after) ≡ some after
unfolding strip_prefix
strip_prefix-found [] after = refl
strip_prefix-found (p ∷ ps) after = rw (==_refl p) (strip_prefix-found ps after)

-- The part in front of the first occurrence.
abbrev pub head_of : Option (List ℕ × List ℕ) → Option (List ℕ)
head_of none = none
head_of (some (head, tail)) = some head

split_once-step :
    (c : ℕ) (found : Option (List ℕ)) (after : List ℕ) (later later' : Option (List ℕ × List ℕ))
    → head_of later ≡ head_of later'
    → head_of (found_or (followed after found) (behind c later))
      ≡ head_of (found_or found (behind c later'))
split_once-step c (some rest) after later later' e = refl
split_once-step c none after none none e = refl
split_once-step c none after (some a) (some b) e = grind arith
split_once-step c none after none (some b) e = grind arith
split_once-step c none after (some a) none e = grind arith

found_or-head :
    (found : Option (List ℕ)) (rest : List ℕ) (later : Option (List ℕ × List ℕ))
    → found ≡ some rest
    → head_of (found_or found later) ≡ some []
found_or-head (some rest') rest later e = refl
found_or-head none rest later e = grind arith

-- What is in front of the first occurrence does not depend on what is behind an occurrence.
pub split_once-head :
    (p : ℕ) (ps before after : List ℕ)
    → head_of (split_once (p ∷ ps) (before ++ ((p ∷ ps) ++ after)))
      ≡ head_of (split_once (p ∷ ps) (before ++ (p ∷ ps)))
unfolding split_once
split_once-head p ps [] after =
    found_or-head (strip_prefix (p ∷ ps) ((p ∷ ps) ++ after)) after _
      (strip_prefix-found (p ∷ ps) after)
    ∙ sym (
        found_or-head (strip_prefix (p ∷ ps) (p ∷ ps)) [] _
          (ap (strip_prefix (p ∷ ps)) (sym (append-nil (p ∷ ps))) ∙ strip_prefix-found (p ∷ ps) []))
split_once-head p ps (c ∷ cs) after =
    ap
      (λ found.
        head_of (found_or found (behind c (split_once (p ∷ ps) (cs ++ ((p ∷ ps) ++ after))))))
      (ap (strip_prefix (p ∷ ps)) (sym (append_assoc (c ∷ cs) (p ∷ ps) after))
        ∙ strip_prefix-append (p ∷ ps) (c ∷ (cs ++ (p ∷ ps))) after
            (omega (arith, length-append cs (p ∷ ps))))
    ∙ split_once-step c (strip_prefix (p ∷ ps) (c ∷ (cs ++ (p ∷ ps)))) after
        (split_once (p ∷ ps) (cs ++ ((p ∷ ps) ++ after))) (split_once (p ∷ ps) (cs ++ (p ∷ ps)))
        (split_once-head p ps cs after)

behind-found :
    (c : ℕ) (found : Option (List ℕ)) (later : Option (List ℕ × List ℕ)) (head : List ℕ)
    → head_of later ≡ some head
    → (first : List ℕ) × (head_of (found_or found (behind c later)) ≡ some first)
behind-found c (some rest) later head e = ([], refl)
behind-found c none (some (front, tail)) head e = (c ∷ front, refl)
behind-found c none none head e = absurd (grind arith)

pub split_once-found :
    (p : ℕ) (ps before after : List ℕ)
    → (head : List ℕ) × (head_of (split_once (p ∷ ps) (before ++ ((p ∷ ps) ++ after))) ≡ some head)
unfolding split_once
split_once-found p ps [] after = (
  [],
  found_or-head (strip_prefix (p ∷ ps) ((p ∷ ps) ++ after)) after _
      (strip_prefix-found (p ∷ ps) after),
)
split_once-found p ps (c ∷ cs) after =
    let (head, e) = split_once-found p ps cs after in
    behind-found c (strip_prefix (p ∷ ps) (c ∷ (cs ++ ((p ∷ ps) ++ after))))
      (split_once (p ∷ ps) (cs ++ ((p ∷ ps) ++ after))) head e
