-- ===== src/Strings/Csv.antt =====
-- Texts with separators, and blanks around their pieces.
use mathlib.Core.List.{append-nil}
use chronicle_worker.Prelude.{
  ℕ, ◌≡◌, refl, ap, sym, ◌∙◌, true, false, List, [], ◌∷◌, ◌++◌, arith, ◌==◌, All,
}
use chronicle_worker.Strings.{split, is_whitespace, trim_start, keep_before, trim_end, trim}

abbrev pub join : ℕ → List (List ℕ) → List ℕ
join sep [] = []
join sep (piece ∷ []) = piece
join sep (piece ∷ next ∷ pieces) = piece ++ (sep ∷ join sep (next ∷ pieces))

abbrev pub Lacks : ℕ → List ℕ → Type 0
Lacks sep = All (λ (c : ℕ). (c == sep) ≡ false)

split-piece : (sep : ℕ) (piece : List ℕ) → Lacks sep piece → split sep piece ≡ piece ∷ []
unfolding split
split-piece sep [] h = refl
split-piece sep (c ∷ cs) h = rw (h.0, split-piece sep cs h.1) refl

split-append :
    (sep : ℕ) (piece rest : List ℕ)
    → Lacks sep piece
    → split sep (piece ++ (sep ∷ rest)) ≡ piece ∷ split sep rest
unfolding split
split-append sep [] rest h = ground arith
split-append sep (c ∷ cs) rest h = rw (h.0, split-append sep cs rest h.1) refl

-- Pieces without the separator are what `split` makes of them joined. No piece at all is split
-- into one that is empty.
pub split-join :
    (sep : ℕ) (piece : List ℕ) (pieces : List (List ℕ))
    → All (Lacks sep) (piece ∷ pieces)
    → split sep (join sep (piece ∷ pieces)) ≡ piece ∷ pieces
split-join sep piece [] h = split-piece sep piece h.0
split-join sep piece (next ∷ pieces) h =
    split-append sep piece (join sep (next ∷ pieces)) h.0
    ∙ ap (◌∷◌ piece) (split-join sep next pieces h.1)

abbrev pub IsBlank : List ℕ → Type 0
IsBlank = All (λ (c : ℕ). is_whitespace c ≡ true)

abbrev pub IsSolid : List ℕ → Type 0
IsSolid = All (λ (c : ℕ). is_whitespace c ≡ false)

trim_start-append : (ws cs : List ℕ) → IsBlank ws → trim_start (ws ++ cs) ≡ trim_start cs
unfolding trim_start
trim_start-append [] cs h = refl
trim_start-append (c ∷ ws) cs h = rw h.0 (trim_start-append ws cs h.1)

trim_end-IsBlank : (ws : List ℕ) → IsBlank ws → trim_end ws ≡ []
unfolding trim_end
trim_end-IsBlank [] h = refl
trim_end-IsBlank (c ∷ ws) h = rw (trim_end-IsBlank ws h.1, h.0, keep_before) refl

trim_end-cons :
    (c : ℕ) (cs : List ℕ) → is_whitespace c ≡ false → trim_end (c ∷ cs) ≡ c ∷ trim_end cs
unfolding trim_end
trim_end-cons c cs h = ground arith

trim_end-append : (cs ws : List ℕ) → IsSolid cs → IsBlank ws → trim_end (cs ++ ws) ≡ cs
trim_end-append [] ws h k = trim_end-IsBlank ws k
trim_end-append (c ∷ cs) ws h k =
    trim_end-cons c (cs ++ ws) h.0 ∙ ap (◌∷◌ c) (trim_end-append cs ws h.1 k)

trim_start-solid : (c : ℕ) (cs : List ℕ) → is_whitespace c ≡ false → trim_start (c ∷ cs) ≡ c ∷ cs
unfolding trim_start
trim_start-solid c cs h = rw h refl

-- Blanks are trimmed from around a text without blanks.
pub trim-padded :
    (before cs after : List ℕ)
    → IsBlank before
    → IsSolid cs
    → IsBlank after
    → trim (before ++ (cs ++ after)) ≡ cs
unfolding trim trim_start trim_end
trim-padded before [] after b s a = ap trim_end (
    trim_start-append before after b
    ∙ ap trim_start (sym (append-nil after))
    ∙ trim_start-append after [] a)
trim-padded before (c ∷ cs) after b s a =
    ap trim_end
      (trim_start-append before ((c ∷ cs) ++ after) b ∙ trim_start-solid c (cs ++ after) s.0)
    ∙ trim_end-append (c ∷ cs) after s a
