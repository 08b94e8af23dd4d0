-- ===== src/Go/Strings/Laws.antt =====
-- The first part of a split, and texts that a separator cuts in only one way.
use go_statemachine.Prelude.{ℕ, Text, ◌≡◌, ◌≢◌, refl, List, [], ◌∷◌, ◌++◌, All, arith}
use go_statemachine.Go.Strings.{extend, split, head}

-- The byte `sep` does not stand in the text.
abbrev pub Lacks : ℕ → Text → Type 0
Lacks sep s = All (λ c. c ≢ sep) s

pub Lacks-append : (sep : ℕ) (s t : Text) → Lacks sep s → Lacks sep t → Lacks sep (s ++ t)
Lacks-append sep [] t h k = k
Lacks-append sep (c ∷ s) t h k = (h.0, Lacks-append sep s t h.1 k)

pub not-Lacks-append : (sep : ℕ) (s t : Text) → ¬ Lacks sep (s ++ sep ∷ t)
not-Lacks-append sep [] t h = h.0 refl
not-Lacks-append sep (c ∷ s) t h = not-Lacks-append sep s t h.1

head-extend : (c : ℕ) (parts : List Text) → head (extend c parts) ≡ c ∷ head parts
head-extend c [] = refl
head-extend c (s ∷ rest) = refl

-- What stands before the first separator is the first part.
pub head-split-append : (sep : ℕ) (s t : Text) → Lacks sep s → head (split (s ++ sep ∷ t) sep) ≡ s
unfolding split
head-split-append sep [] t h = ground arith
head-split-append sep (c ∷ s) t h =
    ground (arith, head-split-append sep s t, head-extend c (split (s ++ sep ∷ t) sep))

pub cut_unique :
    (sep : ℕ) (a b s t : Text)
    → Lacks sep a
    → Lacks sep b
    → a ++ sep ∷ s ≡ b ++ sep ∷ t
    → (a ≡ b) × (s ≡ t)
cut_unique sep [] [] s t ha hb e = ground arith
cut_unique sep [] (d ∷ b) s t ha hb e = ground arith
cut_unique sep (c ∷ a) [] s t ha hb e = ground arith
cut_unique sep (c ∷ a) (d ∷ b) s t ha hb e = ground (arith, cut_unique sep a b s t)
