-- ===== src/Go/Regexp.antt =====
-- Package regexp, for patterns `^…$` that are sequences of byte classes, each with or without `+`.
pub mod Laws
use go_statemachine.Prelude.{
  ℕ, Text, Bool, true, false, not, ◌&&◌, ◌||◌, List, [], ◌∷◌, map, ◌≡◌, nat_eq, if◌then◌else◌,
}

pub data Item : Type 0 where
  one : (ℕ → Bool) → Item
  many : (ℕ → Bool) → Item

-- `\s`; `\S` is its complement.
abbrev pub is_space : ℕ → Bool
is_space c = nat_eq c 32 || nat_eq c 9 || nat_eq c 10 || nat_eq c 12 || nat_eq c 13

abbrev pub is_visible : ℕ → Bool
is_visible c = not (is_space c)

-- A text that stands for itself.
abbrev pub literal : Text → List Item
literal = map (λ c. one (nat_eq c))

-- What the package documents: the text as a whole is matched by the items in turn.
pub data Matches : List Item → Text → Type 0 where
  done : Matches [] []
  once :
      {p : ℕ → Bool} {is : List Item} {c : ℕ} {s : Text}
      → p c ≡ true
      → Matches is s
      → Matches (one p ∷ is) (c ∷ s)
  last :
      {p : ℕ → Bool} {is : List Item} {c : ℕ} {s : Text}
      → p c ≡ true
      → Matches is s
      → Matches (many p ∷ is) (c ∷ s)
  more :
      {p : ℕ → Bool} {is : List Item} {c : ℕ} {s : Text}
      → p c ≡ true
      → Matches (many p ∷ is) s
      → Matches (many p ∷ is) (c ∷ s)

-- The matcher: it tries the next item, and one more byte for this one.
unfoldable pub match : List Item → Text → Bool
match [] [] = true
match [] (c ∷ s) = false
match (i ∷ is) [] = false
match (one p ∷ is) (c ∷ s) = elim (p c) [ true ↦ match is s | false ↦ false ]
match (many p ∷ is) (c ∷ s) = elim (p c) [
  | true ↦ elim (match is s) [ true ↦ true | false ↦ match (many p ∷ is) s ]
  | false ↦ false
]
