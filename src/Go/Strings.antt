-- ===== src/Go/Strings.antt =====
-- The functions of package strings that the code calls. A separator of Split is one byte there.
pub mod Laws
use go_statemachine.Prelude.{
  ℕ, Text, Bool, true, false, ◌&&◌, ◌||◌, List, [], ◌∷◌, ◌++◌, nat_eq, if◌then◌else◌,
}

-- strings.Join
abbrev pub join : List Text → Text → Text
join [] sep = []
join (s ∷ []) sep = s
join (s ∷ t ∷ rest) sep = s ++ (sep ++ join (t ∷ rest) sep)

-- One more byte at the front of the first part.
abbrev extend : ℕ → List Text → List Text
extend c [] = (c ∷ []) ∷ []
extend c (s ∷ rest) = (c ∷ s) ∷ rest

-- strings.Split; the result is never empty.
unfoldable pub split : Text → ℕ → List Text
split [] sep = [] ∷ []
split (c ∷ s) sep = let parts = split s sep in if nat_eq c sep then [] ∷ parts else extend c parts

-- strings.Split(s, sep)[0]
abbrev pub head : List Text → Text
head [] = []
head (s ∷ rest) = s

-- strings.HasPrefix
abbrev pub has_prefix : Text → Text → Bool
has_prefix s [] = true
has_prefix [] (c ∷ prefix) = false
has_prefix (d ∷ s) (c ∷ prefix) = nat_eq d c && has_prefix s prefix

-- strings.Contains
unfoldable pub contains : Text → Text → Bool
contains [] sub = has_prefix [] sub
contains (c ∷ s) sub = let later = contains s sub in has_prefix (c ∷ s) sub || later
