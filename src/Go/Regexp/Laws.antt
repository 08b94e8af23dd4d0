-- ===== src/Go/Regexp/Laws.antt =====
-- The matcher decides the relation that the package documents.
use go_statemachine.Prelude.{Text, ◌≡◌, ◌↔◌, refl, true, List, [], ◌∷◌, arith, inl, inr, Bool-cases}
use go_statemachine.Go.Regexp.{Item, one, many, Matches, done, once, last, more, match}

match_complete : {is : List Item} {s : Text} → Matches is s → match is s ≡ true
unfolding match
match_complete done = refl
match_complete (once h m) = rw h (match_complete m)
match_complete (last h m) = ground (arith, match_complete m)
match_complete (more h m) = ground (arith, match_complete m)

match_sound : (is : List Item) (s : Text) → match is s ≡ true → Matches is s
unfolding match
match_sound [] [] h = done
match_sound [] (c ∷ s) h = cc
match_sound (one p ∷ is) [] h = cc
match_sound (many p ∷ is) [] h = cc
match_sound (one p ∷ is) (c ∷ s) h = elim (Bool-cases (p c)) [
  | inl e ↦ once e (match_sound is s (ground arith))
  | inr e ↦ cc
]
match_sound (many p ∷ is) (c ∷ s) h = elim (Bool-cases (p c)) [
  | inl e ↦ elim (Bool-cases (match is s)) [
    | inl m ↦ last e (match_sound is s m)
    | inr m ↦ more e (match_sound (many p ∷ is) s (ground arith))
  ]
  | inr e ↦ cc
]

pub match_iff : (is : List Item) (s : Text) → (match is s ≡ true) ↔ Matches is s
match_iff is s = (match_sound is s, match_complete)
