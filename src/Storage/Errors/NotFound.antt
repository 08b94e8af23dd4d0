-- ===== src/Storage/Errors/NotFound.antt =====
-- pkg/storage/types.go, IsNotFoundErr: which errors it recognises.
use go_statemachine.Prelude.{
  ℕ, suc, ◌+◌, ◌≤◌, Text, text, ◌≡◌, refl, true, false, List, [], ◌∷◌, ◌++◌, All, arith, inl, inr,
  if◌then◌else◌, Bool-cases, length,
}
use go_statemachine.Go.Regexp.{
  Item, one, many, is_space, is_visible, Matches, once, last, more, match,
}
use go_statemachine.Go.Regexp.Laws.{match_iff}
use go_statemachine.Storage.Errors.{
  not_found_error, not_found_pattern, not_found_tail, is_not_found_err,
}

-- Not empty and without whitespace.
abbrev pub IsWord : Text → Type 0
IsWord [] = ⊥
IsWord (c ∷ s) = All (λ b. is_visible b ≡ true) (c ∷ s)

word-Matches :
    (c : ℕ) (s t : Text) (is : List Item)
    → All (λ b. is_visible b ≡ true) (c ∷ s)
    → Matches is t
    → Matches (many is_visible ∷ is) (c ∷ (s ++ t))
word-Matches c [] t is h m = last h.0 m
word-Matches c (d ∷ s) t is h m = more h.0 (word-Matches d s t is h.1 m)

-- NotFoundError of a key without whitespace is recognised.
pub is_not_found_err-word :
    (key : Text) → IsWord key → is_not_found_err (not_found_error key) ≡ true
unfolding is_not_found_err
is_not_found_err-word [] h = elim h [ ]
is_not_found_err-word (c ∷ s) h =
    let behind : Matches (many is_space ∷ not_found_tail) (text " not found") =
      (match_iff (many is_space ∷ not_found_tail) (text " not found")).0 (unfold match in refl) in
    let whole : Matches not_found_pattern (not_found_error (c ∷ s)) =
      once refl (once refl (once refl (last refl (word-Matches c s _ _ h behind)))) in
    (match_iff not_found_pattern (not_found_error (c ∷ s))).1 whole

-- Bytes that are not whitespace.
abbrev visible : Text → ℕ
visible [] = 0
visible (c ∷ s) = if is_space c then visible s else suc (visible s)

visible-le-length : (s : Text) → visible s ≤ length s
visible-le-length [] = omega arith
visible-le-length (c ∷ s) = ground (arith, visible-le-length s)

visible-append : (s t : Text) → visible (s ++ t) ≡ visible s + visible t
visible-append [] t = omega arith
visible-append (c ∷ s) t = ground (arith, visible-append s t)

abbrev IsOne : Item → Type 0
IsOne (one p) = Unit
IsOne (many p) = ⊥

length-match : (is : List Item) (s : Text) → All IsOne is → match is s ≡ true → length s ≡ length is
unfolding match
length-match [] [] h m = refl
length-match [] (c ∷ s) h m = cc
length-match (one p ∷ is) [] h m = cc
length-match (one p ∷ is) (c ∷ s) h m = ground (arith, length-match is s h.1)
length-match (many p ∷ is) s h m = elim h.0 [ ]

visible-match_tail : (s : Text) → match not_found_tail s ≡ true → visible s ≤ 9
visible-match_tail s m =
    omega (arith, visible-le-length s, length-match not_found_tail s (omega arith) m)

visible-match : (s : Text) → match (many is_space ∷ not_found_tail) s ≡ true → visible s ≤ 9
unfolding match
visible-match [] m = omega arith
visible-match (c ∷ s) m = ground (arith, visible-match_tail s, visible-match s)

long_text : (s : Text) → 10 ≤ visible s → match not_found_tail s ≡ false
long_text s h = elim (Bool-cases (match not_found_tail s)) [
  | inl m ↦ absurd (omega (arith, visible-match_tail s m))
  | inr m ↦ m
]

long_rest : (s : Text) → 10 ≤ visible s → match (many is_space ∷ not_found_tail) s ≡ false
long_rest s h = elim (Bool-cases (match (many is_space ∷ not_found_tail) s)) [
  | inl m ↦ absurd (omega (arith, visible-match s m))
  | inr m ↦ m
]

key_key : (s : Text) → 10 ≤ visible s → is_not_found_err (text "key key " ++ s) ≡ false
unfolding is_not_found_err match
key_key s h = rw (long_text s h, long_rest s h)

-- NotFoundError of another NotFoundError's text is not recognised.
pub is_not_found_err-twice :
    (key : Text) → is_not_found_err (not_found_error (not_found_error key)) ≡ false
is_not_found_err-twice key =
    let suffix = text " not found" in
    key_key ((key ++ suffix) ++ suffix)
      (omega (arith, visible-append (key ++ suffix) suffix, visible-append key suffix))
