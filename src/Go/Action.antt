-- ===== src/Go/Action.antt =====
-- Methods that change a state `S` and return a `Result`. What was written before an error or a panic
-- stays written, so the state comes back beside each of them.
use go_statemachine.Prelude.{◌≡◌, refl, ap}
use go_statemachine.Go.Result.{Error, Result, ok, err, panic}

abbrev pub Action : Type 0 → Type 0 → Type 0
Action S A = S → Result A × S

module _ {S A : Type 0} where
  abbrev pub return : A → Action S A
  return a s = (ok a, s)

  abbrev pub fail : Error → Action S A
  fail e s = (err e, s)

  -- A call that touches no state.
  abbrev pub lift : Result A → Action S A
  lift r s = (r, s)

  -- What follows `if err != nil`: every error is replaced by another.
  abbrev pub on_err : (Error → Error) → Result A × S → Result A × S
  on_err f (ok a, s) = (ok a, s)
  on_err f (err e, s) = (err (f e), s)
  on_err f (panic, s) = (panic, s)

module _ {S A B : Type 0} where
  abbrev pub continue : (A → Action S B) → Result A × S → Result B × S
  continue f (ok a, s) = f a s
  continue f (err e, s) = (err e, s)
  continue f (panic, s) = (panic, s)

  infixl 5 ◌>>=◌ ◌>>◌
  abbrev pub ◌>>=◌ : Action S A → (A → Action S B) → Action S B
  ◌>>=◌ m f s = continue f (m s)

  abbrev pub ◌>>◌ : Action S A → Action S B → Action S B
  m >> k = m >>= λ _. k

  -- A chain that ends well has passed its first part.
  pub continue-eq-ok :
      (f : A → Action S B) (m : Result A × S) {b : B}
      → (continue f m).0 ≡ ok b
      → (a : A) × (m.0 ≡ ok a) × (continue f m ≡ f a m.1)
  continue-eq-ok f (ok a, s) h = (a, refl, refl)
  continue-eq-ok f (err e, s) h = cc
  continue-eq-ok f (panic, s) h = cc

  pub continue_ok :
      (f : A → Action S B) (m : Result A × S) (a : A) → m.0 ≡ ok a → continue f m ≡ f a m.1
  continue_ok f (ok b, s) a h = ap (λ (r : Result _). continue f (r, s)) h
  continue_ok f (err e, s) a h = cc
  continue_ok f (panic, s) a h = cc

  -- What both parts of a chain keep, the chain keeps.
  pub continue-keeps {ℓ} :
      {X : Type ℓ} (view : S → X) (f : A → Action S B) (m : Result A × S)
      → ((a : A) (s : S) → view (f a s).1 ≡ view s)
      → view (continue f m).1 ≡ view m.1
  continue-keeps view f (ok a, s) k = k a s
  continue-keeps view f (err e, s) k = refl
  continue-keeps view f (panic, s) k = refl
