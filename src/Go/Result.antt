-- ===== src/Go/Result.antt =====
-- The result of a Go call that returns `(value, error)`: a value, an error, known by its text, or a
-- panic, which nothing in the program recovers from.
use go_statemachine.Prelude.{Text}

abbrev pub Error : Type 0
Error = Text

pub data Result {ℓ} (A : Type ℓ) : Type ℓ where
  ok : A → Result A
  err : Error → Result A
  panic : Result A

infixl 5 ◌>>=◌ ◌>>◌
abbrev pub ◌>>=◌ {ℓ κ} : {A : Type ℓ} {B : Type κ} → Result A → (A → Result B) → Result B
ok a >>= f = f a
err e >>= f = err e
panic >>= f = panic

abbrev pub ◌>>◌ {ℓ κ} : {A : Type ℓ} {B : Type κ} → Result A → Result B → Result B
m >> k = m >>= λ _. k
