-- ===== src/Grpc/Status.antt =====
-- What a call of the gRPC server returns: a message, a status with its code, an error that is passed
-- on as it is, or a panic.
use go_statemachine.Prelude.{ℕ, Text, ◌≡◌, ◌≢◌, refl, ap}
use go_statemachine.Go.Result.{Error, Result, ok, err, panic}

pub data Code : Type 0 where
  invalid_argument deadline_exceeded not_found already_exists failed_precondition unimplemented
        internal :
      Code
  -- a code that the program does not name
  other : ℕ → Code

pub data Rpc (A : Type 0) : Type 0 where
  reply : A → Rpc A
  status : Code → Text → Rpc A
  raw : Error → Rpc A
  crash : Rpc A

module _ {S A B : Type 0} where
  -- What follows a call of the store, for its value and for its error.
  abbrev pub after : (A → S → Rpc B × S) → (Error → S → Rpc B × S) → Result A × S → Rpc B × S
  after next failed (ok a, s) = next a s
  after next failed (err e, s) = failed e s
  after next failed (panic, s) = (crash, s)

-- A reply means that the call returned a value.
pub after_reply :
    {S A B : Type 0} (next : A → S → Rpc B × S) (failed : Error → S → Rpc B × S) (r : Result A × S)
    (b : B)
    → ((e : Error) (s : S) → (failed e s).0 ≢ reply b)
    → (after next failed r).0 ≡ reply b
    → (a : A) × (r.0 ≡ ok a) × (after next failed r ≡ next a r.1)
after_reply next failed (ok a, s) b n h = (a, refl, refl)
after_reply next failed (err e, s) b n h = absurd (n e s h)
after_reply next failed (panic, s) b n h = cc

pub after_err :
    {S A B : Type 0} (next : A → S → Rpc B × S) (failed : Error → S → Rpc B × S) (r : Result A × S)
    (e : Error)
    → r.0 ≡ err e
    → after next failed r ≡ failed e r.1
after_err next failed (ok a, s) e h = cc
after_err next failed (err d, s) e h = cc
after_err next failed (panic, s) e h = cc

pub after_ok :
    {S A B : Type 0} (next : A → S → Rpc B × S) (failed : Error → S → Rpc B × S) (r : Result A × S)
    (a : A)
    → r.0 ≡ ok a
    → after next failed r ≡ next a r.1
after_ok next failed (ok b, s) a h = ap (λ (r : Result _). after next failed (r, s)) h
after_ok next failed (err e, s) a h = cc
after_ok next failed (panic, s) a h = cc
