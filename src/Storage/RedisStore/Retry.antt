-- ===== src/Storage/RedisStore/Retry.antt =====
-- pkg/storage/redis_store.go, get and put: how often a command is sent, and what becomes of its
-- reply.
use go_statemachine.Prelude.{
  ℕ, zero, suc, ◌^◌, ◌≤◌, ◌<◌, Text, ◌≡◌, ◌⊎◌, inl, inr, refl, ◌∙◌, ap, subst, Option, [], arith,
}
use go_statemachine.Go.Result.{Error, Result, ok}
use go_statemachine.Go.Action.{fail}
use go_statemachine.Storage.Errors.{too_many_attempts}
use go_statemachine.Storage.Redis.{Reply, answer, timeout, failure, Wire}
use go_statemachine.Storage.RedisStore.{
  RedisStore, decrement, after_get, get_loop, get, after_set, put_loop, put,
}

module _ {S : Type 0} {A : Type 0} (command : S → Reply A × S) where
  -- The command is sent `n` times, and each time the deadline passes.
  pub data TimesOut : ℕ → S → S → Type 0 where
    unsent : (s : S) → TimesOut zero s s
    resent :
        {n : ℕ} (s : S) {s' : S} (e : Error)
        → (command s).0 ≡ timeout e
        → TimesOut n (command s).1 s'
        → TimesOut (suc n) s s'

abbrev pub IsFinal : {A : Type 0} → Reply A → Type 0
IsFinal (answer a) = Unit
IsFinal (timeout e) = ⊥
IsFinal (failure e) = Unit

-- At most `left` attempts time out; then comes one more, and `finish` makes the result of its reply,
-- which is a timeout only if no attempt was left.
pub record Attempts {S A B : Type 0} (command : S → Reply A × S) (finish : Reply A × S → B)
    (left : ℕ) (s : S) (result : B) : Type 0 where
  pub timeouts : ℕ
  pub last : S
  pub bounded : timeouts ≤ left
  pub times_out : TimesOut command timeouts s last
  pub ends : IsFinal (command last).0 ⊎ (timeouts ≡ left)
  pub result_of_last : result ≡ finish (command last)

Reply-cases : {A : Type 0} (r : Reply A) → IsFinal r ⊎ ((e : Error) × (r ≡ timeout e))
Reply-cases (answer a) = inl tt
Reply-cases (timeout e) = inr (e, refl)
Reply-cases (failure e) = inl tt

still_ends :
    {A : Type 0} (r : Reply A) (n left : ℕ)
    → IsFinal r ⊎ (n ≡ left)
    → IsFinal r ⊎ (suc n ≡ suc left)
still_ends r n left (inl f) = inl f
still_ends r n left (inr e) = inr (ap suc e)

-- A loop that starts again after a timeout, as long as an attempt is left.
module _ {S A B : Type 0} (command : S → Reply A × S) (finish : Reply A × S → B) (loop : ℕ → S → B)
    (base : (s : S) → loop zero s ≡ finish (command s))
    (final : (left : ℕ) (s : S) → IsFinal (command s).0 → loop (suc left) s ≡ finish (command s))
    (retry : (left : ℕ) (s : S) (e : Error)
      → (command s).0 ≡ timeout e
      → loop (suc left) s ≡ loop left (command s).1) where
  loop-Attempts : (left : ℕ) (s : S) → Attempts command finish left s (loop left s)
  loop-Attempts zero s = record {
    timeouts = 0;
    last = s;
    bounded = omega arith;
    times_out = unsent s;
    ends = inr refl;
    result_of_last = base s;
  }
  loop-Attempts (suc left) s =
      let later = loop-Attempts left (command s).1 in
      elim (Reply-cases (command s).0) [
        | inl f ↦ record {
          timeouts = 0;
          last = s;
          bounded = omega arith;
          times_out = unsent s;
          ends = inl f;
          result_of_last = final left s f;
        }
        | inr (e, late) ↦ record {
          timeouts = suc later.timeouts;
          last = later.last;
          bounded = omega (arith, later.bounded);
          times_out = resent s e late later.times_out;
          ends = still_ends (command later.last).0 later.timeouts left later.ends;
          result_of_last = retry left s e late ∙ later.result_of_last;
        }
      ]

-- What put returns when its last attempt times out.
abbrev pub gives_up : {S : Type 0} → S → Result (Unit {0}) × S
gives_up = fail (too_many_attempts [])

module _ {S Bytes : Type 0} (csm : RedisStore S Bytes) where
  module _ {A : Type 0} (w : Wire Bytes A) (key : Text) where
    after_get_final :
        (again : Error → S → Result A × S) (r : Reply (Option Bytes) × S)
        → IsFinal r.0
        → after_get csm w key again r ≡ after_get csm w key fail r
    after_get_final again (answer o, s) f = refl
    after_get_final again (failure e, s) f = refl
    after_get_final again (timeout e, s) f = elim f [ ]

    after_get_timeout :
        (again : Error → S → Result A × S) (r : Reply (Option Bytes) × S) (e : Error)
        → r.0 ≡ timeout e
        → after_get csm w key again r ≡ again e r.1
    after_get_timeout again r e h =
        ap (λ (x : Reply (Option Bytes)). after_get csm w key again (x, r.1)) h

    -- `get` sends at most `left + 1` commands.
    pub get_loop-Attempts :
        (left : ℕ) (s : S)
        → Attempts
            (csm.client.get key)
            (after_get csm w key fail)
            left
            s
            (get_loop csm w key left s)
    unfolding get_loop
    get_loop-Attempts =
        loop-Attempts (csm.client.get key) (after_get csm w key fail) (get_loop csm w key)
          (λ s. refl)
          (λ left s f. after_get_final (λ e. get_loop csm w key left) (csm.client.get key s) f)
          (λ left s e h.
            after_get_timeout (λ e. get_loop csm w key left) (csm.client.get key s) e h)

    after_set_final :
        (again : S → Result (Unit {0}) × S) (r : Reply (Unit {0}) × S)
        → IsFinal r.0
        → after_set csm w key again r ≡ after_set csm w key gives_up r
    after_set_final again (answer u, s) f = refl
    after_set_final again (failure e, s) f = refl
    after_set_final again (timeout e, s) f = elim f [ ]

    after_set_timeout :
        (again : S → Result (Unit {0}) × S) (r : Reply (Unit {0}) × S) (e : Error)
        → r.0 ≡ timeout e
        → after_set csm w key again r ≡ again r.1
    after_set_timeout again r e h =
        ap (λ (x : Reply (Unit {0})). after_set csm w key again (x, r.1)) h

    pub put_loop-Attempts :
        (a : A) (b : Bytes) (ttl left : ℕ) (s : S)
        → w.marshal a ≡ ok b
        → Attempts
            (csm.client.set key b ttl)
            (after_set csm w key gives_up)
            left
            s
            (put_loop csm w key a ttl left s)
    unfolding put_loop
    put_loop-Attempts a b ttl left s h =
        loop-Attempts (csm.client.set key b ttl) (after_set csm w key gives_up)
          (put_loop csm w key a ttl) (λ s. rw h)
          (λ left s f.
            rw h (after_set_final (put_loop csm w key a ttl left) (csm.client.set key b ttl s) f))
          (λ left s e late.
            rw h (
              after_set_timeout (put_loop csm w key a ttl left) (csm.client.set key b ttl s) e
                late))
          left s

  -- get sends its command at most MaxRetries times, if that is positive: it stops at the first reply
  -- that is no timeout, and returns what this reply says, or the error of the last timeout.
  pub get-Attempts :
      {A : Type 0} (w : Wire Bytes A) (key : Text) (s : S) (left : ℕ)
      → csm.max_retries ≡ suc left
      → csm.max_retries < 2 ^ 64
      → Attempts (csm.client.get key) (after_get csm w key fail) left s (get csm w key s)
  get-Attempts w key s left e b =
      let same : decrement csm.max_retries ≡ left = omega arith in
      subst
        (λ (n : ℕ). Attempts (csm.client.get key) (after_get csm w key fail) n s (get csm w key s))
        same (get_loop-Attempts w key (decrement csm.max_retries) s)

  -- So does put, for a message that can be encoded; after the last timeout it returns TooManyAttempts.
  pub put-Attempts :
      {A : Type 0} (w : Wire Bytes A) (key : Text) (a : A) (bytes : Bytes) (ttl : ℕ) (s : S)
      (left : ℕ)
      → w.marshal a ≡ ok bytes
      → csm.max_retries ≡ suc left
      → csm.max_retries < 2 ^ 64
      → Attempts
          (csm.client.set key bytes ttl)
          (after_set csm w key gives_up)
          left
          s
          (put csm w key a ttl s)
  put-Attempts w key a bytes ttl s left m e b =
      let same : decrement csm.max_retries ≡ left = omega arith in
      subst
        (λ (n : ℕ).
          Attempts (csm.client.set key bytes ttl) (after_set csm w key gives_up) n s
            (put csm w key a ttl s))
        same (put_loop-Attempts w key a bytes ttl (decrement csm.max_retries) s m)
