-- ===== src/Storage/RedisStore/Values.antt =====
-- pkg/storage/redis_store.go, get and put: what is stored at a key is what is read there.
use go_statemachine.Prelude.{
  ℕ, zero, suc, ◌≤◌, Text, subst, ◌≡◌, ◌≢◌, ◌⊎◌, inl, inr, refl, ◌∙◌, sym, ap, Option, none, some,
}
use go_statemachine.Go.Result.{Error, Result, ok, err, panic}
use go_statemachine.Go.Action.{fail}
use go_statemachine.Storage.Redis.{Reply, answer, timeout, failure, Cell, absent, value, Wire, Laws}
use go_statemachine.Storage.RedisStore.{
  RedisStore, decrement, after_get, get, after_set, store, put_loop, put,
}
use go_statemachine.Storage.RedisStore.Retry.{
  TimesOut, unsent, resent, Attempts, IsFinal, gives_up, get_loop-Attempts, put_loop-Attempts,
}

TimesOut-keeps :
    {S A X : Type 0} (command : S → Reply A × S) (f : S → X) {n : ℕ} {s s' : S}
    → ((t : S) → f (command t).1 ≡ f t)
    → TimesOut command n s s'
    → f s' ≡ f s
TimesOut-keeps command f keep (unsent s) = refl
TimesOut-keeps command f keep (resent s e h t) = TimesOut-keeps command f keep t ∙ keep s

abbrev HasNoAnswer : {A : Type 0} → Reply A → Type 0
HasNoAnswer (answer a) = ⊥
HasNoAnswer (timeout e) = Unit
HasNoAnswer (failure e) = Unit

-- What get sends for a key has no answer: an attempt fails, behind timeouts only, or all the attempts
-- of MaxRetries time out.
pub data Unanswered {S Bytes : Type 0} (csm : RedisStore S Bytes) (key : Text) (s : S)
    : Type 0 where
  fails :
      {n : ℕ} {t : S} (e : Error)
      → n ≤ decrement csm.max_retries
      → TimesOut (csm.client.get key) n s t
      → (csm.client.get key t).0 ≡ failure e
      → Unanswered csm key s
  all_time_out :
      {t : S} (e : Error)
      → TimesOut (csm.client.get key) (decrement csm.max_retries) s t
      → (csm.client.get key t).0 ≡ timeout e
      → Unanswered csm key s

HasNoAnswer-cases :
    {A : Type 0} (r : Reply A)
    → HasNoAnswer r
    → ((e : Error) × (r ≡ failure e)) ⊎ ((e : Error) × (r ≡ timeout e))
HasNoAnswer-cases (answer a) h = elim h [ ]
HasNoAnswer-cases (timeout e) h = inr (e, refl)
HasNoAnswer-cases (failure e) h = inl (e, refl)

-- The key holds the encoded message.
abbrev pub Stored :
    {S Bytes A : Type 0} (csm : RedisStore S Bytes) → Wire Bytes A → Text → A → S → Type 0
Stored {Bytes} csm w key a s =
    (b : Bytes) × (w.marshal a ≡ ok b) × (csm.client.look s key ≡ value b)

-- What the key holds is decoded as the message.
abbrev pub Reads :
    {S Bytes A : Type 0} (csm : RedisStore S Bytes) → Wire Bytes A → Text → A → S → Type 0
Reads {Bytes} csm w key a s =
    (b : Bytes) × (csm.client.look s key ≡ value b) × (w.unmarshal b ≡ ok a)

module _ {S Bytes : Type 0} (csm : RedisStore S Bytes) (laws : Laws csm.client) where
  module _ {A : Type 0} (w : Wire Bytes A) (key : Text) where
    after_get_state : (r : Reply (Option Bytes) × S) → (after_get csm w key fail r).1 ≡ r.1
    after_get_state (answer o, s) = refl
    after_get_state (timeout e, s) = refl
    after_get_state (failure e, s) = refl

    after_set_state : (r : Reply (Unit {0}) × S) → (after_set csm w key gives_up r).1 ≡ r.1
    after_set_state (answer u, s) = refl
    after_set_state (timeout e, s) = refl
    after_set_state (failure e, s) = refl

    -- Reading changes no key.
    pub look-get : (j : Text) (s : S) → csm.client.look (get csm w key s).1 j ≡ csm.client.look s j
    look-get j s =
        let a = get_loop-Attempts csm w key (decrement csm.max_retries) s in
        ap (λ (r : Result A × S). csm.client.look r.1 j) a.result_of_last
        ∙ ap (λ t. csm.client.look t j) (after_get_state (csm.client.get key a.last))
        ∙ laws.look-get key j a.last
        ∙ TimesOut-keeps (csm.client.get key) (λ t. csm.client.look t j) (laws.look-get key j)
            a.times_out

    marshal_cases : (r : Result Bytes) → ((b : Bytes) × (r ≡ ok b)) ⊎ ((b : Bytes) → r ≢ ok b)
    marshal_cases (ok b) = inl (b, refl)
    marshal_cases _ = inr (λ b h. cc)

    store_fails :
        (again : S → Result (Unit {0}) × S) (ttl : ℕ) (m : Result Bytes) (s : S)
        → ((b : Bytes) → m ≢ ok b)
        → ((store csm w key again ttl m s).1 ≡ s) × ((store csm w key again ttl m s).0 ≢ ok tt)
    store_fails again ttl (ok b) s n = absurd (n b refl)
    store_fails again ttl (err e) s n = (refl, λ h. cc)
    store_fails again ttl panic s n = (refl, λ h. cc)

    -- A message that cannot be encoded is not stored.
    put_loop_fails :
        (a : A) (ttl left : ℕ) (s : S)
        → ((b : Bytes) → w.marshal a ≢ ok b)
        → ((put_loop csm w key a ttl left s).1 ≡ s) × ((put_loop csm w key a ttl left s).0 ≢ ok tt)
    unfolding put_loop
    put_loop_fails a ttl zero s n = store_fails gives_up ttl (w.marshal a) s n
    put_loop_fails a ttl (suc left) s n =
        store_fails (put_loop csm w key a ttl left) ttl (w.marshal a) s n

    -- Storing changes no other key, whatever comes of it.
    pub look-put :
        (a : A) (ttl : ℕ) (j : Text) (s : S)
        → key ≢ j
        → csm.client.look (put csm w key a ttl s).1 j ≡ csm.client.look s j
    look-put a ttl j s n = elim (marshal_cases (w.marshal a)) [
      | inr bad ↦
          ap (λ t. csm.client.look t j) (put_loop_fails a ttl (decrement csm.max_retries) s bad).0
      | inl (b, h) ↦
          let t = put_loop-Attempts csm w key a b ttl (decrement csm.max_retries) s h in
          ap (λ (r : Result (Unit {0}) × S). csm.client.look r.1 j) t.result_of_last
          ∙ ap (λ u. csm.client.look u j) (after_set_state (csm.client.set key b ttl t.last))
          ∙ laws.set_frame key j b ttl t.last n
          ∙ TimesOut-keeps (csm.client.set key b ttl) (λ u. csm.client.look u j)
              (λ u. laws.set_frame key j b ttl u n) t.times_out
    ]

    answered_set :
        (r : Reply (Unit {0}) × S) → (after_set csm w key gives_up r).0 ≡ ok tt → r.0 ≡ answer tt
    answered_set (answer u, s) h = refl
    answered_set (timeout e, s) h = cc
    answered_set (failure e, s) h = cc

    -- If put returns nil, the message is stored.
    pub put-Stored :
        (a : A) (s : S)
        → (put csm w key a 0 s).0 ≡ ok tt
        → Stored csm w key a (put csm w key a 0 s).1
    put-Stored a s done = elim (marshal_cases (w.marshal a)) [
      | inr bad ↦ absurd ((put_loop_fails a 0 (decrement csm.max_retries) s bad).1 done)
      | inl (b, h) ↦
          let t = put_loop-Attempts csm w key a b 0 (decrement csm.max_retries) s h in
          let reply = csm.client.set key b 0 t.last in
          let answered = answered_set reply (ap (λ r. r.0) (sym t.result_of_last) ∙ done) in
          (
            b,
            h,
            ap (λ (r : Result (Unit {0}) × S). csm.client.look r.1 key) t.result_of_last
                ∙ ap (λ u. csm.client.look u key) (after_set_state reply)
                ∙ laws.set_done key b t.last answered,
          )
    ]

    read_reply :
        (a : A) (b : Bytes) (r : Reply (Option Bytes) × S)
        → w.marshal a ≡ ok b
        → (r.0 ≢ answer none)
        → ((c : Bytes) → r.0 ≡ answer (some c) → c ≡ b)
        → ((after_get csm w key fail r).0 ≡ ok a) ⊎ HasNoAnswer r.0
    read_reply a b (answer none, s) h n same = absurd (n refl)
    read_reply a b (answer (some c), s) h n same =
        inl (ap w.unmarshal (same c refl) ∙ w.unmarshal-marshal a b h)
    read_reply a b (timeout e, s) h n same = inr tt
    read_reply a b (failure e, s) h n same = inr tt

    answered_get :
        (a : A) (r : Reply (Option Bytes) × S)
        → (after_get csm w key fail r).0 ≡ ok a
        → (b : Bytes) × (r.0 ≡ answer (some b)) × (w.unmarshal b ≡ ok a)
    answered_get a (answer none, s) h = cc
    answered_get a (answer (some b), s) h = (b, refl, h)
    answered_get a (timeout e, s) h = cc
    answered_get a (failure e, s) h = cc

    value_not_absent : (b : Bytes) → ◌≡◌ {A = Cell Bytes} (value b) absent → ⊥
    value_not_absent b h = cc

    value_injective : {b c : Bytes} → value b ≡ value c → b ≡ c
    value_injective h = cc

    unanswered :
        (result : Result A × S) (s : S)
        → (t : Attempts
            (csm.client.get key)
            (after_get csm w key fail)
            (decrement csm.max_retries)
            s
            result)
        → HasNoAnswer (csm.client.get key t.last).0
        → Unanswered csm key s
    unanswered result s t h = elim (HasNoAnswer-cases _ h) [
      | inl (e, failed) ↦ fails e t.bounded t.times_out failed
      | inr (e, late) ↦ elim t.ends [
        | inl final ↦ elim (subst IsFinal late final) [ ]
        | inr last ↦
            all_time_out e (subst (λ n. TimesOut (csm.client.get key) n s t.last) last t.times_out)
              late
      ]
    ]

    -- Where a message is stored, get returns it, if the last of its attempts has an answer.
    pub get-Stored :
        (a : A) (s : S) → Stored csm w key a s → ((get csm w key s).0 ≡ ok a) ⊎ Unanswered csm key s
    get-Stored a s (b, h, held) =
        let t = get_loop-Attempts csm w key (decrement csm.max_retries) s in
        let still : csm.client.look t.last key ≡ value b =
          TimesOut-keeps (csm.client.get key) (λ u. csm.client.look u key) (laws.look-get key key)
            t.times_out
          ∙ held in
        elim (read_reply a b (csm.client.get key t.last) h
          (λ e. value_not_absent b (sym still ∙ laws.get_nil key t.last e))
          (λ c e. value_injective (sym (laws.get_value key t.last c e) ∙ still))) [
            | inl e ↦ inl (ap (λ r. r.0) t.result_of_last ∙ e)
            | inr e ↦ inr (unanswered _ s t e)
          ]

    -- What get returns is stored, and it is decoded.
    pub get_sound : (a : A) (s : S) → (get csm w key s).0 ≡ ok a → Reads csm w key a s
    get_sound a s h =
        let t = get_loop-Attempts csm w key (decrement csm.max_retries) s in
        let (b, answered, decoded) =
          answered_get a (csm.client.get key t.last) (ap (λ r. r.0) (sym t.result_of_last) ∙ h) in
        (
          b,
          sym (
                TimesOut-keeps (csm.client.get key) (λ u. csm.client.look u key)
                  (laws.look-get key key) t.times_out)
              ∙ laws.get_value key t.last b answered,
          decoded,
        )

    -- What put has stored is what get returns at any later state that has the same at the key, if the
    -- last of its attempts has an answer.
    pub get-put :
        (a : A) (s t : S)
        → (put csm w key a 0 s).0 ≡ ok tt
        → csm.client.look t key ≡ csm.client.look (put csm w key a 0 s).1 key
        → ((get csm w key t).0 ≡ ok a) ⊎ Unanswered csm key t
    get-put a s t done same =
        let (b, m, held) = put-Stored a s done in get-Stored a t (b, m, same ∙ held)

-- A message that can be encoded or not is put without a panic.
module _ {S Bytes : Type 0} (csm : RedisStore S Bytes) where
  module _ {A : Type 0} (w : Wire Bytes A) (key : Text) where
    after_set_calm :
        (again : S → Result (Unit {0}) × S)
        → ((s : S) → (again s).0 ≢ panic)
        → (r : Reply (Unit {0}) × S) → (after_set csm w key again r).0 ≢ panic
    after_set_calm again k (answer u, s) h = cc
    after_set_calm again k (failure e, s) h = cc
    after_set_calm again k (timeout e, s) h = k s h

    store_calm :
        (again : S → Result (Unit {0}) × S) (ttl : ℕ) (r : Result Bytes) (s : S)
        → r ≢ panic
        → ((s : S) → (again s).0 ≢ panic)
        → (store csm w key again ttl r s).0 ≢ panic
    store_calm again ttl (ok b) s n k h = after_set_calm again k (csm.client.set key b ttl s) h
    store_calm again ttl (err e) s n k h = cc
    store_calm again ttl panic s n k h = n refl

    put_loop_calm :
        (a : A) (ttl left : ℕ) (s : S)
        → w.marshal a ≢ panic
        → (put_loop csm w key a ttl left s).0 ≢ panic
    unfolding put_loop
    put_loop_calm a ttl zero s n = store_calm _ ttl (w.marshal a) s n (λ s h. cc)
    put_loop_calm a ttl (suc left) s n =
        store_calm _ ttl (w.marshal a) s n (λ s. put_loop_calm a ttl left s n)

    pub put_calm :
        (a : A) (ttl : ℕ) (s : S) → w.marshal a ≢ panic → (put csm w key a ttl s).0 ≢ panic
    put_calm a ttl s n = put_loop_calm a ttl (decrement csm.max_retries) s n
