-- ===== src/Session/Keeps.antt =====
-- Relations between the state before a call and the state after it, however the call ends.
use rust_media_libs.Prelude.{
  ℕ, ◌+◌, ◌^◌, Bool, true, false, ltb, if◌then◌else◌, Outcome, ok, err, panicked, out_of_fuel,
}
use rust_media_libs.Session.Action.{
  Action, pure, raise, panic, gets, modify, lift, after, checked_add, ◌>>=◌,
}

-- A relation that holds of a state and itself, and goes on through a third state.
pub record IsPreorder {S : Type 0} (R : S → S → Type 0) : Type 0 where
  pub same : (s : S) → R s s
  pub through : (s t u : S) → R s t → R t u → R s u

-- The relation holds across a call, from every state.
pub record Keeps {ℓ} {S E : Type 0} {A : Type ℓ} (R : S → S → Type 0) (m : Action S E A)
    : Type 0 where
  pub holds : (s : S) → R s (m s).1

module _ {S E : Type 0} {R : S → S → Type 0} (order : IsPreorder R) where
  pub Keeps-after {ℓ κ} :
      {A : Type ℓ} {B : Type κ} (r : Outcome E A) (s t : S) (f : A → Action S E B)
      → R s t
      → ((a : A) → Keeps R (f a))
      → R s (after r t f).1
  Keeps-after (ok a) s t f h k = order.through s t _ h ((k a).holds t)
  Keeps-after (err e) s t f h k = h
  Keeps-after panicked s t f h k = h
  Keeps-after out_of_fuel s t f h k = h

  pub Keeps-bind {ℓ κ} :
      {A : Type ℓ} {B : Type κ} {m : Action S E A} {f : A → Action S E B}
      → Keeps R m
      → ((a : A) → Keeps R (f a))
      → Keeps R (m >>= f)
  unfolding ◌>>=◌
  Keeps-bind {m} {f} h k = record { holds = λ s. Keeps-after (m s).0 s (m s).1 f (h.holds s) k }

  pub Keeps-pure {ℓ} : {A : Type ℓ} {a : A} → Keeps R (pure {S = S} {E = E} a)
  Keeps-pure = record { holds = order.same }

  pub Keeps-raise {ℓ} : {A : Type ℓ} {e : E} → Keeps R (raise {S = S} {A = A} e)
  Keeps-raise = record { holds = order.same }

  pub Keeps-panic {ℓ} : {A : Type ℓ} → Keeps R (panic {S = S} {E = E} {A = A})
  Keeps-panic = record { holds = order.same }

  pub Keeps-gets {ℓ} : {A : Type ℓ} {f : S → A} → Keeps R (gets {E = E} f)
  Keeps-gets = record { holds = order.same }

  pub Keeps-lift {ℓ} : {A : Type ℓ} {r : Outcome E A} → Keeps R (lift {S = S} r)
  Keeps-lift = record { holds = order.same }

  pub Keeps-modify : {f : S → S} → ((s : S) → R s (f s)) → Keeps R (modify {E = E} f)
  Keeps-modify h = record { holds = h }

  pub Keeps-if {ℓ} :
      {A : Type ℓ} (b : Bool) {m n : Action S E A}
      → Keeps R m
      → Keeps R n
      → Keeps R (if b then m else n)
  Keeps-if true h k = h
  Keeps-if false h k = k

  pub Keeps-checked_add : (bits a b : ℕ) → Keeps R (checked_add {S = S} {E = E} bits a b)
  Keeps-checked_add bits a b = Keeps-if (ltb (a + b) (2 ^ bits)) Keeps-pure Keeps-panic
