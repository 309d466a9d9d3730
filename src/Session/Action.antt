-- ===== src/Session/Action.antt =====
-- A `&mut self` method that can fail: a function from the state to how it ended and the state that
-- it left. What was written before an error stays written.
use rust_media_libs.Prelude.{
  ℕ, ◌+◌, ◌^◌, Bool, Option, none, some, ltb, if◌then◌else◌, Outcome, ok, err, panicked,
  out_of_fuel, ◌≡◌,
}

abbrev pub Action {ℓ} : Type 0 → Type 0 → Type ℓ → Type ℓ
Action S E A = S → Outcome E A × S

module _ {ℓ} {S E : Type 0} {A : Type ℓ} where
  abbrev pub pure : A → Action S E A
  pure a s = (ok a, s)

  abbrev pub raise : E → Action S E A
  raise e s = (err e, s)

  abbrev pub panic : Action S E A
  panic s = (panicked, s)

  abbrev pub gets : (S → A) → Action S E A
  gets f s = (ok (f s), s)

  -- A call that does not touch the state.
  abbrev pub lift : Outcome E A → Action S E A
  lift r s = (r, s)

  -- The call `?` on an Option.
  abbrev pub or_raise : Option A → E → Action S E A
  or_raise none e = raise e
  or_raise (some a) e = pure a

  -- What the caller has when only a success leaves a state that is modelled.
  abbrev pub finish : Outcome E A × S → Outcome E (A × S)
  finish (ok a, s) = ok (a, s)
  finish (err e, s) = err e
  finish (panicked, s) = panicked
  finish (out_of_fuel, s) = out_of_fuel

pub finish-ok {ℓ} :
    {S E : Type 0} {A : Type ℓ} (r : Outcome E A × S) (a : A) (t : S)
    → finish r ≡ ok (a, t)
    → r.1 ≡ t
finish-ok (ok b, s) a t e = cc e
finish-ok (err x, s) a t e = cc e
finish-ok (panicked, s) a t e = cc e
finish-ok (out_of_fuel, s) a t e = cc e

module _ {S E : Type 0} where
  abbrev pub modify : (S → S) → Action S E (Unit {0})
  modify f s = (ok tt, f s)

-- What follows a call, by how the call ended.
abbrev pub after {ℓ κ} :
    {S E : Type 0} {A : Type ℓ} {B : Type κ}
    → Outcome E A
    → S
    → (A → Action S E B)
    → Outcome E B × S
after (ok a) s f = f a s
after (err e) s f = (err e, s)
after panicked s f = (panicked, s)
after out_of_fuel s f = (out_of_fuel, s)

-- It is unfolded by name only, so that a rule about chains finds the calls that they are made of.
infixl 5 ◌>>=◌ ◌>>◌
unfoldable pub ◌>>=◌ {ℓ κ} :
    {S E : Type 0} {A : Type ℓ} {B : Type κ} → Action S E A → (A → Action S E B) → Action S E B
◌>>=◌ m f s = after (m s).0 (m s).1 f

abbrev pub ◌>>◌ {κ} :
    {S E : Type 0} {B : Type κ} → Action S E (Unit {0}) → Action S E B → Action S E B
m >> k = m >>= λ _. k

-- `n + 1` on a u32, which panics at the end of the range, as in a build with overflow checks.
abbrev pub checked_add : {S E : Type 0} → ℕ → ℕ → ℕ → Action S E ℕ
checked_add bits a b = if ltb (a + b) (2 ^ bits) then pure (a + b) else panic

-- What the process around a session provides: the wall clock, whose n-th reading since the session
-- began is the seconds and nanoseconds that passed, or nothing if the clock went backwards; and
-- whether the build has debug assertions.
pub record Environment : Type 0 where
  pub elapsed : ℕ → Option (ℕ × ℕ)
  pub debug_assertions : Bool
