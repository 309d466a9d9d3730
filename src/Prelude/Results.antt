-- ===== src/Prelude/Results.antt =====
-- How a call ends: with a value, with an error of the type `E`, in a panic, or, in the model
-- alone, at the end of the fuel that a loop was given.
use mathlib.Core.Path.{◌≡◌, refl}
use mathlib.Core.Logic.{◌≢◌}
use mathlib.Core.Bool.{Bool, true, false}
use mathlib.Core.Option.{Option, none, some}
use rust_media_libs.Prelude.Tests.{if◌then◌else◌}

pub data Outcome {ℓ} (E : Type 0) (A : Type ℓ) : Type ℓ where
  ok : A → Outcome E A
  err : E → Outcome E A
  panicked out_of_fuel : Outcome E A

module _ {ℓ κ} {E : Type 0} {A : Type ℓ} {B : Type κ} where
  infixl 5 ◌>>=◌
  abbrev pub ◌>>=◌ : Outcome E A → (A → Outcome E B) → Outcome E B
  ok a >>= f = f a
  err e >>= f = err e
  panicked >>= f = panicked
  out_of_fuel >>= f = out_of_fuel

-- The conversion of an error that `?` makes.
abbrev pub map_err {ℓ} : {E F : Type 0} {A : Type ℓ} → (E → F) → Outcome E A → Outcome F A
map_err f (ok a) = ok a
map_err f (err e) = err (f e)
map_err f panicked = panicked
map_err f out_of_fuel = out_of_fuel

abbrev pub from_option {ℓ} : {E : Type 0} {A : Type ℓ} → E → Option A → Outcome E A
from_option e none = err e
from_option e (some a) = ok a

-- What a successful chain did.
pub >>=-eq-ok {ℓ κ} :
    {E : Type 0} {A : Type ℓ} {B : Type κ} {result : B} (call : Outcome E A)
    (next : A → Outcome E B)
    → (call >>= next) ≡ ok result
    → (value : A) × (call ≡ ok value) × (next value ≡ ok result)
>>=-eq-ok (ok value) next ended = (value, refl, ended)
>>=-eq-ok (err e) next ended = cc
>>=-eq-ok panicked next ended = cc
>>=-eq-ok out_of_fuel next ended = cc

-- A chain runs out of fuel only if a part does.
pub >>=-ne-out_of_fuel {ℓ κ} :
    {E : Type 0} {A : Type ℓ} {B : Type κ} (m : Outcome E A) (f : A → Outcome E B)
    → m ≢ out_of_fuel
    → ((a : A) → m ≡ ok a → f a ≢ out_of_fuel)
    → (m >>= f) ≢ out_of_fuel
>>=-ne-out_of_fuel (ok a) f h k = k a refl
>>=-ne-out_of_fuel (err e) f h k = λ p. cc
>>=-ne-out_of_fuel panicked f h k = λ p. cc
>>=-ne-out_of_fuel out_of_fuel f h k = absurd (h refl)

-- The call ends, with a value of which `P` holds or with an error: no panic, and fuel enough.
pub data Ensures {ℓ κ} {E : Type 0} {A : Type ℓ} (P : A → Type κ) : Outcome E A → Type (ℓ ⊔ κ) where
  returns : {a : A} → P a → Ensures P (ok a)
  raises : {e : E} → Ensures P (err e)

module _ {ℓ κ} {E : Type 0} {A : Type ℓ} {P : A → Type κ} where
  pub Ensures-bind {ℓ' κ'} :
      {B : Type ℓ'} {Q : B → Type κ'} {m : Outcome E A} {f : A → Outcome E B}
      → Ensures P m
      → ((a : A) → P a → Ensures Q (f a))
      → Ensures Q (m >>= f)
  Ensures-bind (returns {a} h) k = k a h
  Ensures-bind raises k = raises

  pub Ensures-weaken {κ'} :
      {Q : A → Type κ'} {m : Outcome E A} → Ensures P m → ((a : A) → P a → Q a) → Ensures Q m
  Ensures-weaken (returns {a} h) k = returns (k a h)
  Ensures-weaken raises k = raises

  pub Ensures-if :
      (b : Bool) {x y : Outcome E A}
      → (b ≡ true → Ensures P x)
      → (b ≡ false → Ensures P y)
      → Ensures P (if b then x else y)
  Ensures-if true hx hy = hx refl
  Ensures-if false hx hy = hy refl

  -- What an `Ensures` says of the two outcomes that it excludes.
  pub Ensures-ne-out_of_fuel : {m : Outcome E A} → Ensures P m → m ≢ out_of_fuel
  Ensures-ne-out_of_fuel (returns h) = λ e. cc
  Ensures-ne-out_of_fuel raises = λ e. cc

  pub Ensures-ne-panicked : {m : Outcome E A} → Ensures P m → m ≢ panicked
  Ensures-ne-panicked (returns h) = λ e. cc
  Ensures-ne-panicked raises = λ e. cc
