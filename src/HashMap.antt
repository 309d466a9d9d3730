-- ===== src/HashMap.antt =====
-- `std::collections::HashMap` with numbers for keys: the list of its entries, with at most one
-- for a key. What the code asks of a map is `get`, `insert` and `remove`.
use rust_media_libs.Prelude.{ℕ, ◌≡◌, Option, none, some, List, [], ◌∷◌, ◌==◌, if◌then◌else◌, arith}

module _ {ℓ} {V : Type ℓ} where
  unfoldable pub get : ℕ → List (ℕ × V) → Option V
  get key [] = none
  get key ((other, value) ∷ map) = if other == key then some value else get key map

  unfoldable pub remove : ℕ → List (ℕ × V) → List (ℕ × V)
  remove key [] = []
  remove key ((other, value) ∷ map) =
      let rest = remove key map in if other == key then rest else (other, value) ∷ rest

  unfoldable pub insert : ℕ → V → List (ℕ × V) → List (ℕ × V)
  insert key value map = (key, value) ∷ remove key map

  pub get-remove :
      (removed key : ℕ) (map : List (ℕ × V))
      → get key (remove removed map) ≡ (if removed == key then none else get key map)
  unfolding get remove
  get-remove removed key [] = ground arith
  get-remove removed key ((other, value) ∷ map) = ground (arith, get-remove removed key map)

  pub get-insert :
      (inserted key : ℕ) (value : V) (map : List (ℕ × V))
      → get key (insert inserted value map) ≡ (if inserted == key then some value else get key map)
  unfolding get insert
  get-insert inserted key value map = ground (arith, get-remove inserted key map)
