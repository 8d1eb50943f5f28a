-- ===== src/Prelude/Options.antt =====
-- The methods of `Option` that the program chains.
use mathlib.Core.Option.{Option, none, some}
use mathlib.Core.List.{List, [], ◌∷◌}

module _ {ℓ κ} {A : Type ℓ} {B : Type κ} where
  infixl 10 ◌>>=◌
  -- `and_then`, which is also `?`.
  abbrev pub ◌>>=◌ : Option A → (A → Option B) → Option B
  none >>= f = none
  some a >>= f = f a

  -- `map` with `unwrap_or`.
  abbrev pub map_or : B → (A → B) → Option A → B
  map_or b f none = b
  map_or b f (some a) = f a

module _ {ℓ} {A : Type ℓ} where
  abbrev pub or_else : Option A → Option A → Option A
  or_else none p = p
  or_else (some a) p = some a

  abbrev pub unwrap_or : A → Option A → A
  unwrap_or a none = a
  unwrap_or a (some b) = b

  -- `into_iter().find_map(identity)`: the first value there is.
  abbrev pub first_some : List (Option A) → Option A
  first_some [] = none
  first_some (o ∷ rest) = or_else o (first_some rest)
