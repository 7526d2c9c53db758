-- ===== src/Prelude/Panic.antt =====
-- Code that may panic: `none` is the panic, `some a` a normal return.
use mathlib.Core.List.{List, [], ◌∷◌}
use mathlib.Core.Option.{Option, none, some}
use lopez.Prelude.Lists.{keep}

module _ {A B : Type 0} where
  infixl 5 ◌>>=◌
  abbrev pub ◌>>=◌ : Option A → (A → Option B) → Option B
  none >>= f = none
  some a >>= f = f a

module _ {A B : Type 0} where
  -- `iter.map(f).collect()`.
  abbrev pub map_all : (A → Option B) → List A → Option (List B)
  map_all f [] = some []
  map_all f (x ∷ xs) = f x >>= λ y. map_all f xs >>= λ ys. some (y ∷ ys)

  -- `iter.filter_map(f).collect()`.
  abbrev pub filter_map_all : (A → Option (Option B)) → List A → Option (List B)
  filter_map_all f [] = some []
  filter_map_all f (x ∷ xs) = f x >>= λ y. filter_map_all f xs >>= λ ys. some (keep y ys)
