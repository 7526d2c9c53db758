-- ===== src/Prelude/Returns.antt =====
-- Total correctness of code that may panic, and of code that may answer with an error: what holds
-- of the value that it returns.
use mathlib.Core.Path.{◌≡◌, refl}
use mathlib.Core.List.{List, [], ◌∷◌}
use mathlib.Core.Option.{Option, none, some}
use lopez.Prelude.Lists.{All, keep}
use lopez.Prelude.Panic.{◌>>=◌, map_all, filter_map_all}
use lopez.Prelude.Outcome.{Result, ok, err}
use lopez.Prelude.Outcome

-- It does not panic, and `P` holds of the value.
abbrev pub Returns : {A : Type 0} → (A → Type 0) → Option A → Type 0
Returns P none = ⊥
Returns P (some a) = P a

-- `P` holds of the value, if there is one.
abbrev pub OnOk : {E A : Type 0} → Result E A → (A → Type 0) → Type 0
OnOk (ok a) P = P a
OnOk (err e) P = Unit

pub of_Returns :
    {A : Type 0} (P : A → Type 0) (m : Option A) → Returns P m → (a : A) × (m ≡ some a) × P a
of_Returns P none h = absurd h
of_Returns P (some a) h = (a, refl, h)

module _ {A B : Type 0} (P : A → Type 0) (Q : B → Type 0) where
  pub Returns-bind :
      (m : Option A) (f : A → Option B)
      → Returns P m
      → ((a : A) → P a → Returns Q (f a))
      → Returns Q (m >>= f)
  Returns-bind none f h k = absurd h
  Returns-bind (some a) f h k = k a h

  abbrev pub AllKept : Option B → Type 0
  AllKept none = Unit
  AllKept (some b) = Q b

module _ {A B : Type 0} (P : A → Type 0) (Q : B → Type 0) where
  pub map_all-Returns :
      (f : A → Option B) (xs : List A)
      → All P xs
      → ((a : A) → P a → Returns Q (f a))
      → Returns (All Q) (map_all f xs)
  map_all-Returns f [] h k = tt
  map_all-Returns f (x ∷ xs) h k = Returns-bind Q (All Q) (f x) _ (k x h.0) (λ y hy.
      Returns-bind (All Q) (All Q) (map_all f xs) _ (map_all-Returns f xs h.1 k)
        (λ ys hys. (hy, hys)))

  keep-All : (o : Option B) (ys : List B) → AllKept P Q o → All Q ys → All Q (keep o ys)
  keep-All none ys h hs = hs
  keep-All (some y) ys h hs = (h, hs)

  pub filter_map_all-Returns :
      (f : A → Option (Option B)) (xs : List A)
      → All P xs
      → ((a : A) → P a → Returns (AllKept P Q) (f a))
      → Returns (All Q) (filter_map_all f xs)
  filter_map_all-Returns f [] h k = tt
  filter_map_all-Returns f (x ∷ xs) h k =
      Returns-bind (AllKept P Q) (All Q) (f x) _ (k x h.0) (λ y hy.
        Returns-bind (All Q) (All Q) (filter_map_all f xs) _ (filter_map_all-Returns f xs h.1 k)
          (λ ys hys. keep-All y ys hy hys))

module _ {E A : Type 0} where
  pub OnOk-intro : (m : Result E A) {P : A → Type 0} → ((a : A) → P a) → OnOk m P
  OnOk-intro (ok a) h = h a
  OnOk-intro (err e) h = tt

module _ {E A B : Type 0} (P : A → Type 0) (Q : B → Type 0) where
  pub OnOk-bind :
      (m : Result E A) (f : A → Result E B)
      → OnOk m P
      → ((a : A) → P a → OnOk (f a) Q)
      → OnOk (Outcome.◌>>=◌ m f) Q
  OnOk-bind (ok a) f h k = k a h
  OnOk-bind (err e) f h k = tt
