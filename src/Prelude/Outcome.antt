-- ===== src/Prelude/Outcome.antt =====
-- `Result<T, E>`, with `?` as bind.
use mathlib.Core.Path.{◌≡◌, ap}

pub data Result (E : Type 0) (A : Type 0) : Type 0 where
  ok : A → Result E A
  err : E → Result E A

module _ {E A B : Type 0} where
  infixl 5 ◌>>=◌
  abbrev pub ◌>>=◌ : Result E A → (A → Result E B) → Result E B
  ok a >>= f = f a
  err e >>= f = err e

module _ {E A : Type 0} where
  abbrev or_else : A → Result E A → A
  or_else a (ok b) = b
  or_else a (err e) = a

  pub ok-injective : {a b : A} → ◌≡◌ {A = Result E A} (ok a) (ok b) → a ≡ b
  ok-injective {a} e = ap (or_else a) e
