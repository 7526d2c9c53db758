-- ===== src/Expressions/Transformer/Compare.antt =====
-- `cmp_json` (transformer.rs) and `force_f64` (value_ext.rs, variable.rs), and the sort that the
-- transformers `sort` and `sort-by` run on it. `none` is a panic. The order in which
-- `sort_unstable_by` leaves elements that compare as equal is not specified, nor is any order where
-- the comparison is no total order, as `cmp_json` is not between values of different types: `[1]`,
-- `[]` and `[0]` may stand in any order. The model is one of the possible results, an insertion sort.
pub mod Total
use lopez.Prelude.{text_cmp, Ordering, Bool, true, false, Option, none, some, List, [], ◌∷◌}
use lopez.Prelude.Panic.{◌>>=◌}
use lopez.Extern.{Extern}
use lopez.Value.{Value, Items, null, bool, number, string, array, nil, cons}

abbrev pub bool_cmp : Bool → Bool → Ordering
bool_cmp false true = Ordering.lt
bool_cmp true false = Ordering.gt
bool_cmp _ _ = Ordering.eq

-- `a.or_else(|| b)`.
abbrev pub or_else {ℓ} : {A : Type ℓ} → Option A → Option A → Option A
or_else (some a) b = some a
or_else none b = b

-- What the loop over two arrays makes of one comparison: an outcome but `Equal` ends it.
abbrev pub or_rest : Option Ordering → Ordering → Option Ordering
or_rest rest Ordering.eq = rest
or_rest rest outcome = some outcome

module _ (ext : Extern) where
  open ext use {as_f64, as_i64, as_u64, of_i64, of_u64}

  unfoldable pub force_f64 : ext.Number → Option ext.F64
  force_f64 n =
      or_else (as_f64 n)
        (or_else (as_i64 n >>= λ i. some (of_i64 i)) (as_u64 n >>= λ u. some (of_u64 u)))

module _ {ext : Extern} where
  open ext use {partial_cmp}

  unfoldable mutual
    pub cmp_json : Value ext → Value ext → Option Ordering
    cmp_json null null = some Ordering.eq
    cmp_json null _ = some Ordering.lt
    cmp_json _ null = some Ordering.gt
    cmp_json (bool this) (bool other) = some (bool_cmp this other)
    cmp_json (number this) (number other) =
        force_f64 ext this >>= λ f. force_f64 ext other >>= λ g. partial_cmp f g
    cmp_json (string this) (string other) = some (text_cmp this other)
    cmp_json (array this) (array other) = cmp_items this other
    cmp_json _ _ = none

    -- The loop over the two arrays zipped: it ends with the shorter one.
    pub cmp_items : Items ext → Items ext → Option Ordering
    cmp_items nil other = some Ordering.eq
    cmp_items (cons a this) nil = some Ordering.eq
    cmp_items (cons a this) (cons b other) =
        let rest = cmp_items this other in cmp_json a b >>= or_rest rest

module _ {A : Type 0} (compare_by : A → A → Option Ordering) where
  abbrev pub insert_by : A → A → List A → Option (List A) → Ordering → Option (List A)
  insert_by a b bs rest Ordering.gt = rest >>= λ cs. some (b ∷ cs)
  insert_by a b bs rest _ = some (a ∷ b ∷ bs)

  unfoldable pub insert_sorted : A → List A → Option (List A)
  insert_sorted a [] = some (a ∷ [])
  insert_sorted a (b ∷ bs) =
      let rest = insert_sorted a bs in compare_by a b >>= insert_by a b bs rest

  -- `sort_unstable_by`.
  unfoldable pub sort_unstable_by : List A → Option (List A)
  sort_unstable_by [] = some []
  sort_unstable_by (a ∷ as') = sort_unstable_by as' >>= insert_sorted a
