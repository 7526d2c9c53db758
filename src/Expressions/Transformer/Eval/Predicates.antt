-- ===== src/Expressions/Transformer/Eval/Predicates.antt =====
-- How `filter`, `any` and `all` (transformer.rs) agree, and what `greater-or-equal` and `sort` do.
use lopez.Prelude.{
  Bool, false, not, Option, none, some, List, [], ◌∷◌, ◌≡◌, refl, ◌≤◌, length, is_empty, ◌==◌,
  if◌then◌else◌, arith, Option-cases, inl, inr, ap, Ordering, ok,
}
use lopez.Prelude.Panic.{◌>>=◌, filter_map_all}
use lopez.Extern.{Extern}
use lopez.JsonType.{JsonType}
use lopez.Value.{Value, Items, Fields, items, of_items, cons, nil}
use lopez.Expressions.Transformer.{
  TransformerExpression, filter, any, all, sort, greater_or_equal, greater_than,
}
use lopez.Expressions.Transformer.TypeFor.{type_for}
use lopez.Expressions.Transformer.Compare.{force_f64, cmp_json, sort_unstable_by, insert_sorted}
use lopez.Expressions.Transformer.Eval.{eval, eval_all, any_all, all_all, verdict}

items-of_items : {ext : Extern} (vs : List (Value ext)) → items (of_items vs) ≡ vs
items-of_items [] = refl
items-of_items (v ∷ vs) = ap (λ ws. v ∷ ws) (items-of_items vs)

abbrev array_items : {ext : Extern} → Option (Value ext) → Items ext
array_items (some (Value.array vs)) = vs
array_items _ = nil

module _ {A : Type 0} (p : A → Option Bool) where
  abbrev kept : List A → Option (List A)
  kept xs = filter_map_all (λ v. p v >>= λ b. some (if b then some v else none)) xs

  kept-length : (xs ys : List A) → kept xs ≡ some ys → length ys ≤ length xs
  kept-length [] ys e = ground arith
  kept-length (x ∷ xs) ys e = elim (Option-cases (kept xs)) [
    | inl no_rest ↦ ground arith
    | inr (zs, rest) ↦ ground (arith, kept-length xs zs rest)
  ]

  any_all-kept : (xs ys : List A) → kept xs ≡ some ys → any_all p xs ≡ some (not (is_empty ys))
  any_all-kept [] ys e = ground arith
  any_all-kept (x ∷ xs) ys e = elim (Option-cases (kept xs)) [
    | inl no_rest ↦ ground arith
    | inr (zs, rest) ↦ ground (arith, any_all-kept xs zs rest)
  ]

  all_all-kept : (xs ys : List A) → kept xs ≡ some ys → all_all p xs ≡ some (length ys == length xs)
  all_all-kept [] ys e = ground arith
  all_all-kept (x ∷ xs) ys e = elim (Option-cases (kept xs)) [
    | inl no_rest ↦ ground arith
    | inr (zs, rest) ↦ ground (arith, all_all-kept xs zs rest, kept-length xs zs rest)
  ]

module _ {ext : Extern} (p : TransformerExpression ext) where
  -- Where `filter(p)` gives an array, `any(p)` says whether it keeps an element and `all(p)`
  -- whether it keeps every element.
  any-all-filter :
      (vs ws : Items ext)
      → eval (filter p) (Value.array vs) ≡ some (Value.array ws)
      → (eval (any p) (Value.array vs) ≡ some (Value.bool (not (is_empty (items ws)))))
        × (eval (all p) (Value.array vs)
            ≡ some (Value.bool (length (items ws) == length (items vs))))
  unfolding eval
  any-all-filter vs ws e = elim (Option-cases (kept test (items vs))) [
    | inl fails ↦ absurd (cc (rw fails at e))
    | inr (ks, keeps) ↦
        let same = ap array_items (rw keeps at e) in
        rw
          (
            ← same,
            items-of_items ks,
            any_all-kept test (items vs) ks keeps,
            all_all-kept test (items vs) ks keeps,
          )
          (refl, refl)
  ]
    where
      test : Value ext → Option Bool
      test v = eval_all p v >>= verdict

module _ {ext : Extern} where
  -- `greater-or-equal` is the same test as `greater-than` on every value; so at a number that
  -- equals the bound it answers `false`.
  pub greater_or_equal-eq-greater_than :
      (bound : ext.F64) (v : Value ext) (n : ext.Number)
      → (force_f64 ext n >>= λ f. ext.partial_cmp f bound) ≡ some Ordering.eq
      → (eval {ext = ext} (greater_or_equal bound) v ≡ eval {ext = ext} (greater_than bound) v)
        × (eval {ext = ext} (greater_or_equal bound) (Value.number n) ≡ some (Value.bool false))
  unfolding eval
  greater_or_equal-eq-greater_than bound v n e = (same v, ground arith)
    where
      same :
          (v : Value ext)
          → eval {ext = ext} (greater_or_equal bound) v ≡ eval {ext = ext} (greater_than bound) v
      same (Value.number m) = refl
      same _ = refl

  -- `sort` type checks on an array of arrays of maps, and panics on the array of any two arrays
  -- that hold a map each.
  sort-nested_maps :
      (fs gs : Fields ext) (t : JsonType)
      → (type_for {ext = ext} sort (JsonType.array (JsonType.array (JsonType.map t)))
          ≡ ok (JsonType.array (JsonType.array (JsonType.map t))))
        × (eval {ext = ext} sort (
              Value.array (
                cons
                  (Value.array (cons (Value.object fs) nil))
                  (cons (Value.array (cons (Value.object gs) nil)) nil)))
            ≡ none)
  unfolding type_for eval cmp_json sort_unstable_by insert_sorted
  sort-nested_maps fs gs t = (refl, refl)
