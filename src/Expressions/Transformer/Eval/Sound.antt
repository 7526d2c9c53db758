-- ===== src/Expressions/Transformer/Eval/Sound.antt =====
-- The type checker of transformers and their evaluation. The one condition is on `sort` and `sort-by`,
-- which compare values and panic on maps.
use lopez.Prelude.{Text, Result, ok, err, Option, none, some, List, ◌≡◌}
use lopez.Prelude.Outcome
use lopez.Prelude.Panic.{◌>>=◌}
use lopez.Prelude.Returns.{Returns, OnOk, OnOk-intro, of_Returns}
use lopez.Extern.{Extern, IsFinite}
use lopez.JsonType.{JsonType}
use lopez.Value.{Value, of_f64}
use lopez.Value.HasType.{
  HasType, null, anything, bool, number, string, array, object, items-All, of_items-AllItems,
  lookup-HasType, of_f64-HasType,
}
use lopez.Expressions.Error.{Error}
use lopez.Expressions.Transformer.{
  Transformer, TransformerExpression, is_null, is_not_null, hash, not, as_number, greater_than,
  lesser_than, greater_or_equal, lesser_or_equal, between, equals, in_numbers, length, is_empty,
  get, get_idx, flatten, each, filter, any, all, sort, sort_by, as_string, pretty, equals_string,
  in_strings, capture, all_captures, matches, replace, nil, cons,
}
use lopez.Expressions.Transformer.TypeFor.{type_for, type_for_all}
use lopez.Expressions.Transformer.Compare.{cmp_json}
use lopez.Expressions.Transformer.Compare.Total.{
  IsComparable, cmp_json-Answers, sort_unstable_by-Returns,
}
use lopez.Expressions.Transformer.Eval.{eval, eval_all, hash_text, capture_json}
use lopez.Expressions.Transformer.Eval.Loops.{
  Sound, each_array-Sound, each_map-Sound, filter_array-Sound, filter_map-Sound, any-Sound,
  all-Sound, sort_by-Sound,
}
use lopez.Expressions.Transformer.Eval.Cases.{
  Of, or_null-get_elem?, as_list-Returns, flatten_all-Returns, capture_json-HasType, captures-All,
  on_f64-Returns,
}

-- Every `sort` and `sort-by` of the transformer compares values of a type that holds no map, when
-- the transformer is given a value of the type.
abbrev mutual
  pub SortsSafely : {ext : Extern} → Transformer ext → JsonType → Type 0
  SortsSafely sort (JsonType.array t) = IsComparable t
  SortsSafely (sort_by key) (JsonType.array t) =
      AllSortSafely key t × OnOk (type_for_all key t) IsComparable
  SortsSafely (each inner) (JsonType.array t) = AllSortSafely inner t
  SortsSafely (each inner) (JsonType.map t) = AllSortSafely inner t
  SortsSafely (filter inner) (JsonType.array t) = AllSortSafely inner t
  SortsSafely (filter inner) (JsonType.map t) = AllSortSafely inner t
  SortsSafely (any inner) (JsonType.array t) = AllSortSafely inner t
  SortsSafely (all inner) (JsonType.array t) = AllSortSafely inner t
  SortsSafely _ _ = Unit

  pub AllSortSafely : {ext : Extern} → TransformerExpression ext → JsonType → Type 0
  AllSortSafely nil t = Unit
  AllSortSafely (cons x xs) t =
      SortsSafely x t × OnOk (type_for x t) (λ next. AllSortSafely xs next)

module _ {ext : Extern} where
  eval-is_null : (v : Value ext) → Returns (Of JsonType.bool) (eval is_null v)
  unfolding eval
  eval-is_null Value.null = bool
  eval-is_null _ = bool

  eval-is_not_null : (v : Value ext) → Returns (Of JsonType.bool) (eval is_not_null v)
  unfolding eval
  eval-is_not_null Value.null = bool
  eval-is_not_null _ = bool

  eval-null-Sound : (x : Transformer ext) (t : JsonType) → Sound (type_for x t) (eval x Value.null)
  unfolding type_for eval
  eval-null-Sound is_null t = bool
  eval-null-Sound is_not_null t = bool
  eval-null-Sound x t = OnOk-intro (type_for x t) (λ _. null)

  eval-any-Sound :
      (x : Transformer ext) (v : Value ext) → Sound (type_for x JsonType.any) (eval x v)
  unfolding type_for
  eval-any-Sound is_null v = eval-is_null v
  eval-any-Sound is_not_null v = eval-is_not_null v
  eval-any-Sound x v = tt

  captured-Returns :
      (regex : ext.Regex) (found : Option (List (Option Text)))
      → HasType {ext = ext}
          (elim found [ none ↦ Value.null | some groups ↦ capture_json {ext = ext} regex groups ])
          (JsonType.map JsonType.string)
  captured-Returns regex none = null
  captured-Returns regex (some groups) = capture_json-HasType ext regex groups

  parsed-HasType :
      (found : Option ext.F64)
      → HasType {ext = ext} (elim found [ none ↦ Value.null | some f ↦ of_f64 f ]) JsonType.number
  parsed-HasType none = null
  parsed-HasType (some f) = of_f64-HasType f

  hash_text-HasType : (s : Text) → HasType {ext = ext} (hash_text s) JsonType.number
  unfolding hash_text
  hash_text-HasType s = number

  -- What gives a value of a known type, then transformers.
  pub transform-Sound :
      (xs : TransformerExpression ext) (m : Result Error JsonType) (r : Option (Value ext))
      → Sound m r
      → OnOk m (λ next. AllSortSafely xs next)
      → ((next : JsonType) (w : Value ext)
          → HasType w next
          → AllSortSafely xs next
          → Sound (type_for_all xs next) (eval_all xs w))
      → Sound (Outcome.◌>>=◌ m λ next. type_for_all xs next) (r >>= λ w. eval_all xs w)
  transform-Sound xs (err e) r h s ih = tt
  transform-Sound xs (ok next) none h s ih = absurd h
  transform-Sound xs (ok next) (some w) h s ih = ih next w h s

module _ {ext : Extern} (finite : IsFinite ext) where
  mutual
    unfolding type_for eval

    eval-Sound :
        (x : Transformer ext) {v : Value ext} {t : JsonType}
        → HasType v t
        → SortsSafely x t
        → Sound (type_for x t) (eval x v)
    eval-Sound x (null {t}) s = eval-null-Sound x t
    eval-Sound x (anything {v}) s = eval-any-Sound x v
    eval-Sound is_null (bool {b}) s = eval-is_null (Value.bool b)
    eval-Sound is_null (number {n}) s = eval-is_null (Value.number n)
    eval-Sound is_null (string {s = c}) s = eval-is_null (Value.string c)
    eval-Sound is_null (array {vs} h) s = eval-is_null (Value.array vs)
    eval-Sound is_null (object {fs} h) s = eval-is_null (Value.object fs)
    eval-Sound is_not_null (bool {b}) s = eval-is_not_null (Value.bool b)
    eval-Sound is_not_null (number {n}) s = eval-is_not_null (Value.number n)
    eval-Sound is_not_null (string {s = c}) s = eval-is_not_null (Value.string c)
    eval-Sound is_not_null (array {vs} h) s = eval-is_not_null (Value.array vs)
    eval-Sound is_not_null (object {fs} h) s = eval-is_not_null (Value.object fs)
    eval-Sound hash (string {s = c}) s = hash_text-HasType c
    eval-Sound not bool s = bool
    eval-Sound as_number (string {s = c}) s = parsed-HasType (ext.parse_f64 c)
    eval-Sound (greater_than _) (number {n}) s = on_f64-Returns finite _ n
    eval-Sound (lesser_than _) (number {n}) s = on_f64-Returns finite _ n
    eval-Sound (greater_or_equal _) (number {n}) s = on_f64-Returns finite _ n
    eval-Sound (lesser_or_equal _) (number {n}) s = on_f64-Returns finite _ n
    eval-Sound (between _ _) (number {n}) s = on_f64-Returns finite _ n
    eval-Sound (equals _) (number {n}) s = on_f64-Returns finite _ n
    eval-Sound (in_numbers _) (number {n}) s = on_f64-Returns finite _ n
    eval-Sound length string s = number
    eval-Sound length (array h) s = number
    eval-Sound length (object h) s = number
    eval-Sound is_empty string s = bool
    eval-Sound is_empty (array h) s = bool
    eval-Sound is_empty (object h) s = bool
    eval-Sound (get key) (object h) s = lookup-HasType key h
    eval-Sound (get_idx i) (array {t} h) s = or_null-get_elem? t _ i (items-All h)
    eval-Sound flatten (array {t = JsonType.array t} h) s =
        as_list-Returns t _ (flatten_all-Returns t _ (items-All h))
    eval-Sound (each inner) (array {t} h) s =
        each_array-Sound t (eval_all inner) (type_for_all inner t) (λ v k. eval_all-Sound inner k s)
          h
    eval-Sound (each inner) (object {t} h) s =
        each_map-Sound t (eval_all inner) (type_for_all inner t) (λ v k. eval_all-Sound inner k s) h
    eval-Sound (filter inner) (array {t} h) s =
        filter_array-Sound t (eval_all inner) inner (type_for_all inner t)
          (λ v k. eval_all-Sound inner k s) h
    eval-Sound (filter inner) (object {t} h) s =
        filter_map-Sound t (eval_all inner) inner (type_for_all inner t)
          (λ v k. eval_all-Sound inner k s) h
    eval-Sound (any inner) (array {t} h) s =
        any-Sound t (eval_all inner) inner (type_for_all inner t) (λ v k. eval_all-Sound inner k s)
          h
    eval-Sound (all inner) (array {t} h) s =
        all-Sound t (eval_all inner) inner (type_for_all inner t) (λ v k. eval_all-Sound inner k s)
          h
    eval-Sound sort (array {t = JsonType.map t} h) s = tt
    eval-Sound sort (array {t} h) s = as_list-Returns t _ (
        sort_unstable_by-Returns (Of t) cmp_json (λ a b ha hb. cmp_json-Answers finite ha b s hb) _
          (items-All h))
    eval-Sound (sort_by key) (array {t} h) s =
        sort_by-Sound t (eval_all key) key (type_for_all key t)
          (λ u a b c ha hb. cmp_json-Answers finite ha b c hb) s.1 (λ v k. eval_all-Sound key k s.0)
          h
    eval-Sound as_string bool s = string
    eval-Sound as_string number s = string
    eval-Sound as_string string s = string
    eval-Sound pretty string s = string
    eval-Sound (equals_string _) string s = bool
    eval-Sound (in_strings _) string s = bool
    eval-Sound (capture regex) (string {s = c}) s = captured-Returns regex (ext.captures regex c)
    eval-Sound (all_captures regex) (string {s = c}) s =
        array (of_items-AllItems _ _ (captures-All ext regex (ext.captures_iter regex c)))
    eval-Sound (matches _) string s = bool
    eval-Sound (replace _ _) string s = string
    eval-Sound _ _ _ = tt

    pub eval_all-Sound :
        (xs : TransformerExpression ext) {v : Value ext} {t : JsonType}
        → HasType v t
        → AllSortSafely xs t
        → Sound (type_for_all xs t) (eval_all xs v)
    eval_all-Sound nil h s = h
    eval_all-Sound (cons x xs) {v} {t} h s =
        transform-Sound xs (type_for x t) (eval x v) (eval-Sound x h s.0) s.1
          (λ next w k s'. eval_all-Sound xs k s')

-- The type checker of transformer expressions is sound: if it answers a type for an expression on
-- values of a type, then on every such value the expression does not panic and gives a value of
-- the answered type, provided that JSON numbers are finite and that each `sort` and `sort-by`
-- compares values whose type holds no map.
pub eval_all-HasType :
    {ext : Extern} (finite : IsFinite ext) (xs : TransformerExpression ext) (t u : JsonType)
    (v : Value ext)
    → AllSortSafely xs t
    → type_for_all xs t ≡ ok u
    → HasType v t
    → (w : Value ext) × (eval_all xs v ≡ some w) × HasType w u
eval_all-HasType finite xs t u v s e h =
    of_Returns (Of u) (eval_all xs v) (rw e at (eval_all-Sound finite xs h s))
