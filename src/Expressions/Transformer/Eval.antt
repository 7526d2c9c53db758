-- ===== src/Expressions/Transformer/Eval.antt =====
-- `eval` (transformer.rs), with `capture_json` and `hash` (hash.rs). `none` is a panic: the code
-- calls `panic!("type checked: …")` where a value is not of the type that was checked.
pub mod Cases
pub mod Loops
pub mod Predicates
pub mod Sound
use lopez.Prelude.{
  ℕ, Text, bytes, show_ℕ, text_eq, as_i64, length, is_empty, get_elem?, Ordering, Bool, true, false,
  ◌&&◌, ◌||◌, Option, none, some, List, [], ◌∷◌, ◌++◌, suc, if◌then◌else◌, keep,
}
use lopez.Prelude as Lists
use lopez.Prelude.Panic.{◌>>=◌, map_all, filter_map_all}
use lopez.Extern.{Extern}
use lopez.Value.{
  Value, null, bool, number, string, array, object, items, of_items, fields, collect_map, lookup,
  or_null, of_f64,
}
use lopez.Expressions.Transformer.{Transformer, TransformerExpression, nil, cons}
use lopez.Expressions.Transformer.Compare.{force_f64, cmp_json, sort_unstable_by}
use lopez.Expressions.Transformer.Pretty.{pretty}

-- `>`, `<`, `>=` and `<=` on `f64`, from the outcome of a partial comparison.
abbrev pub is_gt : Option Ordering → Bool
is_gt (some Ordering.gt) = true
is_gt _ = false

abbrev pub is_lt : Option Ordering → Bool
is_lt (some Ordering.lt) = true
is_lt _ = false

abbrev pub is_ge : Option Ordering → Bool
is_ge (some Ordering.gt) = true
is_ge (some Ordering.eq) = true
is_ge _ = false

abbrev pub is_le : Option Ordering → Bool
is_le (some Ordering.lt) = true
is_le (some Ordering.eq) = true
is_le _ = false

-- `any` and `all` of a predicate that may panic: the rest is not looked at once the answer is known.
module _ {A : Type 0} where
  abbrev pub any_all : (A → Option Bool) → List A → Option Bool
  any_all p [] = some false
  any_all p (x ∷ xs) = let rest = any_all p xs in p x >>= λ b. if b then some true else rest

  abbrev pub all_all : (A → Option Bool) → List A → Option Bool
  all_all p [] = some true
  all_all p (x ∷ xs) = let rest = all_all p xs in p x >>= λ b. if b then rest else some false

-- A group of a match goes by its name or else by its number.
abbrev pub group_name : ℕ → Option Text → Text
group_name i none = show_ℕ i
group_name i (some name) = name

module _ (ext : Extern) where
  open ext use {partial_cmp, sub, abs, epsilon}

  -- `(lhs - rhs).abs() < EPSILON`.
  abbrev pub is_near : ext.F64 → ext.F64 → Bool
  is_near lhs rhs = is_lt (partial_cmp (abs (sub lhs rhs)) epsilon)

  -- A test on a number.
  abbrev pub on_f64 : (ext.F64 → Bool) → ext.Number → Option (Value ext)
  on_f64 test n = force_f64 ext n >>= λ f. some (bool (test f))

module _ {ext : Extern} where
  open ext use {
    partial_cmp, parse_f64, from_i64, from_u64, number_text, capture_names, captures, captures_iter,
    is_match, replace_all, sip_hash,
  }

  -- `crate::hash` of a string.
  unfoldable pub hash_text : Text → Value ext
  unfolding as_i64
  hash_text s = number (from_i64 (as_i64 (sip_hash s)))

  abbrev pub capture_entries : ℕ → List (Option Text) → List (Option Text) → List (Text × Value ext)
  capture_entries i [] names = []
  capture_entries i (c ∷ cs) [] = []
  capture_entries i (none ∷ cs) (name ∷ names) = capture_entries (suc i) cs names
  capture_entries i (some text ∷ cs) (name ∷ names) =
      (group_name i name, string text) ∷ capture_entries (suc i) cs names

  unfoldable pub capture_json : ext.Regex → List (Option Text) → Value ext
  unfolding show_ℕ
  capture_json regex groups = object (collect_map (capture_entries 0 groups (capture_names regex)))

  -- What `filter`, `any` and `all` make of a predicate's value.
  abbrev pub verdict : Value ext → Option Bool
  verdict null = some false
  verdict (bool b) = some b
  verdict _ = none

  abbrev pub flatten_one : Value ext → Option (List (Value ext))
  flatten_one (array vs) = some (items vs)
  flatten_one null = some []
  flatten_one _ = none

  abbrev pub flatten_all : List (Value ext) → Option (List (Value ext))
  flatten_all [] = some []
  flatten_all (v ∷ vs) = flatten_one v >>= λ ws. flatten_all vs >>= λ rest. some (ws ++ rest)

  abbrev pub as_list : Option (List (Value ext)) → Option (Value ext)
  as_list vs = vs >>= λ ws. some (array (of_items ws))

  abbrev pub as_map : Option (List (Text × Value ext)) → Option (Value ext)
  as_map kvs = kvs >>= λ entries. some (object (collect_map entries))

  unfoldable mutual
    unfolding force_f64 cmp_json sort_unstable_by pretty hash_text capture_json

    pub eval : Transformer ext → Value ext → Option (Value ext)
    eval Transformer.is_null null = some (bool true)
    eval Transformer.is_null _ = some (bool false)
    eval Transformer.is_not_null null = some (bool false)
    eval Transformer.is_not_null _ = some (bool true)
    eval Transformer.not (bool b) = some (bool (Lists.not b))
    eval Transformer.hash (string s) = some (hash_text s)
    eval Transformer.as_number (string s) =
        some (elim (parse_f64 s) [ none ↦ null | some f ↦ of_f64 f ])
    eval (Transformer.greater_than rhs) (number lhs) =
        on_f64 ext (λ f. is_gt (partial_cmp f rhs)) lhs
    eval (Transformer.lesser_than rhs) (number lhs) =
        on_f64 ext (λ f. is_lt (partial_cmp f rhs)) lhs
    eval (Transformer.greater_or_equal rhs) (number lhs) =
        on_f64 ext (λ f. is_gt (partial_cmp f rhs)) lhs
    eval (Transformer.lesser_or_equal rhs) (number lhs) =
        on_f64 ext (λ f. is_le (partial_cmp f rhs)) lhs
    eval (Transformer.between low high) (number lhs) =
        on_f64 ext (λ f. is_ge (partial_cmp f low) && is_le (partial_cmp f high)) lhs
    eval (Transformer.equals rhs) (number lhs) = on_f64 ext (λ f. is_near ext f rhs) lhs
    eval (Transformer.in_numbers nums) (number lhs) =
        on_f64 ext (λ f. Lists.any (is_near ext f) nums) lhs
    eval Transformer.length (array vs) = some (number (from_u64 (length (items vs))))
    eval Transformer.length (string s) = some (number (from_u64 (length s)))
    eval Transformer.length (object fs) = some (number (from_u64 (length (fields fs))))
    eval Transformer.is_empty (array vs) = some (bool (is_empty (items vs)))
    eval Transformer.is_empty (string s) = some (bool (is_empty s))
    eval Transformer.is_empty (object fs) = some (bool (is_empty (fields fs)))
    eval (Transformer.get key) (object fs) = some (or_null (lookup key fs))
    eval (Transformer.get_idx idx) (array vs) = some (or_null (get_elem? (items vs) idx))
    eval Transformer.flatten (array vs) = as_list (flatten_all (items vs))
    eval (Transformer.each inner) (array vs) = as_list (map_all (eval_all inner) (items vs))
    eval (Transformer.each inner) (object fs) =
        as_map (map_all (λ (key, v). eval_all inner v >>= λ w. some (key, w)) (fields fs))
    eval (Transformer.filter inner) (array vs) = as_list (
        filter_map_all
          (λ v. eval_all inner v >>= verdict >>= λ b. some (if b then some v else none)) (items vs))
    eval (Transformer.filter inner) (object fs) = as_map (
        filter_map_all
          (λ (key, v).
            eval_all inner v >>= verdict >>= λ b. some (if b then some (key, v) else none))
          (fields fs))
    eval (Transformer.any predicate) (array vs) =
        any_all (λ v. eval_all predicate v >>= verdict) (items vs) >>= λ b. some (bool b)
    eval (Transformer.all predicate) (array vs) =
        all_all (λ v. eval_all predicate v >>= verdict) (items vs) >>= λ b. some (bool b)
    eval Transformer.sort (array vs) = as_list (sort_unstable_by cmp_json (items vs))
    eval (Transformer.sort_by key) (array vs) = as_list (
        sort_unstable_by (λ a b. eval_all key a >>= λ x. eval_all key b >>= λ y. cmp_json x y)
          (items vs))
    eval Transformer.as_string (number n) = some (string (number_text n))
    eval Transformer.as_string (bool b) = some (string (if b then bytes "true" else bytes "false"))
    eval Transformer.as_string (string s) = some (string s)
    eval Transformer.pretty (string s) = some (string (pretty s))
    eval (Transformer.equals_string this) (string other) = some (bool (text_eq this other))
    eval (Transformer.in_strings strings) (string other) =
        some (bool (Lists.any (λ s. text_eq s other) strings))
    eval (Transformer.capture regex) (string s) =
        some (elim (captures regex s) [ none ↦ null | some groups ↦ capture_json regex groups ])
    eval (Transformer.all_captures regex) (string s) =
        some (array (of_items (Lists.map (capture_json regex) (captures_iter regex s))))
    eval (Transformer.matches regex) (string s) = some (bool (is_match regex s))
    eval (Transformer.replace regex replacer) (string s) =
        some (string (replace_all regex s replacer))
    eval transformer null = some null
    eval transformer value = none

    -- `TransformerExpression::eval`.
    pub eval_all : TransformerExpression ext → Value ext → Option (Value ext)
    eval_all nil value = some value
    eval_all (cons t ts) value = eval t value >>= λ next. eval_all ts next
