-- ===== src/Expressions/Aggregator.antt =====
-- lib-lopez/src/directives/expressions/aggregator.rs: aggregators, their types, and the states in
-- which they gather the values of a page. A state keeps its aggregator by reference; here the type
-- of the state is a function of the aggregator, and holds only what changes. Counters are `usize`,
-- of 64 bits, with the wrap-around of a release build. `none` is a panic.
pub mod Steps
pub mod Sound
use lopez.Prelude.{
  ℕ, ◌+◌, ◌%◌, ◌^◌, Text, bytes, text_cmp, ◌++◌, Bool, true, false, List, [], ◌∷◌, Option, none,
  some, Ordering, Result, ok, err, any, if◌then◌else◌,
}
use lopez.Prelude.Outcome
use lopez.Prelude.Panic.{◌>>=◌, map_all}
use lopez.Extern.{Extern}
use lopez.JsonType.{JsonType}
use lopez.Value.{Value, null, of_items, of_f64, or_null, collect_map}
use lopez.Value.Hash.{same_member}
use lopez.Expressions.Error.{Error, type_error}
use lopez.Expressions.Transformer.{TransformerExpression}
use lopez.Expressions.Transformer.TypeFor.{type_for_all}
use lopez.Expressions.Transformer.Compare.{force_f64}
use lopez.Expressions.Transformer.Eval.{eval_all}
use lopez.Expressions.Extractor.{
  Extraction, ExplodingExtractorExpression, exploding_type_of, exploding_text, extract_exploding,
  with_transformers,
}

abbrev pub add_usize : ℕ → ℕ → ℕ
add_usize a b = (a + b) % 2 ^ 64

module _ {ext : Extern} (exn : Extraction ext) where
  mutual
    pub data Aggregator : Type 0 where
      count : Aggregator
      count_not_null first collect distinct sum : ExplodingExtractorExpression exn → Aggregator
      group : ExplodingExtractorExpression exn → AggregatorExpression → Aggregator

    -- `aggregator` and `transformer_expression`.
    pub data AggregatorExpression : Type 0 where
      expression : Aggregator → TransformerExpression ext → AggregatorExpression

module _ {ext : Extern} {exn : Extraction ext} where
  unfoldable mutual
    pub aggregator_text : Aggregator exn → Text
    aggregator_text count = bytes "count"
    aggregator_text (count_not_null e) = bytes "count(" ++ (exploding_text exn e ++ bytes ")")
    aggregator_text (first e) = bytes "first(" ++ (exploding_text exn e ++ bytes ")")
    aggregator_text (collect e) = bytes "collect(" ++ (exploding_text exn e ++ bytes ")")
    aggregator_text (distinct e) = bytes "distinct(" ++ (exploding_text exn e ++ bytes ")")
    aggregator_text (sum e) = bytes "sum(" ++ (exploding_text exn e ++ bytes ")")
    aggregator_text (group e a) =
        bytes "group("
        ++ (exploding_text exn e ++ (bytes ", " ++ (aggregator_expression_text a ++ bytes ")")))

    pub aggregator_expression_text : AggregatorExpression exn → Text
    aggregator_expression_text (expression a ts) = with_transformers (aggregator_text a) ts

  -- The type of an aggregator, from that of what it extracts.
  abbrev pub number_if_bool : Aggregator exn → JsonType → Result Error JsonType
  number_if_bool self JsonType.bool = ok JsonType.number
  number_if_bool self typ = err (type_error (aggregator_text self) typ)

  abbrev pub number_if_number : Aggregator exn → JsonType → Result Error JsonType
  number_if_number self JsonType.number = ok JsonType.number
  number_if_number self typ = err (type_error (aggregator_text self) typ)

  abbrev pub map_if_string : Aggregator exn → JsonType → JsonType → Result Error JsonType
  map_if_string self aggregated JsonType.string = ok (JsonType.map aggregated)
  map_if_string self aggregated typ = err (type_error (aggregator_text self) typ)

  unfoldable mutual
    pub aggregator_type_of : Aggregator exn → Result Error JsonType
    aggregator_type_of count = ok JsonType.number
    aggregator_type_of (count_not_null e) =
        Outcome.◌>>=◌ (exploding_type_of exn e) λ typ. number_if_bool (count_not_null e) typ
    aggregator_type_of (first e) = exploding_type_of exn e
    aggregator_type_of (collect e) =
        Outcome.◌>>=◌ (exploding_type_of exn e) λ typ. ok (JsonType.array typ)
    aggregator_type_of (distinct e) =
        Outcome.◌>>=◌ (exploding_type_of exn e) λ typ. ok (JsonType.array typ)
    aggregator_type_of (sum e) =
        Outcome.◌>>=◌ (exploding_type_of exn e) λ typ. number_if_number (sum e) typ
    aggregator_type_of (group e a) = Outcome.◌>>=◌ (exploding_type_of exn e) λ extract_type.
        Outcome.◌>>=◌ (aggregator_expression_type_of a)
          λ aggregator_type. map_if_string (group e a) aggregator_type extract_type

    pub aggregator_expression_type_of : AggregatorExpression exn → Result Error JsonType
    aggregator_expression_type_of (expression a ts) =
        Outcome.◌>>=◌ (aggregator_type_of a) λ t. type_for_all ts t

  -- `AggregatorState`: a `BTreeMap` is the list of its entries in the order of their keys, a
  -- `HashSet` the list of its members in the order in which they came.
  abbrev mutual
    pub AggregatorState : Aggregator exn → Type 0
    AggregatorState count = ℕ
    AggregatorState (count_not_null e) = ℕ
    AggregatorState (first e) = Option (Value ext)
    AggregatorState (collect e) = List (Value ext)
    AggregatorState (distinct e) = List (Value ext)
    AggregatorState (sum e) = ext.F64
    AggregatorState (group e a) = List (Text × AggregatorExpressionState a)

    pub AggregatorExpressionState : AggregatorExpression exn → Type 0
    AggregatorExpressionState (expression a ts) = AggregatorState a

  unfoldable pub new : (a : Aggregator exn) → AggregatorState a
  new count = 0
  new (count_not_null e) = 0
  new (first e) = none
  new (collect e) = []
  new (distinct e) = []
  new (sum e) = ext.zero_f64
  new (group e a) = []

  unfoldable pub new_expression : (a : AggregatorExpression exn) → AggregatorExpressionState a
  unfolding new
  new_expression (expression a ts) = new a

-- The loops of `aggregate` over the values of one operand.
module _ {ext : Extern} where
  abbrev pub count_true : ℕ → List (Value ext) → Option ℕ
  count_true n [] = some n
  count_true n (Value.bool true ∷ vs) = count_true (add_usize n 1) vs
  count_true n (Value.bool false ∷ vs) = count_true n vs
  count_true n (null ∷ vs) = count_true n vs
  count_true n (v ∷ vs) = none

  abbrev pub first_not_null : List (Value ext) → Option (Value ext)
  first_not_null [] = none
  first_not_null (null ∷ vs) = first_not_null vs
  first_not_null (v ∷ vs) = some v

  -- `HashSet::extend`: a member that is there already is not added.
  abbrev pub extend_set : List (Value ext) → List (Value ext) → List (Value ext)
  extend_set set [] = set
  extend_set set (v ∷ vs) = extend_set (if any (same_member v) set then set else set ++ (v ∷ [])) vs

  abbrev pub add_numbers : ext.F64 → List (Value ext) → Option ext.F64
  add_numbers s [] = some s
  add_numbers s (Value.number n ∷ vs) = force_f64 ext n >>= λ f. add_numbers (ext.add s f) vs
  add_numbers s (null ∷ vs) = add_numbers s vs
  add_numbers s (v ∷ vs) = none

-- The groups, as a map from keys to states of any type.
module _ {S : Type 0} (fresh : S) (step : S → Option S) where
  abbrev pub put_group :
      Ordering
      → Text
      → Text × S
      → List (Text × S)
      → Option (List (Text × S))
      → Option (List (Text × S))
  put_group Ordering.lt k g gs rest = step fresh >>= λ s. some ((k, s) ∷ g ∷ gs)
  put_group Ordering.eq k (j, t) gs rest = step t >>= λ s. some ((j, s) ∷ gs)
  put_group Ordering.gt k g gs rest = rest >>= λ hs. some (g ∷ hs)

  -- `groups.entry(key).or_insert_with(…).aggregate(operand)`.
  unfoldable pub aggregate_group : Text → List (Text × S) → Option (List (Text × S))
  aggregate_group k [] = step fresh >>= λ s. some ((k, s) ∷ [])
  aggregate_group k (g ∷ gs) = put_group (text_cmp k g.0) k g gs (aggregate_group k gs)

module _ {ext : Extern} {S : Type 0} (fresh : S) (step : S → Option S) where
  abbrev pub aggregate_keys : List (Value ext) → List (Text × S) → Option (List (Text × S))
  aggregate_keys [] groups = some groups
  aggregate_keys (Value.string key ∷ keys) groups =
      aggregate_group fresh step key groups >>= aggregate_keys keys
  aggregate_keys (null ∷ keys) groups = aggregate_keys keys groups
  aggregate_keys (key ∷ keys) groups = none

module _ {ext : Extern} {exn : Extraction ext} where
  unfoldable mutual
    unfolding extract_exploding new_expression aggregate_group

    pub aggregate :
        (a : Aggregator exn) → exn.Operand → AggregatorState a → Option (AggregatorState a)
    aggregate count operand n = some (add_usize n 1)
    aggregate (count_not_null e) operand n = extract_exploding exn operand e >>= count_true n
    aggregate (first e) operand none =
        extract_exploding exn operand e >>= λ vs. some (first_not_null vs)
    aggregate (first e) operand (some v) = some (some v)
    aggregate (collect e) operand values =
        extract_exploding exn operand e >>= λ vs. some (values ++ vs)
    aggregate (distinct e) operand values =
        extract_exploding exn operand e >>= λ vs. some (extend_set values vs)
    aggregate (sum e) operand s = extract_exploding exn operand e >>= add_numbers s
    aggregate (group e a) operand groups = extract_exploding exn operand e >>= λ keys.
        aggregate_keys (new_expression a) (aggregate_expression a operand) keys groups

    pub aggregate_expression :
        (a : AggregatorExpression exn)
        → exn.Operand
        → AggregatorExpressionState a
        → Option (AggregatorExpressionState a)
    aggregate_expression (expression a ts) operand s = aggregate a operand s

  unfoldable mutual
    pub finalize : (a : Aggregator exn) → AggregatorState a → Option (Value ext)
    finalize count n = some (Value.number (ext.from_u64 n))
    finalize (count_not_null e) n = some (Value.number (ext.from_u64 n))
    finalize (first e) v = some (or_null v)
    finalize (collect e) vs = some (Value.array (of_items vs))
    finalize (distinct e) vs = some (Value.array (of_items vs))
    finalize (sum e) s = some (of_f64 s)
    finalize (group e a) groups =
        map_all (λ (key, s). finalize_expression a s >>= λ v. some (key, v)) groups >>= λ entries.
        some (Value.object (collect_map entries))

    pub finalize_expression :
        (a : AggregatorExpression exn) → AggregatorExpressionState a → Option (Value ext)
    finalize_expression (expression a ts) s = finalize a s >>= λ v. eval_all ts v

  -- A rule on one page, as `Analyzer::analyze` runs it: a new state, one call of `aggregate` for
  -- each selected element, and the final value.
  unfoldable pub aggregate_each :
      (a : AggregatorExpression exn)
      → List exn.Operand
      → AggregatorExpressionState a
      → Option (AggregatorExpressionState a)
  aggregate_each a [] s = some s
  aggregate_each a (operand ∷ operands) s =
      aggregate_expression a operand s >>= aggregate_each a operands

  unfoldable pub run_rule : (a : AggregatorExpression exn) → List exn.Operand → Option (Value ext)
  unfolding aggregate_each new_expression
  run_rule a operands = aggregate_each a operands (new_expression a) >>= finalize_expression a
