-- ===== src/Expressions/Aggregator/Sound.antt =====
-- The types of aggregators, and the values of their states and results.
use lopez.Prelude.{ℕ, List, [], ◌∷◌, ◌++◌, none, some, ok, All, All-append, ◌≡◌}
use lopez.Prelude.Returns.{Returns, OnOk, OnOk-intro, OnOk-bind, Returns-bind, of_Returns}
use lopez.Extern.{Extern, IsFinite}
use lopez.JsonType.{JsonType}
use lopez.Value.{Value, or_null, of_f64}
use lopez.Value.HasType.{HasType, null, number, of_f64-HasType}
use lopez.Expressions.Transformer.TypeFor.{type_for_all}
use lopez.Expressions.Transformer.Eval.Cases.{Of}
use lopez.Expressions.Transformer.Eval.Loops.{Sound}
use lopez.Expressions.Transformer.Eval.Sound.{AllSortSafely, eval_all-Sound, transform-Sound}
use lopez.Expressions.Extractor.{
  Extraction, ExplodingExtractorExpression, exploding_type_of, extract_exploding,
}
use lopez.Expressions.Extractor.Sound.{
  IsTyped, ExpressionSortsSafely, ExplodesSafely, extract_exploding-Sound,
}
use lopez.Expressions.Aggregator.{
  Aggregator, AggregatorExpression, count, count_not_null, first, collect, distinct, sum, group,
  expression, AggregatorState, AggregatorExpressionState, aggregator_type_of,
  aggregator_expression_type_of, number_if_bool, number_if_number, new, new_expression, aggregate,
  aggregate_expression, finalize, finalize_expression, aggregate_each, run_rule, extend_set,
}
use lopez.Expressions.Aggregator.Steps.{
  Extracts, extend_set-All, count_not_null-Step, sum-Step, values-Step, first-Step, values-Result,
  group-Step, group-Result,
}

module _ {ext : Extern} (finite : IsFinite ext) (exn : Extraction ext) (typed : IsTyped exn) where
  open exn use {Operand}

  -- No expression of the aggregator sorts maps, and on the operand none explodes `null`.
  abbrev ExtractsSafely : Operand → ExplodingExtractorExpression exn → Type 0
  ExtractsSafely operand e =
      ExpressionSortsSafely finite exn typed e.extractor_expression
      × ExplodesSafely finite exn typed operand e

  abbrev mutual
    pub AggregatesSafely : Aggregator exn → Operand → Type 0
    AggregatesSafely count operand = Unit
    AggregatesSafely (count_not_null e) operand = ExtractsSafely operand e
    AggregatesSafely (first e) operand = ExtractsSafely operand e
    AggregatesSafely (collect e) operand = ExtractsSafely operand e
    AggregatesSafely (distinct e) operand = ExtractsSafely operand e
    AggregatesSafely (sum e) operand = ExtractsSafely operand e
    AggregatesSafely (group e a) operand =
        ExtractsSafely operand e × ExpressionAggregatesSafely a operand

    pub ExpressionAggregatesSafely : AggregatorExpression exn → Operand → Type 0
    ExpressionAggregatesSafely (expression a ts) operand = AggregatesSafely a operand

  -- The transformers behind the aggregators sort no maps.
  abbrev mutual
    pub FinishesSafely : Aggregator exn → Type 0
    FinishesSafely (group e a) = ExpressionFinishesSafely a
    FinishesSafely _ = Unit

    pub ExpressionFinishesSafely : AggregatorExpression exn → Type 0
    ExpressionFinishesSafely (expression a ts) =
        FinishesSafely a × OnOk (aggregator_type_of a) (λ t. AllSortSafely ts t)

  -- The values that a state holds have the type of what the aggregator extracts.
  abbrev mutual
    Typed : (a : Aggregator exn) → AggregatorState a → Type 0
    Typed (first e) v = OnOk (exploding_type_of exn e) (λ t. HasType (or_null v) t)
    Typed (collect e) vs = OnOk (exploding_type_of exn e) (λ t. All (Of t) vs)
    Typed (distinct e) vs = OnOk (exploding_type_of exn e) (λ t. All (Of t) vs)
    Typed (group e a) groups = All (λ kv. ExpressionTyped a kv.1) groups
    Typed _ _ = Unit

    ExpressionTyped : (a : AggregatorExpression exn) → AggregatorExpressionState a → Type 0
    ExpressionTyped (expression a ts) s = Typed a s

  extracts :
      (operand : Operand) (e : ExplodingExtractorExpression exn)
      → ExtractsSafely operand e
      → Extracts (exploding_type_of exn e) (extract_exploding exn operand e)
  extracts operand e s = extract_exploding-Sound finite exn typed operand e s.0 s.1

  new-Typed : (a : Aggregator exn) → Typed a (new a)
  unfolding new
  new-Typed (first e) = OnOk-intro (exploding_type_of exn e) (λ _. null)
  new-Typed (collect e) = OnOk-intro (exploding_type_of exn e) (λ _. tt)
  new-Typed (distinct e) = OnOk-intro (exploding_type_of exn e) (λ _. tt)
  new-Typed (group e a) = tt
  new-Typed _ = tt

  new_expression-Typed : (a : AggregatorExpression exn) → ExpressionTyped a (new_expression a)
  unfolding new_expression
  new_expression-Typed (expression a ts) = new-Typed a

  mutual
    unfolding aggregate aggregator_type_of

    aggregate-Sound :
        (a : Aggregator exn) (operand : Operand) (s : AggregatorState a)
        → AggregatesSafely a operand
        → Typed a s
        → OnOk (aggregator_type_of a) (λ _. Returns (Typed a) (aggregate a operand s))
    aggregate-Sound count operand n safe h = tt
    aggregate-Sound (count_not_null e) operand n safe h =
        count_not_null-Step (count_not_null e) (exploding_type_of exn e)
          (extract_exploding exn operand e) n (extracts operand e safe)
    aggregate-Sound (first e) operand none safe h =
        first-Step (exploding_type_of exn e) (extract_exploding exn operand e)
          (extracts operand e safe)
    aggregate-Sound (first e) operand (some v) safe h =
        OnOk-intro (exploding_type_of exn e) (λ _. h)
    aggregate-Sound (collect e) operand vs safe h =
        values-Step (λ xs ys. xs ++ ys) All-append (exploding_type_of exn e)
          (extract_exploding exn operand e) vs (extracts operand e safe) h
    aggregate-Sound (distinct e) operand vs safe h =
        values-Step extend_set extend_set-All (exploding_type_of exn e)
          (extract_exploding exn operand e) vs (extracts operand e safe) h
    aggregate-Sound (sum e) operand s safe h =
        sum-Step (sum e) finite (exploding_type_of exn e) (extract_exploding exn operand e) s
          (extracts operand e safe)
    aggregate-Sound (group e a) operand groups safe h =
        group-Step (group e a) (ExpressionTyped a) (new_expression a)
          (aggregate_expression a operand) (exploding_type_of exn e)
          (aggregator_expression_type_of a) (extract_exploding exn operand e) groups
          (new_expression-Typed a) (λ s k. aggregate_expression-Sound a operand s safe.1 k)
          (extracts operand e safe.0) h

    aggregate_expression-Sound :
        (a : AggregatorExpression exn) (operand : Operand) (s : AggregatorExpressionState a)
        → ExpressionAggregatesSafely a operand
        → ExpressionTyped a s
        → OnOk
            (aggregator_expression_type_of a)
            (λ _. Returns (ExpressionTyped a) (aggregate_expression a operand s))
    aggregate_expression-Sound (expression a ts) operand s safe h =
        OnOk-bind (λ _. Returns (Typed a) (aggregate a operand s))
          (λ _. Returns (Typed a) (aggregate a operand s)) (aggregator_type_of a) _
          (aggregate-Sound a operand s safe h) (λ t k. OnOk-intro (type_for_all ts t) (λ _. k))

  number_if_bool-number :
      (e : ExplodingExtractorExpression exn) (n : ℕ) (t : JsonType)
      → OnOk
          (number_if_bool {exn = exn} (count_not_null e) t)
          (λ u. HasType {ext = ext} (Value.number (ext.from_u64 n)) u)
  number_if_bool-number e n JsonType.bool = number
  number_if_bool-number e n _ = tt

  number_if_number-number :
      (e : ExplodingExtractorExpression exn) (s : ext.F64) (t : JsonType)
      → OnOk (number_if_number {exn = exn} (sum e) t) (λ u. HasType {ext = ext} (of_f64 s) u)
  number_if_number-number e s JsonType.number = of_f64-HasType s
  number_if_number-number e s _ = tt

  mutual
    unfolding finalize aggregator_type_of

    finalize-Sound :
        (a : Aggregator exn) (s : AggregatorState a)
        → FinishesSafely a
        → Typed a s
        → Sound (aggregator_type_of a) (finalize a s)
    finalize-Sound count n safe h = number
    finalize-Sound (count_not_null e) n safe h =
        OnOk-bind (λ _. Unit) (λ t. HasType {ext = ext} (Value.number (ext.from_u64 n)) t)
          (exploding_type_of exn e) _ (OnOk-intro (exploding_type_of exn e) (λ _. tt))
          (λ t _. number_if_bool-number e n t)
    finalize-Sound (first e) v safe h = h
    finalize-Sound (collect e) vs safe h = values-Result (exploding_type_of exn e) vs h
    finalize-Sound (distinct e) vs safe h = values-Result (exploding_type_of exn e) vs h
    finalize-Sound (sum e) s safe h =
        OnOk-bind (λ _. Unit) (λ t. HasType {ext = ext} (of_f64 s) t) (exploding_type_of exn e) _
          (OnOk-intro (exploding_type_of exn e) (λ _. tt)) (λ t _. number_if_number-number e s t)
    finalize-Sound (group e a) groups safe h =
        group-Result (group e a) (ExpressionTyped a) (finalize_expression a)
          (exploding_type_of exn e) (aggregator_expression_type_of a) groups
          (λ s k. finalize_expression-Sound a s safe k) h

    finalize_expression-Sound :
        (a : AggregatorExpression exn) (s : AggregatorExpressionState a)
        → ExpressionFinishesSafely a
        → ExpressionTyped a s
        → Sound (aggregator_expression_type_of a) (finalize_expression a s)
    finalize_expression-Sound (expression a ts) s safe h =
        transform-Sound ts (aggregator_type_of a) (finalize a s) (finalize-Sound a s safe.0 h)
          safe.1 (λ next w k s'. eval_all-Sound finite ts k s')

  aggregate_each-Returns :
      (a : AggregatorExpression exn) {t : JsonType} (operands : List Operand)
      (s : AggregatorExpressionState a)
      → aggregator_expression_type_of a ≡ ok t
      → All (λ operand. ExpressionAggregatesSafely a operand) operands
      → ExpressionTyped a s
      → Returns (ExpressionTyped a) (aggregate_each a operands s)
  unfolding aggregate_each
  aggregate_each-Returns a [] s e safe h = h
  aggregate_each-Returns a (operand ∷ operands) s e safe h =
      Returns-bind (ExpressionTyped a) (ExpressionTyped a) (aggregate_expression a operand s) _
        (rw e at (aggregate_expression-Sound a operand s safe.0 h))
        (λ s' h'. aggregate_each-Returns a operands s' e safe.1 h')

  -- A rule that type checks runs without a panic on every list of selected elements, and gives a
  -- value of its type, provided that JSON numbers are finite, that extractors give values of their
  -- types, that no `sort` or `sort-by` compares maps and that no element makes an exploding
  -- expression explode `null`.
  pub run_rule-HasType :
      (a : AggregatorExpression exn) (t : JsonType) (operands : List Operand)
      → ExpressionFinishesSafely a
      → All (λ operand. ExpressionAggregatesSafely a operand) operands
      → aggregator_expression_type_of a ≡ ok t
      → (v : Value ext) × (run_rule a operands ≡ some v) × HasType v t
  unfolding run_rule
  run_rule-HasType a t operands fin safe e = of_Returns (Of t) (run_rule a operands) (
      Returns-bind (ExpressionTyped a) (Of t) (aggregate_each a operands (new_expression a)) _
        (aggregate_each-Returns a operands _ e safe (new_expression-Typed a))
        (λ s h. rw e at (finalize_expression-Sound a s fin h)))
