-- ===== src/Tests/Expressions.antt =====
-- Transformers, extractors and aggregators on sample values.
use lopez.Prelude.{bytes, false, some, ok, ◌≡◌, refl}
use lopez.JsonType.{JsonType}
use lopez.Value.{Value, Items}
use lopez.Value.HasType.{HasType, AllItems}
use lopez.Expressions.Transformer.{Transformer, TransformerExpression, nil, cons}
use lopez.Expressions.Transformer.Compare.{force_f64}
use lopez.Expressions.Transformer.TypeFor.{type_for, type_for_all}
use lopez.Expressions.Transformer.Eval.{eval, eval_all}
use lopez.Expressions.Transformer.Eval.Sound.{eval_all-HasType}
use lopez.Expressions.Transformer.Eval.Predicates.{greater_or_equal-eq-greater_than}
use lopez.Tests.Samples.{floats, floats-IsFinite}

-- `each(length)` on an array of strings.
abbrev lengths : TransformerExpression floats
lengths = cons (Transformer.each (cons Transformer.length nil)) nil

abbrev words : Items floats
words = Items.cons (Value.string (bytes "ab")) (Items.cons (Value.string (bytes "c")) Items.nil)

words-HasType : HasType (Value.array words) (JsonType.array JsonType.string)
words-HasType =
    HasType.array (AllItems.cons HasType.string (AllItems.cons HasType.string AllItems.nil))

lengths-type :
    type_for_all lengths (JsonType.array JsonType.string) ≡ ok (JsonType.array JsonType.number)
unfolding type_for_all
lengths-type = refl

eval_all-HasType_example :
    (w : Value floats) × (eval_all lengths (Value.array words) ≡ some w)
    × HasType w (JsonType.array JsonType.number)
unfolding type_for
eval_all-HasType_example =
    eval_all-HasType floats-IsFinite lengths (JsonType.array JsonType.string)
      (JsonType.array JsonType.number) (Value.array words) ((tt, tt), tt) lengths-type words-HasType

abbrev is_long : TransformerExpression floats
is_long = cons Transformer.length (cons (Transformer.greater_than 1) nil)

greater_or_equal-eq-greater_than_example :
    (eval {ext = floats} (Transformer.greater_or_equal 5) (Value.number 5)
      ≡ eval {ext = floats} (Transformer.greater_than 5) (Value.number 5))
    × (eval {ext = floats} (Transformer.greater_or_equal 5) (Value.number 5)
        ≡ some (Value.bool false))
unfolding force_f64
greater_or_equal-eq-greater_than_example =
    greater_or_equal-eq-greater_than {ext = floats} 5 (Value.number 5) 5 refl
