-- ===== src/Tests/Validation.antt =====
-- Directives with a seed, a rule and a variable.
use lopez.Prelude.{ℕ, bytes, true, none, some, List, [], ◌∷◌, map, ok}
use lopez.Value.{Value, of_items}
use lopez.JsonType.{JsonType}
use lopez.Expressions.Transformer.{Transformer, nil, cons}
use lopez.Expressions.Extractor.{Extraction}
use lopez.Expressions.Aggregator.{AggregatorExpression, collect, expression}
use lopez.Directives.Bounds.{Boundary}
use lopez.Directives.Validation.{Modules, seed, boundary, rule_set, set_variable}
use lopez.Tests.Samples.{floats, addresses}

-- Operands that are arrays of numbers, by their members.
abbrev numbers : Extraction floats
numbers = record {
  Extractor = Unit;
  Operand = List ℕ;
  extractor_text = λ e. bytes "operand";
  type_of = λ e. ok (JsonType.array JsonType.number);
  extract_with = λ operand e. some (Value.array (of_items (map (λ n. Value.number n) operand)));
}

abbrev how_many : AggregatorExpression numbers
how_many =
    expression
      (collect (record {
        explodes = true;
        extractor_expression = record { extractor = tt; transformer_expression = nil };
      }))
      (cons Transformer.length nil)

abbrev modules : Modules numbers addresses Unit
modules =
    (
      [],
      boundary (Boundary.allowed (bytes "https://a.com"))
          ∷ seed (bytes "https://a.com", [])
          ∷ set_variable (bytes "quota") (Value.number 5)
          ∷ rule_set
              (record { in_page = none; selector = tt; aggregators = (bytes "n", how_many) ∷ [] })
          ∷ [],
    )
    ∷ (
      bytes "more",
      rule_set (record { in_page = none; selector = tt; aggregators = (bytes "n", how_many) ∷ [] })
          ∷ [],
    )
    ∷ []
