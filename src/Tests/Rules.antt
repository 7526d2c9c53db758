-- ===== src/Tests/Rules.antt =====
-- A rule over HTML extractors, and directives with it.
use lopez.Prelude.{bytes, none, some, List, [], ◌∷◌, All, ◌≡◌, refl, true}
use lopez.JsonType.{JsonType}
use lopez.Value.{Value}
use lopez.Value.HasType.{HasType}
use lopez.Expressions.Transformer.{Transformer, nil, cons}
use lopez.Expressions.Transformer.TypeFor.{type_for_all}
use lopez.Expressions.Transformer.Eval.{eval_all}
use lopez.Expressions.Extractor.{expression_type_of, exploding_type_of, extract_expression}
use lopez.Expressions.Aggregator.{
  AggregatorExpression, collect, expression, aggregator_expression_type_of, run_rule,
}
use lopez.Expressions.Aggregator.Sound.{ExpressionFinishesSafely, ExpressionAggregatesSafely}
use lopez.Directives.Validation.{Modules, rule_set, named_rules, find_type_errors}
use lopez.Directives.Analysis.{Page, Values, analyze}
use lopez.Directives.Analysis.Sound.{IsFrom}
use lopez.Directives.HtmlExtractor.{
  Inner, Selector, classes, children, html_extraction, type_of, extract_with,
}
use lopez.Directives.HtmlExtractor.Sound.{SortsInside}
use lopez.Directives.HtmlExtractor.Rules.{html-IsTyped, html_rule-HasType, html_analysis-HasType}
use lopez.Tests.Samples.{floats, floats-IsFinite, addresses}
use lopez.Tests.Parsing.{page}

-- `collect(children(classes) !explode) length`.
abbrev all_classes : AggregatorExpression (html_extraction floats page)
unfolding html_extraction
all_classes =
    expression
      (collect (record {
        explodes = true;
        extractor_expression = record {
          extractor = children (Inner.expression classes nil);
          transformer_expression = nil;
        };
      }))
      (cons Transformer.length nil)

abbrev elements : List (html_extraction floats page).Operand
unfolding html_extraction
elements = (bytes "ul", bytes "a" ∷ bytes "b" ∷ []) ∷ (bytes "p", []) ∷ []

all_classes-Finishes :
    ExpressionFinishesSafely floats-IsFinite
      (html_extraction floats page)
      (html-IsTyped floats-IsFinite page)
      all_classes
unfolding all_classes html-IsTyped SortsInside type_of aggregator_expression_type_of
    expression_type_of exploding_type_of type_for_all
all_classes-Finishes = (tt, (tt, tt))

all_classes-Aggregates :
    All
      (λ element.
        ExpressionAggregatesSafely floats-IsFinite
          (html_extraction floats page)
          (html-IsTyped floats-IsFinite page)
          all_classes
          element)
      elements
unfolding all_classes html-IsTyped SortsInside type_of type_for_all extract_expression extract_with
    eval_all elements
all_classes-Aggregates =
    ((((tt, tt), tt), λ e q. absurd (cc)), (((((tt, tt), tt), λ e q. absurd (cc)), tt)))

html_rule-HasType_example :
    (v : Value floats) × (run_rule all_classes elements ≡ some v) × HasType v JsonType.number
unfolding aggregator_expression_type_of type_for_all expression_type_of exploding_type_of
    all_classes type_of
html_rule-HasType_example =
    html_rule-HasType floats-IsFinite page all_classes JsonType.number elements all_classes-Finishes
      all_classes-Aggregates refl

abbrev modules : Modules (html_extraction floats page) addresses (Selector page)
modules =
    (
      [],
      rule_set (record {
        in_page = none;
        selector = record { selector = bytes "u"; original = bytes "u" };
        aggregators = (bytes "n", all_classes) ∷ [];
      })
          ∷ [],
    )
    ∷ []

abbrev two_elements : Page (html_extraction floats page) addresses (Selector page)
two_elements = record { page_url = bytes "https://a.com"; select = λ selector. elements }

html_analysis-HasType_example :
    (vs : Values (html_extraction floats page) addresses (Selector page)) × (analyze
        (html_extraction floats page)
        addresses
        (Selector page)
        two_elements
        modules
      ≡ some vs)
    × All
        (IsFrom floats-IsFinite
          (html_extraction floats page)
          (html-IsTyped floats-IsFinite page)
          addresses
          (Selector page)
          (named_rules (html_extraction floats page) addresses (Selector page) modules))
        vs
unfolding find_type_errors named_rules aggregator_expression_type_of exploding_type_of
    expression_type_of type_for_all all_classes type_of
html_analysis-HasType_example =
    html_analysis-HasType floats-IsFinite page addresses two_elements modules refl
      ((((all_classes-Finishes, all_classes-Aggregates), tt), tt), tt)
