-- ===== src/Directives/HtmlExtractor/Rules.antt =====
-- The rules of directives, which are over HTML extractors: what they give for elements and pages.
use lopez.Prelude.{List, [], some, ok, All, ◌≡◌}
use lopez.Extern.{Extern, IsFinite}
use lopez.Urls.{Urls}
use lopez.JsonType.{JsonType}
use lopez.Value.{Value}
use lopez.Value.HasType.{HasType}
use lopez.Expressions.Extractor.Sound.{IsTyped}
use lopez.Expressions.Aggregator.{AggregatorExpression, aggregator_expression_type_of, run_rule}
use lopez.Expressions.Aggregator.Sound.{
  ExpressionFinishesSafely, ExpressionAggregatesSafely, run_rule-HasType,
}
use lopez.Directives.Validation.{Modules, named_rules, find_type_errors}
use lopez.Directives.Analysis.{Page, Values, analyze}
use lopez.Directives.Analysis.Sound.{IsFrom, ModulesAreSafe, analyze-HasType}
use lopez.Directives.HtmlExtractor.{Dom, Selector, html_extraction}
use lopez.Directives.HtmlExtractor.Sound.{SortsInside, extract_with-Sound}

-- HTML extractors give values of their types where they sort no maps inside.
unfoldable pub html-IsTyped :
    {ext : Extern} → IsFinite ext → (dom : Dom) → IsTyped (html_extraction ext dom)
unfolding html_extraction
html-IsTyped finite dom = record {
  Safe = SortsInside;
  sound = λ operand e safe. extract_with-Sound finite operand e safe;
}

module _ {ext : Extern} (finite : IsFinite ext) (dom : Dom) where
  -- A rule over HTML extractors that type checks runs without a panic on the elements that are
  -- selected, and gives a value of its type, provided that JSON numbers are finite, that no `sort` or
  -- `sort-by` in it, also inside its extractors, compares maps, and that no element makes an
  -- exploding expression explode `null`.
  pub html_rule-HasType :
      (a : AggregatorExpression (html_extraction ext dom)) (t : JsonType)
      (elements : List (html_extraction ext dom).Operand)
      → ExpressionFinishesSafely finite (html_extraction ext dom) (html-IsTyped finite dom) a
      → All
          (λ element.
            ExpressionAggregatesSafely finite
              (html_extraction ext dom)
              (html-IsTyped finite dom)
              a
              element)
          elements
      → aggregator_expression_type_of a ≡ ok t
      → (v : Value ext) × (run_rule a elements ≡ some v) × HasType v t
  html_rule-HasType a t elements fin safe e =
      run_rule-HasType finite (html_extraction ext dom) (html-IsTyped finite dom) a t elements fin
        safe e

  -- On every page, directives without type errors are analyzed without a panic, and each value that
  -- they give has the full name of a rule and the type of that rule; provided that JSON numbers are
  -- finite, and that no rule sorts maps, also inside its extractors, or explodes `null` on an element
  -- of the page.
  pub html_analysis-HasType :
      (urls : Urls) (page : Page (html_extraction ext dom) urls (Selector dom))
      (modules : Modules (html_extraction ext dom) urls (Selector dom))
      → find_type_errors (html_extraction ext dom) urls (Selector dom) modules ≡ []
      → ModulesAreSafe finite
          (html_extraction ext dom)
          (html-IsTyped finite dom)
          urls
          (Selector dom)
          page
          modules
      → (vs : Values (html_extraction ext dom) urls (Selector dom)) × (analyze
            (html_extraction ext dom)
            urls
            (Selector dom)
            page
            modules
          ≡ some vs)
        × All
            (IsFrom finite
              (html_extraction ext dom)
              (html-IsTyped finite dom)
              urls
              (Selector dom)
              (named_rules (html_extraction ext dom) urls (Selector dom) modules))
            vs
  html_analysis-HasType urls page modules e safe =
      analyze-HasType finite (html_extraction ext dom) (html-IsTyped finite dom) urls (Selector dom)
        page modules e safe
