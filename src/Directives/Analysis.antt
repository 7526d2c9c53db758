-- ===== src/Directives/Analysis.antt =====
-- `Analyzer::analyze` (lib-lopez/src/directives/directives.rs): the rules of all modules on one page.
-- The states of the rules of a rule set do not touch each other, so that each rule is run by itself
-- over the selected elements. The page is its URL and what a selector selects in it.
pub mod Sound
use lopez.Prelude.{Text, Bool, true, false, Option, none, some, List, [], ◌∷◌, ◌++◌, if◌then◌else◌}
use lopez.Prelude.Panic.{◌>>=◌, map_all}
use lopez.Extern.{Extern}
use lopez.Urls.{Urls}
use lopez.Value.{Value}
use lopez.Expressions.Extractor.{Extraction}
use lopez.Expressions.Aggregator.{AggregatorExpression, run_rule}
use lopez.Directives.Names.{full_rule_name}
use lopez.Directives.Validation.{RuleSet, Item, rule_set, Modules}

module _ {ext : Extern} (exn : Extraction ext) (urls : Urls) (Selector : Type 0) where
  pub record Page : Type 0 where
    pub page_url : Text
    pub select : Selector → List exn.Operand

  abbrev pub Values : Type 0
  Values = List (Text × Value ext)

  module _ (page : Page) where
    abbrev pub applies : Option ext.Regex → Bool
    applies none = true
    applies (some regex) = ext.is_match regex page.page_url

    abbrev pub named_value : Text → Option (Value ext) → Option (Text × Value ext)
    named_value name none = none
    named_value name (some v) = some (name, v)

    unfoldable pub run_rules :
        Text → List exn.Operand → List (Text × AggregatorExpression exn) → Option Values
    unfolding run_rule full_rule_name
    run_rules prefix operands rules =
        map_all
          (λ (rule : Text × AggregatorExpression exn).
            named_value (full_rule_name prefix rule.0) (run_rule rule.1 operands))
          rules

    abbrev pub run_rule_set : Text → RuleSet exn urls Selector → Option Values
    run_rule_set prefix r =
        if applies r.in_page
        then run_rules prefix (page.select r.selector) r.aggregators
        else some []

    abbrev pub and_then : Option Values → Option Values → Option Values
    and_then first rest = first >>= λ vs. rest >>= λ ws. some (vs ++ ws)

    unfoldable pub analyze_items : Text → List (Item exn urls Selector) → Option Values
    unfolding run_rules
    analyze_items prefix [] = some []
    analyze_items prefix (rule_set r ∷ items) =
        and_then (run_rule_set prefix r) (analyze_items prefix items)
    analyze_items prefix (item ∷ items) = analyze_items prefix items

    unfoldable pub analyze : Modules exn urls Selector → Option Values
    unfolding analyze_items
    analyze [] = some []
    analyze ((name, items) ∷ modules) = and_then (analyze_items name items) (analyze modules)
