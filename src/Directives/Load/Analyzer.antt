-- ===== src/Directives/Load/Analyzer.antt =====
-- The analyzer of directives: the rule sets that it is made of, and their run over a page.
use lopez.Prelude.{
  Text, Option, none, some, List, [], ◌∷◌, ◌++◌, map, filter_map, ◌≡◌, refl, ap, sym, ◌∙◌,
}
use lopez.Extern.{Extern}
use lopez.Urls.{Urls}
use lopez.Nom.{Nom}
use lopez.Directives.HtmlExtractor.{Dom, Selector, html_extraction}
use lopez.Directives.Validation.{seed, boundary, import, rule_set, set_variable, web_driver}
use lopez.Directives.Parse.Items.{HtmlItem, HtmlRuleSet}
use lopez.Directives.Analysis.{Page, Values, run_rule_set, and_then, analyze_items, analyze}
use lopez.Directives.Load.{Modules, as_rule_set, under, analyzer}

module _ {ext : Extern} (nom : Nom ext) (dom : Dom) (urls : Urls)
    (page : Page (html_extraction ext dom) urls (Selector dom)) where
  abbrev Found : Type 0
  Found = Option (Values (html_extraction ext dom) urls (Selector dom))

  abbrev both : Found → Found → Found
  both = and_then (html_extraction ext dom) urls (Selector dom) page

  -- `Analyzer::analyze`, over the rule sets.
  unfoldable pub analyze_rule_sets : List (Text × HtmlRuleSet nom dom urls) → Found
  analyze_rule_sets [] = some []
  analyze_rule_sets ((name, r) ∷ rs) =
      both (run_rule_set (html_extraction ext dom) urls (Selector dom) page name r)
        (analyze_rule_sets rs)

  append_assoc : {A : Type 0} (xs ys zs : List A) → xs ++ (ys ++ zs) ≡ (xs ++ ys) ++ zs
  append_assoc [] ys zs = refl
  append_assoc (x ∷ xs) ys zs = ap (λ l. x ∷ l) (append_assoc xs ys zs)

  both_assoc : (a b c : Found) → both a (both b c) ≡ both (both a b) c
  both_assoc none b c = refl
  both_assoc (some a) none c = refl
  both_assoc (some a) (some b) none = refl
  both_assoc (some a) (some b) (some c) = ap some (append_assoc a b c)

  both-nil : (a : Found) → both (some []) a ≡ a
  both-nil none = refl
  both-nil (some a) = refl

  abbrev of_items : Text → List (HtmlItem nom dom urls) → List (Text × HtmlRuleSet nom dom urls)
  of_items name items = map (under nom dom urls name) (filter_map (as_rule_set nom dom urls) items)

  items-behind :
      (name : Text) (items : List (HtmlItem nom dom urls))
      (rs : List (Text × HtmlRuleSet nom dom urls))
      → both
          (analyze_items (html_extraction ext dom) urls (Selector dom) page name items)
          (analyze_rule_sets rs)
        ≡ analyze_rule_sets (of_items name items ++ rs)
  unfolding analyze_items analyze_rule_sets
  items-behind name [] rs = both-nil (analyze_rule_sets rs)
  items-behind name (rule_set r ∷ items) rs =
      let first = run_rule_set (html_extraction ext dom) urls (Selector dom) page name r in
      let rest = analyze_items (html_extraction ext dom) urls (Selector dom) page name items in
      sym (both_assoc first rest (analyze_rule_sets rs))
      ∙ ap (both first) (items-behind name items rs)
  items-behind name (seed url ∷ items) rs = items-behind name items rs
  items-behind name (boundary b ∷ items) rs = items-behind name items rs
  items-behind name (import path ∷ items) rs = items-behind name items rs
  items-behind name (set_variable n value ∷ items) rs = items-behind name items rs
  items-behind name (web_driver regex ∷ items) rs = items-behind name items rs

  -- Analyzing a page with the rule sets that the analyzer of the modules is made of gives what
  -- running over the modules gives, on every page, panics included.
  pub analyze_rule_sets-analyzer :
      (modules : Modules nom dom urls)
      → analyze_rule_sets (analyzer nom dom urls modules)
        ≡ analyze (html_extraction ext dom) urls (Selector dom) page modules
  unfolding analyze analyzer analyze_rule_sets
  analyze_rule_sets-analyzer [] = refl
  analyze_rule_sets-analyzer ((name, items) ∷ modules) =
      sym (items-behind name items (analyzer nom dom urls modules))
      ∙ ap (both (analyze_items (html_extraction ext dom) urls (Selector dom) page name items))
          (analyze_rule_sets-analyzer modules)
