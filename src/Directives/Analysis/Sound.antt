-- ===== src/Directives/Analysis/Sound.antt =====
-- What a page gives under directives that type check.
use lopez.Prelude.{
  Text, Option, none, some, List, [], ◌∷◌, ◌++◌, filter_map, All, All-append, ok, ◌≡◌, refl,
  Bool-cases, inl, inr,
}
use lopez.Prelude.Returns.{Returns, of_Returns}
use lopez.Prelude.Sort.{Member}
use lopez.Extern.{Extern, IsFinite}
use lopez.Urls.{Urls}
use lopez.JsonType.{JsonType}
use lopez.Value.{Value}
use lopez.Value.HasType.{HasType}
use lopez.Expressions.Extractor.{Extraction}
use lopez.Expressions.Extractor.Sound.{IsTyped}
use lopez.Expressions.Aggregator.{AggregatorExpression, aggregator_expression_type_of}
use lopez.Expressions.Aggregator.Sound.{
  ExpressionFinishesSafely, ExpressionAggregatesSafely, run_rule-HasType,
}
use lopez.Directives.Names.{full_rule_name}
use lopez.Directives.Validation.Passed.{Result-cases}
use lopez.Directives.Validation.{
  RuleSet, Item, rule_set, Modules, full_names, named_rules, rules_of, find_type_errors,
  type_error_of,
}
use lopez.Directives.Analysis.{
  Page, Values, applies, run_rules, run_rule_set, and_then, analyze_items, analyze,
}

Member-left : {A : Type 0} (a : A) (xs ys : List A) → Member a xs → Member a (xs ++ ys)
Member-left a [] ys m = absurd m
Member-left a (x ∷ xs) ys (inl e) = inl e
Member-left a (x ∷ xs) ys (inr m) = inr (Member-left a xs ys m)

Member-right : {A : Type 0} (a : A) (xs ys : List A) → Member a ys → Member a (xs ++ ys)
Member-right a [] ys m = m
Member-right a (x ∷ xs) ys m = inr (Member-right a xs ys m)

All-imp :
    {A : Type 0} (P Q : A → Type 0) (xs : List A) → ((x : A) → P x → Q x) → All P xs → All Q xs
All-imp P Q [] f h = tt
All-imp P Q (x ∷ xs) f h = (f x h.0, All-imp P Q xs f h.1)

All-split : {A : Type 0} (P : A → Type 0) (xs ys : List A) → All P (xs ++ ys) → All P xs × All P ys
All-split P [] ys h = (tt, h)
All-split P (x ∷ xs) ys h = let (l, r) = All-split P xs ys h.1 in ((h.0, l), r)

module _ {ext : Extern} (finite : IsFinite ext) (exn : Extraction ext) (typed : IsTyped exn)
    (urls : Urls) (Selector : Type 0) where
  abbrev Rules : Type 0
  Rules = List (Text × AggregatorExpression exn)

  -- The value is that of a rule of this name, and has the rule's type.
  abbrev pub IsFrom : Rules → Text × Value ext → Type 0
  IsFrom rules (name, v) =
      (rule : AggregatorExpression exn) × (t : JsonType) × Member (name, rule) rules
      × (aggregator_expression_type_of rule ≡ ok t)
      × HasType v t

  -- The rule has a type.
  abbrev pub HasRuleType : Text × AggregatorExpression exn → Type 0
  HasRuleType rule = (t : JsonType) × (aggregator_expression_type_of rule.1 ≡ ok t)

  abbrev Gives : Rules → Option (Values exn urls Selector) → Type 0
  Gives rules r = Returns (λ vs. All (IsFrom rules) vs) r

  Gives-left :
      (rs ss : Rules) (r : Option (Values exn urls Selector)) → Gives rs r → Gives (rs ++ ss) r
  Gives-left rs ss none h = absurd h
  Gives-left rs ss (some vs) h =
      All-imp (IsFrom rs) (IsFrom (rs ++ ss)) vs
        (λ x (rule, t, m, e, k). (rule, t, Member-left (x.0, rule) rs ss m, e, k)) h

  Gives-right :
      (rs ss : Rules) (r : Option (Values exn urls Selector)) → Gives ss r → Gives (rs ++ ss) r
  Gives-right rs ss none h = absurd h
  Gives-right rs ss (some vs) h =
      All-imp (IsFrom ss) (IsFrom (rs ++ ss)) vs
        (λ x (rule, t, m, e, k). (rule, t, Member-right (x.0, rule) rs ss m, e, k)) h

  module _ (page : Page exn urls Selector) where
    and_then-Gives :
        (rs ss : Rules) (first rest : Option (Values exn urls Selector))
        → Gives rs first
        → Gives ss rest
        → Gives (rs ++ ss) (and_then exn urls Selector page first rest)
    and_then-Gives rs ss none rest h k = absurd h
    and_then-Gives rs ss (some vs) none h k = absurd k
    and_then-Gives rs ss (some vs) (some ws) h k =
        All-append (IsFrom (rs ++ ss)) vs ws (Gives-left rs ss (some vs) h)
          (Gives-right rs ss (some ws) k)

    -- Rules are safe on the elements: they sort no maps, and explode no `null`.
    abbrev pub IsSafe : List exn.Operand → AggregatorExpression exn → Type 0
    IsSafe operands rule =
        ExpressionFinishesSafely finite exn typed rule
        × All (λ operand. ExpressionAggregatesSafely finite exn typed rule operand) operands

    abbrev pub ItemIsSafe : Item exn urls Selector → Type 0
    ItemIsSafe (rule_set r) =
        All (λ (rule : Text × AggregatorExpression exn). IsSafe (page.select r.selector) rule.1)
          r.aggregators
    ItemIsSafe item = Unit

    run_rules-Gives :
        (prefix : Text) (operands : List exn.Operand) (rules : Rules)
        → All (λ (rule : Text × AggregatorExpression exn). IsSafe operands rule.1) rules
        → All HasRuleType (full_names prefix rules)
        → Gives (full_names prefix rules) (run_rules exn urls Selector page prefix operands rules)
    unfolding run_rules full_names
    run_rules-Gives prefix operands [] safe types = tt
    run_rules-Gives prefix operands ((name, rule) ∷ rules) (safe, safes) (type, types) =
        let (t, e) = type in
        let (v, q, k) = run_rule-HasType finite exn typed rule t operands safe.0 safe.1 e in
        let rest = run_rules-Gives prefix operands rules safes types in
        let full = full_rule_name prefix name in
        let renamed = full_names prefix rules in
        rw q (
          and_then-Gives ((full, rule) ∷ []) renamed (some ((full, v) ∷ []))
            (run_rules exn urls Selector page prefix operands rules) ((rule, t, inl refl, e, k), tt)
            rest)

    run_rule_set-Gives :
        (prefix : Text) (r : RuleSet exn urls Selector)
        → ItemIsSafe (rule_set r)
        → All HasRuleType (full_names prefix r.aggregators)
        → Gives (full_names prefix r.aggregators) (run_rule_set exn urls Selector page prefix r)
    run_rule_set-Gives prefix r safe types =
        elim (Bool-cases (applies exn urls Selector page r.in_page)) [
          | inl here ↦
              rw here (run_rules-Gives prefix (page.select r.selector) r.aggregators safe types)
          | inr elsewhere ↦ rw elsewhere tt
        ]

    analyze_items-Gives :
        (prefix : Text) (items : List (Item exn urls Selector))
        → All ItemIsSafe items
        → All HasRuleType (rules_of exn urls Selector prefix items)
        → Gives
            (rules_of exn urls Selector prefix items)
            (analyze_items exn urls Selector page prefix items)
    unfolding analyze_items
    analyze_items-Gives prefix [] safe types = tt
    analyze_items-Gives prefix (rule_set r ∷ items) (safe, safes) types =
        let (ts, us) = All-split HasRuleType (full_names prefix r.aggregators) _ types in
        and_then-Gives _ (rules_of exn urls Selector prefix items)
          (run_rule_set exn urls Selector page prefix r)
          (analyze_items exn urls Selector page prefix items) (run_rule_set-Gives prefix r safe ts)
          (analyze_items-Gives prefix items safes us)
    analyze_items-Gives prefix (item ∷ items) (safe, safes) types =
        analyze_items-Gives prefix items safes types

    -- All items of all modules are safe.
    abbrev pub ModulesAreSafe : Modules exn urls Selector → Type 0
    ModulesAreSafe modules =
        All (λ (m : Text × List (Item exn urls Selector)). All ItemIsSafe m.1) modules

    analyze-Gives :
        (modules : Modules exn urls Selector)
        → ModulesAreSafe modules
        → All HasRuleType (named_rules exn urls Selector modules)
        → Gives (named_rules exn urls Selector modules) (analyze exn urls Selector page modules)
    unfolding analyze named_rules
    analyze-Gives [] safe types = tt
    analyze-Gives ((name, items) ∷ modules) (safe, safes) types =
        let (ts, us) = All-split HasRuleType (rules_of exn urls Selector name items) _ types in
        and_then-Gives (rules_of exn urls Selector name items)
          (named_rules exn urls Selector modules) (analyze_items exn urls Selector page name items)
          (analyze exn urls Selector page modules) (analyze_items-Gives name items safe ts)
          (analyze-Gives modules safes us)

  no_type_errors :
      (rules : Rules)
      → filter_map
          (λ rule. type_error_of exn urls Selector rule.0 (aggregator_expression_type_of rule.1))
          rules
        ≡ []
      → All HasRuleType rules
  no_type_errors [] e = tt
  no_type_errors ((name, rule) ∷ rules) e =
      elim (Result-cases (aggregator_expression_type_of rule)) [
        | inl (t, q) ↦ ((t, q), no_type_errors rules (rw q at e))
        | inr (x, q) ↦ absurd (cc (rw q at e))
      ]

  -- On every page, directives without type errors are analyzed without a panic, and each value that
  -- they give has the full name of a rule and the type of that rule; provided that JSON numbers are
  -- finite, that extractors give values of their types, and that no rule sorts maps or explodes
  -- `null` on an element of the page.
  pub analyze-HasType :
      (page : Page exn urls Selector) (modules : Modules exn urls Selector)
      → find_type_errors exn urls Selector modules ≡ []
      → ModulesAreSafe page modules
      → (vs : Values exn urls Selector) × (analyze exn urls Selector page modules ≡ some vs)
        × All (IsFrom (named_rules exn urls Selector modules)) vs
  unfolding find_type_errors
  analyze-HasType page modules e safe =
      of_Returns (λ vs. All (IsFrom (named_rules exn urls Selector modules)) vs)
        (analyze exn urls Selector page modules)
        (analyze-Gives page modules safe (no_type_errors (named_rules exn urls Selector modules) e))
