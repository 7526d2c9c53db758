-- ===== src/Directives/Validation/Passed.antt =====
-- What validation that finds no issue is worth.
use lopez.Prelude.{
  Text, some, List, [], ◌∷◌, ◌++◌, map, filter_map, All, Result, ok, err, ◌≡◌, ◌⊎◌, refl, ap, ◌∙◌,
  Option-cases, inl, inr, ℕ,
}
use mathlib.Core.Option.{some-injective}
use lopez.Prelude.Panic.{map_all}
use lopez.Extern.{Extern}
use lopez.Urls.{Urls}
use lopez.JsonType.{JsonType}
use lopez.Expressions.Extractor.{Extraction}
use lopez.Expressions.Aggregator.{AggregatorExpression, aggregator_expression_type_of}
use lopez.Directives.Variable.Parameters.{
  Parameters, find_bad_set_variable_values, parameters, downloader_settings,
}
use lopez.Directives.Variable.Laws.{find_bad_set_variable_values-empty}
use lopez.Directives.Bounds.{Bounds, boundaries}
use lopez.Directives.Bounds.Params.{IsGoodSeed, find_invalid_seeds-empty}
use lopez.Directives.Validation.{
  Modules, Issue, issue_if_any, named_rules, rules, expect_type, type_error_of,
  find_duplicate_rules, find_duplicate_set_variables, find_type_errors, set_variables, seeds,
  all_items, as_boundary, variable_name, validate,
}
use lopez.Directives.Validation.Distinct.{Distinct, find_duplicates-empty}

append-eq-nil : {A : Type 0} (xs ys : List A) → xs ++ ys ≡ [] → (xs ≡ []) × (ys ≡ [])
append-eq-nil [] ys e = (refl, e)
append-eq-nil (x ∷ xs) ys e = absurd (cc)

pub Result-cases :
    {E A : Type 0} (r : Result E A) → ((a : A) × (r ≡ ok a)) ⊎ ((e : E) × (r ≡ err e))
Result-cases (ok a) = inl (a, refl)
Result-cases (err e) = inr (e, refl)

module _ {ext : Extern} (exn : Extraction ext) (urls : Urls) (Selector : Type 0) where
  issue_if_any-eq-nil :
      {A : Type 0} (issue : List A → Issue exn urls Selector) (found : List A)
      → issue_if_any exn urls Selector issue found ≡ []
      → found ≡ []
  issue_if_any-eq-nil issue [] e = refl
  issue_if_any-eq-nil issue (a ∷ found) e = absurd (cc)

  -- What is used of the directives after validation.
  pub record IsValid (default : Text) (modules : Modules exn urls Selector) : Type 0 where
    pub rules_distinct :
        Distinct (
          map
            (λ (r : Text × AggregatorExpression exn). r.0)
            (named_rules exn urls Selector modules))
    pub rules_typed : (ts : List (Text × JsonType)) × (rules exn urls Selector modules ≡ some ts)
    pub variables_distinct :
        Distinct
          (filter_map (variable_name exn urls Selector) (all_items exn urls Selector modules))
    pub parameters_read :
        (p : Parameters ext) × (parameters (set_variables exn urls Selector modules) ≡ some p)
    pub downloader_read :
        (s : Text × ℕ) × (downloader_settings default (set_variables exn urls Selector modules)
          ≡ some s)
    pub seeds_inside :
        (bounds : Bounds ext) × (boundaries
            (filter_map (as_boundary exn urls Selector) (all_items exn urls Selector modules))
          ≡ some bounds)
        × All (IsGoodSeed urls bounds) (seeds exn urls Selector modules)

  -- Where no rule has a type error, all have types.
  all_typed :
      (rs : List (Text × AggregatorExpression exn))
      → filter_map
          (λ rule. type_error_of exn urls Selector rule.0 (aggregator_expression_type_of rule.1))
          rs
        ≡ []
      → (ts : List (Text × JsonType)) × (map_all
            (λ rule. expect_type exn urls Selector rule.0 (aggregator_expression_type_of rule.1))
            rs
          ≡ some ts)
  all_typed [] e = ([], refl)
  all_typed ((name, rule) ∷ rs) e = elim (Result-cases (aggregator_expression_type_of rule)) [
    | inl (t, typed) ↦
        let (ts, q) = all_typed rs (rw typed at e) in ((name, t) ∷ ts, rw (typed, q) refl)
    | inr (x, untyped) ↦ absurd (cc (rw untyped at e))
  ]

  -- Directives in which validation finds no issue have rules with distinct names and with types, so
  -- that listing the rules does not panic; each variable is set once; reading the variables does not
  -- panic; and every seed is allowed and not on the frontier.
  pub validate-IsValid :
      (default : Text) (modules : Modules exn urls Selector)
      → validate exn urls Selector default modules ≡ some []
      → IsValid default modules
  unfolding validate rules find_type_errors find_duplicate_rules find_duplicate_set_variables
  validate-IsValid default modules e =
      elim (Option-cases (
        boundaries
          (filter_map (as_boundary exn urls Selector) (all_items exn urls Selector modules)))) [
            | inl fails ↦ absurd (cc (rw fails at e))
            | inr (bounds, built) ↦
                elim (Option-cases (
                  find_bad_set_variable_values default (set_variables exn urls Selector modules))) [
                    | inl fails ↦ absurd (cc (rw (built, fails) at e))
                    | inr (bad, q) ↦
                        let (e1, r1) =
                          append-eq-nil _ _ (some-injective _ _ (rw (built, q) at e)) in
                        let (e2, r2) = append-eq-nil _ _ r1 in
                        let (e3, r3) = append-eq-nil _ _ r2 in
                        let (e4, r4) = append-eq-nil _ _ r3 in
                        let (e5, e6) = append-eq-nil _ _ r4 in
                        let none_bad = q ∙ ap some (issue_if_any-eq-nil Issue.bad_values bad e5) in
                        let (params, downloader) =
                          find_bad_set_variable_values-empty default _ none_bad in
                        record {
                          rules_distinct =
                              (find_duplicates-empty _).0
                                (issue_if_any-eq-nil Issue.duplicated_rules _ e1);
                          rules_typed = all_typed _ (issue_if_any-eq-nil Issue.type_errors _ e6);
                          variables_distinct =
                              (find_duplicates-empty _).0
                                (issue_if_any-eq-nil Issue.duplicate_variables _ e4);
                          parameters_read = params;
                          downloader_read = downloader;
                          seeds_inside = (
                            bounds,
                            built,
                            (find_invalid_seeds-empty urls bounds
                                  (seeds exn urls Selector modules)).0
                                (issue_if_any-eq-nil Issue.invalid_seeds _ e2),
                          );
                        }
                  ]
          ]
