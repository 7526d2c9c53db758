-- ===== src/Directives/Validation.antt =====
-- lib-lopez/src/directives/directives.rs: what is gathered from the items of all modules, and their
-- validation. Modules are in the order of their names, and the rules of a rule set in the order in
-- which its map gives them. A HashSet is the list of its members, and an issue keeps what its text
-- quotes. `none` is a panic.
pub mod Distinct
pub mod Passed
use lopez.Prelude.{
  Text, text_eq, text_cmp, is_empty, Ordering, Bool, true, false, not, ◌||◌, Option, none, some,
  List, [], ◌∷◌, ◌++◌, any, map, filter_map, Result, ok, err, if◌then◌else◌,
}
use lopez.Prelude.Panic.{◌>>=◌, map_all}
use lopez.Extern.{Extern}
use lopez.Urls.{Urls}
use lopez.JsonType.{JsonType}
use lopez.Value.{Value}
use lopez.Expressions.Error.{Error}
use lopez.Expressions.Extractor.{Extraction}
use lopez.Expressions.Aggregator.{AggregatorExpression, aggregator_expression_type_of}
use lopez.Directives.Variable.{Variable, try_parse, SetVariables, BadValue}
use lopez.Directives.Variable.Parameters.{find_bad_set_variable_values}
use lopez.Directives.Names.{full_rule_name}
use lopez.Directives.Bounds.{Boundary, boundaries, find_invalid_seeds}

-- `set.insert(name)`, for the set and for whether the name was not there.
abbrev pub insert_name : Text → List Text → List Text
insert_name name set = if any (text_eq name) set then set else set ++ (name ∷ [])

-- The names seen, and those seen before.
abbrev pub Names : Type 0
Names = List Text × List Text

abbrev pub see_name : Text → Names → Names
see_name name (seen, duplicates) = (
  insert_name name seen,
  if any (text_eq name) seen then insert_name name duplicates else duplicates,
)

unfoldable pub see_names : List Text → Names → Names
see_names [] names = names
see_names (name ∷ rest) names = see_names rest (see_name name names)

-- The second of the names that a loop over them leaves.
abbrev pub find_duplicates : List Text → List Text
find_duplicates names = (see_names names ([], [])).1

-- Rules with their full names.
unfoldable pub full_names :
    {ext : Extern} {exn : Extraction ext}
    → Text
    → List (Text × AggregatorExpression exn)
    → List (Text × AggregatorExpression exn)
unfolding full_rule_name
full_names prefix [] = []
full_names prefix ((name, rule) ∷ rules) =
    (full_rule_name prefix name, rule) ∷ full_names prefix rules

module _ {ext : Extern} (exn : Extraction ext) (urls : Urls) (Selector : Type 0) where
  open urls use {Url}

  -- `RuleSet`, `Item` (directives/parse.rs).
  pub record RuleSet : Type 0 where
    pub in_page : Option ext.Regex
    pub selector : Selector
    pub aggregators : List (Text × AggregatorExpression exn)

  pub data Item : Type 0 where
    seed : Url → Item
    boundary : Boundary ext → Item
    import : (path : Text) → Item
    rule_set : RuleSet → Item
    set_variable : (name : Text) → Value ext → Item
    web_driver : ext.Regex → Item

  abbrev pub Modules : Type 0
  Modules = List (Text × List Item)

  abbrev pub all_items : Modules → List Item
  all_items [] = []
  all_items ((name, items) ∷ modules) = items ++ all_items modules

  abbrev pub as_seed : Item → Option Url
  as_seed (seed url) = some url
  as_seed item = none

  abbrev pub as_boundary : Item → Option (Boundary ext)
  as_boundary (boundary b) = some b
  as_boundary item = none

  abbrev pub variable_name : Item → Option Text
  variable_name (set_variable name value) = some name
  variable_name item = none

  abbrev pub invalid_name : Item → Option Text
  invalid_name (set_variable name value) = elim (try_parse name) [
    | none ↦ some name
    | some v ↦ none
  ]
  invalid_name item = none

  abbrev pub as_variable : Item → Option (Variable × Value ext)
  as_variable (set_variable name value) = elim (try_parse name) [
    | none ↦ none
    | some v ↦ some (v, value)
  ]
  as_variable item = none

  abbrev pub seeds : Modules → List Url
  seeds modules = filter_map as_seed (all_items modules)

  unfoldable pub set_variables : Modules → SetVariables ext
  unfolding try_parse
  set_variables modules = filter_map as_variable (all_items modules)

  -- The rules of a module, each with its full name.
  abbrev pub rules_of : Text → List Item → List (Text × AggregatorExpression exn)
  rules_of prefix [] = []
  rules_of prefix (rule_set r ∷ items) = full_names prefix r.aggregators ++ rules_of prefix items
  rules_of prefix (item ∷ items) = rules_of prefix items

  unfoldable pub named_rules : Modules → List (Text × AggregatorExpression exn)
  unfolding full_names
  named_rules [] = []
  named_rules ((name, items) ∷ modules) = rules_of name items ++ named_rules modules

  abbrev pub expect_type : Text → Result Error JsonType → Option (Text × JsonType)
  expect_type name (ok t) = some (name, t)
  expect_type name (err e) = none

  -- `rules`: `expect("already type-checked")`.
  unfoldable pub rules : Modules → Option (List (Text × JsonType))
  unfolding named_rules aggregator_expression_type_of
  rules modules =
      map_all (λ rule. expect_type rule.0 (aggregator_expression_type_of rule.1))
        (named_rules modules)

  unfoldable pub find_duplicate_rules : Modules → List Text
  unfolding named_rules see_names
  find_duplicate_rules modules =
      find_duplicates (map (λ (r : Text × AggregatorExpression exn). r.0) (named_rules modules))

  abbrev pub find_invalid_set_variables : Modules → List Text
  find_invalid_set_variables modules = filter_map invalid_name (all_items modules)

  unfoldable pub find_duplicate_set_variables : Modules → List Text
  unfolding see_names
  find_duplicate_set_variables modules =
      find_duplicates (filter_map variable_name (all_items modules))

  abbrev pub type_error_of : Text → Result Error JsonType → Option (Text × Error)
  type_error_of name (ok t) = none
  type_error_of name (err e) = some (name, e)

  unfoldable pub find_type_errors : Modules → List (Text × Error)
  unfolding named_rules aggregator_expression_type_of
  find_type_errors modules =
      filter_map (λ rule. type_error_of rule.0 (aggregator_expression_type_of rule.1))
        (named_rules modules)

  pub data Issue : Type 0 where
    duplicated_rules invalid_variables duplicate_variables : List Text → Issue
    invalid_seeds : List Url → Issue
    bad_values : List (BadValue ext) → Issue
    type_errors : List (Text × Error) → Issue

  abbrev pub issue_if_any : {A : Type 0} → (List A → Issue) → List A → List Issue
  issue_if_any issue [] = []
  issue_if_any issue (a ∷ found) = issue (a ∷ found) ∷ []

  -- `validate`: an error unless there are no issues.
  unfoldable pub validate : Text → Modules → Option (List Issue)
  unfolding find_duplicate_rules find_duplicate_set_variables find_type_errors set_variables
      find_bad_set_variable_values boundaries find_invalid_seeds
  validate default modules = boundaries (filter_map as_boundary (all_items modules)) >>= λ bounds.
      find_bad_set_variable_values default (set_variables modules) >>= λ bad. some (
        issue_if_any duplicated_rules (find_duplicate_rules modules)
        ++ (issue_if_any invalid_seeds (find_invalid_seeds urls bounds (seeds modules))
            ++ (issue_if_any invalid_variables (find_invalid_set_variables modules)
                ++ (issue_if_any duplicate_variables (find_duplicate_set_variables modules)
                    ++ (issue_if_any bad_values bad
                        ++ issue_if_any type_errors (find_type_errors modules))))))
