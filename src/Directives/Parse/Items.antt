-- ===== src/Directives/Parse/Items.antt =====
-- lib-lopez/src/directives/parse.rs: the items of a module of directives, and `entrypoint`.
pub mod Returns
use lopez.Prelude.{
  ℕ, suc, ◌+◌, Text, bytes, ◌++◌, text_eq, length, any, map, Bool, List, [], ◌∷◌, Option, none,
  some, Result, ok, err, if◌then◌else◌,
}
use lopez.Prelude.Outcome
use lopez.Extern.{Extern}
use lopez.Urls.{Urls, ParseError}
use lopez.Nom.{Nom, Parser, IResult}
use lopez.Value.{Value}
use lopez.Expressions.Aggregator.{AggregatorExpression}
use lopez.Expressions.Parse.{aggregator_expression}
use lopez.Directives.HtmlExtractor.{Dom, Selector, html_extraction}
use lopez.Directives.Bounds.{
  Boundary, allowed, disallowed, frontier, use_param, ignore_param, use_all_params,
}
use lopez.Directives.Validation.{RuleSet, Item}
use lopez.Directives.ParseCommon.{whitespace, trailing_whitespace, tag_whitespace, regex}
use lopez.Directives.Parse.{
  identifier, identified_value, block, in_directive, string_directive, flag_directive, literal,
  css_selector, extractor,
}
use lopez.Directives.ParseUtils
use lopez.Directives.ParseUtils.{map_iresult}

module _ {ext : Extern} (nom : Nom ext) (dom : Dom) (urls : Urls) where
  abbrev Rule : Type 0
  Rule = AggregatorExpression (html_extraction ext dom)

  abbrev pub HtmlRuleSet : Type 0
  HtmlRuleSet = RuleSet (html_extraction ext dom) urls (Selector dom)

  abbrev pub HtmlItem : Type 0
  HtmlItem = Item (html_extraction ext dom) urls (Selector dom)

  abbrev Reading : Type 0 → Type 0
  Reading A = Parser (Result Text A)

  abbrev more_than_once : Text → Text
  more_than_once identifier = bytes "rule `" ++ (identifier ++ bytes "` defined more than once")

  -- The loop of `rule_set`; the map of the rules is kept in the order of the text.
  unfoldable pub insert_rules :
      List (Text × Rule) → List (Text × Result Text Rule) → Result Text (List (Text × Rule))
  insert_rules aggregators [] = ok aggregators
  insert_rules aggregators ((identifier, aggregator) ∷ rest) =
      if any (λ (known : Text × Rule). text_eq identifier known.0) aggregators
      then err (more_than_once identifier)
      else Outcome.◌>>=◌ aggregator λ a. insert_rules (aggregators ++ ((identifier, a) ∷ [])) rest

  -- `in_page.transpose()`.
  abbrev transpose : Option (Result Text ext.Regex) → Result Text (Option ext.Regex)
  transpose none = ok none
  transpose (some r) = Outcome.◌>>=◌ r λ r. ok (some r)

  abbrev pub rule_set_of :
      Option (Result Text ext.Regex)
      → Result Text (Selector dom)
      → List (Text × Result Text Rule)
      → Result Text HtmlRuleSet
  unfolding insert_rules
  rule_set_of in_page selector aggregator_list =
      Outcome.◌>>=◌ (insert_rules [] aggregator_list) λ aggregators.
        Outcome.◌>>=◌ (transpose in_page) λ in_page. Outcome.◌>>=◌ selector λ selector.
          ok (record { in_page = in_page; selector = selector; aggregators = aggregators })

  unfoldable pub rule_set : ℕ → Reading HtmlRuleSet
  unfolding rule_set_of html_extraction
  rule_set n =
      nom.map
        (block nom
          (nom.tuple (tag_whitespace nom (bytes "select")) (
            nom.tuple (nom.opt (trailing_whitespace nom (in_directive nom)))
              (css_selector nom dom 123)))
          (identified_value nom
            (aggregator_expression nom (html_extraction ext dom) (extractor nom dom n) n)))
        (λ ((_, (in_page, selector)), list). rule_set_of in_page selector list)

  -- The path of an import.
  unfoldable pub module_path : Parser Text
  module_path = nom.map (string_directive nom (bytes "import" ∷ [])) (λ path. path)

  abbrev to_text : Result ParseError urls.Url → Result Text urls.Url
  to_text (ok url) = ok url
  to_text (err e) = err (urls.error_text e)

  unfoldable pub seed : Reading urls.Url
  seed = nom.map (string_directive nom (bytes "seed" ∷ [])) (λ seed. to_text (urls.parse seed))

  abbrev limit : (ext.Regex → Boundary ext) → Text → Result Text (Boundary ext)
  limit f s = Outcome.◌>>=◌ (regex ext s) λ r. ok (f r)

  unfoldable pub boundary : Reading (Boundary ext)
  boundary = nom.alt (
      nom.map (string_directive nom (bytes "allow" ∷ [])) (limit allowed)
      ∷ nom.map (string_directive nom (bytes "disallow" ∷ [])) (limit disallowed)
      ∷ nom.map (string_directive nom (bytes "frontier" ∷ [])) (limit frontier)
      ∷ nom.map (string_directive nom (bytes "use" ∷ bytes "param" ∷ [])) (λ p. ok (use_param p))
      ∷ nom.map (flag_directive nom (bytes "use" ∷ bytes "param" ∷ bytes "*" ∷ []))
          (λ _. ok use_all_params)
      ∷ nom.map (string_directive nom (bytes "ignore" ∷ bytes "param" ∷ []))
          (λ p. ok (ignore_param p))
      ∷ [])

  -- The name and the value.
  unfoldable pub set_variable : ℕ → Parser (Text × Value ext)
  set_variable n =
      nom.map
        (nom.tuple (tag_whitespace nom (bytes "set")) (
          nom.tuple (trailing_whitespace nom (identifier nom)) (
            nom.tuple (tag_whitespace nom (bytes "="))
              (nom.tuple (trailing_whitespace nom (literal nom n)) (nom.tag (bytes ";"))))))
        (λ (_, (name, (_, (value, _)))). (name, value))

  unfoldable pub web_driver : Reading ext.Regex
  web_driver =
      nom.map (string_directive nom (bytes "use" ∷ bytes "webdriver" ∷ bytes "on" ∷ []))
        (λ parsed. regex ext parsed)

  abbrev wrap : {A : Type 0} → (A → HtmlItem) → Result Text A → Result Text HtmlItem
  wrap f r = Outcome.◌>>=◌ r λ a. ok (f a)

  unfoldable pub item : ℕ → Reading HtmlItem
  item n = nom.alt (
      nom.map (rule_set n) (wrap Item.rule_set)
      ∷ nom.map module_path (λ path. ok (Item.import path))
      ∷ nom.map seed (wrap Item.seed)
      ∷ nom.map boundary (wrap Item.boundary)
      ∷ nom.map (set_variable n) (λ (name, value). ok (Item.set_variable name value))
      ∷ nom.map web_driver (wrap Item.web_driver)
      ∷ [])

  -- `results.into_iter().collect::<Result<Vec<_>, _>>()`.
  abbrev pub collect_items : List (Result Text HtmlItem) → Result Text (List HtmlItem)
  collect_items [] = ok []
  collect_items (x ∷ xs) = Outcome.◌>>=◌ x λ i. Outcome.◌>>=◌ (collect_items xs) λ is. ok (i ∷ is)

  unfoldable pub items : ℕ → Reading (List HtmlItem)
  unfolding item
  items n = nom.all_consuming (
      nom.map (nom.tuple (whitespace nom) (nom.many0 (trailing_whitespace nom (item n))))
        (λ (_, results). collect_items results))

  -- A text of length `n` holds nothing of depth above `n`.
  unfoldable pub entrypoint :
      Text → Option (Result ParseUtils.ParseError (Result Text (List HtmlItem)))
  unfolding items
  entrypoint i = map_iresult nom i (items (suc (length i)) i)
