-- ===== src/Tests/Parsing.antt =====
-- The parsers of directives, and HTML extractors, at concrete inputs.
use lopez.Prelude.{
  Text, bytes, starts_with, filter, text_eq, List, [], ◌∷◌, ◌++◌, map, none, some, ok, err, arith,
  ◌≡◌, refl,
}
use lopez.JsonType.{JsonType, array, type_text}
use lopez.Value.{Value}
use lopez.Value.HasType.{HasType}
use lopez.Nom.{Goes, panicked}
use lopez.Expressions.Transformer.{Transformer, sort, cons, nil}
use lopez.Expressions.Transformer.TypeFor.{type_for_all}
use lopez.Expressions.Parse.{transformer_expression}
use lopez.JsonType.Reading.{type_from_str}
use lopez.JsonType.Reading.RoundTrip.{type_from_str-type_text}
use lopez.Expressions.Parse.Total.Transformers.{Reads, AllSortByNone, transformer_expression-Goes}
use lopez.Directives.HtmlExtractor.{
  Dom, Extractor, expression, classes, children, type_of, extract_with, from_str,
}
use lopez.Directives.HtmlExtractor.Sound.{SortsInside, extract_with-HasType}
use lopez.Directives.ParseCommon.{
  escaped_string, whitespace, comment, trailing_whitespace, tag_whitespace,
}
use lopez.Directives.ParseCommon.Escaping.{escaped_string-escape_quotes}
use lopez.Directives.Parse.{css_selector, block, in_directive}
use lopez.Directives.ParseUtils.{map_iresult}
use lopez.Directives.Parse.Selecting.{css_selector-append, css_selector-panics}
use lopez.Directives.Parse.Items.{items, entrypoint, rule_set}
use lopez.Directives.Parse.Items.Returns.{entrypoint-none}
use lopez.Tests.Samples.{floats, floats-IsFinite, addresses}
use lopez.Tests.Parsers.{plain, plain-IsNom, many0}

-- Elements with a name and the names of the elements in them; a selector is the start of a name.
abbrev pub Element : Type 0
Element = Text × List Text

abbrev leaf : Text → Element
leaf s = (s, [])

abbrev pub page : Dom
page = record {
  ElementRef = Element;
  Node = Text;
  CssSelector = Text;
  name = λ e. e.0;
  html = λ e. e.0;
  inner_html = λ e. bytes "";
  text = λ e. e.1;
  attr = λ key e. none;
  attrs = λ e. [];
  classes = λ e. e.1;
  id = λ e. some e.0;
  parent = λ e. none;
  children = λ e. e.1;
  wrap = λ n. some (leaf n);
  select = λ s e. map leaf (filter (λ n. starts_with n s) e.1);
  parse = λ s. ok s;
  selector_debug = λ s. s;
  selector_eq = text_eq;
}

-- The classes of each child, sorted.
abbrev sorted_classes : Extractor floats page
sorted_classes = children (expression classes (cons sort (cons Transformer.length nil)))

abbrev list : Element
list = (bytes "ul", bytes "li" ∷ bytes "p" ∷ [])

extract_with-HasType_example :
    (v : Value floats) × (extract_with list sorted_classes ≡ some v)
    × HasType v (array JsonType.number)
unfolding SortsInside type_of type_for_all
extract_with-HasType_example =
    extract_with-HasType floats-IsFinite list sorted_classes (array JsonType.number)
      (tt, (tt, (tt, tt))) refl

type_from_str-type_text_example :
    type_from_str plain (λ e. bytes "error") (bytes "map[string, array[bool]]")
    ≡ ok (JsonType.map (array JsonType.bool))
unfolding type_text
type_from_str-type_text_example =
    type_from_str-type_text plain-IsNom (λ e. bytes "error") (JsonType.map (array JsonType.bool))

transformer_expression-Goes_example :
    Goes 0
      (Reads (AllSortByNone {ext = floats}))
      (bytes "each(sort) sort-by(length)")
      (transformer_expression plain 30 (bytes "each(sort) sort-by(length)"))
transformer_expression-Goes_example =
    transformer_expression-Goes plain-IsNom 30 (bytes "each(sort) sort-by(length)") (omega arith)

escaped_string-escape_quotes_example :
    escaped_string plain (bytes "\"say \\\"no\\\"\";") ≡ ok (bytes ";", bytes "say \"no\"")
escaped_string-escape_quotes_example =
    escaped_string-escape_quotes plain-IsNom (bytes ";") (bytes "say \"no\"") (λ e. absurd (cc))
      refl

css_selector-append_example :
    css_selector plain page 123 (bytes "a[x='{'] { }")
    ≡ ok (bytes "{ }", ok (record { selector = bytes "a[x='{'] "; original = bytes "a[x='{'] " }))
unfolding from_str
css_selector-append_example =
    css_selector-append plain page 123 (bytes "a[x='{'] ") (bytes " }") (λ e. absurd (cc)) refl refl
      refl

-- An `é`, in UTF-8.
css_selector-panics_example :
    css_selector plain page 123 (97 ∷ 195 ∷ 169 ∷ bytes " {}") ≡ err panicked
css_selector-panics_example =
    css_selector-panics plain page 123 (97 ∷ 195 ∷ []) 169 (bytes " {}") refl refl

abbrev accented : Text
accented = bytes "select " ++ (195 ∷ 169 ∷ bytes " {}")

accented-none : entrypoint plain page addresses accented ≡ none
unfolding entrypoint map_iresult whitespace many0 comment trailing_whitespace rule_set block
    tag_whitespace in_directive css_selector
accented-none = refl

entrypoint-none_example : items plain page addresses 13 accented ≡ err panicked
entrypoint-none_example = entrypoint-none plain-IsNom page addresses accented accented-none
