-- ===== src/Directives/HtmlExtractor.antt =====
-- lib-lopez/src/directives/extractor.rs and selector.rs: what is taken from an element of a page.
-- The document, its elements and the CSS selectors are the `scraper` crate's, a parameter.
pub mod Sound
pub mod Rules
use lopez.Prelude.{
  ℕ, Text, bytes, ◌++◌, ◌==◌, join, map, filter_map, List, [], ◌∷◌, Option, none, some, Result, ok,
  err, Bool, if◌then◌else◌,
}
use lopez.Prelude.Outcome
use lopez.Prelude.Panic.{◌>>=◌, map_all}
use lopez.Extern.{Extern}
use lopez.JsonType.{JsonType, string, array}
use lopez.Value.{Value, null, object, of_items, collect_map}
use lopez.Expressions.Error.{Error}
use lopez.Expressions.Transformer.{TransformerExpression}
use lopez.Expressions.Transformer.TypeFor.{type_for_all}
use lopez.Expressions.Transformer.Eval.{eval_all}
use lopez.Expressions.Extractor.{Extraction, with_transformers}

-- The `scraper` crate: `ElementRef`, the nodes of the tree, `Selector`, and their methods.
pub record Dom : Type 1 where
  pub ElementRef : Type 0
  pub Node : Type 0
  pub CssSelector : Type 0
  -- `value().name()`, `html()` and `inner_html()`.
  pub name : ElementRef → Text
  pub html : ElementRef → Text
  pub inner_html : ElementRef → Text
  -- The pieces of text below an element.
  pub text : ElementRef → List Text
  pub attr : Text → ElementRef → Option Text
  pub attrs : ElementRef → List (Text × Text)
  pub classes : ElementRef → List Text
  pub id : ElementRef → Option Text
  pub parent : ElementRef → Option Node
  pub children : ElementRef → List Node
  pub wrap : Node → Option ElementRef
  -- The elements below one that a selector selects, in the order of the document.
  pub select : CssSelector → ElementRef → List ElementRef
  -- `Selector::parse`, with the error as `{:?}` writes it, and the selector as `{:?}` writes it.
  pub parse : Text → Result Text CssSelector
  pub selector_debug : CssSelector → Text
  pub selector_eq : CssSelector → CssSelector → Bool

module _ (dom : Dom) where
  pub record Selector : Type 0 where
    pub selector : dom.CssSelector
    pub original : Text

module _ {dom : Dom} where
  unfoldable pub from_str : Text → Result Text (Selector dom)
  from_str i =
      Outcome.◌>>=◌ (dom.parse i) λ selector. ok (record { selector = selector; original = i })

  unfoldable pub selector_text : Selector dom → Text
  selector_text s = s.original

  -- `eq` forgets the text that a selector was parsed from.
  unfoldable pub selector_equals : Selector dom → Selector dom → Bool
  selector_equals s t = dom.selector_eq s.selector t.selector

module _ (ext : Extern) (dom : Dom) where
  mutual
    pub data Extractor : Type 0 where
      name text html inner_html : Extractor
      attr : Text → Extractor
      attrs classes id : Extractor
      parent children : Inner → Extractor
      select_any select_all : Inner → Selector dom → Extractor

    -- `ExtractorExpression<Self>`.
    pub data Inner : Type 0 where
      expression : Extractor → TransformerExpression ext → Inner

-- `s.replace('"', "\\\"")`.
abbrev pub escape_quotes : Text → Text
escape_quotes [] = []
escape_quotes (c ∷ s) = let rest = escape_quotes s in if c == 34 then 92 ∷ 34 ∷ rest else c ∷ rest

-- `{:?}` of a selector: its derived `Debug`.
abbrev selector_debug_text : (ext : Extern) {dom : Dom} → Selector dom → Text
selector_debug_text ext {dom} s =
    bytes "Selector { selector: "
    ++ (dom.selector_debug s.selector
        ++ (bytes ", original: " ++ (ext.debug_text s.original ++ bytes " }")))

abbrev pub parent_element : (dom : Dom) → dom.ElementRef → Option dom.ElementRef
parent_element dom self = dom.parent self >>= dom.wrap

module _ {ext : Extern} where
  -- `map(Into::into).unwrap_or(Value::Null)`.
  abbrev pub string_or_null : Option Text → Value ext
  string_or_null none = null
  string_or_null (some s) = Value.string s

  -- `vs.collect::<Vec<_>>().into()`.
  abbrev pub of_values : List (Value ext) → Value ext
  of_values vs = Value.array (of_items vs)

-- `next()` of an iterator.
abbrev pub first : {A : Type 0} → List A → Option A
first [] = none
first (a ∷ xs) = some a

-- `map(f).unwrap_or(Value::Null)` and `map(f).collect::<Vec<_>>().into()`.
module _ {ext : Extern} {Element : Type 0} (f : Element → Option (Value ext)) where
  abbrev pub value_or_null : Option Element → Option (Value ext)
  value_or_null none = some null
  value_or_null (some element) = f element

  abbrev pub all_values : List Element → Option (Value ext)
  all_values elements = map_all f elements >>= λ vs. some (of_values vs)

module _ {ext : Extern} {dom : Dom} where
  unfoldable mutual
    pub extractor_text : Extractor ext dom → Text
    extractor_text name = bytes "name"
    extractor_text text = bytes "text"
    extractor_text html = bytes "html"
    extractor_text inner_html = bytes "inner-html"
    extractor_text (attr key) =
        bytes "attr \"" ++ (ext.debug_text (escape_quotes key) ++ bytes "\"")
    extractor_text attrs = bytes "attrs"
    extractor_text classes = bytes "classes"
    extractor_text id = bytes "id"
    extractor_text (parent inner) = bytes "parent(" ++ (inner_text inner ++ bytes ")")
    extractor_text (children inner) = bytes "children(" ++ (inner_text inner ++ bytes ")")
    extractor_text (select_any inner selector) =
        bytes "select-any("
        ++ (inner_text inner ++ (bytes ", " ++ (selector_debug_text ext selector ++ bytes ")")))
    extractor_text (select_all inner selector) =
        bytes "select-any("
        ++ (inner_text inner ++ (bytes ", " ++ (selector_debug_text ext selector ++ bytes ")")))

    inner_text : Inner ext dom → Text
    inner_text (expression extractor transformers) =
        with_transformers (extractor_text extractor) transformers

  unfoldable mutual
    pub type_of : Extractor ext dom → Result Error JsonType
    type_of attrs = ok (JsonType.map string)
    type_of classes = ok (array string)
    type_of (parent inner) = inner_type_of inner
    type_of (children inner) = Outcome.◌>>=◌ (inner_type_of inner) λ t. ok (array t)
    type_of (select_any inner selector) = inner_type_of inner
    type_of (select_all inner selector) = Outcome.◌>>=◌ (inner_type_of inner) λ t. ok (array t)
    type_of _ = ok string

    pub inner_type_of : Inner ext dom → Result Error JsonType
    inner_type_of (expression extractor transformers) =
        Outcome.◌>>=◌ (type_of extractor) λ t. type_for_all transformers t

  unfoldable mutual
    pub extract_with : dom.ElementRef → Extractor ext dom → Option (Value ext)
    extract_with self name = some (Value.string (dom.name self))
    extract_with self html = some (Value.string (dom.html self))
    extract_with self inner_html = some (Value.string (dom.inner_html self))
    extract_with self text = some (Value.string (join (bytes " ") (dom.text self)))
    extract_with self (attr key) = some (string_or_null (dom.attr key self))
    extract_with self attrs =
        some
          (object (collect_map (map (λ (key, value). (key, Value.string value)) (dom.attrs self))))
    extract_with self classes = some (of_values (map Value.string (dom.classes self)))
    extract_with self id = some (string_or_null (dom.id self))
    extract_with self (parent inner) =
        value_or_null (λ e. extract_inner e inner) (parent_element dom self)
    extract_with self (children inner) =
        all_values (λ e. extract_inner e inner) (filter_map dom.wrap (dom.children self))
    extract_with self (select_any inner selector) =
        value_or_null (λ e. extract_inner e inner) (first (dom.select selector.selector self))
    extract_with self (select_all inner selector) =
        all_values (λ e. extract_inner e inner) (dom.select selector.selector self)

    -- `ElementRef::extract_with` of an extractor expression.
    pub extract_inner : dom.ElementRef → Inner ext dom → Option (Value ext)
    extract_inner self (expression extractor transformers) =
        extract_with self extractor >>= λ v. eval_all transformers v

-- The extractors of HTML elements, as the traits `Typed` and `Extractable` present them.
unfoldable pub html_extraction : (ext : Extern) (dom : Dom) → Extraction ext
html_extraction ext dom = record {
  Extractor = Extractor ext dom;
  Operand = dom.ElementRef;
  extractor_text = extractor_text;
  type_of = type_of;
  extract_with = extract_with;
}
