-- ===== src/Directives/HtmlExtractor/Sound.antt =====
-- The types of HTML extractors are those of the values that they take from elements.
use lopez.Prelude.{Text, List, [], ◌∷◌, Option, none, some, Result, ok, err, All, map, ◌≡◌}
use lopez.Prelude.Outcome
use lopez.Prelude.Panic.{map_all}
use lopez.Prelude.Returns.{OnOk, map_all-Returns, Returns-bind, of_Returns}
use lopez.Extern.{Extern, IsFinite}
use lopez.JsonType.{JsonType, string, array}
use lopez.Value.{Value}
use lopez.Value.HasType.{HasType, of_items-AllItems, collect_map-AllFields}
use lopez.Expressions.Error.{Error}
use lopez.Expressions.Transformer.Eval.Cases.{Of}
use lopez.Expressions.Transformer.Eval.Loops.{Sound}
use lopez.Expressions.Transformer.Eval.Sound.{AllSortSafely, eval_all-Sound, transform-Sound}
use lopez.Directives.HtmlExtractor.{
  Dom, Extractor, Inner, expression, name, text, html, inner_html, attr, attrs, classes, id, parent,
  children, select_any, select_all, type_of, inner_type_of, extract_with, extract_inner,
  string_or_null, value_or_null, all_values, parent_element, first,
}

unfoldable mutual
  -- Every `sort` and `sort-by` inside an extractor compares values whose type holds no map.
  pub SortsInside : {ext : Extern} {dom : Dom} → Extractor ext dom → Type 0
  SortsInside (parent inner) = InnerSorts inner
  SortsInside (children inner) = InnerSorts inner
  SortsInside (select_any inner selector) = InnerSorts inner
  SortsInside (select_all inner selector) = InnerSorts inner
  SortsInside _ = Unit

  pub InnerSorts : {ext : Extern} {dom : Dom} → Inner ext dom → Type 0
  InnerSorts (expression extractor transformers) =
      SortsInside extractor × OnOk (type_of extractor) (λ t. AllSortSafely transformers t)

module _ {ext : Extern} where
  string_or_null-HasType : (s : Option Text) → HasType {ext = ext} (string_or_null s) string
  string_or_null-HasType none = HasType.null
  string_or_null-HasType (some s) = HasType.string

map-string_All :
    (ext : Extern) (ss : List Text)
    → All (λ (v : Value ext). HasType v string) (map Value.string ss)
map-string_All ext [] = tt
map-string_All ext (s ∷ ss) = (HasType.string, map-string_All ext ss)

map-entries_All :
    (ext : Extern) (kvs : List (Text × Text))
    → All (λ (kv : Text × Value ext). HasType kv.1 string) (map (λ (k, v). (k, Value.string v)) kvs)
map-entries_All ext [] = tt
map-entries_All ext (kv ∷ kvs) = (HasType.string, map-entries_All ext kvs)

module _ {ext : Extern} {Element : Type 0} (f : Element → Option (Value ext)) where
  value_or_null-Sound :
      (m : Result Error JsonType) (element : Option Element)
      → ((e : Element) → Sound m (f e))
      → Sound m (value_or_null f element)
  value_or_null-Sound (err e) element h = tt
  value_or_null-Sound (ok t) none h = HasType.null
  value_or_null-Sound (ok t) (some element) h = h element

  All-anything : (es : List Element) → All {0, 0} (λ _. Unit) es
  All-anything [] = tt
  All-anything (e ∷ es) = (tt, All-anything es)

  all_values-Sound :
      (m : Result Error JsonType) (elements : List Element)
      → ((e : Element) → Sound m (f e))
      → Sound (Outcome.◌>>=◌ m λ t. ok (array t)) (all_values f elements)
  all_values-Sound (err e) elements h = tt
  all_values-Sound (ok t) elements h =
      Returns-bind (All (Of t)) (Of (array t)) (map_all f elements) _
        (map_all-Returns (λ _. Unit) (Of t) f elements (All-anything elements) (λ e _. h e))
        (λ vs hs. HasType.array (of_items-AllItems t vs hs))

module _ {ext : Extern} (finite : IsFinite ext) {dom : Dom} where
  mutual
    unfolding type_of extract_with SortsInside

    pub extract_with-Sound :
        (self : dom.ElementRef) (e : Extractor ext dom)
        → SortsInside e
        → Sound (type_of e) (extract_with self e)
    extract_with-Sound self name s = HasType.string
    extract_with-Sound self html s = HasType.string
    extract_with-Sound self inner_html s = HasType.string
    extract_with-Sound self text s = HasType.string
    extract_with-Sound self (attr key) s = string_or_null-HasType (dom.attr key self)
    extract_with-Sound self attrs s =
        HasType.object (collect_map-AllFields string _ (map-entries_All ext (dom.attrs self)))
    extract_with-Sound self classes s =
        HasType.array (of_items-AllItems string _ (map-string_All ext (dom.classes self)))
    extract_with-Sound self id s = string_or_null-HasType (dom.id self)
    extract_with-Sound self (parent inner) s =
        value_or_null-Sound (λ e. extract_inner e inner) (inner_type_of inner)
          (parent_element dom self) (λ e. extract_inner-Sound e inner s)
    extract_with-Sound self (children inner) s =
        all_values-Sound (λ e. extract_inner e inner) (inner_type_of inner) _
          (λ e. extract_inner-Sound e inner s)
    extract_with-Sound self (select_any inner selector) s =
        value_or_null-Sound (λ e. extract_inner e inner) (inner_type_of inner) (first _)
          (λ e. extract_inner-Sound e inner s)
    extract_with-Sound self (select_all inner selector) s =
        all_values-Sound (λ e. extract_inner e inner) (inner_type_of inner) _
          (λ e. extract_inner-Sound e inner s)

    extract_inner-Sound :
        (self : dom.ElementRef) (inner : Inner ext dom)
        → InnerSorts inner
        → Sound (inner_type_of inner) (extract_inner self inner)
    extract_inner-Sound self (expression extractor transformers) s =
        transform-Sound transformers (type_of extractor) (extract_with self extractor)
          (extract_with-Sound self extractor s.0) s.1
          (λ next w k s'. eval_all-Sound finite transformers k s')

-- An HTML extractor that type checks does not panic, on any element, and gives a value of its
-- type, provided that JSON numbers are finite and that each `sort` and `sort-by` in the
-- transformers inside it compares values whose type holds no map.
pub extract_with-HasType :
    {ext : Extern} (finite : IsFinite ext) {dom : Dom} (self : dom.ElementRef)
    (e : Extractor ext dom) (t : JsonType)
    → SortsInside e
    → type_of e ≡ ok t
    → (v : Value ext) × (extract_with self e ≡ some v) × HasType v t
extract_with-HasType finite self e t s q =
    of_Returns (Of t) (extract_with self e) (rw q at (extract_with-Sound finite self e s))
