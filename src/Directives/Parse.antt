-- ===== src/Directives/Parse.antt =====
-- lib-lopez/src/directives/parse.rs: the parsers of the directives' pieces, which the items of
-- Directives/Parse/Items.antt are made of.
pub mod Items
pub mod Selecting
pub mod Total
use lopez.Prelude.{
  ℕ, zero, suc, ◌+◌, ◌^◌, ltb, leb, ◌==◌, ◌&&◌, ◌||◌, ℤ, pos, negsuc, Text, bytes, ◌++◌, Bool, true,
  false, List, [], ◌∷◌, Option, none, some, Result, ok, err, if◌then◌else◌,
}
use lopez.Prelude.Outcome
use lopez.Extern.{Extern}
use lopez.Nom.{Nom, Parser, IResult, spent, panicked, error, is_a}
use lopez.Value.{Value, of_items, of_f64}
use lopez.Expressions.Extractor.{ExtractorExpression}
use lopez.Expressions.Parse.{parse_u64, digits_onto, extractor_expression}
use lopez.Directives.HtmlExtractor.{
  Dom, Selector, from_str, Extractor, Inner, name, text, html, inner_html, attr, attrs, classes, id,
  parent, children, select_any, select_all, html_extraction,
}
use lopez.Directives.ParseCommon.{
  trailing_whitespace, tag_whitespace, tags_whitespace, escaped_string, regex,
}

-- A byte inside of a character of several bytes: `&i[idx..]` panics there.
abbrev pub is_continuation : ℕ → Bool
is_continuation c = leb 128 c && ltb c 192

-- `level`, an `i32`, behind a character.
abbrev raise : ℤ → ℤ
raise (pos n) = pos (suc n)
raise (negsuc zero) = pos 0
raise (negsuc (suc n)) = negsuc n

abbrev lower : ℤ → ℤ
lower (pos zero) = negsuc 0
lower (pos (suc n)) = pos n
lower (negsuc n) = negsuc (suc n)

abbrev pub leveled : ℕ → ℤ → ℤ
leveled c level = if c == 91 then raise level else if c == 93 then lower level else level

abbrev pub is_level : ℤ → Bool
is_level (pos zero) = true
is_level _ = false

abbrev pub consed : ℕ → Option (Text × Text) → Option (Text × Text)
consed c none = none
consed c (some (taken, rest)) = some (c ∷ taken, rest)

-- The loop of `css_selector`: the text passed over, and what is left. `none` is a panic.
unfoldable pub scan : ℕ → ℤ → Text → Option (Text × Text)
scan boundary_hint level [] = some ([], [])
scan boundary_hint level (c ∷ i) =
    let on = scan boundary_hint (leveled c level) i in
    if is_continuation c
    then none
    else if is_level level && c == boundary_hint
    then some ([], c ∷ i)
    else consed c on

-- `-num`.
abbrev negated : ℕ → ℤ
negated zero = pos 0
negated (suc n) = negsuc n

-- `number.parse::<i64>()`, for a text of digits.
abbrev pub parse_i64 : Text → Option ℕ
parse_i64 digits = let n = digits_onto 0 digits in if ltb n (2 ^ 63) then some n else none

module _ {ext : Extern} (nom : Nom ext) where
  open nom use {
    tag, is_not, digit1, double, map, map_res, tuple, alt, opt, not, many0, separated_list0,
    delimited,
  }

  unfoldable pub identifier : Parser Text
  identifier = is_not (bytes "\\/:;.()[]{}'\" \n\t\r" ++ (0 ∷ []))

  unfoldable pub identified_value : {T : Type 0} → Parser T → Parser (Text × T)
  unfolding identifier
  identified_value f =
      map
        (tuple (trailing_whitespace nom identifier) (
          tuple (tag_whitespace nom (bytes ":"))
            (tuple (trailing_whitespace nom f) (tag (bytes ";")))))
        (λ (identifier, (_, (value, _))). (identifier, value))

  unfoldable pub block : {H V : Type 0} → Parser H → Parser V → Parser (H × List V)
  block head value = tuple (trailing_whitespace nom head) (
      alt (
        delimited (tag_whitespace nom (bytes "{")) (many0 (trailing_whitespace nom value))
          (tag (bytes "}"))
        ∷ map (tag (bytes ";")) (λ _. [])
        ∷ []))

  unfoldable pub in_directive : Parser (Result Text ext.Regex)
  in_directive =
      map (tuple (tag_whitespace nom (bytes "in")) (escaped_string nom))
        (λ (_, parsed). regex ext parsed)

  unfoldable pub string_directive : List Text → Parser Text
  string_directive directive_tags =
      map
        (tuple (tags_whitespace nom directive_tags)
          (tuple (trailing_whitespace nom (escaped_string nom)) (tag (bytes ";"))))
        (λ (_, (string, _)). string)

  unfoldable pub flag_directive : List Text → Parser Unit
  flag_directive directive_tags =
      map (tuple (tags_whitespace nom directive_tags) (tag (bytes ";"))) (λ _. tt)

  abbrev number_or_none : Option ℕ → Option (Value ext)
  number_or_none none = none
  number_or_none (some num) = some (Value.number (ext.from_u64 num))

  abbrev negative_or_none : Option ℕ → Option (Value ext)
  negative_or_none none = none
  negative_or_none (some num) = some (Value.number (ext.from_i64 (negated num)))

  unfoldable pub literal : ℕ → Parser (Value ext)
  literal zero = λ i. err spent
  literal (suc n) =
      let inner = literal n in
      alt (
        map (escaped_string nom) Value.string
        ∷ map (tag (bytes "true")) (λ _. Value.bool true)
        ∷ map (tag (bytes "false")) (λ _. Value.bool false)
        ∷ map_res (tuple digit1 (not (tag (bytes "."))))
            (λ (number, _). number_or_none (parse_u64 number))
        ∷ map_res (tuple (tag (bytes "-")) (tuple digit1 (not (tag (bytes ".")))))
            (λ (_, (number, _)). negative_or_none (parse_i64 number))
        ∷ map double of_f64
        ∷ map
            (tuple (tag_whitespace nom (bytes "["))
              (tuple (separated_list0 (tag_whitespace nom (bytes ",")) inner) (tag (bytes "]"))))
            (λ (_, (array, _)). Value.array (of_items array))
        ∷ [])

  module _ (dom : Dom) where
    abbrev Reading : Type 0 → Type 0
    Reading A = Parser (Result Text A)

    -- `map_err(|err| format!("{:?}", err))`.
    abbrev pub debug_err : Result Text (Selector dom) → Result Text (Selector dom)
    debug_err (ok s) = ok s
    debug_err (err e) = err (ext.debug_text e)

    abbrev pub scanned : Text → Option (Text × Text) → IResult (Result Text (Selector dom))
    scanned i none = err panicked
    scanned i (some ([], rest)) = err (error i is_a)
    scanned i (some (c ∷ taken, rest)) = ok (rest, debug_err (from_str (c ∷ taken)))

    unfoldable pub css_selector : ℕ → Reading (Selector dom)
    unfolding scan from_str
    css_selector boundary_hint i = scanned i (scan boundary_hint (pos 0) i)

    -- `Box::new(extractor?)`.
    abbrev pub inner_of : ExtractorExpression (html_extraction ext dom) → Inner ext dom
    unfolding html_extraction
    inner_of e = Inner.expression e.extractor e.transformer_expression

    abbrev pub around :
        Text
        → (Inner ext dom → Extractor ext dom)
        → Reading (ExtractorExpression (html_extraction ext dom))
        → Reading (Extractor ext dom)
    unfolding inner_of
    around t f inner =
        map
          (tuple (tag_whitespace nom t) (
            tuple (tag_whitespace nom (bytes "("))
              (tuple (trailing_whitespace nom inner) (tag (bytes ")")))))
          (λ (_, (_, (e, _))). Outcome.◌>>=◌ e λ e. ok (f (inner_of e)))

    abbrev pub selecting :
        Text
        → (Inner ext dom → Selector dom → Extractor ext dom)
        → Reading (ExtractorExpression (html_extraction ext dom))
        → Reading (Extractor ext dom)
    unfolding inner_of css_selector
    selecting t f inner =
        map
          (tuple (tag_whitespace nom t) (
            tuple (tag_whitespace nom (bytes "(")) (
              tuple (trailing_whitespace nom inner) (
                tuple (tag_whitespace nom (bytes ","))
                  (tuple (css_selector 41) (tag (bytes ")")))))))
          (λ (_, (_, (e, (_, (s, _))))).
            Outcome.◌>>=◌ e λ e. Outcome.◌>>=◌ s λ s. ok (f (inner_of e) s))

    -- `Extractor::parse`.
    unfoldable pub extractor : ℕ → Reading (Extractor ext dom)
    unfolding around selecting html_extraction
    extractor zero = λ i. err spent
    extractor (suc n) =
        let inner = extractor_expression nom (html_extraction ext dom) (extractor n) n in
        alt (
          map (tag (bytes "name")) (λ _. ok name)
          ∷ map (tag (bytes "text")) (λ _. ok text)
          ∷ map (tag (bytes "html")) (λ _. ok html)
          ∷ map (tag (bytes "inner-html")) (λ _. ok inner_html)
          ∷ map (tag (bytes "attrs")) (λ _. ok attrs)
          ∷ map (tag (bytes "classes")) (λ _. ok classes)
          ∷ map (tag (bytes "id")) (λ _. ok id)
          ∷ map (tuple (tag_whitespace nom (bytes "attr")) (escaped_string nom))
              (λ (_, key). ok (attr key))
          ∷ around (bytes "parent") parent inner
          ∷ around (bytes "children") children inner
          ∷ selecting (bytes "select-any") select_any inner
          ∷ selecting (bytes "select-all") select_all inner
          ∷ [])
