-- ===== src/Expressions/Parse.antt =====
-- lib-lopez/src/directives/expressions/parse.rs: the parsers of types, transformers, extractor
-- expressions and aggregators. A parser that calls itself takes the depth to which it may do so.
-- The inner results are the errors that a parsed text may still have.
pub mod Total
use lopez.Prelude.{
  ℕ, zero, suc, ◌+◌, ◌-◌, ◌*◌, ◌^◌, ltb, Text, bytes, Bool, true, false, List, [], ◌∷◌, Option,
  none, some, Result, ok, err, if◌then◌else◌,
}
use lopez.Prelude.Outcome
use lopez.Extern.{Extern}
use lopez.Nom.{Nom, Parser, spent}
use lopez.JsonType.{JsonType, array}
use lopez.Expressions.Transformer.{
  Transformer, TransformerExpression, is_null, is_not_null, hash, not, as_number, greater_than,
  lesser_than, greater_or_equal, lesser_or_equal, between, equals, in_numbers, length, is_empty,
  get, get_idx, flatten, each, filter, any, all, sort, as_string, pretty, equals_string, in_strings,
  capture, all_captures, matches, replace, nil, cons,
}
use lopez.Expressions.Extractor.{Extraction, ExtractorExpression, ExplodingExtractorExpression}
use lopez.Expressions.Aggregator.{
  Aggregator, AggregatorExpression, count, count_not_null, first, collect, distinct, sum, group,
  expression,
}
use lopez.Directives.ParseCommon.{
  whitespace, trailing_whitespace, tag_whitespace, escaped_string, regex,
}

-- The number that decimal digits write.
abbrev pub digits_onto : ℕ → Text → ℕ
digits_onto n [] = n
digits_onto n (c ∷ s) = digits_onto (n * 10 + (c - 48)) s

-- `digits.parse::<usize>()`, and `parse::<u64>()`, for a text of digits: it may not fit.
abbrev pub parse_u64 : Text → Option ℕ
parse_u64 digits = let n = digits_onto 0 digits in if ltb n (2 ^ 64) then some n else none

abbrev pub is_some : {A : Type 0} → Option A → Bool
is_some none = false
is_some (some a) = true

module _ {ext : Extern} (nom : Nom ext) where
  open nom use {tag, digit1, double, map, tuple, alt, opt, many0, separated_list0}

  abbrev Reading : Type 0 → Type 0
  Reading A = Parser (Result Text A)

  -- `r#type`.
  unfoldable pub type : ℕ → Parser JsonType
  type zero = λ i. err spent
  type (suc n) =
      let inner = type n in
      alt (
        map (tag (bytes "any")) (λ _. JsonType.any)
        ∷ map (tag (bytes "bool")) (λ _. JsonType.bool)
        ∷ map (tag (bytes "number")) (λ _. JsonType.number)
        ∷ map (tag (bytes "string")) (λ _. JsonType.string)
        ∷ map
            (tuple (tag_whitespace nom (bytes "array")) (
              tuple (tag_whitespace nom (bytes "["))
                (tuple (trailing_whitespace nom inner) (tag (bytes "]")))))
            (λ (_, (_, (t, _))). array t)
        ∷ map
            (tuple (tag_whitespace nom (bytes "map")) (
              tuple (tag_whitespace nom (bytes "[")) (
                tuple (tag_whitespace nom (bytes "string")) (
                  tuple (tag_whitespace nom (bytes ","))
                    (tuple (trailing_whitespace nom inner) (tag_whitespace nom (bytes "]")))))))
            (λ (_, (_, (_, (_, (t, _))))). JsonType.map t)
        ∷ [])

  -- The shapes of a transformer: a word, or a word and what follows it.
  abbrev pub word : Text → Transformer ext → Reading (Transformer ext)
  word t x = map (tag t) (λ _. ok x)

  abbrev pub with_number : Text → (ext.F64 → Transformer ext) → Reading (Transformer ext)
  with_number t f = map (tuple (tag_whitespace nom t) double) (λ (_, lhs). ok (f lhs))

  abbrev pub with_string : Text → (Text → Result Text (Transformer ext)) → Reading (Transformer ext)
  with_string t f = map (tuple (tag_whitespace nom t) (escaped_string nom)) (λ (_, s). f s)

  abbrev pub with_list :
      {A : Type 0} → Parser A → (List A → Transformer ext) → Reading (Transformer ext)
  with_list p f =
      map
        (tuple (tag_whitespace nom (bytes "in")) (
          tuple (tag_whitespace nom (bytes "["))
            (tuple (separated_list0 (tag_whitespace nom (bytes ",")) p) (tag (bytes "]")))))
        (λ (_, (_, (list, _))). ok (f list))

  abbrev pub nested :
      Text
      → (TransformerExpression ext → Transformer ext)
      → Reading (TransformerExpression ext)
      → Reading (Transformer ext)
  nested t f inner =
      map
        (tuple (tag_whitespace nom t)
          (tuple (tag_whitespace nom (bytes "(")) (tuple inner (tag (bytes ")")))))
        (λ (_, (_, (e, _))). Outcome.◌>>=◌ e λ te. ok (f te))

  abbrev pub index_of : Text → Result Text (Transformer ext)
  index_of digits = elim (parse_u64 digits) [
    | none ↦ err (bytes "number too large to fit in target type")
    | some n ↦ ok (get_idx n)
  ]

  abbrev pub numeric : Parser (Result Text (Transformer ext))
  numeric = alt (
      word (bytes "is-null") is_null
      ∷ word (bytes "is-not-null") is_not_null
      ∷ word (bytes "hash") hash
      ∷ word (bytes "not") not
      ∷ word (bytes "as-number") as_number
      ∷ with_number (bytes "greater-than") greater_than
      ∷ with_number (bytes "lesser-than") lesser_than
      ∷ with_number (bytes "greater-or-equal") greater_or_equal
      ∷ with_number (bytes "lesser-or-equal") lesser_or_equal
      ∷ map
          (tuple (tag_whitespace nom (bytes "between")) (
            tuple (trailing_whitespace nom double)
              (tuple (tag_whitespace nom (bytes "and")) double)))
          (λ (_, (low, (_, high))). ok (between low high))
      ∷ with_number (bytes "equals") equals
      ∷ with_list double in_numbers
      ∷ [])

  abbrev pub structural : Reading (TransformerExpression ext) → Reading (Transformer ext)
  structural inner = alt (
      word (bytes "length") length
      ∷ word (bytes "is-empty") is_empty
      ∷ map (tuple (tag_whitespace nom (bytes "get")) digit1) (λ (_, digits). index_of digits)
      ∷ with_string (bytes "get") (λ s. ok (get s))
      ∷ word (bytes "flatten") flatten
      ∷ nested (bytes "each") each inner
      ∷ nested (bytes "filter") filter inner
      ∷ nested (bytes "any") any inner
      ∷ nested (bytes "all") all inner
      ∷ word (bytes "sort") sort
      ∷ [])

  abbrev pub textual : Parser (Result Text (Transformer ext))
  textual = alt (
      word (bytes "as-string") as_string
      ∷ word (bytes "pretty") pretty
      ∷ with_string (bytes "equals") (λ s. ok (equals_string s))
      ∷ with_list (escaped_string nom) in_strings
      ∷ with_string (bytes "capture") (λ s. Outcome.◌>>=◌ (regex ext s) λ r. ok (capture r))
      ∷ with_string (bytes "all-captures")
          (λ s. Outcome.◌>>=◌ (regex ext s) λ r. ok (all_captures r))
      ∷ with_string (bytes "matches") (λ s. Outcome.◌>>=◌ (regex ext s) λ r. ok (matches r))
      ∷ map
          (tuple (tag_whitespace nom (bytes "replace")) (
            tuple (trailing_whitespace nom (escaped_string nom))
              (tuple (tag_whitespace nom (bytes "with")) (escaped_string nom))))
          (λ (_, (s, (_, replacer))). Outcome.◌>>=◌ (regex ext s) λ r. ok (replace r replacer))
      ∷ [])

  -- `collect::<Result<Vec<_>, _>>()`.
  abbrev pub collect_transformers :
      List (Result Text (Transformer ext)) → Result Text (TransformerExpression ext)
  collect_transformers [] = ok nil
  collect_transformers (x ∷ xs) =
      Outcome.◌>>=◌ x λ t. Outcome.◌>>=◌ (collect_transformers xs) λ ts. ok (cons t ts)

  abbrev pub expression_of : Reading (Transformer ext) → Reading (TransformerExpression ext)
  expression_of p = map (many0 (trailing_whitespace nom p)) collect_transformers

  unfoldable pub transformer : ℕ → Reading (Transformer ext)
  transformer zero = λ i. err spent
  transformer (suc n) =
      let inner = transformer n in alt (numeric ∷ structural (expression_of inner) ∷ textual ∷ [])

  unfoldable pub transformer_expression : ℕ → Reading (TransformerExpression ext)
  unfolding transformer
  transformer_expression n = expression_of (transformer n)

  -- `P::parse` is `parse`.
  module _ (exn : Extraction ext) (parse : Reading exn.Extractor) where
    unfoldable pub extractor_expression : ℕ → Reading (ExtractorExpression exn)
    unfolding transformer_expression
    extractor_expression n =
        map (tuple (trailing_whitespace nom parse) (transformer_expression n)) (λ (e, te).
          Outcome.◌>>=◌ e
            λ e. Outcome.◌>>=◌ te λ te. ok (record { extractor = e; transformer_expression = te }))

    unfoldable pub exploding_extractor_expression : ℕ → Reading (ExplodingExtractorExpression exn)
    unfolding extractor_expression
    exploding_extractor_expression n =
        map
          (tuple (trailing_whitespace nom (extractor_expression n)) (opt (tag (bytes "!explode"))))
          (λ (e, explodes).
            Outcome.◌>>=◌ e
              λ e. ok (record { explodes = is_some explodes; extractor_expression = e }))

    abbrev pub of_extractor :
        ℕ → Text → (ExplodingExtractorExpression exn → Aggregator exn) → Reading (Aggregator exn)
    unfolding exploding_extractor_expression
    of_extractor n t f =
        map
          (tuple (tag_whitespace nom t) (
            tuple (tag_whitespace nom (bytes "(")) (
              tuple (trailing_whitespace nom (exploding_extractor_expression n))
                (tag (bytes ")")))))
          (λ (_, (_, (e, _))). Outcome.◌>>=◌ e λ e. ok (f e))

    abbrev pub aggregator_expression_of :
        ℕ → Reading (Aggregator exn) → Reading (AggregatorExpression exn)
    aggregator_expression_of n p =
        map (tuple p (tuple (whitespace nom) (transformer_expression n)))
          (λ (a, (_, te)). Outcome.◌>>=◌ a λ a. Outcome.◌>>=◌ te λ te. ok (expression a te))

    unfoldable pub aggregator : ℕ → Reading (Aggregator exn)
    unfolding of_extractor
    aggregator zero = λ i. err spent
    aggregator (suc n) =
        let inner = aggregator_expression_of n (aggregator n) in
        alt (
          of_extractor n (bytes "count") count_not_null
          ∷ map (tag (bytes "count")) (λ _. ok count)
          ∷ of_extractor n (bytes "first") first
          ∷ of_extractor n (bytes "collect") collect
          ∷ of_extractor n (bytes "distinct") distinct
          ∷ of_extractor n (bytes "sum") sum
          ∷ map
              (tuple (tag_whitespace nom (bytes "group")) (
                tuple (tag_whitespace nom (bytes "(")) (
                  tuple (trailing_whitespace nom (exploding_extractor_expression n)) (
                    tuple (tag_whitespace nom (bytes ","))
                      (tuple (trailing_whitespace nom inner) (tag (bytes ")")))))))
              (λ (_, (_, (e, (_, (a, _))))).
                Outcome.◌>>=◌ e λ e. Outcome.◌>>=◌ a λ a. ok (group e a))
          ∷ [])

    unfoldable pub aggregator_expression : ℕ → Reading (AggregatorExpression exn)
    unfolding aggregator
    aggregator_expression n = aggregator_expression_of n (aggregator n)
