-- ===== src/Expressions/Parse/Total.antt =====
-- The parsers of expressions return, when they may call themselves as often as the text is long:
-- types, and what the others share.
pub mod Transformers
pub mod Aggregators
use lopez.Prelude.{
  ℕ, zero, suc, ◌+◌, ◌<◌, ◌≤◌, Text, bytes, List, [], ◌∷◌, Option, none, some, Result, ok, err,
  arith, All, ◌≡◌,
}
use lopez.Prelude.Outcome
use lopez.Prelude.Returns.{OnOk, OnOk-bind}
use lopez.Extern.{Extern}
use lopez.Nom.{Nom, IsNom, Parser, Goes}
use lopez.Nom.Eats.{Eats, Anything, Both, OfOption}
use lopez.Nom.Eats.Rules.{
  ◌&◌, Eats-tag, Eats-digit1, Eats-double, Eats-map, Eats-tuple, Eats-tuple_less, Eats-alt,
  Eats-opt, Eats-many0, Eats-separated_list0, Eats-weaken, Eats-restrict,
}
use lopez.JsonType.{JsonType}
use lopez.Expressions.Transformer.{
  Transformer, TransformerExpression, is_null, is_not_null, hash, as_number, greater_than,
  lesser_than, greater_or_equal, lesser_or_equal, equals, in_numbers, length, is_empty, get,
  get_idx, flatten, each, filter, any, all, sort, sort_by, as_string, pretty, equals_string,
  in_strings, capture, all_captures, matches, replace, nil, cons,
}
use lopez.Expressions.Extractor.{Extraction, ExtractorExpression, ExplodingExtractorExpression}
use lopez.Expressions.Aggregator.{
  Aggregator, AggregatorExpression, count, count_not_null, first, collect, distinct, sum, group,
  expression,
}
use lopez.Directives.ParseCommon.{regex, tag_whitespace, whitespace}
use lopez.Directives.ParseCommon.Eats.{
  Eats-whitespace, Eats-trailing, Eats-tag_whitespace, Eats-escaped_string,
}
use lopez.Expressions.Parse.{
  type, word, with_number, with_string, with_list, nested, index_of, parse_u64, numeric, structural,
  textual, collect_transformers, expression_of, transformer, transformer_expression,
  extractor_expression, exploding_extractor_expression, of_extractor, aggregator_expression_of,
  aggregator, aggregator_expression,
}

module _ {ext : Extern} {nom : Nom ext} (law : IsNom nom) where
  pub Eats-constant :
      {A : Type 0} (P : A → Type 0) (n c : ℕ) (w : Text) (a : A)
      → P a
      → Eats 1 n P (nom.map (nom.tag (c ∷ w)) (λ _. a))
  Eats-constant P n c w a pa = Eats-map law (Eats-tag law n c w) (λ _ _. pa)

  -- A sign behind another one.
  pub sign : (n c : ℕ) (w : Text) → Eats 0 n Anything (tag_whitespace nom (c ∷ w))
  sign n c w = Eats-weaken (Eats-tag_whitespace law n c w)

  -- What stands between brackets, behind a word, is shorter.
  pub Eats-bracketed :
      {A : Type 0} {P : A → Type 0} {p : Parser A} (n a b c : ℕ) (u v w : Text)
      → Eats 0 n P p
      → Eats 1 (suc n) (Both Anything (Both Anything (Both P Anything))) (
          nom.tuple
            (tag_whitespace nom (a ∷ u))
            (nom.tuple (tag_whitespace nom (b ∷ v)) (nom.tuple p (nom.tag (c ∷ w)))))
  Eats-bracketed n a b c u v w h =
      Eats-tuple_less law (Eats-tag_whitespace law (suc n) a u)
        (Eats-tuple law (sign n b v) (Eats-tuple law h (Eats-weaken (Eats-tag law n c w))))

  -- A type is read, or refused, within a depth that the text's length bounds.
  Eats-type : (n : ℕ) → Eats 0 n Anything (type nom n)
  unfolding type
  Eats-type zero = record { go = λ i lt. absurd (omega (arith, lt)) }
  Eats-type (suc n) =
      let t = Eats-trailing law (Eats-type n) in
      Eats-weaken (
        Eats-alt law _ _ (Eats-constant Anything _ _ _ JsonType.any tt) (
          Eats-constant Anything _ _ _ JsonType.bool tt
          & Eats-constant Anything _ _ _ JsonType.number tt
          & Eats-constant Anything _ _ _ JsonType.string tt
          & Eats-map law (Eats-bracketed n _ _ _ _ _ _ t) (λ _ _. tt)
          & Eats-map law
              (Eats-tuple_less law (Eats-tag_whitespace law (suc n) _ _) (
                Eats-tuple law (sign n _ _) (
                  Eats-tuple law (sign n _ _)
                    (Eats-tuple law (sign n _ _) (Eats-tuple law t (sign n _ _))))))
              (λ _ _. tt)
          & tt))
