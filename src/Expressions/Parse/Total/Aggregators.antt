-- ===== src/Expressions/Parse/Total/Aggregators.antt =====
-- The parsers of extractor expressions and aggregators return, for a parser of extractors that does.
use lopez.Prelude.{ℕ, zero, suc, Text, ◌∷◌, Result, ok, arith}
use lopez.Extern.{Extern}
use lopez.Nom.{Nom, IsNom, Parser}
use lopez.Nom.Eats.{Eats, Anything}
use lopez.Nom.Eats.Rules.{
  ◌&◌, Eats-tag, Eats-map, Eats-tuple, Eats-tuple_less, Eats-alt, Eats-opt, Eats-weaken,
  Eats-restrict,
}
use lopez.Expressions.Extractor.{Extraction, ExplodingExtractorExpression}
use lopez.Expressions.Aggregator.{Aggregator, count, count_not_null, first, collect, distinct, sum}
use lopez.Directives.ParseCommon.Eats.{Eats-whitespace, Eats-trailing, Eats-tag_whitespace}
use lopez.Expressions.Parse.{
  extractor_expression, exploding_extractor_expression, of_extractor, aggregator_expression_of,
  aggregator, aggregator_expression,
}
use lopez.Expressions.Parse.Total.{Eats-constant, sign, Eats-bracketed}
use lopez.Expressions.Parse.Total.Transformers.{Eats-transformer_expression}

module _ {ext : Extern} {nom : Nom ext} (law : IsNom nom) (exn : Extraction ext)
    (parse : Parser (Result Text exn.Extractor)) where
  pub Eats-extractor_expression :
      (n : ℕ) → Eats 0 n Anything parse → Eats 0 n Anything (extractor_expression nom exn parse n)
  unfolding extractor_expression
  Eats-extractor_expression n h =
      Eats-map law (Eats-tuple law (Eats-trailing law h) (Eats-transformer_expression law n))
        (λ _ _. tt)

  Eats-exploding_extractor_expression :
      (n : ℕ)
      → Eats 0 n Anything parse
      → Eats 0 n Anything (exploding_extractor_expression nom exn parse n)
  unfolding exploding_extractor_expression
  Eats-exploding_extractor_expression n h =
      Eats-map law
        (Eats-tuple law (Eats-trailing law (Eats-extractor_expression n h))
          (Eats-opt law (Eats-weaken (Eats-tag law n _ _))))
        (λ _ _. tt)

  Eats-of_extractor :
      (n c : ℕ) (w : Text) (f : ExplodingExtractorExpression exn → Aggregator exn)
      → Eats 0 n Anything parse
      → Eats 1 (suc n) Anything (of_extractor nom exn parse n (c ∷ w) f)
  unfolding of_extractor
  Eats-of_extractor n c w f h =
      Eats-map law
        (Eats-bracketed law n _ _ _ _ _ _
          (Eats-trailing law (Eats-exploding_extractor_expression n h)))
        (λ _ _. tt)

  Eats-aggregator_expression_of :
      (n : ℕ) (p : Parser (Result Text (Aggregator exn)))
      → Eats 0 n Anything p
      → Eats 0 n Anything (aggregator_expression_of nom exn parse n p)
  Eats-aggregator_expression_of n p h =
      Eats-map law
        (Eats-tuple law h
          (Eats-tuple law (Eats-whitespace law n) (Eats-transformer_expression law n)))
        (λ _ _. tt)

  Eats-aggregator :
      (n : ℕ) → Eats 0 n Anything parse → Eats 0 n Anything (aggregator nom exn parse n)
  unfolding aggregator
  Eats-aggregator zero h = record { go = λ i lt. absurd (omega (arith, lt)) }
  Eats-aggregator (suc n) h =
      let less = Eats-restrict n (omega arith) h in
      let inner = Eats-aggregator_expression_of n _ (Eats-aggregator n less) in
      let of = Eats-exploding_extractor_expression n less in
      Eats-weaken (
        Eats-alt law _ _ (Eats-of_extractor n _ _ count_not_null less) (
          Eats-constant law Anything _ _ _ (ok count) tt
          & Eats-of_extractor n _ _ first less
          & Eats-of_extractor n _ _ collect less
          & Eats-of_extractor n _ _ distinct less
          & Eats-of_extractor n _ _ sum less
          & Eats-map law
              (Eats-tuple_less law (Eats-tag_whitespace law (suc n) _ _) (
                Eats-tuple law (sign law n _ _) (
                  Eats-tuple law (Eats-trailing law of) (
                    Eats-tuple law (sign law n _ _) (
                      Eats-tuple law (Eats-trailing law inner)
                        (Eats-weaken (Eats-tag law n _ _)))))))
              (λ _ _. tt)
          & tt))

  pub Eats-aggregator_expression :
      (n : ℕ) → Eats 0 n Anything parse → Eats 0 n Anything (aggregator_expression nom exn parse n)
  unfolding aggregator_expression
  Eats-aggregator_expression n h = Eats-aggregator_expression_of n _ (Eats-aggregator n h)
