-- ===== src/Expressions/Extractor.antt =====
-- lib-lopez/src/directives/expressions/extractor.rs: extractors followed by transformers. What is
-- extracted from, and by what, is a parameter: the traits `Typed` and `Extractable`.
pub mod Sound
use lopez.Prelude.{
  Text, bytes, ◌++◌, Bool, true, false, List, [], ◌∷◌, Option, none, some, Result, ok, err,
  if◌then◌else◌,
}
use lopez.Prelude.Outcome
use lopez.Prelude.Panic
use lopez.Extern.{Extern}
use lopez.JsonType.{JsonType, array}
use lopez.Value.{Value, items}
use lopez.Expressions.Error.{Error, type_error}
use lopez.Expressions.Transformer.{TransformerExpression, is_empty_expression}
use lopez.Expressions.Transformer.Display.{expression_text}
use lopez.Expressions.Transformer.TypeFor.{type_for_all}
use lopez.Expressions.Transformer.Eval.{eval_all}

-- An extractor type with `Typed` and `fmt::Display`, and an operand type with `Extractable`.
pub record Extraction (ext : Extern) : Type 1 where
  pub Extractor : Type 0
  pub Operand : Type 0
  pub extractor_text : Extractor → Text
  pub type_of : Extractor → Result Error JsonType
  pub extract_with : Operand → Extractor → Option (Value ext)

module _ {ext : Extern} where
  -- An expression followed by transformers, in text.
  abbrev pub with_transformers : Text → TransformerExpression ext → Text
  with_transformers text ts =
      if is_empty_expression ts then text else text ++ (bytes " " ++ expression_text ts)

module _ {ext : Extern} (exn : Extraction ext) where
  open exn use {Extractor, Operand, extractor_text, type_of, extract_with}

  pub record ExtractorExpression : Type 0 where
    pub extractor : Extractor
    pub transformer_expression : TransformerExpression ext

  pub record ExplodingExtractorExpression : Type 0 where
    pub explodes : Bool
    pub extractor_expression : ExtractorExpression

  unfoldable pub exploding_text : ExplodingExtractorExpression → Text
  exploding_text e =
      let inner = e.extractor_expression in
      let text = with_transformers (extractor_text inner.extractor) inner.transformer_expression in
      if e.explodes then text ++ bytes " !explode" else text

  unfoldable pub expression_type_of : ExtractorExpression → Result Error JsonType
  expression_type_of e =
      Outcome.◌>>=◌ (type_of e.extractor) λ t. type_for_all e.transformer_expression t

  abbrev pub exploded_type : Bool → JsonType → Result Error JsonType
  exploded_type false raw = ok raw
  exploded_type true (array inner) = ok inner
  exploded_type true raw = err (type_error (bytes "!explode") raw)

  unfoldable pub exploding_type_of : ExplodingExtractorExpression → Result Error JsonType
  unfolding expression_type_of
  exploding_type_of e =
      Outcome.◌>>=◌ (expression_type_of e.extractor_expression) λ raw. exploded_type e.explodes raw

  unfoldable pub extract_expression : Operand → ExtractorExpression → Option (Value ext)
  extract_expression operand e =
      Panic.◌>>=◌ (extract_with operand e.extractor) λ v. eval_all e.transformer_expression v

  -- `todo!()` where an exploding expression gives no array.
  abbrev pub explode : Bool → Value ext → Option (List (Value ext))
  explode false extracted = some (extracted ∷ [])
  explode true (Value.array vs) = some (items vs)
  explode true extracted = none

  unfoldable pub extract_exploding :
      Operand → ExplodingExtractorExpression → Option (List (Value ext))
  unfolding extract_expression
  extract_exploding operand e =
      Panic.◌>>=◌ (extract_expression operand e.extractor_expression) λ v. explode e.explodes v
