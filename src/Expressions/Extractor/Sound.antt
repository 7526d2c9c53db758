-- ===== src/Expressions/Extractor/Sound.antt =====
-- Soundness of the types of extractor expressions, and the panic of `!explode` at `null`.
use lopez.Prelude.{◌≡◌, ◌≢◌, refl, Result, ok, err, Option, none, some, All, true, false, Bool}
use lopez.Prelude.Outcome
use lopez.Prelude.Panic
use lopez.Prelude.Returns.{Returns, OnOk}
use lopez.Extern.{Extern, IsFinite}
use lopez.JsonType.{JsonType, array}
use lopez.Value.{Value}
use lopez.Value.HasType.{HasType, null, items-All}
use lopez.Expressions.Error.{Error}
use lopez.Expressions.Transformer.Eval.Cases.{Of}
use lopez.Expressions.Transformer.Eval.Loops.{Sound}
use lopez.Expressions.Transformer.Eval.Sound.{AllSortSafely, eval_all-Sound, transform-Sound}
use lopez.Expressions.Extractor.{
  Extraction, ExtractorExpression, ExplodingExtractorExpression, expression_type_of,
  exploding_type_of, extract_expression, extract_exploding, exploded_type, explode,
}

-- What an implementation of the traits owes: the extractors that are safe give values of their types.
pub record IsTyped {ext : Extern} (exn : Extraction ext) : Type 1 where
  pub Safe : exn.Extractor → Type 0
  pub sound :
      (operand : exn.Operand) (e : exn.Extractor)
      → Safe e
      → Sound (exn.type_of e) (exn.extract_with operand e)

module _ {ext : Extern} (finite : IsFinite ext) (exn : Extraction ext) (typed : IsTyped exn) where
  abbrev pub ExpressionSortsSafely : ExtractorExpression exn → Type 0
  ExpressionSortsSafely e =
      typed.Safe e.extractor
      × OnOk (exn.type_of e.extractor) (λ t. AllSortSafely e.transformer_expression t)

  extract_expression-Sound :
      (operand : exn.Operand) (e : ExtractorExpression exn)
      → ExpressionSortsSafely e
      → Sound (expression_type_of exn e) (extract_expression exn operand e)
  unfolding expression_type_of extract_expression
  extract_expression-Sound operand e s =
      transform-Sound e.transformer_expression (exn.type_of e.extractor)
        (exn.extract_with operand e.extractor) (typed.sound operand e.extractor s.0) s.1
        (λ next w k s'. eval_all-Sound finite e.transformer_expression k s')

  -- On this operand, an exploding expression does not give `null`.
  abbrev pub ExplodesSafely : exn.Operand → ExplodingExtractorExpression exn → Type 0
  ExplodesSafely operand e =
      e.explodes ≡ true → extract_expression exn operand e.extractor_expression ≢ some Value.null

  explode-Returns :
      (explodes : Bool) (raw : JsonType) {v : Value ext}
      → HasType v raw
      → (explodes ≡ true → some v ≢ some Value.null)
      → OnOk (exploded_type exn explodes raw) (λ t. Returns (All (Of t)) (explode exn explodes v))
  explode-Returns false raw h ne = (h, tt)
  explode-Returns true (array t) null ne = absurd (ne refl refl)
  explode-Returns true (array t) (HasType.array hs) ne = items-All hs
  explode-Returns true _ h ne = tt

  explode-Sound :
      (explodes : Bool) (m : Result Error JsonType) (r : Option (Value ext))
      → Sound m r
      → (explodes ≡ true → r ≢ some Value.null)
      → OnOk
          (Outcome.◌>>=◌ m λ raw. exploded_type exn explodes raw)
          (λ t. Returns (All (Of t)) (Panic.◌>>=◌ r λ v. explode exn explodes v))
  explode-Sound explodes (err e) r h ne = tt
  explode-Sound explodes (ok raw) none h ne = absurd h
  explode-Sound explodes (ok raw) (some v) h ne = explode-Returns explodes raw h ne

  -- The operands on which an expression that type checks is known to be safe.
  pub extract_exploding-Sound :
      (operand : exn.Operand) (e : ExplodingExtractorExpression exn)
      → ExpressionSortsSafely e.extractor_expression
      → ExplodesSafely operand e
      → OnOk
          (exploding_type_of exn e)
          (λ t. Returns (All (Of {ext = ext} t)) (extract_exploding exn operand e))
  unfolding exploding_type_of extract_exploding
  extract_exploding-Sound operand e s ne =
      explode-Sound e.explodes (expression_type_of exn e.extractor_expression)
        (extract_expression exn operand e.extractor_expression)
        (extract_expression-Sound operand e.extractor_expression s) ne
