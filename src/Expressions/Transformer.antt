-- ===== src/Expressions/Transformer.antt =====
-- lib-lopez/src/directives/expressions/transformer.rs: the syntax of transformers, as data.
pub mod Display
pub mod TypeFor
pub mod Compare
pub mod Pretty
pub mod Eval
use lopez.Prelude.{ℕ, Text, List, Bool, true, false}
use lopez.Extern.{Extern}

module _ (ext : Extern) where
  mutual
    pub data Transformer : Type 0 where
      is_null is_not_null hash not : Transformer
      as_number : Transformer
      greater_than lesser_than greater_or_equal lesser_or_equal : ext.F64 → Transformer
      between : (low high : ext.F64) → Transformer
      equals : ext.F64 → Transformer
      in_numbers : List ext.F64 → Transformer
      length is_empty : Transformer
      get : Text → Transformer
      get_idx : ℕ → Transformer
      flatten : Transformer
      each filter any all : TransformerExpression → Transformer
      sort : Transformer
      sort_by : TransformerExpression → Transformer
      as_string pretty : Transformer
      equals_string : Text → Transformer
      in_strings : List Text → Transformer
      capture all_captures matches : ext.Regex → Transformer
      replace : ext.Regex → Text → Transformer

    -- `transformers: Box<[Transformer]>`, applied from left to right.
    pub data TransformerExpression : Type 0 where
      nil : TransformerExpression
      cons : Transformer → TransformerExpression → TransformerExpression

module _ {ext : Extern} where
  abbrev pub is_empty_expression : TransformerExpression ext → Bool
  is_empty_expression nil = true
  is_empty_expression (cons t ts) = false
