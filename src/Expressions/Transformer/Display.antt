-- ===== src/Expressions/Transformer/Display.antt =====
-- `fmt::Display` of transformers (transformer.rs): the text that type errors quote.
use lopez.Prelude.{Text, bytes, join, show_ℕ, map, ◌++◌}
use lopez.Extern.{Extern}
use lopez.Expressions.Transformer.{
  Transformer, TransformerExpression, is_null, is_not_null, hash, not, as_number, greater_than,
  lesser_than, greater_or_equal, lesser_or_equal, between, equals, in_numbers, length, is_empty,
  get, get_idx, flatten, each, filter, any, all, sort, sort_by, as_string, pretty, equals_string,
  in_strings, capture, all_captures, matches, replace, nil, cons,
}

module _ {ext : Extern} where
  open ext use {f64_text, debug_text, regex_text, regex_debug}

  unfoldable mutual
    pub transformer_text : Transformer ext → Text
    transformer_text is_null = bytes "is-null"
    transformer_text is_not_null = bytes "is-not-null"
    transformer_text hash = bytes "hash"
    transformer_text not = bytes "not"
    transformer_text as_number = bytes "as-number"
    transformer_text (greater_than num) = bytes "greater-than " ++ f64_text num
    transformer_text (lesser_than num) = bytes "lesser-than " ++ f64_text num
    transformer_text (greater_or_equal num) = bytes "greater-or-equal " ++ f64_text num
    transformer_text (lesser_or_equal num) = bytes "lesser-or-equal " ++ f64_text num
    transformer_text (between low high) =
        bytes "between " ++ (f64_text low ++ (bytes " and " ++ f64_text high))
    transformer_text (equals num) = bytes "equals " ++ f64_text num
    transformer_text (in_numbers nums) =
        bytes "in [" ++ (join (bytes ", ") (map f64_text nums) ++ bytes "]")
    transformer_text length = bytes "length"
    transformer_text is_empty = bytes "is-empty"
    transformer_text (get key) = bytes "get " ++ debug_text key
    transformer_text (get_idx idx) = bytes "get " ++ show_ℕ idx
    transformer_text flatten = bytes "flatten"
    transformer_text (each inner) = bytes "each(" ++ (expression_text inner ++ bytes ")")
    transformer_text (filter inner) = bytes "filter(" ++ (expression_text inner ++ bytes ")")
    transformer_text (any inner) = bytes "any(" ++ (expression_text inner ++ bytes ")")
    transformer_text (all inner) = bytes "all(" ++ (expression_text inner ++ bytes ")")
    transformer_text sort = bytes "sort"
    transformer_text (sort_by key) = bytes "sort-by(" ++ (expression_text key ++ bytes ")")
    transformer_text (capture regex) = bytes "capture " ++ debug_text (regex_text regex)
    transformer_text as_string = bytes "as-string"
    transformer_text pretty = bytes "pretty"
    transformer_text (equals_string string) = bytes "equals " ++ debug_text string
    transformer_text (in_strings strings) =
        bytes "in [" ++ (join (bytes ", ") (map debug_text strings) ++ bytes "]")
    transformer_text (all_captures regex) = bytes "all-captures " ++ debug_text (regex_text regex)
    transformer_text (matches regex) = bytes "matches " ++ debug_text (regex_text regex)
    transformer_text (replace regex replacer) =
        bytes "replace " ++ (regex_debug regex ++ (bytes " with " ++ debug_text replacer))

    pub expression_text : TransformerExpression ext → Text
    expression_text nil = bytes ""
    expression_text (cons t ts) = transformer_text t ++ rest_text ts

    -- The transformers behind the first, each behind a space.
    pub rest_text : TransformerExpression ext → Text
    rest_text nil = bytes ""
    rest_text (cons t ts) = bytes " " ++ (transformer_text t ++ rest_text ts)
