-- ===== src/Expressions/Transformer/TypeFor.antt =====
-- `type_for` (transformer.rs): the type checker of transformers.
use lopez.Prelude.{Result, ok, err, if◌then◌else◌}
use lopez.Prelude.Outcome.{◌>>=◌}
use lopez.Extern.{Extern}
use lopez.JsonType.{JsonType, bool, number, string, array, map, is_map}
use lopez.Expressions.Error.{Error, type_error, expected_type, not_expected_type}
use lopez.Expressions.Transformer.{
  Transformer, TransformerExpression, is_null, is_not_null, hash, not, as_number, greater_than,
  lesser_than, greater_or_equal, lesser_or_equal, between, equals, in_numbers, length, is_empty,
  get, get_idx, flatten, each, filter, any, all, sort, sort_by, as_string, pretty, equals_string,
  in_strings, capture, all_captures, matches, replace, nil, cons,
}
use lopez.Expressions.Transformer.Display.{transformer_text, expression_text}

module _ {ext : Extern} where
  abbrev pub type_mismatch : Transformer ext → JsonType → Result Error JsonType
  type_mismatch self input = err (type_error (transformer_text self) input)

  -- `self.expected(&Type::Bool, got)` unless `got` is `Type::Bool`.
  abbrev pub when_bool : TransformerExpression ext → JsonType → JsonType → Result Error JsonType
  when_bool self bool result = ok result
  when_bool self got result = err (expected_type (expression_text self) got bool)

  abbrev pub when_array : Transformer ext → JsonType → JsonType → Result Error JsonType
  when_array self input (array t) = ok (array t)
  when_array self input _ = type_mismatch self input

  unfoldable mutual
    pub type_for : Transformer ext → JsonType → Result Error JsonType
    type_for is_null _ = ok bool
    type_for is_not_null _ = ok bool
    type_for hash string = ok number
    type_for not bool = ok bool
    type_for as_number string = ok number
    type_for (greater_than _) number = ok bool
    type_for (lesser_than _) number = ok bool
    type_for (greater_or_equal _) number = ok bool
    type_for (lesser_or_equal _) number = ok bool
    type_for (between _ _) number = ok bool
    type_for (equals _) number = ok bool
    type_for (in_numbers _) number = ok bool
    type_for length string = ok number
    type_for length (array _) = ok number
    type_for length (map _) = ok number
    type_for is_empty string = ok bool
    type_for is_empty (array _) = ok bool
    type_for is_empty (map _) = ok bool
    type_for (get _) (map typ) = ok typ
    type_for (get_idx _) (array typ) = ok typ
    type_for flatten (array inner) = when_array flatten (array inner) inner
    type_for (each inner) (array typ) = type_for_all inner typ >>= λ t. ok (array t)
    type_for (each inner) (map typ) = type_for_all inner typ >>= λ t. ok (map t)
    type_for (filter inner) (array typ) =
        type_for_all inner typ >>= λ inner_typ. when_bool inner inner_typ (array typ)
    type_for (filter inner) (map typ) =
        type_for_all inner typ >>= λ inner_typ. when_bool inner inner_typ (map typ)
    type_for (any predicate) (array typ) =
        type_for_all predicate typ >>= λ predicate_typ. when_bool predicate predicate_typ bool
    type_for (all predicate) (array typ) =
        type_for_all predicate typ >>= λ predicate_typ. when_bool predicate predicate_typ bool
    type_for sort (array typ) =
        if is_map typ then type_mismatch sort (array typ) else ok (array typ)
    type_for (sort_by key) (array typ) = type_for_all key typ >>= λ key_typ.
        if is_map key_typ
        then err (not_expected_type (expression_text key) key_typ)
        else ok (array typ)
    type_for as_string number = ok string
    type_for as_string bool = ok string
    type_for as_string string = ok string
    type_for pretty string = ok string
    type_for (equals_string _) string = ok bool
    type_for (in_strings _) string = ok bool
    type_for (capture _) string = ok (map string)
    type_for (all_captures _) string = ok (array (map string))
    type_for (matches _) string = ok bool
    type_for (replace _ _) string = ok string
    type_for self input = type_mismatch self input

    -- `TransformerExpression::type_for`.
    pub type_for_all : TransformerExpression ext → JsonType → Result Error JsonType
    type_for_all nil typ = ok typ
    type_for_all (cons t ts) typ = type_for t typ >>= λ next. type_for_all ts next
