-- ===== src/Expressions/Error.antt =====
-- lib-lopez/src/directives/expressions/mod.rs: what the type checker of expressions answers.
use lopez.Prelude.{Text}
use lopez.JsonType.{JsonType}

pub data Error : Type 0 where
  type_error : Text → JsonType → Error
  expected_type : (thing : Text) (got expected : JsonType) → Error
  not_expected_type : (thing : Text) (not_expected : JsonType) → Error
