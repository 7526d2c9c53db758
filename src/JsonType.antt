-- ===== src/JsonType.antt =====
-- lib-lopez/src/type.rs: the types of JSON values, and how they are written.
pub mod Reading
use lopez.Prelude.{Text, bytes, ◌++◌, Bool, true, false}

pub data JsonType : Type 0 where
  any bool number string : JsonType
  array map : JsonType → JsonType

-- `fmt::Display`.
unfoldable pub type_text : JsonType → Text
type_text any = bytes "any"
type_text bool = bytes "bool"
type_text number = bytes "number"
type_text string = bytes "string"
type_text (array t) = bytes "array[" ++ (type_text t ++ bytes "]")
type_text (map t) = bytes "map[string, " ++ (type_text t ++ bytes "]")

abbrev pub is_array : JsonType → Bool
is_array (array t) = true
is_array _ = false

abbrev pub is_map : JsonType → Bool
is_map (map t) = true
is_map _ = false

pub JsonType-discrete : Discrete JsonType
JsonType-discrete = hlevel
