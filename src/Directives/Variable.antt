-- ===== src/Directives/Variable.antt =====
-- lib-lopez/src/directives/variable.rs: the variables that a directive can set, and how their values
-- are read. `none` is a panic: the code reads a variable at a type that it does not have.
pub mod Parameters
pub mod Laws
use lopez.Prelude.{
  ℕ, Text, bytes, text_eq, Bool, true, false, Option, none, some, List, [], ◌∷◌, Result, ok, err,
  Ordering, if◌then◌else◌,
}
use lopez.Prelude.Panic.{◌>>=◌}
use lopez.Extern.{Extern}
use lopez.Value.{Value, of_f64}
use lopez.Expressions.Transformer.Compare.{force_f64}
use lopez.Expressions.Transformer.Eval.{is_gt}

pub data Variable : Type 0 where
  user_agent quota max_depth max_hits_per_sec request_timeout max_body_size enable_page_rank :
      Variable

-- `fmt::Display`.
unfoldable pub variable_text : Variable → Text
variable_text user_agent = bytes "user_agent"
variable_text quota = bytes "quota"
variable_text max_depth = bytes "max_depth"
variable_text max_hits_per_sec = bytes "max_hits_per_sec"
variable_text request_timeout = bytes "request_timeout"
variable_text max_body_size = bytes "max_body_size"
variable_text enable_page_rank = bytes "enable_page_rank"

unfoldable pub try_parse : Text → Option Variable
try_parse input =
    if text_eq input (bytes "user_agent")
    then some user_agent
    else if text_eq input (bytes "quota")
    then some quota
    else if text_eq input (bytes "max_depth")
    then some max_depth
    else if text_eq input (bytes "max_hits_per_sec")
    then some max_hits_per_sec
    else if text_eq input (bytes "request_timeout")
    then some request_timeout
    else if text_eq input (bytes "max_body_size")
    then some max_body_size
    else if text_eq input (bytes "enable_page_rank")
    then some enable_page_rank
    else none

module _ (ext : Extern) where
  -- `Error::BadSetVariableValue` (directives/error.rs).
  pub record BadValue : Type 0 where
    pub variable : Variable
    pub value : Value ext

  abbrev pub Read : Type 0 → Type 0
  Read A = Option (Result BadValue A)

module _ {ext : Extern} where
  abbrev pub bad_value : {A : Type 0} → Variable → Value ext → Read ext A
  bad_value self literal = some (err (record { variable = self; value = literal }))

  unfoldable pub retrieve_as_bool : Variable → Option (Value ext) → Read ext Bool
  retrieve_as_bool enable_page_rank none = some (ok true)
  retrieve_as_bool enable_page_rank (some (Value.bool b)) = some (ok b)
  retrieve_as_bool self (some literal) = bad_value self literal
  retrieve_as_bool _ none = none

  -- The default is that of `default_user_agent`, which is made at build time.
  unfoldable pub retrieve_as_str : Text → Variable → Option (Value ext) → Read ext Text
  retrieve_as_str default user_agent none = some (ok default)
  retrieve_as_str default user_agent (some (Value.string agent)) = some (ok agent)
  retrieve_as_str default user_agent (some literal) = bad_value user_agent literal
  retrieve_as_str default _ _ = none

  abbrev pub if_positive : Variable → ext.F64 → Read ext ext.F64
  if_positive self number =
      if is_gt (ext.partial_cmp number ext.zero_f64)
      then some (ok number)
      else bad_value self (of_f64 number)

  unfoldable pub retrieve_as_positive_f64 : Variable → Option (Value ext) → Read ext ext.F64
  unfolding force_f64
  retrieve_as_positive_f64 max_hits_per_sec none = some (ok (ext.decimal 25 1))
  retrieve_as_positive_f64 request_timeout none = some (ok (ext.decimal 600 1))
  retrieve_as_positive_f64 max_hits_per_sec (some (Value.number n)) =
      force_f64 ext n >>= λ f. if_positive max_hits_per_sec f
  retrieve_as_positive_f64 request_timeout (some (Value.number n)) =
      force_f64 ext n >>= λ f. if_positive request_timeout f
  retrieve_as_positive_f64 max_hits_per_sec (some literal) = bad_value max_hits_per_sec literal
  retrieve_as_positive_f64 request_timeout (some literal) = bad_value request_timeout literal
  retrieve_as_positive_f64 _ _ = none

  -- `Value::as_u64`.
  abbrev pub as_u64 : Value ext → Option ℕ
  as_u64 (Value.number n) = ext.as_u64 n
  as_u64 _ = none

  abbrev pub u64_or_bad : Variable → Value ext → Option ℕ → Read ext ℕ
  u64_or_bad self value (some number) = some (ok number)
  u64_or_bad self value none = bad_value self value

  unfoldable pub retrieve_as_u64 : Variable → Option (Value ext) → Read ext ℕ
  retrieve_as_u64 quota none = some (ok 1000)
  retrieve_as_u64 max_depth none = some (ok 7)
  retrieve_as_u64 max_body_size none = some (ok 10_000_000)
  retrieve_as_u64 quota (some value) = u64_or_bad quota value (as_u64 value)
  retrieve_as_u64 max_depth (some value) = u64_or_bad max_depth value (as_u64 value)
  retrieve_as_u64 max_body_size (some value) = u64_or_bad max_body_size value (as_u64 value)
  retrieve_as_u64 _ _ = none

abbrev pub same_variable : Variable → Variable → Bool
same_variable user_agent user_agent = true
same_variable quota quota = true
same_variable max_depth max_depth = true
same_variable max_hits_per_sec max_hits_per_sec = true
same_variable request_timeout request_timeout = true
same_variable max_body_size max_body_size = true
same_variable enable_page_rank enable_page_rank = true
same_variable _ _ = false

-- `SetVariables`: the pairs that were collected into the map, the last of a name being in force.
abbrev pub SetVariables : Extern → Type 0
SetVariables ext = List (Variable × Value ext)

module _ {ext : Extern} where
  abbrev latest : Option (Value ext) → Value ext → Value ext
  latest none v = v
  latest (some w) v = w

  abbrev pub get_variable : Variable → SetVariables ext → Option (Value ext)
  get_variable name [] = none
  get_variable name ((j, v) ∷ set) =
      let rest = get_variable name set in
      if same_variable name j then some (latest rest v) else rest

  abbrev pub get_as_bool : SetVariables ext → Variable → Read ext Bool
  get_as_bool set name = retrieve_as_bool name (get_variable name set)

  abbrev pub get_as_str : Text → SetVariables ext → Variable → Read ext Text
  get_as_str default set name = retrieve_as_str default name (get_variable name set)

  abbrev pub get_as_positive_f64 : SetVariables ext → Variable → Read ext ext.F64
  get_as_positive_f64 set name = retrieve_as_positive_f64 name (get_variable name set)

  abbrev pub get_as_u64 : SetVariables ext → Variable → Read ext ℕ
  get_as_u64 set name = retrieve_as_u64 name (get_variable name set)
