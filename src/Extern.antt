-- ===== src/Extern.antt =====
-- What the expressions take from outside the repository: 64-bit floats, `serde_json::Number`, the
-- `regex` crate and the SipHash function, each as a type and the operations that the code calls.
use lopez.Prelude.{ℕ, ℤ, Text, Bool, Option, some, List, Ordering, Result, ◌≡◌}

pub record Extern : Type 1 where
  -- `f64`; its comparison operators are read off `partial_cmp`.
  pub F64 : Type 0
  pub partial_cmp : F64 → F64 → Option Ordering
  pub sub : F64 → F64 → F64
  pub add : F64 → F64 → F64
  pub abs : F64 → F64
  pub epsilon : F64
  pub zero_f64 : F64
  -- The literal of the digits `m` with `k` of them behind the point.
  pub decimal : (m k : ℕ) → F64
  pub of_i64 : ℤ → F64
  pub of_u64 : ℕ → F64
  pub parse_f64 : Text → Option F64
  pub f64_text : F64 → Text
  -- `serde_json::Number`.
  pub Number : Type 0
  pub as_f64 : Number → Option F64
  pub as_i64 : Number → Option ℤ
  pub as_u64 : Number → Option ℕ
  pub from_f64 : F64 → Option Number
  pub from_i64 : ℤ → Number
  pub from_u64 : ℕ → Number
  pub number_text : Number → Text
  pub number_eq : Number → Number → Bool
  -- What is hashed of a number: the bytes of its float, or else of its integer.
  pub number_bytes : Number → Text
  -- `regex::Regex`; a match is the list of its groups, the whole match first.
  pub Regex : Type 0
  -- `Regex::from_str`, with the text of its error.
  pub regex_from_str : Text → Result Text Regex
  pub regex_text : Regex → Text
  pub regex_debug : Regex → Text
  pub capture_names : Regex → List (Option Text)
  pub captures : Regex → Text → Option (List (Option Text))
  pub captures_iter : Regex → Text → List (List (Option Text))
  pub is_match : Regex → Text → Bool
  pub replace_all : Regex → Text → Text → Text
  -- `regex::RegexSet`, made of the texts of its members, unless it gets too big.
  pub RegexSet : Type 0
  pub new_set : List Text → Option RegexSet
  pub set_matches : RegexSet → Text → Bool
  -- `{:?}` on a string, and the 64-bit output of SipHash 2-4.
  pub debug_text : Text → Text
  pub sip_hash : Text → ℕ

-- What the code relies on: a JSON number is a finite float, so that two of them compare.
pub record IsFinite (ext : Extern) : Type 0 where
  pub force : (n : ext.Number) → (f : ext.F64) × (ext.as_f64 n ≡ some f)
  pub ordered :
      (n m : ext.Number) (f g : ext.F64)
      → ext.as_f64 n ≡ some f
      → ext.as_f64 m ≡ some g
      → (o : Ordering) × (ext.partial_cmp f g ≡ some o)
