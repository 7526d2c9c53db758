-- ===== src/Value.antt =====
-- `serde_json::Value`, as lib-lopez uses it (directives/expressions): JSON values, with an object
-- as the list of its entries in the order of their keys, as the map of `serde_json` keeps them.
pub mod HasType
pub mod Equal
pub mod Hash
use lopez.Prelude.{
  ℕ, Text, text_cmp, text_eq, Ordering, Bool, true, false, Option, none, some, List, [], ◌∷◌,
  if◌then◌else◌,
}
use lopez.Extern.{Extern}

module _ (ext : Extern) where
  mutual
    pub data Value : Type 0 where
      null : Value
      bool : Bool → Value
      number : ext.Number → Value
      string : Text → Value
      array : Items → Value
      object : Fields → Value

    pub data Items : Type 0 where
      nil : Items
      cons : Value → Items → Items

    pub data Fields : Type 0 where
      end : Fields
      field : Text → Value → Fields → Fields

module _ {ext : Extern} where
  abbrev pub items : Items ext → List (Value ext)
  items nil = []
  items (cons v vs) = v ∷ items vs

  abbrev pub of_items : List (Value ext) → Items ext
  of_items [] = nil
  of_items (v ∷ vs) = cons v (of_items vs)

  abbrev pub fields : Fields ext → List (Text × Value ext)
  fields end = []
  fields (field k v fs) = (k, v) ∷ fields fs

  -- An entry put before, in place of or behind the first one of a map.
  abbrev place :
      Ordering → Text → Value ext → Text → Value ext → Fields ext → Fields ext → Fields ext
  place Ordering.lt k v j w fs rest = field k v (field j w fs)
  place Ordering.eq k v j w fs rest = field k v fs
  place Ordering.gt k v j w fs rest = field j w rest

  -- `Map::insert`: the new value replaces that of an equal key.
  unfoldable pub insert : Text → Value ext → Fields ext → Fields ext
  insert k v end = field k v end
  insert k v (field j w fs) = place (text_cmp k j) k v j w fs (insert k v fs)

  -- `iter.collect::<Map<_, _>>()`.
  abbrev pub collect_onto : Fields ext → List (Text × Value ext) → Fields ext
  collect_onto acc [] = acc
  collect_onto acc ((k, v) ∷ kvs) = collect_onto (insert k v acc) kvs

  abbrev pub collect_map : List (Text × Value ext) → Fields ext
  collect_map kvs = collect_onto end kvs

  -- `Map::remove`, for the value that it returns.
  abbrev pub lookup : Text → Fields ext → Option (Value ext)
  lookup k end = none
  lookup k (field j w fs) = let rest = lookup k fs in if text_eq k j then some w else rest

  -- `unwrap_or(Value::Null)`.
  abbrev pub or_null : Option (Value ext) → Value ext
  or_null none = null
  or_null (some v) = v

  -- `Value::is_null`.
  abbrev pub is_null : Value ext → Bool
  is_null null = true
  is_null _ = false

  -- `impl From<f64> for Value`: what is no number becomes `null`.
  abbrev pub of_f64 : ext.F64 → Value ext
  of_f64 f = elim (ext.from_f64 f) [ none ↦ null | some n ↦ number n ]
