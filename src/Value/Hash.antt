-- ===== src/Value/Hash.antt =====
-- `Hash` of JSON values (`HashableJson` in directives/expressions/value_ext.rs): what is written to the
-- hasher. A set finds a member only where this is the same and the values are equal: numbers that are
-- equal, as `0.0` and `-0.0`, may differ in their bytes. Hashes are taken to collide nowhere.
use lopez.Prelude.{Text, text_eq, Bool, ◌&&◌, [], ◌∷◌, ◌++◌, if◌then◌else◌}
use lopez.Extern.{Extern}
use lopez.Value.{
  Value, Items, Fields, null, bool, number, string, array, object, nil, cons, end, field,
}
use lopez.Value.Equal.{json_eq}

module _ {ext : Extern} where
  unfoldable mutual
    pub json_hash : Value ext → Text
    json_hash null = 0 ∷ []
    json_hash (bool b) = 1 ∷ (if b then 1 else 0) ∷ []
    json_hash (number n) = 2 ∷ ext.number_bytes n
    json_hash (string s) = 3 ∷ (s ++ (255 ∷ []))
    json_hash (array vs) = 4 ∷ items_hash vs
    json_hash (object fs) = 5 ∷ fields_hash fs

    pub items_hash : Items ext → Text
    items_hash nil = []
    items_hash (cons v vs) = json_hash v ++ items_hash vs

    pub fields_hash : Fields ext → Text
    fields_hash end = []
    fields_hash (field k v fs) = k ++ (255 ∷ (json_hash v ++ fields_hash fs))

  -- A member of a `HashSet` that a value finds.
  abbrev pub same_member : Value ext → Value ext → Bool
  unfolding json_hash json_eq
  same_member v w = text_eq (json_hash v) (json_hash w) && json_eq v w
