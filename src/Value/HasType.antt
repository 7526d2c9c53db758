-- ===== src/Value/HasType.antt =====
-- Which JSON values a type of lib-lopez/src/type.rs describes. `null` has every type: the
-- expressions use it for what is missing. The laws are those of the containers.
use lopez.Prelude.{
  Text, text_cmp, text_eq, Ordering, Bool-cases, List, [], ◌∷◌, inl, Option-cases, inr, All, Bool,
}
use lopez.Extern.{Extern}
use lopez.JsonType.{JsonType, any}
use lopez.Value.{
  Value, Items, Fields, items, of_items, fields, place, insert, collect_onto, collect_map, lookup,
  or_null, of_f64,
}

module _ {ext : Extern} where
  mutual
    pub data HasType : Value ext → JsonType → Type 0 where
      null : {t : JsonType} → HasType Value.null t
      anything : {v : Value ext} → HasType v any
      bool : {b : Bool} → HasType (Value.bool b) JsonType.bool
      number : {n : ext.Number} → HasType (Value.number n) JsonType.number
      string : {s : Text} → HasType (Value.string s) JsonType.string
      array :
          {vs : Items ext} {t : JsonType}
          → AllItems vs t
          → HasType (Value.array vs) (JsonType.array t)
      object :
          {fs : Fields ext} {t : JsonType}
          → AllFields fs t
          → HasType (Value.object fs) (JsonType.map t)

    pub data AllItems : Items ext → JsonType → Type 0 where
      nil : {t : JsonType} → AllItems Items.nil t
      cons :
          {v : Value ext} {vs : Items ext} {t : JsonType}
          → HasType v t
          → AllItems vs t
          → AllItems (Items.cons v vs) t

    pub data AllFields : Fields ext → JsonType → Type 0 where
      end : {t : JsonType} → AllFields Fields.end t
      field :
          {k : Text} {v : Value ext} {fs : Fields ext} {t : JsonType}
          → HasType v t
          → AllFields fs t
          → AllFields (Fields.field k v fs) t

  pub items-All :
      {vs : Items ext} {t : JsonType} → AllItems vs t → All (λ v. HasType v t) (items vs)
  items-All nil = tt
  items-All (cons h hs) = (h, items-All hs)

  pub of_items-AllItems :
      (t : JsonType) (vs : List (Value ext)) → All (λ v. HasType v t) vs → AllItems (of_items vs) t
  of_items-AllItems t [] h = AllItems.nil
  of_items-AllItems t (v ∷ vs) h = AllItems.cons h.0 (of_items-AllItems t vs h.1)

  pub fields-All :
      {fs : Fields ext} {t : JsonType} → AllFields fs t → All (λ kv. HasType kv.1 t) (fields fs)
  fields-All end = tt
  fields-All (field h hs) = (h, fields-All hs)

  place-AllFields :
      {t : JsonType} {v w : Value ext} {fs rest : Fields ext} (o : Ordering) (k j : Text)
      → HasType v t
      → HasType w t
      → AllFields fs t
      → AllFields rest t
      → AllFields (place o k v j w fs rest) t
  place-AllFields Ordering.lt k j h hw hs hr = AllFields.field h (AllFields.field hw hs)
  place-AllFields Ordering.eq k j h hw hs hr = AllFields.field h hs
  place-AllFields Ordering.gt k j h hw hs hr = AllFields.field hw hr

  insert-AllFields :
      {t : JsonType} {fs : Fields ext} (k : Text) (v : Value ext)
      → HasType v t
      → AllFields fs t
      → AllFields (insert k v fs) t
  unfolding insert
  insert-AllFields k v h end = AllFields.field h AllFields.end
  insert-AllFields k v h (field {k = j} hw hs) =
      place-AllFields (text_cmp k j) k j h hw hs (insert-AllFields k v h hs)

  collect_onto-AllFields :
      (t : JsonType) (acc : Fields ext) (kvs : List (Text × Value ext))
      → AllFields acc t
      → All (λ kv. HasType kv.1 t) kvs
      → AllFields (collect_onto acc kvs) t
  collect_onto-AllFields t acc [] ha h = ha
  collect_onto-AllFields t acc ((k, v) ∷ kvs) ha h =
      collect_onto-AllFields t (insert k v acc) kvs (insert-AllFields k v h.0 ha) h.1

  pub collect_map-AllFields :
      (t : JsonType) (kvs : List (Text × Value ext))
      → All (λ kv. HasType kv.1 t) kvs
      → AllFields (collect_map kvs) t
  collect_map-AllFields t kvs h = collect_onto-AllFields t Fields.end kvs AllFields.end h

  -- The value of a missing key is `null`, which has every type.
  pub lookup-HasType :
      {t : JsonType} {fs : Fields ext} (k : Text)
      → AllFields fs t
      → HasType (or_null (lookup k fs)) t
  lookup-HasType k end = HasType.null
  lookup-HasType k (field {k = j} h hs) = elim (Bool-cases (text_eq k j)) [
    | inl e ↦ rw e h
    | inr e ↦ rw e (lookup-HasType k hs)
  ]

  pub of_f64-HasType : (f : ext.F64) → HasType (of_f64 f) JsonType.number
  of_f64-HasType f = elim (Option-cases (ext.from_f64 f)) [
    | inl e ↦ rw e HasType.null
    | inr (n, e) ↦ rw e HasType.number
  ]
