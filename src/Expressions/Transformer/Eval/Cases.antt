-- ===== src/Expressions/Transformer/Eval/Cases.antt =====
-- The parts of `eval` on values of the types that the checker accepts: the predicates of `filter`,
-- `any` and `all`, the loops, the containers and the regular expressions.
use lopez.Prelude.{
  ℕ, zero, suc, Text, Bool, true, false, Option, none, some, List, [], ◌∷◌, All, All-append,
  get_elem?, map, if◌then◌else◌,
}
use lopez.Prelude.Returns.{Returns, Returns-bind, AllKept}
use lopez.Extern.{Extern, IsFinite}
use lopez.JsonType.{JsonType}
use lopez.Value.{Value, or_null}
use lopez.Value.HasType.{
  HasType, null, array, object, bool, string, items-All, of_items-AllItems, collect_map-AllFields,
}
use lopez.Expressions.Transformer.Compare.Total.{force_f64_lem}
use lopez.Expressions.Transformer.Eval.{
  any_all, all_all, on_f64, verdict, flatten_one, flatten_all, as_list, as_map, capture_entries,
  capture_json,
}

abbrev pub Done : {A : Type 0} → Option A → Type 0
Done = Returns (λ _. Unit {0})

module _ {A : Type 0} (P : A → Type 0) (p : A → Option Bool)
    (total : (a : A) → P a → Done (p a)) where
  any_rest : (rest : Option Bool) (b : Bool) → Done rest → Done (if b then some true else rest)
  any_rest rest true h = tt
  any_rest rest false h = h

  pub any_all-Done : (xs : List A) → All P xs → Done (any_all p xs)
  any_all-Done [] h = tt
  any_all-Done (x ∷ xs) h =
      Returns-bind (λ _. Unit) (λ _. Unit) (p x) _ (total x h.0)
        (λ b _. any_rest (any_all p xs) b (any_all-Done xs h.1))

  all_rest : (rest : Option Bool) (b : Bool) → Done rest → Done (if b then rest else some false)
  all_rest rest true h = h
  all_rest rest false h = tt

  pub all_all-Done : (xs : List A) → All P xs → Done (all_all p xs)
  all_all-Done [] h = tt
  all_all-Done (x ∷ xs) h =
      Returns-bind (λ _. Unit) (λ _. Unit) (p x) _ (total x h.0)
        (λ b _. all_rest (all_all p xs) b (all_all-Done xs h.1))

pub keep-AllKept :
    {A B : Type 0} (P : A → Type 0) (Q : B → Type 0) (b : Bool) (y : B)
    → Q y
    → AllKept P Q (if b then some y else none)
keep-AllKept P Q true y h = h
keep-AllKept P Q false y h = tt

module _ {ext : Extern} where
  abbrev pub Of : JsonType → Value ext → Type 0
  Of t v = HasType v t

  pub verdict-Done : {v : Value ext} → HasType v JsonType.bool → Done (verdict v)
  verdict-Done null = tt
  verdict-Done bool = tt

  pub or_null-get_elem? :
      (t : JsonType) (vs : List (Value ext)) (i : ℕ)
      → All (Of t) vs
      → HasType (or_null (get_elem? vs i)) t
  or_null-get_elem? t [] i h = null
  or_null-get_elem? t (v ∷ vs) zero h = h.0
  or_null-get_elem? t (v ∷ vs) (suc i) h = or_null-get_elem? t vs i h.1

  pub as_list-Returns :
      (t : JsonType) (vs : Option (List (Value ext)))
      → Returns (All (Of t)) vs
      → Returns (Of (JsonType.array t)) (as_list vs)
  as_list-Returns t vs h =
      Returns-bind (All (Of t)) (Of (JsonType.array t)) vs _ h
        (λ ws k. array (of_items-AllItems t ws k))

  pub as_map-Returns :
      (t : JsonType) (kvs : Option (List (Text × Value ext)))
      → Returns (All (λ kv. HasType kv.1 t)) kvs
      → Returns (Of (JsonType.map t)) (as_map kvs)
  as_map-Returns t kvs h =
      Returns-bind (All (λ kv. HasType kv.1 t)) (Of (JsonType.map t)) kvs _ h
        (λ es k. object (collect_map-AllFields t es k))

  flatten_one-Returns :
      {v : Value ext} (t : JsonType)
      → HasType v (JsonType.array t)
      → Returns (All (Of t)) (flatten_one v)
  flatten_one-Returns t null = tt
  flatten_one-Returns t (array hs) = items-All hs

  pub flatten_all-Returns :
      (t : JsonType) (vs : List (Value ext))
      → All (Of (JsonType.array t)) vs
      → Returns (All (Of t)) (flatten_all vs)
  flatten_all-Returns t [] h = tt
  flatten_all-Returns t (v ∷ vs) h =
      Returns-bind (All (Of t)) (All (Of t)) (flatten_one v) _ (flatten_one-Returns t h.0) (λ ws k.
        Returns-bind (All (Of t)) (All (Of t)) (flatten_all vs) _ (flatten_all-Returns t vs h.1)
          (λ rest k'. All-append (Of t) ws rest k k'))

module _ (ext : Extern) where
  capture_entries-All :
      (i : ℕ) (groups names : List (Option Text))
      → All (λ kv. HasType kv.1 JsonType.string) (capture_entries {ext = ext} i groups names)
  capture_entries-All i [] names = tt
  capture_entries-All i (none ∷ cs) [] = tt
  capture_entries-All i (some c ∷ cs) [] = tt
  capture_entries-All i (none ∷ cs) (name ∷ names) = capture_entries-All (suc i) cs names
  capture_entries-All i (some c ∷ cs) (name ∷ names) =
      (string, capture_entries-All (suc i) cs names)

  pub capture_json-HasType :
      (regex : ext.Regex) (groups : List (Option Text))
      → HasType (capture_json {ext = ext} regex groups) (JsonType.map JsonType.string)
  unfolding capture_json
  capture_json-HasType regex groups =
      object (collect_map-AllFields JsonType.string _ (capture_entries-All 0 groups _))

  pub captures-All :
      (regex : ext.Regex) (found : List (List (Option Text)))
      → All (Of (JsonType.map JsonType.string)) (map (capture_json {ext = ext} regex) found)
  captures-All regex [] = tt
  captures-All regex (groups ∷ found) =
      (capture_json-HasType regex groups, captures-All regex found)

module _ {ext : Extern} (finite : IsFinite ext) where
  pub on_f64-Returns :
      (test : ext.F64 → Bool) (n : ext.Number) → Returns (Of JsonType.bool) (on_f64 ext test n)
  on_f64-Returns test n = let (f, e) = force_f64_lem finite n in rw e bool
