-- ===== src/Expressions/Aggregator/Steps.antt =====
-- One step of each aggregator on the values of an operand, and its result, for any answer `m` of
-- the checker about what is extracted and any outcome `r` of the extraction.
use lopez.Prelude.{
  ℕ, Text, text_cmp, Ordering, Bool, true, false, List, [], ◌∷◌, ◌++◌, Option, some, Result, ok,
  err, All, All-append, any, if◌then◌else◌,
}
use lopez.Prelude.Outcome
use lopez.Prelude.Panic.{◌>>=◌, map_all}
use lopez.Prelude.Returns.{Returns, OnOk, Returns-bind, map_all-Returns}
use lopez.Extern.{Extern, IsFinite}
use lopez.JsonType.{JsonType}
use lopez.Value.{Value, or_null, of_items, collect_map}
use lopez.Value.Hash.{same_member}
use lopez.Value.HasType.{
  HasType, null, bool, number, string, array, object, of_items-AllItems, collect_map-AllFields,
}
use lopez.Expressions.Error.{Error}
use lopez.Expressions.Transformer.Compare.Total.{force_f64_lem}
use lopez.Expressions.Transformer.Eval.Cases.{Of, Done}
use lopez.Expressions.Transformer.Eval.Loops.{Sound}
use lopez.Expressions.Extractor.{Extraction}
use lopez.Expressions.Aggregator.{
  Aggregator, number_if_bool, number_if_number, map_if_string, add_usize, count_true,
  first_not_null, extend_set, add_numbers, put_group, aggregate_group, aggregate_keys,
}

module _ {ext : Extern} where
  -- The extraction returns values of the type that the checker answers.
  abbrev pub Extracts : Result Error JsonType → Option (List (Value ext)) → Type 0
  Extracts m r = OnOk m (λ t. Returns (All (Of t)) r)

  count_true-Done :
      (n : ℕ) (vs : List (Value ext)) → All (Of JsonType.bool) vs → Done (count_true n vs)
  count_true-Done n [] h = tt
  count_true-Done n (Value.bool true ∷ vs) (bool, hs) = count_true-Done (add_usize n 1) vs hs
  count_true-Done n (Value.bool false ∷ vs) (bool, hs) = count_true-Done n vs hs
  count_true-Done n (Value.null ∷ vs) (null, hs) = count_true-Done n vs hs
  count_true-Done n (v ∷ vs) h = elim h.0 [ ]

  first_not_null-HasType :
      (t : JsonType) (vs : List (Value ext))
      → All (Of t) vs
      → HasType (or_null (first_not_null vs)) t
  first_not_null-HasType t [] h = null
  first_not_null-HasType t (Value.null ∷ vs) h = first_not_null-HasType t vs h.1
  first_not_null-HasType t (v ∷ vs) h = h.0

  add_member :
      (P : Value ext → Type 0) (b : Bool) (set : List (Value ext)) (v : Value ext)
      → All P set
      → P v
      → All P (if b then set else set ++ (v ∷ []))
  add_member P true set v h k = h
  add_member P false set v h k = All-append P set (v ∷ []) h (k, tt)

  pub extend_set-All :
      (P : Value ext → Type 0) (set vs : List (Value ext))
      → All P set
      → All P vs
      → All P (extend_set set vs)
  extend_set-All P set [] h k = h
  extend_set-All P set (v ∷ vs) h k =
      extend_set-All P (if any (same_member v) set then set else set ++ (v ∷ [])) vs
        (add_member P (any (same_member v) set) set v h k.0) k.1

module _ {ext : Extern} {exn : Extraction ext} (self : Aggregator exn) where
  pub count_not_null-Step :
      (m : Result Error JsonType) (r : Option (List (Value ext))) (n : ℕ)
      → Extracts m r
      → OnOk (Outcome.◌>>=◌ m λ t. number_if_bool self t) (λ _. Done (r >>= count_true n))
  count_not_null-Step (err e) r n h = tt
  count_not_null-Step (ok JsonType.bool) r n h =
      Returns-bind (All (Of JsonType.bool)) (λ _. Unit) r (count_true n) h (count_true-Done n)
  count_not_null-Step (ok _) r n h = tt

  pub sum-Step :
      (finite : IsFinite ext) (m : Result Error JsonType) (r : Option (List (Value ext)))
      (s : ext.F64)
      → Extracts m r
      → OnOk (Outcome.◌>>=◌ m λ t. number_if_number self t) (λ _. Done (r >>= add_numbers s))
  sum-Step finite (err e) r s h = tt
  sum-Step finite (ok JsonType.number) r s h =
      Returns-bind (All (Of JsonType.number)) (λ _. Unit) r (add_numbers s) h (added s)
    where
      added :
          (s : ext.F64) (vs : List (Value ext))
          → All (Of JsonType.number) vs
          → Done (add_numbers s vs)
      added s [] h = tt
      added s (Value.number n ∷ vs) (number, hs) =
          let (f, e) = force_f64_lem finite n in rw e (added (ext.add s f) vs hs)
      added s (Value.null ∷ vs) (null, hs) = added s vs hs
      added s (v ∷ vs) h = elim h.0 [ ]
  sum-Step finite (ok _) r s h = tt

module _ {ext : Extern} where
  -- An aggregator whose state is the list of the values that it took in.
  pub values-Step :
      (add : List (Value ext) → List (Value ext) → List (Value ext))
      (keeps : (P : Value ext → Type 0) (xs ys : List (Value ext))
        → All P xs
        → All P ys
        → All P (add xs ys))
      (m : Result Error JsonType) (r : Option (List (Value ext))) (values : List (Value ext))
      → Extracts m r
      → OnOk m (λ t. All (Of t) values)
      → OnOk
          (Outcome.◌>>=◌ m λ t. ok (JsonType.array t))
          (λ _. Returns (λ vs. OnOk m (λ t. All (Of t) vs)) (r >>= λ vs. some (add values vs)))
  values-Step add keeps (err e) r values h k = tt
  values-Step add keeps (ok t) r values h k =
      Returns-bind (All (Of t)) (All (Of t)) r _ h (λ vs hs. keeps (Of t) values vs k hs)

  pub first-Step :
      (m : Result Error JsonType) (r : Option (List (Value ext)))
      → Extracts m r
      → OnOk m (λ _.
        Returns (λ v. OnOk m (λ t. HasType (or_null v) t)) (r >>= λ vs. some (first_not_null vs)))
  first-Step (err e) r h = tt
  first-Step (ok t) r h =
      Returns-bind (All (Of t)) (λ v. HasType (or_null v) t) r _ h (first_not_null-HasType t)

  pub values-Result :
      (m : Result Error JsonType) (values : List (Value ext))
      → OnOk m (λ t. All (Of t) values)
      → Sound (Outcome.◌>>=◌ m λ t. ok (JsonType.array t)) (some (Value.array (of_items values)))
  values-Result (err e) values h = tt
  values-Result (ok t) values h = array (of_items-AllItems t values h)

-- Groups: a map from keys to states that satisfy `G`.
module _ {S : Type 0} (G : S → Type 0) (fresh : S) (step : S → Option S) (fresh_G : G fresh)
    (step_G : (s : S) → G s → Returns G (step s)) where
  abbrev Groups : List (Text × S) → Type 0
  Groups = All (λ kv. G kv.1)

  put_group-Groups :
      (o : Ordering) (k : Text) (g : Text × S) (gs : List (Text × S))
      (rest : Option (List (Text × S)))
      → G g.1
      → Groups gs
      → Returns Groups rest
      → Returns Groups (put_group fresh step o k g gs rest)
  put_group-Groups Ordering.lt k g gs rest h hs hr =
      Returns-bind G Groups (step fresh) _ (step_G fresh fresh_G) (λ s hs'. (hs', (h, hs)))
  put_group-Groups Ordering.eq k (j, t) gs rest h hs hr =
      Returns-bind G Groups (step t) _ (step_G t h) (λ s hs'. (hs', hs))
  put_group-Groups Ordering.gt k g gs rest h hs hr =
      Returns-bind Groups Groups rest _ hr (λ hs' k'. (h, k'))

  aggregate_group-Groups :
      (k : Text) (gs : List (Text × S))
      → Groups gs
      → Returns Groups (aggregate_group fresh step k gs)
  unfolding aggregate_group
  aggregate_group-Groups k [] h =
      Returns-bind G Groups (step fresh) _ (step_G fresh fresh_G) (λ s hs. (hs, tt))
  aggregate_group-Groups k (g ∷ gs) h =
      put_group-Groups (text_cmp k g.0) k g gs (aggregate_group fresh step k gs) h.0 h.1
        (aggregate_group-Groups k gs h.1)

  aggregate_keys-Groups :
      {ext : Extern} (keys : List (Value ext)) (gs : List (Text × S))
      → All (Of JsonType.string) keys
      → Groups gs
      → Returns Groups (aggregate_keys fresh step keys gs)
  aggregate_keys-Groups [] gs h hs = hs
  aggregate_keys-Groups (Value.string key ∷ keys) gs (string, h) hs =
      Returns-bind Groups Groups (aggregate_group fresh step key gs) _
        (aggregate_group-Groups key gs hs) (λ gs' hs'. aggregate_keys-Groups keys gs' h hs')
  aggregate_keys-Groups (Value.null ∷ keys) gs (null, h) hs = aggregate_keys-Groups keys gs h hs
  aggregate_keys-Groups (v ∷ keys) gs h hs = elim h.0 [ ]

module _ {ext : Extern} {exn : Extraction ext} (self : Aggregator exn) {S : Type 0}
    (G : S → Type 0) where
  pub group-Step :
      (fresh : S) (step : S → Option S) (m n : Result Error JsonType)
      (r : Option (List (Value ext))) (gs : List (Text × S))
      → G fresh
      → ((s : S) → G s → OnOk n (λ _. Returns G (step s)))
      → Extracts m r
      → All (λ kv. G kv.1) gs
      → OnOk
          (Outcome.◌>>=◌ m λ t. Outcome.◌>>=◌ n λ u. map_if_string self u t)
          (λ _. Returns (All (λ kv. G kv.1)) (r >>= λ keys. aggregate_keys fresh step keys gs))
  group-Step fresh step (err e) n r gs f ih h k = tt
  group-Step fresh step (ok JsonType.string) (ok u) r gs f ih h k =
      Returns-bind (All (Of JsonType.string)) (All (λ kv. G kv.1)) r _ h
        (λ keys hs. aggregate_keys-Groups G fresh step f ih keys gs hs k)
  group-Step fresh step (ok JsonType.string) (err e) r gs f ih h k = tt
  group-Step fresh step (ok _) (ok u) r gs f ih h k = tt
  group-Step fresh step (ok _) (err e) r gs f ih h k = tt

  pub group-Result :
      (finish : S → Option (Value ext)) (m n : Result Error JsonType) (gs : List (Text × S))
      → ((s : S) → G s → Sound n (finish s))
      → All (λ kv. G kv.1) gs
      → Sound (Outcome.◌>>=◌ m λ t. Outcome.◌>>=◌ n λ u. map_if_string self u t) (
          map_all (λ (key, s). finish s >>= λ v. some (key, v)) gs >>= λ entries.
          some (Value.object (collect_map entries)))
  group-Result finish (err e) n gs ih h = tt
  group-Result finish (ok JsonType.string) (ok u) gs ih h =
      Returns-bind (All (λ kv. HasType kv.1 u)) (Of (JsonType.map u)) (map_all _ gs) _
        (map_all-Returns (λ kv. G kv.1) (λ kv. HasType kv.1 u) _ gs h
          (λ kv k.
            Returns-bind (Of u) (λ kv'. HasType kv'.1 u) (finish kv.1) _ (ih kv.1 k) (λ v hv. hv)))
        (λ entries hs. object (collect_map-AllFields u entries hs))
  group-Result finish (ok JsonType.string) (err e) gs ih h = tt
  group-Result finish (ok _) (ok u) gs ih h = tt
  group-Result finish (ok _) (err e) gs ih h = tt
