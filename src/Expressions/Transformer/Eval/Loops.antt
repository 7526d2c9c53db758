-- ===== src/Expressions/Transformer/Eval/Loops.antt =====
-- The transformers that run another one on each element of a container, for any function `f` in
-- the place of the inner transformer and any answer `m` of the checker about it.
use lopez.Prelude.{Text, Result, ok, err, Option, none, some, if◌then◌else◌}
use lopez.Prelude.Outcome
use lopez.Prelude.Panic.{◌>>=◌, map_all, filter_map_all}
use lopez.Prelude.Returns.{
  Returns, OnOk, Returns-bind, AllKept, map_all-Returns, filter_map_all-Returns,
}
use lopez.Extern.{Extern}
use lopez.JsonType.{JsonType, is_map}
use lopez.Value.{Value, Fields, Items, items, fields}
use lopez.Value.HasType.{HasType, AllItems, AllFields, bool, items-All, fields-All}
use lopez.Expressions.Error.{Error}
use lopez.Expressions.Transformer.{TransformerExpression}
use lopez.Expressions.Transformer.Display.{expression_text}
use lopez.Expressions.Transformer.TypeFor.{when_bool}
use lopez.Expressions.Transformer.Compare.{cmp_json, sort_unstable_by}
use lopez.Expressions.Transformer.Compare.Total.{IsComparable, Answers, sort_unstable_by-Returns}
use lopez.Expressions.Transformer.Eval.{any_all, all_all, verdict, as_list, as_map}
use lopez.Expressions.Transformer.Eval.Cases.{
  Of, Done, any_all-Done, all_all-Done, verdict-Done, keep-AllKept, as_list-Returns, as_map-Returns,
}

module _ {ext : Extern} where
  -- The evaluation returns a value of the type that the checker answers, if it answers one.
  abbrev pub Sound : Result Error JsonType → Option (Value ext) → Type 0
  Sound typ result = OnOk typ (λ t. Returns (Of t) result)

  abbrev OfEntry : JsonType → Text × Value ext → Type 0
  OfEntry t kv = HasType kv.1 t

module _ {ext : Extern} (t : JsonType) (f : Value ext → Option (Value ext)) where
  abbrev EachSound : Result Error JsonType → Type 0
  EachSound m = (v : Value ext) → HasType v t → Sound m (f v)

  passes-Done :
      ((v : Value ext) → HasType v t → Returns (Of JsonType.bool) (f v))
      → (v : Value ext) → HasType v t
      → Done (f v >>= verdict)
  passes-Done ih v h =
      Returns-bind (Of JsonType.bool) (λ _. Unit) (f v) verdict (ih v h) (λ w k. verdict-Done k)

  pub each_array-Sound :
      (m : Result Error JsonType) {vs : Items ext}
      → EachSound m
      → AllItems vs t
      → Sound (Outcome.◌>>=◌ m λ u. ok (JsonType.array u)) (as_list (map_all f (items vs)))
  each_array-Sound (ok u) ih h =
      as_list-Returns u _ (map_all-Returns (Of t) (Of u) f _ (items-All h) ih)
  each_array-Sound (err e) ih h = tt

  pub each_map-Sound :
      (m : Result Error JsonType) {fs : Fields ext}
      → EachSound m
      → AllFields fs t
      → Sound
          (Outcome.◌>>=◌ m λ u. ok (JsonType.map u))
          (as_map (map_all (λ (key, v). f v >>= λ w. some (key, w)) (fields fs)))
  each_map-Sound (ok u) ih h = as_map-Returns u _ (
      map_all-Returns (OfEntry t) (OfEntry u) _ _ (fields-All h)
        (λ kv k. Returns-bind (Of u) (OfEntry u) (f kv.1) _ (ih kv.1 k) (λ w hw. hw)))
  each_map-Sound (err e) ih h = tt

  pub filter_array-Sound :
      (p : TransformerExpression ext) (m : Result Error JsonType) {vs : Items ext}
      → EachSound m
      → AllItems vs t
      → Sound (Outcome.◌>>=◌ m λ got. when_bool p got (JsonType.array t)) (
          as_list (
            filter_map_all
              (λ v. f v >>= verdict >>= λ b. some (if b then some v else none))
              (items vs)))
  filter_array-Sound p (ok JsonType.bool) ih h = as_list-Returns t _ (
      filter_map_all-Returns (Of t) (Of t) _ _ (items-All h) (λ v k.
        Returns-bind (λ _. Unit) (AllKept (Of {ext = ext} t) (Of {ext = ext} t)) (f v >>= verdict) _
          (passes-Done ih v k) (λ b _. keep-AllKept (Of {ext = ext} t) (Of {ext = ext} t) b v k)))
  filter_array-Sound p (ok _) ih h = tt
  filter_array-Sound p (err e) ih h = tt

  pub filter_map-Sound :
      (p : TransformerExpression ext) (m : Result Error JsonType) {fs : Fields ext}
      → EachSound m
      → AllFields fs t
      → Sound (Outcome.◌>>=◌ m λ got. when_bool p got (JsonType.map t)) (
          as_map (
            filter_map_all
              (λ (key, v). f v >>= verdict >>= λ b. some (if b then some (key, v) else none))
              (fields fs)))
  filter_map-Sound p (ok JsonType.bool) ih h = as_map-Returns t _ (
      filter_map_all-Returns (OfEntry t) (OfEntry t) _ _ (fields-All h) (λ kv k.
        Returns-bind (λ _. Unit) (AllKept (OfEntry {ext = ext} t) (OfEntry {ext = ext} t))
          (f kv.1 >>= verdict) _ (passes-Done ih kv.1 k)
          (λ b _. keep-AllKept (OfEntry {ext = ext} t) (OfEntry {ext = ext} t) b kv k)))
  filter_map-Sound p (ok _) ih h = tt
  filter_map-Sound p (err e) ih h = tt

  pub any-Sound :
      (p : TransformerExpression ext) (m : Result Error JsonType) {vs : Items ext}
      → EachSound m
      → AllItems vs t
      → Sound {ext = ext}
          (Outcome.◌>>=◌ m λ got. when_bool p got JsonType.bool)
          (any_all (λ v. f v >>= verdict) (items vs) >>= λ b. some (Value.bool b))
  any-Sound p (ok JsonType.bool) ih h =
      Returns-bind (λ _. Unit) (Of JsonType.bool) (any_all (λ v. f v >>= verdict) _) _
        (any_all-Done (Of t) _ (passes-Done ih) _ (items-All h)) (λ b _. bool)
  any-Sound p (ok _) ih h = tt
  any-Sound p (err e) ih h = tt

  pub all-Sound :
      (p : TransformerExpression ext) (m : Result Error JsonType) {vs : Items ext}
      → EachSound m
      → AllItems vs t
      → Sound {ext = ext}
          (Outcome.◌>>=◌ m λ got. when_bool p got JsonType.bool)
          (all_all (λ v. f v >>= verdict) (items vs) >>= λ b. some (Value.bool b))
  all-Sound p (ok JsonType.bool) ih h =
      Returns-bind (λ _. Unit) (Of JsonType.bool) (all_all (λ v. f v >>= verdict) _) _
        (all_all-Done (Of t) _ (passes-Done ih) _ (items-All h)) (λ b _. bool)
  all-Sound p (ok _) ih h = tt
  all-Sound p (err e) ih h = tt

  -- `sort-by`, for a comparison that answers on values of the type of the keys.
  pub sort_by-Sound :
      (p : TransformerExpression ext) (m : Result Error JsonType) {vs : Items ext}
      → ((u : JsonType) (a b : Value ext)
          → IsComparable u
          → HasType a u
          → HasType b u
          → Answers (cmp_json a b))
      → OnOk m IsComparable
      → EachSound m
      → AllItems vs t
      → Sound
          (Outcome.◌>>=◌ m λ u.
            if is_map u
            then err (Error.not_expected_type (expression_text p) u)
            else ok (JsonType.array t))
          (as_list (sort_unstable_by (λ a b. f a >>= λ x. f b >>= λ y. cmp_json x y) (items vs)))
  sort_by-Sound p (err e) total c ih h = tt
  sort_by-Sound p (ok (JsonType.map u)) total c ih h = tt
  sort_by-Sound p (ok u) total c ih h = as_list-Returns t _ (
      sort_unstable_by-Returns (Of t) _
        (λ a b ha hb.
          Returns-bind (Of u) (λ _. Unit) (f a) _ (ih a ha)
            (λ x hx.
              Returns-bind (Of u) (λ _. Unit) (f b) _ (ih b hb) (λ y hy. total u x y c hx hy)))
        _ (items-All h))
