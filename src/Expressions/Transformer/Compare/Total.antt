-- ===== src/Expressions/Transformer/Compare/Total.antt =====
-- Comparing and sorting JSON values of one type that holds no map does not panic.
use lopez.Prelude.{Ordering, Option, some, List, [], ◌∷◌, ◌≡◌, refl, All}
use lopez.Prelude.Returns.{Returns, Returns-bind}
use lopez.Extern.{Extern, IsFinite}
use lopez.JsonType.{JsonType, any, array, map}
use lopez.Value.{Value, Items}
use lopez.Value.HasType.{HasType, AllItems, null, anything, bool, number, string, object, nil, cons}
use lopez.Expressions.Transformer.Compare.{
  force_f64, cmp_json, cmp_items, or_rest, insert_by, insert_sorted, sort_unstable_by,
}

-- No map occurs in the type, nor a value of no known type.
abbrev pub IsComparable : JsonType → Type 0
IsComparable any = ⊥
IsComparable (map t) = ⊥
IsComparable (array t) = IsComparable t
IsComparable _ = Unit

abbrev pub Answers : Option Ordering → Type 0
Answers = Returns (λ _. Unit {0})

or_rest-Answers : (rest : Option Ordering) (o : Ordering) → Answers rest → Answers (or_rest rest o)
or_rest-Answers rest Ordering.lt h = tt
or_rest-Answers rest Ordering.eq h = h
or_rest-Answers rest Ordering.gt h = tt

module _ {ext : Extern} (finite : IsFinite ext) where
  open ext use {Number, F64, as_f64, partial_cmp}
  open finite use {force, ordered}

  force_f64-Returns : (n : Number) → Returns (λ f. as_f64 n ≡ some f) (force_f64 ext n)
  unfolding force_f64
  force_f64-Returns n = let (f, e) = force n in rw e refl

  pub force_f64_lem : (n : Number) → (f : F64) × (force_f64 ext n ≡ some f)
  unfolding force_f64
  force_f64_lem n = let (f, e) = force n in (f, rw e)

  partial_cmp-Answers :
      (n m : Number) (f g : F64) → as_f64 n ≡ some f → as_f64 m ≡ some g → Answers (partial_cmp f g)
  partial_cmp-Answers n m f g p q = let (o, e) = ordered n m f g p q in rw e tt

  mutual
    unfolding cmp_json

    pub cmp_json-Answers :
        {a : Value ext} {t : JsonType}
        → HasType a t
        → (b : Value ext) → IsComparable t
        → HasType b t
        → Answers (cmp_json a b)
    cmp_json-Answers null Value.null c h = tt
    cmp_json-Answers null (Value.bool _) c h = tt
    cmp_json-Answers null (Value.number _) c h = tt
    cmp_json-Answers null (Value.string _) c h = tt
    cmp_json-Answers null (Value.array _) c h = tt
    cmp_json-Answers null (Value.object _) c h = tt
    cmp_json-Answers anything _ c h = absurd c
    cmp_json-Answers bool _ c null = tt
    cmp_json-Answers bool _ c bool = tt
    cmp_json-Answers number _ c null = tt
    cmp_json-Answers (number {n}) _ c (number {n = m}) =
        Returns-bind (λ f. as_f64 n ≡ some f) (λ _. Unit) (force_f64 ext n) _ (force_f64-Returns n)
          (λ f p.
            Returns-bind (λ g. as_f64 m ≡ some g) (λ _. Unit) (force_f64 ext m) _
              (force_f64-Returns m) (λ g q. partial_cmp-Answers n m f g p q))
    cmp_json-Answers string _ c null = tt
    cmp_json-Answers string _ c string = tt
    cmp_json-Answers (HasType.array hs) _ c null = tt
    cmp_json-Answers (HasType.array hs) _ c (HasType.array {vs} ks) = cmp_items-Answers hs vs c ks
    cmp_json-Answers (object hs) _ c h = absurd c

    cmp_items-Answers :
        {as' : Items ext} {t : JsonType}
        → AllItems as' t
        → (bs : Items ext) → IsComparable t
        → AllItems bs t
        → Answers (cmp_items as' bs)
    cmp_items-Answers nil _ c ks = tt
    cmp_items-Answers (cons h hs) _ c nil = tt
    cmp_items-Answers (cons h hs) _ c (cons {v = b} {vs = bs} k ks) =
        Returns-bind (λ _. Unit) (λ _. Unit) (cmp_json _ b) _ (cmp_json-Answers h b c k)
          (λ o _. or_rest-Answers (cmp_items _ bs) o (cmp_items-Answers hs bs c ks))

module _ {A : Type 0} (P : A → Type 0) (compare_by : A → A → Option Ordering)
    (total : (a b : A) → P a → P b → Answers (compare_by a b)) where
  insert_by-Returns :
      (a b : A) (bs : List A) (rest : Option (List A)) (o : Ordering)
      → P a
      → P b
      → All P bs
      → Returns (All P) rest
      → Returns (All P) (insert_by compare_by a b bs rest o)
  insert_by-Returns a b bs rest Ordering.lt h k ks r = (h, (k, ks))
  insert_by-Returns a b bs rest Ordering.eq h k ks r = (h, (k, ks))
  insert_by-Returns a b bs rest Ordering.gt h k ks r =
      Returns-bind (All P) (All P) rest _ r (λ cs hcs. (k, hcs))

  insert_sorted-Returns :
      (a : A) (bs : List A) → P a → All P bs → Returns (All P) (insert_sorted compare_by a bs)
  unfolding insert_sorted
  insert_sorted-Returns a [] h ks = (h, tt)
  insert_sorted-Returns a (b ∷ bs) h ks =
      Returns-bind (λ _. Unit) (All P) (compare_by a b) _ (total a b h ks.0)
        (λ o _. insert_by-Returns a b bs _ o h ks.0 ks.1 (insert_sorted-Returns a bs h ks.1))

  pub sort_unstable_by-Returns :
      (xs : List A) → All P xs → Returns (All P) (sort_unstable_by compare_by xs)
  unfolding sort_unstable_by
  sort_unstable_by-Returns [] h = tt
  sort_unstable_by-Returns (x ∷ xs) h =
      Returns-bind (All P) (All P) (sort_unstable_by compare_by xs) _
        (sort_unstable_by-Returns xs h.1) (λ ys hys. insert_sorted-Returns x ys h.0 hys)
