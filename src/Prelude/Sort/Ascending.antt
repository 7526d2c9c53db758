-- ===== src/Prelude/Sort/Ascending.antt =====
-- Sorting and removing repeated elements give a list that ascends strictly.
use Prim.Native.Nat.{Ordering}
use mathlib.Core.Path.{◌≡◌, refl, sym, subst}
use mathlib.Core.Logic.{◌⊎◌, inl, inr}
use mathlib.Core.List.{List, [], ◌∷◌}
use lopez.Prelude.Lists.{All}
use lopez.Prelude.Sort.{
  insert_at, insert_sorted, sort_unstable, drop_equal, dedup_after, dedup, Below, StrictlyAscending,
}

module _ {A : Type 0} (cmp : A → A → Ordering) (cmp-eq : (a b : A) → cmp a b ≡ Ordering.eq → a ≡ b)
    (cmp-gt : (a b : A) → cmp a b ≡ Ordering.gt → cmp b a ≡ Ordering.lt)
    (cmp-trans : (a b c : A)
      → cmp a b ≡ Ordering.lt
      → cmp b c ≡ Ordering.lt
      → cmp a c ≡ Ordering.lt) where
  abbrev UpTo : A → A → Type 0
  UpTo a b = (cmp a b ≡ Ordering.lt) ⊎ (a ≡ b)

  UpTo-trans : (a b c : A) → UpTo a b → UpTo b c → UpTo a c
  UpTo-trans a b c (inl p) (inl q) = inl (cmp-trans a b c p q)
  UpTo-trans a b c (inl p) (inr q) = inl (rw (← q) p)
  UpTo-trans a b c (inr p) k = subst (λ x. UpTo x c) (sym p) k

  abbrev Sorted : List A → Type 0
  Sorted [] = Unit
  Sorted (a ∷ as') = All (UpTo a) as' × Sorted as'

  All-UpTo : (a b : A) (cs : List A) → UpTo a b → All (UpTo b) cs → All (UpTo a) cs
  All-UpTo a b [] h k = tt
  All-UpTo a b (c ∷ cs) h k = (UpTo-trans a b c h k.0, All-UpTo a b cs h k.1)

  insert_at-All :
      (P : A → Type 0) (a b : A) (bs rest : List A) (o : Ordering)
      → P a
      → P b
      → All P bs
      → All P rest
      → All P (insert_at cmp o a b bs rest)
  insert_at-All P a b bs rest Ordering.lt h k ks r = (h, (k, ks))
  insert_at-All P a b bs rest Ordering.eq h k ks r = (h, (k, ks))
  insert_at-All P a b bs rest Ordering.gt h k ks r = (k, r)

  insert_sorted-All :
      (P : A → Type 0) (a : A) (bs : List A) → P a → All P bs → All P (insert_sorted cmp a bs)
  unfolding insert_sorted
  insert_sorted-All P a [] h ks = (h, tt)
  insert_sorted-All P a (b ∷ bs) h ks =
      insert_at-All P a b bs (insert_sorted cmp a bs) (cmp a b) h ks.0 ks.1
        (insert_sorted-All P a bs h ks.1)

  insert_at-Sorted :
      (a b : A) (bs rest : List A) (o : Ordering)
      → cmp a b ≡ o
      → Sorted (b ∷ bs)
      → Sorted rest
      → (UpTo b a → All (UpTo b) rest)
      → Sorted (insert_at cmp o a b bs rest)
  insert_at-Sorted a b bs rest Ordering.lt q h r low = ((inl q, All-UpTo a b bs (inl q) h.0), h)
  insert_at-Sorted a b bs rest Ordering.eq q h r low =
      ((inr (cmp-eq a b q), All-UpTo a b bs (inr (cmp-eq a b q)) h.0), h)
  insert_at-Sorted a b bs rest Ordering.gt q h r low = (low (inl (cmp-gt a b q)), r)

  insert_sorted-Sorted : (a : A) (bs : List A) → Sorted bs → Sorted (insert_sorted cmp a bs)
  unfolding insert_sorted
  insert_sorted-Sorted a [] h = (tt, tt)
  insert_sorted-Sorted a (b ∷ bs) h =
      insert_at-Sorted a b bs (insert_sorted cmp a bs) (cmp a b) refl h
        (insert_sorted-Sorted a bs h.1) (λ k. insert_sorted-All (UpTo b) a bs k h.0)

  sort_unstable-Sorted : (as' : List A) → Sorted (sort_unstable cmp as')
  unfolding sort_unstable
  sort_unstable-Sorted [] = tt
  sort_unstable-Sorted (a ∷ as') =
      insert_sorted-Sorted a (sort_unstable cmp as') (sort_unstable-Sorted as')

  Below-trans : (a b : A) (cs : List A) → cmp a b ≡ Ordering.lt → Below cmp b cs → Below cmp a cs
  Below-trans a b [] h k = tt
  Below-trans a b (c ∷ cs) h k = (cmp-trans a b c h k.0, Below-trans a b cs h k.1)

  UpTo-ne-gt : (a b : A) → UpTo a b → cmp a b ≡ Ordering.gt → ⊥
  UpTo-ne-gt a b (inl p) q = cc
  UpTo-ne-gt a b (inr p) q = cc (cmp-gt a b q, p, rw p at q)

  drop_equal-Ascending :
      (a b : A) (rest : List A) (o : Ordering)
      → cmp a b ≡ o
      → UpTo a b
      → StrictlyAscending cmp (b ∷ rest)
      → StrictlyAscending cmp (a ∷ drop_equal cmp o b rest)
  drop_equal-Ascending a b rest Ordering.lt q u h = ((q, Below-trans a b rest q h.0), h)
  drop_equal-Ascending a b rest Ordering.eq q u h =
      (subst (λ x. Below cmp x rest) (sym (cmp-eq a b q)) h.0, h.1)
  drop_equal-Ascending a b rest Ordering.gt q u h = absurd (UpTo-ne-gt a b u q)

  dedup_after-Ascending :
      (a : A) (bs : List A) → Sorted (a ∷ bs) → StrictlyAscending cmp (a ∷ dedup_after cmp a bs)
  unfolding dedup_after
  dedup_after-Ascending a [] h = (tt, tt)
  dedup_after-Ascending a (b ∷ bs) h =
      drop_equal-Ascending a b (dedup_after cmp b bs) (cmp a b) refl h.0.0
        (dedup_after-Ascending b bs h.1)

  dedup-Ascending : (as' : List A) → Sorted as' → StrictlyAscending cmp (dedup cmp as')
  unfolding dedup
  dedup-Ascending [] h = tt
  dedup-Ascending (a ∷ as') h = dedup_after-Ascending a as' h

  pub dedup-sort-Ascending :
      (as' : List A) → StrictlyAscending cmp (dedup cmp (sort_unstable cmp as'))
  dedup-sort-Ascending as' = dedup-Ascending (sort_unstable cmp as') (sort_unstable-Sorted as')
