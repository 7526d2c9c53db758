-- ===== src/Prelude/Sort.antt =====
-- `sort_unstable` and `dedup`, for an order that cannot panic: an insertion sort, and the removal of
-- elements that equal the one before them. Behind one another they give a list that ascends
-- strictly and has the same members.
pub mod Members
pub mod Ascending
use Prim.Native.Nat.{Ordering}
use mathlib.Core.Path.{◌≡◌, refl, ap}
use mathlib.Core.Logic.{◌≢◌, ◌⊎◌, inl, inr, ◌↔◌}
use mathlib.Core.List.{List, [], ◌∷◌}

-- Membership that can be taken apart.
abbrev pub Member : {A : Type 0} → A → List A → Type 0
Member a [] = ⊥
Member a (x ∷ xs) = (a ≡ x) ⊎ Member a xs

module _ {A : Type 0} (cmp : A → A → Ordering) where
  abbrev pub insert_at : Ordering → A → A → List A → List A → List A
  insert_at Ordering.gt a b bs rest = b ∷ rest
  insert_at _ a b bs rest = a ∷ b ∷ bs

  unfoldable pub insert_sorted : A → List A → List A
  insert_sorted a [] = a ∷ []
  insert_sorted a (b ∷ bs) = insert_at (cmp a b) a b bs (insert_sorted a bs)

  unfoldable pub sort_unstable : List A → List A
  sort_unstable [] = []
  sort_unstable (a ∷ as') = insert_sorted a (sort_unstable as')

  -- The elements behind `a`, without those at the front that equal it.
  abbrev pub drop_equal : Ordering → A → List A → List A
  drop_equal Ordering.eq b rest = rest
  drop_equal _ b rest = b ∷ rest

  unfoldable pub dedup_after : A → List A → List A
  dedup_after a [] = []
  dedup_after a (b ∷ bs) = drop_equal (cmp a b) b (dedup_after b bs)

  unfoldable pub dedup : List A → List A
  unfolding dedup_after
  dedup [] = []
  dedup (a ∷ as') = a ∷ dedup_after a as'

  -- Every element is below all those behind it.
  abbrev pub Below : A → List A → Type 0
  Below a [] = Unit
  Below a (b ∷ bs) = (cmp a b ≡ Ordering.lt) × Below a bs

  abbrev pub StrictlyAscending : List A → Type 0
  StrictlyAscending [] = Unit
  StrictlyAscending (a ∷ as') = Below a as' × StrictlyAscending as'
