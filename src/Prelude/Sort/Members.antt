-- ===== src/Prelude/Sort/Members.antt =====
-- Sorting and removing repeated elements keep the members of a list.
use Prim.Native.Nat.{Ordering}
use mathlib.Core.Path.{◌≡◌, refl, sym, ◌∙◌}
use mathlib.Core.Logic.{inl, inr, ◌↔◌}
use mathlib.Core.List.{List, [], ◌∷◌}
use lopez.Prelude.Sort.{
  Member, insert_at, insert_sorted, sort_unstable, drop_equal, dedup_after, dedup,
}

module _ {A : Type 0} (cmp : A → A → Ordering)
    (cmp-eq : (a b : A) → cmp a b ≡ Ordering.eq → a ≡ b) where
  insert_at-Member :
      (x a b : A) (bs rest : List A) (o : Ordering)
      → (Member x rest ↔ Member x (a ∷ bs))
      → (Member x (insert_at cmp o a b bs rest) ↔ Member x (a ∷ b ∷ bs))
  insert_at-Member x a b bs rest Ordering.lt ih = ((λ m. m), (λ m. m))
  insert_at-Member x a b bs rest Ordering.eq ih = ((λ m. m), (λ m. m))
  insert_at-Member x a b bs rest Ordering.gt ih = (
    elim [ inl e ↦ inr (inl e) | inr m ↦ elim (ih.0 m) [ inl e ↦ inl e | inr k ↦ inr (inr k) ] ],
    elim [
      | inl e ↦ inr (ih.1 (inl e))
      | inr m ↦ elim m [ inl e ↦ inl e | inr k ↦ inr (ih.1 (inr k)) ]
    ],
  )

  insert_sorted-Member :
      (x a : A) (bs : List A) → Member x (insert_sorted cmp a bs) ↔ Member x (a ∷ bs)
  unfolding insert_sorted
  insert_sorted-Member x a [] = ((λ m. m), (λ m. m))
  insert_sorted-Member x a (b ∷ bs) =
      insert_at-Member x a b bs (insert_sorted cmp a bs) (cmp a b) (insert_sorted-Member x a bs)

  sort_unstable-Member : (x : A) (as' : List A) → Member x (sort_unstable cmp as') ↔ Member x as'
  unfolding sort_unstable
  sort_unstable-Member x [] = ((λ m. m), (λ m. m))
  sort_unstable-Member x (a ∷ as') =
      let ins = insert_sorted-Member x a (sort_unstable cmp as') in
      let ih = sort_unstable-Member x as' in
      (
        (λ m. elim (ins.0 m) [ inl e ↦ inl e | inr k ↦ inr (ih.0 k) ]),
        (λ m. ins.1 (elim m [ inl e ↦ inl e | inr k ↦ inr (ih.1 k) ])),
      )

  drop_equal-Member :
      (x a b : A) (bs rest : List A) (o : Ordering)
      → cmp a b ≡ o
      → (Member x (b ∷ rest) ↔ Member x (b ∷ bs))
      → (Member x (a ∷ drop_equal cmp o b rest) ↔ Member x (a ∷ b ∷ bs))
  drop_equal-Member x a b bs rest Ordering.lt q ih = (
    (λ m. elim m [ inl e ↦ inl e | inr k ↦ inr (ih.0 k) ]),
    (λ m. elim m [ inl e ↦ inl e | inr k ↦ inr (ih.1 k) ]),
  )
  drop_equal-Member x a b bs rest Ordering.gt q ih = (
    (λ m. elim m [ inl e ↦ inl e | inr k ↦ inr (ih.0 k) ]),
    (λ m. elim m [ inl e ↦ inl e | inr k ↦ inr (ih.1 k) ]),
  )
  drop_equal-Member x a b bs rest Ordering.eq q ih = (
    (λ m. elim m [ inl e ↦ inl e | inr k ↦ inr (ih.0 (inr k)) ]),
    (λ m. elim m [
      | inl e ↦ inl e
      | inr k ↦ elim (ih.1 k) [ inl e ↦ inl (e ∙ sym (cmp-eq a b q)) | inr k' ↦ inr k' ]
    ]),
  )

  dedup_after-Member :
      (x a : A) (bs : List A) → Member x (a ∷ dedup_after cmp a bs) ↔ Member x (a ∷ bs)
  unfolding dedup_after
  dedup_after-Member x a [] = ((λ m. m), (λ m. m))
  dedup_after-Member x a (b ∷ bs) =
      drop_equal-Member x a b bs (dedup_after cmp b bs) (cmp a b) refl (dedup_after-Member x b bs)

  dedup-Member : (x : A) (as' : List A) → Member x (dedup cmp as') ↔ Member x as'
  unfolding dedup
  dedup-Member x [] = ((λ m. m), (λ m. m))
  dedup-Member x (a ∷ as') = dedup_after-Member x a as'

  pub dedup-sort-Member :
      (x : A) (as' : List A) → Member x (dedup cmp (sort_unstable cmp as')) ↔ Member x as'
  dedup-sort-Member x as' =
      let d = dedup-Member x (sort_unstable cmp as') in
      let s = sort_unstable-Member x as' in ((λ m. s.0 (d.0 m)), (λ m. d.1 (s.1 m)))
