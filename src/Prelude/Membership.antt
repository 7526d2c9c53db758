-- ===== src/Prelude/Membership.antt =====
-- The members of what `map`, `filter` and `filter_map` give.
use mathlib.Core.Path.{◌≡◌, refl, sym, ◌∙◌, ap}
use mathlib.Core.Logic.{inl, inr, ◌↔◌}
use mathlib.Core.Bool.{Bool, true}
use mathlib.Core.Option.{Option, none, some, some-injective}
use mathlib.Core.List.{List, [], ◌∷◌, map}
use lopez.Prelude.Tests.{Bool-cases}
use lopez.Prelude.Lists.{filter, filter_map, keep}
use lopez.Prelude.Sort.{Member}

module _ {A B : Type 0} where
  pub Member-map :
      (f : A → B) (xs : List A) (y : B) → Member y (map f xs) ↔ ((x : A) × Member x xs × (y ≡ f x))
  Member-map f [] y = (λ m. absurd m, λ (x, m, e). absurd m)
  Member-map f (x ∷ xs) y =
      let ih = Member-map f xs y in
      (
        elim [ inl e ↦ (x, inl refl, e) | inr m ↦ let (z, k, e) = ih.0 m in (z, inr k, e) ],
        λ (z, m, e). elim m [ inl q ↦ inl (e ∙ ap f q) | inr k ↦ inr (ih.1 (z, k, e)) ],
      )

  pub Member-filter_map :
      (f : A → Option B) (xs : List A) (y : B)
      → Member y (filter_map f xs) ↔ ((x : A) × Member x xs × (f x ≡ some y))
  Member-filter_map f [] y = (λ m. absurd m, λ (x, m, e). absurd m)
  Member-filter_map f (x ∷ xs) y = with_first (f x) refl (Member-filter_map f xs y)
    where
      with_first :
          (o : Option B)
          → f x ≡ o
          → (Member y (filter_map f xs) ↔ ((z : A) × Member z xs × (f z ≡ some y)))
          → Member y (keep o (filter_map f xs)) ↔ ((z : A) × Member z (x ∷ xs) × (f z ≡ some y))
      with_first none q ih = (
        λ m. let (z, k, e) = ih.0 m in (z, inr k, e),
        λ (z, m, e). elim m [ inl p ↦ absurd (cc (q, e, ap f p)) | inr k ↦ ih.1 (z, k, e) ],
      )
      with_first (some w) q ih = (
        elim [
          | inl e ↦ (x, inl refl, q ∙ ap some (sym e))
          | inr m ↦ let (z, k, e) = ih.0 m in (z, inr k, e)
        ],
        λ (z, m, e). elim m [
          | inl p ↦ inl (some-injective _ _ (sym e ∙ ap f p ∙ q))
          | inr k ↦ inr (ih.1 (z, k, e))
        ],
      )

module _ {A : Type 0} where
  pub Member-filter :
      (p : A → Bool) (xs : List A) (y : A) → Member y (filter p xs) ↔ (Member y xs × (p y ≡ true))
  Member-filter p [] y = (λ m. absurd m, λ (m, e). absurd m)
  Member-filter p (x ∷ xs) y =
      let ih = Member-filter p xs y in
      elim (Bool-cases (p x)) [
        | inl kept ↦ rw kept (
          (elim [ inl e ↦ (inl e, ap p e ∙ kept) | inr m ↦ let (k, q) = ih.0 m in (inr k, q) ]),
          (λ (m, q). elim m [ inl e ↦ inl e | inr k ↦ inr (ih.1 (k, q)) ]),
        )
        | inr gone ↦ rw gone (
          (λ m. let (k, q) = ih.0 m in (inr k, q)),
          (λ (m, q). elim m [ inl e ↦ absurd (cc (ap p e, q, gone)) | inr k ↦ ih.1 (k, q) ]),
        )
      ]
