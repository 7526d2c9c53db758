-- ===== src/Tests/Order.antt =====
-- The lexicographic orders of pairs and lists are orders, so that there are ordered URLs.
use lopez.Prelude.{Text, text_cmp, compare, Ordering, List, [], ◌∷◌, ◌≡◌, refl, arith}

abbrev first_difference : Ordering → Ordering → Ordering
first_difference Ordering.eq rest = rest
first_difference outcome rest = outcome

pub record IsOrder {A : Type 0} (cmp : A → A → Ordering) : Type 0 where
  pub cmp-eq : (a b : A) → cmp a b ≡ Ordering.eq → a ≡ b
  pub cmp-self : (a : A) → cmp a a ≡ Ordering.eq
  pub cmp-gt : (a b : A) → cmp a b ≡ Ordering.gt → cmp b a ≡ Ordering.lt
  pub cmp-trans :
      (a b c : A) → cmp a b ≡ Ordering.lt → cmp b c ≡ Ordering.lt → cmp a c ≡ Ordering.lt

module _ {A B : Type 0} (f : A → A → Ordering) (g : B → B → Ordering) where
  abbrev pub pair_cmp : A × B → A × B → Ordering
  pair_cmp (a, b) (c, d) = first_difference (f a c) (g b d)

  pub pair_cmp-IsOrder : IsOrder f → IsOrder g → IsOrder pair_cmp
  pair_cmp-IsOrder h k = record {
    cmp-eq = λ (a, b) (c, d) e. ground (arith, h.cmp-eq a c, k.cmp-eq b d);
    cmp-self = λ (a, b). ground (arith, h.cmp-self a, k.cmp-self b);
    cmp-gt =
        λ (a, b) (c, d) e. ground (arith, h.cmp-eq a c, h.cmp-self a, h.cmp-gt a c, k.cmp-gt b d);
    cmp-trans = λ (a, b) (c, d) (x, y) p q.
        ground
          (arith, h.cmp-eq a c, h.cmp-eq c x, h.cmp-self a, h.cmp-trans a c x, k.cmp-trans b d y);
  }

module _ {A : Type 0} (f : A → A → Ordering) where
  abbrev pub list_cmp : List A → List A → Ordering
  list_cmp [] [] = Ordering.eq
  list_cmp [] (y ∷ ys) = Ordering.lt
  list_cmp (x ∷ xs) [] = Ordering.gt
  list_cmp (x ∷ xs) (y ∷ ys) = first_difference (f x y) (list_cmp xs ys)

  module _ (h : IsOrder f) where
    list_cmp-eq : (xs ys : List A) → list_cmp xs ys ≡ Ordering.eq → xs ≡ ys
    list_cmp-eq [] [] e = refl
    list_cmp-eq [] (y ∷ ys) e = absurd (cc)
    list_cmp-eq (x ∷ xs) [] e = absurd (cc)
    list_cmp-eq (x ∷ xs) (y ∷ ys) e = ground (arith, h.cmp-eq x y, list_cmp-eq xs ys)

    list_cmp_self : (xs : List A) → list_cmp xs xs ≡ Ordering.eq
    list_cmp_self [] = refl
    list_cmp_self (x ∷ xs) = rw (h.cmp-self x) (list_cmp_self xs)

    list_cmp-gt : (xs ys : List A) → list_cmp xs ys ≡ Ordering.gt → list_cmp ys xs ≡ Ordering.lt
    list_cmp-gt [] [] e = absurd (cc)
    list_cmp-gt [] (y ∷ ys) e = absurd (cc)
    list_cmp-gt (x ∷ xs) [] e = refl
    list_cmp-gt (x ∷ xs) (y ∷ ys) e =
        ground (arith, h.cmp-eq x y, h.cmp-self x, h.cmp-gt x y, list_cmp-gt xs ys)

    list_cmp_trans :
        (xs ys zs : List A)
        → list_cmp xs ys ≡ Ordering.lt
        → list_cmp ys zs ≡ Ordering.lt
        → list_cmp xs zs ≡ Ordering.lt
    list_cmp_trans xs [] [] p q = absurd (cc)
    list_cmp_trans [] [] (z ∷ zs) p q = refl
    list_cmp_trans (x ∷ xs) [] (z ∷ zs) p q = absurd (cc)
    list_cmp_trans xs (y ∷ ys) [] p q = absurd (cc)
    list_cmp_trans [] (y ∷ ys) (z ∷ zs) p q = refl
    list_cmp_trans (x ∷ xs) (y ∷ ys) (z ∷ zs) p q = ground (
      arith,
      h.cmp-eq x y,
      h.cmp-eq y z,
      h.cmp-self x,
      h.cmp-trans x y z,
      list_cmp_trans xs ys zs,
    )

    pub list_cmp-IsOrder : IsOrder list_cmp
    list_cmp-IsOrder = record {
      cmp-eq = list_cmp-eq;
      cmp-self = list_cmp_self;
      cmp-gt = list_cmp-gt;
      cmp-trans = list_cmp_trans;
    }

compare-IsOrder : IsOrder compare
compare-IsOrder = record {
  cmp-eq = λ a b e. ground arith;
  cmp-self = λ a. ground arith;
  cmp-gt = λ a b e. ground arith;
  cmp-trans = λ a b c p q. ground arith;
}

text_cmp-list_cmp : (s t : Text) → text_cmp s t ≡ list_cmp compare s t
text_cmp-list_cmp [] [] = refl
text_cmp-list_cmp [] (y ∷ ys) = refl
text_cmp-list_cmp (x ∷ xs) [] = refl
text_cmp-list_cmp (x ∷ xs) (y ∷ ys) = ground (arith, text_cmp-list_cmp xs ys)

pub text_cmp-IsOrder : IsOrder text_cmp
text_cmp-IsOrder =
    let h = list_cmp-IsOrder compare compare-IsOrder in
    record {
      cmp-eq = λ s t e. h.cmp-eq s t (rw (text_cmp-list_cmp s t) at e);
      cmp-self = λ s. rw (text_cmp-list_cmp s s) (h.cmp-self s);
      cmp-gt = λ s t e. rw (text_cmp-list_cmp t s) (h.cmp-gt s t (rw (text_cmp-list_cmp s t) at e));
      cmp-trans = λ s t u p q.
          rw (text_cmp-list_cmp s u)
            (h.cmp-trans s t u (rw (text_cmp-list_cmp s t) at p) (rw (text_cmp-list_cmp t u) at q));
    }
