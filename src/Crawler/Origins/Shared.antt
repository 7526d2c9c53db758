-- ===== src/Crawler/Origins/Shared.antt =====
-- Which tasks share a throttle.
use lopez.Prelude.{
  ℕ, length, length-append, Text, text_eq, text_eq_refl, true, some, List, [], ◌∷◌, ◌++◌, ◌≡◌, ◌≢◌,
  refl, arith, Bool-cases, inl, inr,
}
use lopez.Crawler.Origins.{
  Origin, Origins, contains_origin, insert_origin, index_origin, check_origin, finish_origin,
}

index-insert_origin :
    (key : Text) (id : ℕ) (entries : List (Text × ℕ))
    → index_origin key (insert_origin key id entries) ≡ some id
index-insert_origin key id [] = rw (text_eq_refl key) refl
index-insert_origin key id (e ∷ entries) = elim (Bool-cases (text_eq key e.0)) [
  | inl same ↦ rw (same, text_eq_refl key) refl
  | inr other ↦ rw (other, other) (index-insert_origin key id entries)
]

contains-insert_origin :
    (key : Text) (id : ℕ) (entries : List (Text × ℕ))
    → contains_origin key (insert_origin key id entries) ≡ true
contains-insert_origin key id [] = rw (text_eq_refl key) refl
contains-insert_origin key id (e ∷ entries) = elim (Bool-cases (text_eq key e.0)) [
  | inl same ↦ rw (same, text_eq_refl key) refl
  | inr other ↦ rw (other, other) (contains-insert_origin key id entries)
]

-- A task that asks for an origin behind another that got it shares its throttle, whatever the first
-- found, if the origin was missing before the first.
finish_origin-shared :
    (key : Text) (a b : Origin) (self : Origins)
    → check_origin key self ≡ true
    → let (first, next) = finish_origin key true a self in
      (finish_origin key (check_origin key next) b next).0 ≡ first
unfolding check_origin finish_origin
finish_origin-shared key a b self h =
    rw (contains-insert_origin key (length self.store) self.origins) refl

-- Two tasks that both found the origin missing, before either got it, get different throttles, so
-- that neither waits for the other.
pub finish_origin-race :
    (key : Text) (a b : Origin) (self : Origins)
    → check_origin key self ≡ true
    → let (first, next) = finish_origin key (check_origin key self) a self in
      let (second, last) = finish_origin key (check_origin key self) b next in
      (i : ℕ) × (j : ℕ) × (first ≡ some i) × (second ≡ some j) × (i ≢ j)
unfolding finish_origin
finish_origin-race key a b self h =
    let n = length self.store in
    let m = length (self.store ++ (a ∷ [])) in
    (
      n,
      m,
      rw (h, index-insert_origin key n self.origins) refl,
      rw (h, index-insert_origin key m (insert_origin key n self.origins)) refl,
      λ e. absurd (omega (arith, e, length-append self.store (a ∷ []))),
    )
