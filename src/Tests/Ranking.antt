-- ===== src/Tests/Ranking.antt =====
-- The layout of the links of a small graph, with an insertion sort.
use lopez.Prelude.{
  ℕ, ◌≤◌, leb, ◌==◌, Bool, Bool-cases, inl, inr, All, List, [], ◌∷◌, get_elem?, some, if◌then◌else◌,
  arith, ◌≡◌, refl, ==_iff,
}
use lopez.Backend.PowerIteration.{links_of}
use lopez.Backend.PowerIteration.Places.{Links, Ascending}
use lopez.Backend.PowerIteration.Graph.{occurrences, IsSort, fetched, layout, layout-refines}

insert : ℕ × ℕ → Links → Links
insert l [] = l ∷ []
insert l (m ∷ links) = let rest = insert l links in if leb l.0 m.0 then l ∷ m ∷ links else m ∷ rest

sort : Links → Links
unfolding insert
sort [] = []
sort (l ∷ links) = insert l (sort links)

insert-occurrences :
    (p : ℕ × ℕ → Bool) (l : ℕ × ℕ) (links : Links)
    → occurrences p (insert l links) ≡ occurrences p (l ∷ links)
unfolding insert
insert-occurrences p l [] = refl
insert-occurrences p l (m ∷ links) = elim (Bool-cases (leb l.0 m.0)) [
  | inl e ↦ rw e refl
  | inr e ↦ rw e (omega (arith, insert-occurrences p l links))
]

sort-occurrences :
    (p : ℕ × ℕ → Bool) (links : Links) → occurrences p (sort links) ≡ occurrences p links
unfolding sort
sort-occurrences p [] = refl
sort-occurrences p (l ∷ links) =
    omega (arith, insert-occurrences p l (sort links), sort-occurrences p links)

above :
    (k : ℕ) (l : ℕ × ℕ) (links : Links)
    → k ≤ l.0
    → All (λ (m : ℕ × ℕ). k ≤ m.0) links
    → All (λ (m : ℕ × ℕ). k ≤ m.0) (insert l links)
unfolding insert
above k l [] le h = (le, tt)
above k l (m ∷ links) le h = elim (Bool-cases (leb l.0 m.0)) [
  | inl e ↦ rw e (le, h)
  | inr e ↦ rw e (h.0, above k l links le h.1)
]

least :
    (k j : ℕ) (links : Links)
    → k ≤ j
    → All (λ (m : ℕ × ℕ). j ≤ m.0) links
    → All (λ (m : ℕ × ℕ). k ≤ m.0) links
least k j [] le h = tt
least k j (m ∷ links) le h = (omega (arith, le, h.0), least k j links le h.1)

insert-Ascending : (l : ℕ × ℕ) (links : Links) → Ascending links → Ascending (insert l links)
unfolding insert
insert-Ascending l [] a = (tt, tt)
insert-Ascending l (m ∷ links) a = elim (Bool-cases (leb l.0 m.0)) [
  | inl e ↦ let le : l.0 ≤ m.0 = ground (arith, e) in rw e ((le, least l.0 m.0 links le a.0), a)
  | inr e ↦
      let le : m.0 ≤ l.0 = ground (arith, e) in
      rw e (above m.0 l links le a.0, insert-Ascending l links a.1)
]

sort-Ascending : (links : Links) → Ascending (sort links)
unfolding sort
sort-Ascending [] = tt
sort-Ascending (l ∷ links) = insert-Ascending l (sort links) (sort-Ascending links)

sort-IsSort : IsSort sort
sort-IsSort = record { kept = sort-occurrences; ascends = sort-Ascending }

abbrev same : ℕ → ℕ → Bool
same a b = a == b

-- Links between three nodes, of which 7 links to 9 twice.
abbrev graph : List (ℕ × ℕ)
graph = (7, 9) ∷ (8, 7) ∷ (7, 9) ∷ []

layout-refines_example :
    (os : List (ℕ × ℕ)) × (o : ℕ × ℕ) × (ts : List ℕ) × (layout same sort graph
      ≡ some ((fetched same graph).0, (sort (fetched same graph).1, os)))
    × (get_elem? os 0 ≡ some o)
    × (links_of (sort (fetched same graph).1) o 0 ≡ some ts)
    × (occurrences (λ t. t == 1) ts ≡ 2)
unfolding fetched
layout-refines_example = layout-refines ==_iff sort-IsSort graph (omega arith) 0 1 7 9 refl refl
