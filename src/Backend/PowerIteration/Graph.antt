-- ===== src/Backend/PowerIteration/Graph.antt =====
-- The whole layout refines the graph that the links are: what is read off it for a node is how often
-- each node is linked to from it.
use lopez.Prelude.{
  ℕ, ◌+◌, ◌*◌, ◌^◌, ◌<◌, ◌≤◌, ltb, ◌==◌, ◌&&◌, not, Bool, true, Bool-cases, inl, inr, length,
  get_elem?, All, List, [], ◌∷◌, Option, some, if◌then◌else◌, arith, ◌≡◌, refl, sym, ◌∙◌, ap, subst,
  ==_iff,
}
use mathlib.Core.Option.{some-injective}
use lopez.Prelude.Panic.{◌>>=◌}
use lopez.Backend.PowerIteration.{Nodes, fetch, offset_length, links_of, no_offset}
use lopez.Backend.PowerIteration.Numbering.{IsEquality, IsNumbered, Reads, fetch-Reads, get-lt}
use lopez.Backend.PowerIteration.Places.{Links, Ascending, targets}
use lopez.Backend.PowerIteration.Rows.{offset_length-refines}

-- How many elements pass a test.
abbrev pub occurrences : {A : Type 0} → (A → Bool) → List A → ℕ
occurrences p [] = 0
occurrences p (x ∷ xs) = (if p x then 1 else 0) + occurrences p xs

-- `sort_unstable_by_key` by the source: the same links, in the order of their sources.
pub record IsSort (sort : Links → Links) : Type 0 where
  pub kept : (p : ℕ × ℕ → Bool) (links : Links) → occurrences p (sort links) ≡ occurrences p links
  pub ascends : (links : Links) → Ascending (sort links)

-- What the loop over the links leaves, from no nodes.
unfoldable pub fetched : {T : Type 0} → (T → T → Bool) → List (T × T) → Nodes T × Links
unfolding fetch
fetched same edges = fetch same (record { index = []; states = []; n_states = 0 }) [] edges

-- What `power_iteration` has before it iterates: the nodes, the links and the offsets.
unfoldable pub layout :
    {T : Type 0}
    → (T → T → Bool)
    → (Links → Links)
    → List (T × T)
    → Option (Nodes T × (Links × List (ℕ × ℕ)))
unfolding fetched
layout same sort edges =
    let (nodes, links) = fetched same edges in
    let transition = sort links in
    offset_length nodes.n_states transition >>= λ offsets. some (nodes, (transition, offsets))

occurrences-all : (links : Links) → occurrences (λ l. true) links ≡ length links
occurrences-all [] = refl
occurrences-all (l ∷ links) = omega (arith, occurrences-all links)

-- Where no element passes.
occurrences-none :
    (n : ℕ) (links : Links)
    → occurrences (λ (l : ℕ × ℕ). not (ltb l.0 n)) links ≡ 0
    → All (λ (l : ℕ × ℕ). l.0 < n) links
occurrences-none n [] e = tt
occurrences-none n (l ∷ links) e = elim (Bool-cases (ltb l.0 n)) [
  | inl q ↦ (ground (arith, q), occurrences-none n links (ground (arith, q, e)))
  | inr q ↦ absurd (ground (arith, q, e))
]

occurrences-targets :
    (v b : ℕ) (links : Links)
    → occurrences (λ t. t == b) (targets v links)
      ≡ occurrences (λ (l : ℕ × ℕ). l.0 == v && l.1 == b) links
occurrences-targets v b [] = refl
occurrences-targets v b (l ∷ links) = elim (Bool-cases (l.0 == v)) [
  | inl q ↦ rw q (ap (λ n. (if l.1 == b then 1 else 0) + n) (occurrences-targets v b links))
  | inr q ↦ rw q (omega (arith, occurrences-targets v b links))
]

module _ {T : Type 0} {same : T → T → Bool} (eq : IsEquality same) (s : Nodes T)
    (h : IsNumbered same s) where
  -- Numbers are equal where their nodes are.
  same-id :
      (i v : ℕ) (a x : T)
      → get_elem? s.states i ≡ some a
      → get_elem? s.states v ≡ some x
      → (i == v) ≡ same a x
  same-id i v a x p q = elim (Bool-cases (same a x)) [
    | inl e ↦
        let found : some i ≡ some v =
          sym (h.indexed a i p) ∙ h.indexed a v (q ∙ ap (λ y. some y) (sym ((eq a x).0 e))) in
        (==_iff i v).1 (some-injective _ _ found) ∙ sym e
    | inr e ↦ elim (Bool-cases (i == v)) [
      | inl d ↦
          let there : some a ≡ some x =
            sym p ∙ subst (λ (j : ℕ). get_elem? s.states j ≡ some x) (sym ((==_iff i v).0 d)) q in
          let equal : same a x ≡ true = (eq a x).1 (some-injective _ _ there) in absurd (cc)
      | inr d ↦ d ∙ sym e
    ]
  ]

  occurrences-Reads :
      (v b : ℕ) (x y : T) (links : Links) (edges : List (T × T))
      → get_elem? s.states v ≡ some x
      → get_elem? s.states b ≡ some y
      → Reads s.states links edges
      → occurrences (λ (l : ℕ × ℕ). l.0 == v && l.1 == b) links
        ≡ occurrences (λ (e : T × T). same e.0 x && same e.1 y) edges
  occurrences-Reads v b x y [] [] p q r = refl
  occurrences-Reads v b x y [] (e ∷ edges) p q r = absurd r
  occurrences-Reads v b x y (l ∷ links) [] p q r = absurd r
  occurrences-Reads v b x y (l ∷ links) (e ∷ edges) p q r =
      rw (same-id l.0 v e.0 x r.0.0 p, same-id l.1 b e.1 y r.0.1 q)
        (ap (λ n. (if same e.0 x && same e.1 y then 1 else 0) + n)
          (occurrences-Reads v b x y links edges p q r.1))

  Reads-inside :
      (links : Links) (edges : List (T × T))
      → Reads s.states links edges
      → (length links ≡ length edges)
        × (occurrences (λ (l : ℕ × ℕ). not (ltb l.0 (length s.states))) links ≡ 0)
  Reads-inside [] [] r = (refl, refl)
  Reads-inside [] (e ∷ edges) r = absurd r
  Reads-inside (l ∷ links) [] r = absurd r
  Reads-inside (l ∷ links) (e ∷ edges) r =
      let rest = Reads-inside links edges r.1 in
      let inside : ltb l.0 (length s.states) ≡ true =
        ground (arith, get-lt s.states l.0 e.0 r.0.0) in
      (omega (arith, rest.0), rw inside (omega (arith, rest.1)))

module _ {T : Type 0} {same : T → T → Bool} (eq : IsEquality same) {sort : Links → Links}
    (sorts : IsSort sort) (edges : List (T × T)) (few : 2 * length edges ≤ 2 ^ 32) where
  -- The links are sorted, fewer than the numbers of places, and between nodes.
  sorted-refines :
      (s : Nodes T) (links : Links)
      → IsNumbered same s
      → Reads s.states links edges
      → (v b : ℕ) (x y : T) → get_elem? s.states v ≡ some x
      → get_elem? s.states b ≡ some y
      → (os : List (ℕ × ℕ)) × (o : ℕ × ℕ) × (ts : List ℕ) × (offset_length s.n_states (sort links)
          ≡ some os)
        × (get_elem? os v ≡ some o)
        × (links_of (sort links) o v ≡ some ts)
        × (occurrences (λ t. t == b) ts
            ≡ occurrences (λ (e : T × T). same e.0 x && same e.1 y) edges)
  sorted-refines s links h r v b x y p q =
      let inside = Reads-inside eq s h links edges r in
      let count : length (sort links) ≡ length links =
        sym (occurrences-all (sort links)) ∙ sorts.kept (λ l. true) links ∙ occurrences-all links in
      let short : length (sort links) < no_offset = omega (arith, count, inside.0, few) in
      let keys : All (λ (l : ℕ × ℕ). l.0 < s.n_states) (sort links) = rw h.counted (
        occurrences-none (length s.states) (sort links)
          (sorts.kept (λ (l : ℕ × ℕ). not (ltb l.0 (length s.states))) links ∙ inside.1)) in
      let (os, e, rows) =
        offset_length-refines s.n_states (sort links) short (sorts.ascends links) keys in
      let numbered : v < s.n_states = omega (arith, h.counted, get-lt s.states v x p) in
      let (o, at, read) = rows v numbered in
      (
        os,
        o,
        targets v (sort links),
        e,
        at,
        read,
        occurrences-targets v b (sort links)
            ∙ sorts.kept (λ (l : ℕ × ℕ). l.0 == v && l.1 == b) links
            ∙ occurrences-Reads eq s h v b x y links edges p q r,
      )

  -- The layout of a graph with at most 2^31 links, for a total order of its nodes and a sort that
  -- keeps the links: it is computed without a panic, and for the numbers of any two nodes, what is
  -- read off the offsets of the first is read without a panic and without a failed assertion, and
  -- holds the second as often as the graph links the first to it.
  pub layout-refines :
      (v b : ℕ) (x y : T)
      → get_elem? (fetched same edges).0.states v ≡ some x
      → get_elem? (fetched same edges).0.states b ≡ some y
      → (os : List (ℕ × ℕ)) × (o : ℕ × ℕ) × (ts : List ℕ) × (layout same sort edges
          ≡ some ((fetched same edges).0, (sort (fetched same edges).1, os)))
        × (get_elem? os v ≡ some o)
        × (links_of (sort (fetched same edges).1) o v ≡ some ts)
        × (occurrences (λ t. t == b) ts
            ≡ occurrences (λ (e : T × T). same e.0 x && same e.1 y) edges)
  unfolding layout fetched
  layout-refines v b x y p q =
      let start : IsNumbered same (record { index = []; states = []; n_states = 0 }) = record {
        counted = refl;
        known = λ node id e. absurd (cc);
        indexed = λ node id e. absurd (cc);
      } in
      let (h, r) =
        fetch-Reads eq (record { index = []; states = []; n_states = 0 }) [] [] edges start tt
          (omega (arith, few)) in
      let (os, o, ts, e, at, read, count) =
        sorted-refines (fetched same edges).0 (fetched same edges).1 h r v b x y p q in
      (os, o, ts, rw e refl, at, read, count)
