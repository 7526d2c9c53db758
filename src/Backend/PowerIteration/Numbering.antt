-- ===== src/Backend/PowerIteration/Numbering.antt =====
-- The numbering of the nodes: each node has one number, and the links in numbers are the links.
use lopez.Prelude.{
  ℕ, zero, suc, ◌+◌, ◌*◌, ◌%◌, ◌^◌, ◌<◌, ◌≤◌, Bool, true, Bool-cases, inl, inr, length, get_elem?,
  List, [], ◌∷◌, ◌++◌, none, some, arith, ◌≡◌, ◌↔◌, ◌⊎◌, refl, sym, ◌∙◌, subst, Option-cases,
  length-append, ap, append-nil, append_assoc,
}
use mathlib.Core.Option.{some-injective}
use lopez.Backend.PowerIteration.{Nodes, find, number, id_for, fetch}

module _ {T : Type 0} where
  get-append :
      (xs ys : List T) (i : ℕ) (x : T) → get_elem? xs i ≡ some x → get_elem? (xs ++ ys) i ≡ some x
  get-append [] ys i x e = absurd (cc)
  get-append (y ∷ xs) ys zero x e = e
  get-append (y ∷ xs) ys (suc i) x e = get-append xs ys i x e

  get-last : (xs : List T) (x : T) → get_elem? (xs ++ (x ∷ [])) (length xs) ≡ some x
  get-last [] x = refl
  get-last (y ∷ xs) x = get-last xs x

  pub get-lt : (xs : List T) (i : ℕ) (x : T) → get_elem? xs i ≡ some x → i < length xs
  get-lt [] i x e = absurd (cc)
  get-lt (y ∷ xs) zero x e = omega arith
  get-lt (y ∷ xs) (suc i) x e = omega (arith, get-lt xs i x e)

  -- What an element of a list with one more is.
  get-before :
      (xs : List T) (y : T) (i : ℕ) (x : T)
      → get_elem? (xs ++ (y ∷ [])) i ≡ some x
      → (get_elem? xs i ≡ some x) ⊎ ((i ≡ length xs) × (y ≡ x))
  get-before [] y zero x e = inr (refl, some-injective _ _ e)
  get-before [] y (suc i) x e = absurd (cc)
  get-before (z ∷ xs) y zero x e = inl e
  get-before (z ∷ xs) y (suc i) x e = elim (get-before xs y i x e) [
    | inl g ↦ inl g
    | inr (p, q) ↦ inr (ap suc p, q)
  ]

-- A test for equality: the order of the map answers `Equal`.
abbrev pub IsEquality : {T : Type 0} → (T → T → Bool) → Type 0
IsEquality {T} same = (a b : T) → (same a b ≡ true) ↔ (a ≡ b)

module _ {T : Type 0} (same : T → T → Bool) where
  -- The index has a number for each node that was met, and no other.
  pub record IsNumbered (s : Nodes T) : Type 0 where
    pub counted : s.n_states ≡ length s.states
    pub known :
        (node : T) (id : ℕ) → find same node s.index ≡ some id → get_elem? s.states id ≡ some node
    pub indexed :
        (node : T) (id : ℕ) → get_elem? s.states id ≡ some node → find same node s.index ≡ some id

  -- The number stands for the node, and no number stands for another node than before.
  pub record Numbers (s : Nodes T) (node : T) (r : ℕ × Nodes T) : Type 0 where
    pub valid : IsNumbered r.1
    pub named : get_elem? r.1.states r.0 ≡ some node
    pub kept : (id : ℕ) (x : T) → get_elem? s.states id ≡ some x → get_elem? r.1.states id ≡ some x
    pub few : length r.1.states ≤ length s.states + 1

module _ {T : Type 0} {same : T → T → Bool} (eq : IsEquality same) where
  number-known :
      (s : Nodes T) (node : T) (id : ℕ)
      → IsNumbered same s
      → length s.states ≤ 2 ^ 32
      → find same node s.index ≡ some id
      → Numbers same s node (number same node s (some id))
  number-known s node id h few e =
      let at = h.known node id e in
      let small : id % 2 ^ 32 ≡ id = omega (arith, few, get-lt s.states id node at) in
      record { valid = h; named = rw small at; kept = λ i x g. g; few = omega arith }

  find-new :
      (s : Nodes T) (node : T) (n : ℕ) (x : T) (id : ℕ)
      → IsNumbered same s
      → n ≡ length s.states
      → find same node s.index ≡ none
      → get_elem? (s.states ++ (node ∷ [])) id ≡ some x
      → find same x ((node, n) ∷ s.index) ≡ some id
  find-new s node n x id h c e g = elim (get-before s.states node id x g) [
    | inl at ↦ elim (Bool-cases (same x node)) [
      | inl q ↦
          let there : find same x s.index ≡ some id = h.indexed x id at in
          let gone : find same x s.index ≡ none =
            subst (λ (y : T). find same y s.index ≡ none) (sym ((eq x node).0 q)) e in
          absurd (cc)
      | inr q ↦ rw q (h.indexed x id at)
    ]
    | inr (p, q) ↦ rw ((eq x node).1 (sym q)) (ap (λ i. some i) (c ∙ sym p))
  ]

  found-new :
      (s : Nodes T) (node : T) (n : ℕ) (x : T) (id : ℕ)
      → IsNumbered same s
      → n ≡ length s.states
      → find same x ((node, n) ∷ s.index) ≡ some id
      → get_elem? (s.states ++ (node ∷ [])) id ≡ some x
  found-new s node n x id h c g = elim (Bool-cases (same x node)) [
    | inl q ↦
        let place : length s.states ≡ id = sym c ∙ some-injective _ _ (rw q at g) in
        subst (λ (i : ℕ). get_elem? (s.states ++ (node ∷ [])) i ≡ some x) place
          (get-last s.states node ∙ ap (λ y. some y) (sym ((eq x node).0 q)))
    | inr q ↦ get-append s.states (node ∷ []) id x (h.known x id (rw q at g))
  ]

  number-new :
      (s : Nodes T) (node : T)
      → IsNumbered same s
      → length s.states < 2 ^ 32
      → find same node s.index ≡ none
      → Numbers same s node (number same node s none)
  number-new s node h few e =
      let c = h.counted in
      let small : s.n_states % 2 ^ 32 ≡ length s.states = omega (arith, c, few) in
      let longer = length-append s.states (node ∷ []) in
      record {
        valid = record {
          counted = omega (arith, c, longer);
          known = λ x id g. found-new s node s.n_states x id h c g;
          indexed = λ x id g. find-new s node s.n_states x id h c e g;
        };
        named = rw small (get-last s.states node);
        kept = λ id x g. get-append s.states (node ∷ []) id x g;
        few = omega (arith, longer);
      }

  id_for-Numbers :
      (node : T) (s : Nodes T)
      → IsNumbered same s
      → length s.states < 2 ^ 32
      → Numbers same s node (id_for same node s)
  unfolding id_for
  id_for-Numbers node s h few = elim (Option-cases (find same node s.index)) [
    | inl e ↦ rw e (number-new s node h few e)
    | inr (id, e) ↦ rw e (number-known s node id h (omega (arith, few)) e)
  ]

module _ {T : Type 0} where
  -- The links in numbers, read by the nodes.
  abbrev pub Reads : List T → List (ℕ × ℕ) → List (T × T) → Type 0
  Reads states [] [] = Unit
  Reads states [] (e ∷ es) = ⊥
  Reads states (l ∷ ls) [] = ⊥
  Reads states (l ∷ ls) (e ∷ es) =
      ((get_elem? states l.0 ≡ some e.0) × (get_elem? states l.1 ≡ some e.1)) × Reads states ls es

  Reads-kept :
      (xs ys : List T) (ls : List (ℕ × ℕ)) (es : List (T × T))
      → ((id : ℕ) (x : T) → get_elem? xs id ≡ some x → get_elem? ys id ≡ some x)
      → Reads xs ls es
      → Reads ys ls es
  Reads-kept xs ys [] [] k r = tt
  Reads-kept xs ys [] (e ∷ es) k r = absurd r
  Reads-kept xs ys (l ∷ ls) [] k r = absurd r
  Reads-kept xs ys (l ∷ ls) (e ∷ es) k r =
      ((k l.0 e.0 r.0.0, k l.1 e.1 r.0.1), Reads-kept xs ys ls es k r.1)

  Reads-last :
      (xs : List T) (ls : List (ℕ × ℕ)) (es : List (T × T)) (l : ℕ × ℕ) (e : T × T)
      → Reads xs ls es
      → get_elem? xs l.0 ≡ some e.0
      → get_elem? xs l.1 ≡ some e.1
      → Reads xs (ls ++ (l ∷ [])) (es ++ (e ∷ []))
  Reads-last xs [] [] l e r p q = ((p, q), tt)
  Reads-last xs [] (f ∷ es) l e r p q = absurd r
  Reads-last xs (m ∷ ls) [] l e r p q = absurd r
  Reads-last xs (m ∷ ls) (f ∷ es) l e r p q = (r.0, Reads-last xs ls es l e r.1 p q)

module _ {T : Type 0} {same : T → T → Bool} (eq : IsEquality same) where
  -- What the loop over the links leaves, behind links that were read before.
  pub fetch-Reads :
      (s : Nodes T) (transition : List (ℕ × ℕ)) (before edges : List (T × T))
      → IsNumbered same s
      → Reads s.states transition before
      → length s.states + 2 * length edges ≤ 2 ^ 32
      → IsNumbered same (fetch same s transition edges).0
        × Reads
            (fetch same s transition edges).0.states
            (fetch same s transition edges).1
            (before ++ edges)
  unfolding fetch
  fetch-Reads s transition before [] h r few =
      (h, subst (λ es. Reads s.states transition es) (sym (append-nil before)) r)
  fetch-Reads s transition before ((from, to) ∷ edges) h r few =
      let one = id_for same from s in
      let first = id_for-Numbers eq from s h (omega (arith, few)) in
      let two = id_for same to one.1 in
      let second = id_for-Numbers eq to one.1 first.valid (omega (arith, few, first.few)) in
      let named = second.kept one.0 from first.named in
      let old =
        Reads-kept s.states two.1.states transition before
          (λ id x g. second.kept id x (first.kept id x g)) r in
      let new =
        Reads-last two.1.states transition before (one.0, two.0) (from, to) old named
          second.named in
      subst
        (λ es.
          IsNumbered same (fetch same two.1 (transition ++ ((one.0, two.0) ∷ [])) edges).0
          × Reads (fetch same two.1 (transition ++ ((one.0, two.0) ∷ [])) edges).0.states
              (fetch same two.1 (transition ++ ((one.0, two.0) ∷ [])) edges).1 es)
        (append_assoc before ((from, to) ∷ []) edges)
        (fetch-Reads two.1 (transition ++ ((one.0, two.0) ∷ [])) (before ++ ((from, to) ∷ [])) edges
          second.valid new (omega (arith, few, first.few, second.few)))
