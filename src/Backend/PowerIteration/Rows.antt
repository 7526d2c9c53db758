-- ===== src/Backend/PowerIteration/Rows.antt =====
-- The layout of the links refines the relation that they are: the row of a node holds the targets
-- of its links, and no place is read that is not there.
use lopez.Prelude.{
  ℕ, zero, suc, ◌+◌, ◌-◌, ◌<◌, ltb, leb, ◌==◌, true, false, Bool-cases, inl, inr, length, take,
  drop, get_elem?, All, List, [], ◌∷◌, ◌++◌, some, arith, ◌≡◌, refl, length-append, ap, append-nil,
  sym, subst,
}
use lopez.Backend.PowerIteration.{no_offset, repeat, offset_length, slice, asserted, links_of}
use lopez.Backend.PowerIteration.Places.{
  Links, Ascending, targets, Below, Above, From, Parts, after, offsets_from-after, parts,
  after-first, after-parts,
}

targets-append : (v : ℕ) (xs ys : Links) → targets v (xs ++ ys) ≡ targets v xs ++ targets v ys
targets-append v [] ys = refl
targets-append v (x ∷ xs) ys = elim (Bool-cases (x.0 == v)) [
  | inl e ↦ rw e (ap (λ ts. x.1 ∷ ts) (targets-append v xs ys))
  | inr e ↦ rw e (targets-append v xs ys)
]

targets-Below : (v : ℕ) (xs : Links) → Below v xs → targets v xs ≡ []
targets-Below v [] h = refl
targets-Below v (x ∷ xs) h =
    let other : (x.0 == v) ≡ false = ground (arith, h.0) in rw other (targets-Below v xs h.1)

targets-Above : (v : ℕ) (xs : Links) → Above v xs → targets v xs ≡ []
targets-Above v [] h = refl
targets-Above v (x ∷ xs) h =
    let other : (x.0 == v) ≡ false = ground (arith, h.0) in rw other (targets-Above v xs h.1)

-- No assertion fails on the links from a node.
asserted-targets : (v : ℕ) (xs : Links) → From v xs → asserted v xs ≡ some (targets v xs)
asserted-targets v [] h = refl
asserted-targets v (x ∷ xs) h =
    let same : (x.0 == v) ≡ true = ground (arith, h.0) in rw (same, asserted-targets v xs h.1) refl

targets-parts :
    (v : ℕ) (below from above : Links)
    → Below v below
    → Above v above
    → targets v (below ++ (from ++ above)) ≡ targets v from
targets-parts v below from above b g =
    rw
      (
        targets-append v below (from ++ above),
        targets-append v from above,
        targets-Below v below b,
        targets-Above v above g,
      )
      (append-nil (targets v from))

drop-append : (xs ys : Links) → drop (length xs) (xs ++ ys) ≡ ys
drop-append [] ys = refl
drop-append (x ∷ xs) ys = drop-append xs ys

take-append : (xs ys : Links) → take (length xs) (xs ++ ys) ≡ xs
take-append [] ys = refl
take-append (x ∷ xs) ys = ap (λ ls. x ∷ ls) (take-append xs ys)

slice-from :
    (below : Links) (x : ℕ × ℕ) (from above : Links)
    → slice (length below) (length below + length from) (below ++ ((x ∷ from) ++ above))
      ≡ some (x ∷ from)
slice-from below x from above =
    let links = below ++ ((x ∷ from) ++ above) in
    let len : length links ≡ length below + (suc (length from) + length above) =
      omega (arith, length-append below ((x ∷ from) ++ above), length-append (x ∷ from) above) in
    let ordered : leb (length below) (length below + length from + 1) ≡ true = ground arith in
    let inside : ltb (length below + length from) (length links) ≡ true = ground (arith, len) in
    let count : length below + length from + 1 - length below ≡ length (x ∷ from) = omega arith in
    rw (ordered, inside, count, drop-append below ((x ∷ from) ++ above))
      (ap (λ ls. some ls) (take-append (x ∷ from) above))

links_of-parts :
    (v : ℕ) (below from above : Links)
    → length below < no_offset
    → From v from
    → links_of (below ++ (from ++ above)) (after v (length below) (no_offset, 0) from) v
      ≡ some (targets v from)
unfolding links_of
links_of-parts v below [] above lt f = refl
links_of-parts v below (x ∷ from) above lt f =
    let there : (length below == no_offset) ≡ false = ground (arith, lt) in
    rw (after-first v (length below) x from lt f, there, slice-from below x from above)
      (asserted-targets v (x ∷ from) f)

repeat-at : (n v : ℕ) (o : ℕ × ℕ) → v < n → get_elem? (repeat n o) v ≡ some o
repeat-at zero v o lt = absurd (omega (arith, lt))
repeat-at (suc n) zero o lt = refl
repeat-at (suc n) (suc v) o lt = repeat-at n v o (omega (arith, lt))

repeat-length : (n : ℕ) (o : ℕ × ℕ) → length (repeat n o) ≡ n
repeat-length zero o = refl
repeat-length (suc n) o = ap suc (repeat-length n o)

links_of-after :
    (v : ℕ) (links : Links)
    → length links < no_offset
    → Parts v links
    → links_of links (after v 0 (no_offset, 0) links) v ≡ some (targets v links)
links_of-after v links lt (below, from, above, q, b, f, g) =
    let len : length links ≡ length below + (length from + length above) = omega (
      arith,
      ap (λ ls. length ls) q,
      length-append below (from ++ above),
      length-append from above,
    ) in
    subst (λ (ls : Links). links_of ls (after v 0 (no_offset, 0) ls) v ≡ some (targets v ls))
      (sym q)
      (rw (after-parts v below from above b g, targets-parts v below from above b g)
        (links_of-parts v below from above (omega (arith, lt, len)) f))

-- The layout of sorted links refines the relation that they are: for fewer than 2^64 - 1 links, in
-- the order of their sources, between fewer numbers than there are nodes, the offsets are computed
-- without a panic, and for each node what is read off its offsets is read without a panic, passes
-- the assertion on its source, and is the list of the targets of the links from the node, in order.
pub offset_length-refines :
    (n_states : ℕ) (transition : Links)
    → length transition < no_offset
    → Ascending transition
    → All (λ (l : ℕ × ℕ). l.0 < n_states) transition
    → (os : List (ℕ × ℕ)) × (offset_length n_states transition ≡ some os)
      × ((v : ℕ)
          → v < n_states
          → (o : ℕ × ℕ) × (get_elem? os v ≡ some o)
            × (links_of transition o v ≡ some (targets v transition)))
unfolding offset_length
offset_length-refines n_states transition lt a h =
    let keys =
      subst (λ (n : ℕ). All (λ (l : ℕ × ℕ). l.0 < n) transition)
        (sym (repeat-length n_states (no_offset, 0))) h in
    let (os, e, row) = offsets_from-after 0 (repeat n_states (no_offset, 0)) transition keys in
    (
      os,
      e,
      λ v below_n. (
        after v 0 (no_offset, 0) transition,
        row v (no_offset, 0) (repeat-at n_states v (no_offset, 0) below_n),
        links_of-after v transition lt (parts v transition a),
      ),
    )
