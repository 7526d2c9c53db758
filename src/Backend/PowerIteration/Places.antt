-- ===== src/Backend/PowerIteration/Places.antt =====
-- Where the links of a node stand among sorted links, and what the loop over them leaves as the
-- offsets of the node.
use lopez.Prelude.{
  ℕ, zero, suc, ◌+◌, ◌<◌, ◌≤◌, min, max, ltb, ◌==◌, true, false, Bool-cases, inl, inr, length,
  get_elem?, All, List, [], ◌∷◌, ◌++◌, some, if◌then◌else◌, arith, ◌≡◌, refl, ◌∙◌, ap,
}
use lopez.Backend.PowerIteration.{no_offset, set_at, widen, offsets_from}

abbrev pub Links : Type 0
Links = List (ℕ × ℕ)

-- Links in the order of their sources.
abbrev pub Ascending : Links → Type 0
Ascending [] = Unit
Ascending (l ∷ links) = All (λ (m : ℕ × ℕ). l.0 ≤ m.0) links × Ascending links

-- The targets of the links from a node.
abbrev pub targets : ℕ → Links → List ℕ
targets v [] = []
targets v (l ∷ links) = let rest = targets v links in if l.0 == v then l.1 ∷ rest else rest

set_at-updates :
    (k : ℕ) (f : ℕ × ℕ → ℕ × ℕ) (xs : List (ℕ × ℕ))
    → k < length xs
    → (ys : List (ℕ × ℕ)) × (set_at k f xs ≡ some ys)
      × (length ys ≡ length xs)
      × ((v : ℕ) (o : ℕ × ℕ)
          → get_elem? xs v ≡ some o
          → get_elem? ys v ≡ some (if k == v then f o else o))
unfolding set_at
set_at-updates k f [] lt = absurd (omega (arith, lt))
set_at-updates zero f (x ∷ xs) lt = (f x ∷ xs, refl, refl, at)
  where
    at :
        (v : ℕ) (o : ℕ × ℕ)
        → get_elem? (x ∷ xs) v ≡ some o
        → get_elem? (f x ∷ xs) v ≡ some (if zero == v then f o else o)
    at zero o e = ground arith
    at (suc v) o e = ground arith
set_at-updates (suc k) f (x ∷ xs) lt =
    let (ys, e, l, at) = set_at-updates k f xs (omega (arith, lt)) in
    (x ∷ ys, rw e refl, omega (arith, l), behind ys at)
  where
    behind :
        (ys : List (ℕ × ℕ))
        → ((v : ℕ) (o : ℕ × ℕ)
            → get_elem? xs v ≡ some o
            → get_elem? ys v ≡ some (if k == v then f o else o))
        → (v : ℕ) (o : ℕ × ℕ) → get_elem? (x ∷ xs) v ≡ some o
        → get_elem? (x ∷ ys) v ≡ some (if suc k == v then f o else o)
    behind ys at zero o e = ground arith
    behind ys at (suc v) o e = ground (arith, at v o e)

-- The offsets of one node behind the loop.
abbrev pub after : ℕ → ℕ → ℕ × ℕ → Links → ℕ × ℕ
after v i o [] = o
after v i o (l ∷ links) = after v (i + 1) (if l.0 == v then widen i o else o) links

pub offsets_from-after :
    (i : ℕ) (os : List (ℕ × ℕ)) (links : Links)
    → All (λ (l : ℕ × ℕ). l.0 < length os) links
    → (rs : List (ℕ × ℕ)) × (offsets_from i os links ≡ some rs)
      × ((v : ℕ) (o : ℕ × ℕ) → get_elem? os v ≡ some o → get_elem? rs v ≡ some (after v i o links))
unfolding offsets_from
offsets_from-after i os [] h = (os, refl, λ v o e. e)
offsets_from-after i os (l ∷ links) h =
    let (ys, e, same, at) = set_at-updates l.0 (widen i) os h.0 in
    let (rs, f, row) = offsets_from-after (i + 1) ys links (shorter ys links same h.1) in
    (rs, rw e f, λ v o g. row v (if l.0 == v then widen i o else o) (at v o g))
  where
    shorter :
        (ys : List (ℕ × ℕ)) (links : Links)
        → length ys ≡ length os
        → All (λ (l : ℕ × ℕ). l.0 < length os) links
        → All (λ (l : ℕ × ℕ). l.0 < length ys) links
    shorter ys [] e h = tt
    shorter ys (m ∷ links) e h = (omega (arith, e, h.0), shorter ys links e h.1)

abbrev pub Below : ℕ → Links → Type 0
Below v links = All (λ (l : ℕ × ℕ). l.0 < v) links

abbrev pub Above : ℕ → Links → Type 0
Above v links = All (λ (l : ℕ × ℕ). v < l.0) links

abbrev pub From : ℕ → Links → Type 0
From v links = All (λ (l : ℕ × ℕ). l.0 ≡ v) links

-- Links that ascend are those below a source, those from it, and those above.
abbrev pub Parts : ℕ → Links → Type 0
Parts v links =
    (below : Links) × (from : Links) × (above : Links) × (links ≡ below ++ (from ++ above))
    × Below v below
    × From v from
    × Above v above

From-least :
    (v : ℕ) (links : Links)
    → All (λ (m : ℕ × ℕ). v ≤ m.0) links
    → Ascending links
    → (from : Links) × (above : Links) × (links ≡ from ++ above) × From v from × Above v above
From-least v [] h a = ([], [], refl, tt, tt)
From-least v (l ∷ links) h a = elim (Bool-cases (l.0 == v)) [
  | inl e ↦
      let (from, above, q, f, g) = From-least v links h.1 a.1 in
      (l ∷ from, above, ap (λ ls. l ∷ ls) q, (ground (arith, e), f), g)
  | inr e ↦
      let lt : v < l.0 = ground (arith, e, h.0) in
      ([], l ∷ links, refl, tt, (lt, higher v l.0 links lt a.0))
]
  where
    higher : (v k : ℕ) (links : Links) → v < k → All (λ (m : ℕ × ℕ). k ≤ m.0) links → Above v links
    higher v k [] lt h = tt
    higher v k (m ∷ links) lt h = (omega (arith, lt, h.0), higher v k links lt h.1)

pub parts : (v : ℕ) (links : Links) → Ascending links → Parts v links
parts v [] a = ([], [], [], refl, tt, tt, tt)
parts v (l ∷ links) a = elim (Bool-cases (ltb l.0 v)) [
  | inl e ↦
      let (below, from, above, q, b, f, g) = parts v links a.1 in
      (l ∷ below, from, above, ap (λ ls. l ∷ ls) q, (ground (arith, e), b), f, g)
  | inr e ↦
      let le : v ≤ l.0 = ground (arith, e) in
      let (from, above, q, f, g) = From-least v (l ∷ links) (le, least v l.0 links le a.0) a in
      ([], from, above, q, tt, f, g)
]
  where
    least :
        (v k : ℕ) (links : Links)
        → v ≤ k
        → All (λ (m : ℕ × ℕ). k ≤ m.0) links
        → All (λ (m : ℕ × ℕ). v ≤ m.0) links
    least v k [] le h = tt
    least v k (m ∷ links) le h = (omega (arith, le, h.0), least v k links le h.1)

after-append :
    (v i : ℕ) (o : ℕ × ℕ) (xs ys : Links)
    → after v i o (xs ++ ys) ≡ after v (i + length xs) (after v i o xs) ys
after-append v i o [] ys = let e : i ≡ i + 0 = omega arith in ap (λ k. after v k o ys) e
after-append v i o (x ∷ xs) ys =
    let next = if x.0 == v then widen i o else o in
    let e : i + 1 + length xs ≡ i + suc (length xs) = omega arith in
    after-append v (i + 1) next xs ys ∙ ap (λ k. after v k (after v (i + 1) next xs) ys) e

after-Below : (v i : ℕ) (o : ℕ × ℕ) (xs : Links) → Below v xs → after v i o xs ≡ o
after-Below v i o [] h = refl
after-Below v i o (x ∷ xs) h =
    let other : (x.0 == v) ≡ false = ground (arith, h.0) in
    rw other (after-Below v (i + 1) o xs h.1)

after-Above : (v i : ℕ) (o : ℕ × ℕ) (xs : Links) → Above v xs → after v i o xs ≡ o
after-Above v i o [] h = refl
after-Above v i o (x ∷ xs) h =
    let other : (x.0 == v) ≡ false = ground (arith, h.0) in
    rw other (after-Above v (i + 1) o xs h.1)

after-From :
    (v i m : ℕ) (xs : Links) → i ≤ m → From v xs → after v (m + 1) (i, m) xs ≡ (i, m + length xs)
after-From v i m [] le h = let e : m ≡ m + 0 = omega arith in ap (λ k. (i, k)) e
after-From v i m (x ∷ xs) le h =
    let same : (x.0 == v) ≡ true = ground (arith, h.0) in
    let least : min i (m + 1) ≡ i = omega (arith, le) in
    let most : max m (m + 1) ≡ m + 1 = omega arith in
    let e : m + 1 + length xs ≡ m + suc (length xs) = omega arith in
    rw (same, least, most) (after-From v i (m + 1) xs (omega (arith, le)) h.1 ∙ ap (λ k. (i, k)) e)

-- From no offset: the place of the first link, and that of the last.
pub after-first :
    (v i : ℕ) (x : ℕ × ℕ) (xs : Links)
    → i < no_offset
    → From v (x ∷ xs)
    → after v i (no_offset, 0) (x ∷ xs) ≡ (i, i + length xs)
after-first v i x xs lt h =
    let same : (x.0 == v) ≡ true = ground (arith, h.0) in
    let least : min no_offset i ≡ i = omega (arith, lt) in
    let most : max 0 i ≡ i = omega arith in
    rw (same, least, most) (after-From v i i xs (omega arith) h.1)

-- The offsets of a node, from those of the parts.
pub after-parts :
    (v : ℕ) (below from above : Links)
    → Below v below
    → Above v above
    → after v 0 (no_offset, 0) (below ++ (from ++ above))
      ≡ after v (length below) (no_offset, 0) from
after-parts v below from above b g =
    let e : 0 + length below ≡ length below = omega arith in
    after-append v 0 (no_offset, 0) below (from ++ above)
    ∙ rw (after-Below v 0 (no_offset, 0) below b, e)
        (after-append v (length below) (no_offset, 0) from above
          ∙ after-Above v (length below + length from) (after v (length below) (no_offset, 0) from)
              above g)
