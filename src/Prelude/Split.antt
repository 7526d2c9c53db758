-- ===== src/Prelude/Split.antt =====
-- Parts of texts that do not hold the separator.
use Prim.Native.Nat.{ℕ, ◌≤◌}
use mathlib.Core.Path.{◌≡◌, refl, ap}
use mathlib.Core.Logic.{inl, inr}
use mathlib.Core.Bool.{true, false}
use mathlib.Core.List.{List, [], ◌∷◌, ◌++◌, append-nil, append_assoc}
use native.Mathlib.Omega.{arith}
use lopez.Prelude.Tests.{◌==◌, Bool-cases}
use lopez.Prelude.Lists.{any, All, length}
use lopez.Prelude.Str.{Text, split, split_onto, join}

-- The text holds no `sep`.
abbrev pub Lacks : ℕ → Text → Type 0
Lacks sep s = any (λ c. c == sep) s ≡ false

pub split_onto-plain :
    (sep : ℕ) (part s : Text) → Lacks sep s → split_onto sep part s ≡ (part ++ s) ∷ []
split_onto-plain sep part [] h = rw append-nil refl
split_onto-plain sep part (c ∷ s) h =
    let other : (c == sep) ≡ false = ground arith in
    rw (other, split_onto-plain sep (part ++ (c ∷ [])) s (ground arith), append_assoc) refl

split_onto-sep :
    (sep : ℕ) (part p s : Text)
    → Lacks sep p
    → split_onto sep part (p ++ (sep ∷ s)) ≡ (part ++ p) ∷ split_onto sep [] s
split_onto-sep sep part [] s h =
    let same : (sep == sep) ≡ true = ground arith in rw (same, append-nil) refl
split_onto-sep sep part (c ∷ p) s h =
    let other : (c == sep) ≡ false = ground arith in
    rw (other, split_onto-sep sep (part ++ (c ∷ [])) p s (ground arith), append_assoc) refl

pub split-join :
    (sep : ℕ) (p : Text) (ps : List Text)
    → All (Lacks sep) (p ∷ ps)
    → split sep (join (sep ∷ []) (p ∷ ps)) ≡ p ∷ ps
split-join sep p [] h = split_onto-plain sep [] p h.0
split-join sep p (q ∷ ps) h =
    rw (split_onto-sep sep [] p (join (sep ∷ []) (q ∷ ps)) h.0, split-join sep q ps h.1) refl

split_onto-append :
    (sep : ℕ) (part s p : Text)
    → Lacks sep p
    → split_onto sep part (s ++ (sep ∷ p)) ≡ split_onto sep part s ++ (p ∷ [])
split_onto-append sep part [] p h =
    let same : (sep == sep) ≡ true = ground arith in rw (same, split_onto-plain sep [] p h) refl
split_onto-append sep part (c ∷ s) p h = elim (Bool-cases (c == sep)) [
  | inl same ↦ rw same (ap (λ ps. part ∷ ps) (split_onto-append sep [] s p h))
  | inr other ↦ rw other (split_onto-append sep (part ++ (c ∷ [])) s p h)
]

-- A part behind a text is its last part.
pub split-append :
    (sep : ℕ) (s p : Text) → Lacks sep p → split sep (s ++ (sep ∷ p)) ≡ split sep s ++ (p ∷ [])
split-append sep s p h = split_onto-append sep [] s p h

Lacks-append :
    (sep c : ℕ) (part : Text) → Lacks sep part → (c == sep) ≡ false → Lacks sep (part ++ (c ∷ []))
Lacks-append sep c [] h other = ground arith
Lacks-append sep c (d ∷ part) h other = ground (arith, Lacks-append sep c part)

split_onto-Lacks :
    (sep : ℕ) (part s : Text) → Lacks sep part → All (Lacks sep) (split_onto sep part s)
split_onto-Lacks sep part [] h = (h, tt)
split_onto-Lacks sep part (c ∷ s) h = elim (Bool-cases (c == sep)) [
  | inl same ↦ rw same (h, split_onto-Lacks sep [] s refl)
  | inr other ↦
      rw other (split_onto-Lacks sep (part ++ (c ∷ [])) s (Lacks-append sep c part h other))
]

pub split-Lacks : (sep : ℕ) (s : Text) → All (Lacks sep) (split sep s)
split-Lacks sep s = split_onto-Lacks sep [] s refl

split_onto_not_empty : (sep : ℕ) (part s : Text) → 1 ≤ length (split_onto sep part s)
split_onto_not_empty sep part [] = omega arith
split_onto_not_empty sep part (c ∷ s) = elim (Bool-cases (c == sep)) [
  | inl same ↦ rw same (omega arith)
  | inr other ↦ rw other (split_onto_not_empty sep (part ++ (c ∷ [])) s)
]

-- A text has at least one part.
pub split_not_empty : (sep : ℕ) (s : Text) → 1 ≤ length (split sep s)
split_not_empty sep s = split_onto_not_empty sep [] s
