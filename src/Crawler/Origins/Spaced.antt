-- ===== src/Crawler/Origins/Spaced.antt =====
-- What the throttle of one origin ensures.
use lopez.Prelude.{
  ℕ, ◌+◌, ◌≤◌, ltb, List, [], ◌∷◌, All, ◌≡◌, refl, ◌∙◌, arith, Bool-cases, inl, inr,
}
use lopez.Crawler.Origins.{Origin, block, block_all}

-- Each instant is at least `delay` before all those behind it.
abbrev pub Spaced : ℕ → List ℕ → Type 0
Spaced delay [] = Unit
Spaced delay (w ∷ ws) = All (λ v. w + delay ≤ v) ws × Spaced delay ws

-- Every task goes on no earlier than it called.
abbrev pub NoEarlier : List ℕ → List ℕ → Type 0
NoEarlier [] ws = Unit
NoEarlier (now ∷ instants) [] = ⊥
NoEarlier (now ∷ instants) (w ∷ ws) = (now ≤ w) × NoEarlier instants ws

block-after :
    (now : ℕ) (self : Origin)
    → (now ≤ (block now self).0)
      × (self.last_instant ≤ (block now self).0)
      × ((block now self).1.last_instant ≡ (block now self).0 + self.crawl_delay)
      × ((block now self).1.crawl_delay ≡ self.crawl_delay)
unfolding block
block-after now self = elim (Bool-cases (ltb now self.last_instant)) [
  | inl early ↦ rw early (ground arith, ground arith, refl, refl)
  | inr late ↦ rw late (ground arith, ground arith, refl, refl)
]

block_all-after :
    (from delay : ℕ) (instants : List ℕ) (self : Origin)
    → from ≤ self.last_instant
    → self.crawl_delay ≡ delay
    → All (λ v. from ≤ v) (block_all instants self) × Spaced delay (block_all instants self)
unfolding block_all
block_all-after from delay [] self h d = (tt, tt)
block_all-after from delay (now ∷ instants) self h d =
    let (a, l, e, k) = block-after now self in
    let w = (block now self).0 in
    let (bs, _) = block_all-after from delay instants (block now self).1 (omega arith) (k ∙ d) in
    let (cs, s) =
      block_all-after (w + delay) delay instants (block now self).1 (omega arith) (k ∙ d) in
    ((omega arith, bs), (cs, s))

block_all-NoEarlier :
    (instants : List ℕ) (self : Origin) → NoEarlier instants (block_all instants self)
unfolding block_all
block_all-NoEarlier [] self = tt
block_all-NoEarlier (now ∷ instants) self =
    ((block-after now self).0, block_all-NoEarlier instants (block now self).1)

-- Tasks that call `block` on one origin, at any instants, go on no earlier than they called, and with
-- at least the delay of the origin between any two of them.
pub block_all-Spaced :
    (instants : List ℕ) (self : Origin)
    → NoEarlier instants (block_all instants self)
      × Spaced self.crawl_delay (block_all instants self)
block_all-Spaced instants self = (
  block_all-NoEarlier instants self,
  (block_all-after 0 self.crawl_delay instants self (omega arith) refl).1,
)
