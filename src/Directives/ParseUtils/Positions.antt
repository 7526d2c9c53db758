-- ===== src/Directives/ParseUtils/Positions.antt =====
-- Where a parse error is reported, read off the text before it.
use lopez.Prelude.{
  ℕ, suc, length-append, ◌+◌, ◌-◌, ◌==◌, ◌||◌, not, Text, length, take, Bool, Bool-cases, inl, inr,
  [], ◌∷◌, ◌++◌, if◌then◌else◌, arith, ◌≡◌, refl, ◌∙◌, ap,
}
use lopez.Directives.Parse.{is_continuation}
use lopez.Directives.ParseUtils.{position_onto, of}

-- A byte that starts a character of a line.
abbrev pub starts : ℕ → Bool
starts c = not (c == 10 || (c == 13 || is_continuation c))

abbrev pub count : (ℕ → Bool) → Text → ℕ
count p [] = 0
count p (c ∷ s) = let rest = count p s in if p c then suc rest else rest

abbrev pub newlines : Text → ℕ
newlines = count (λ c. c == 10)

position-line :
    (line column : ℕ) (t : Text)
    → newlines t ≡ 0
    → position_onto line column t ≡ record { line = line; column = column + count starts t }
unfolding position_onto
position-line line column [] e = ap (λ (k : ℕ). record { line = line; column = k }) (omega arith)
position-line line column (c ∷ t) e = elim (Bool-cases (c == 10)) [
  | inl q ↦ absurd (ground (arith, rw q at e))
  | inr q ↦
      let rest : newlines t ≡ 0 = ground (arith, rw q at e) in
      elim (Bool-cases (c == 13)) [
        | inl r ↦ rw (q, r) (position-line line column t rest)
        | inr r ↦ elim (Bool-cases (is_continuation c)) [
          | inl m ↦ rw (q, r, m) (position-line line column t rest)
          | inr m ↦
              rw (q, r, m)
                (position-line line (column + 1) t rest
                  ∙ ap (λ (k : ℕ). record { line = line; column = k }) (omega arith))
        ]
      ]
]

position-lines :
    (line column : ℕ) (s t : Text)
    → newlines t ≡ 0
    → position_onto line column (s ++ 10 ∷ t)
      ≡ record { line = line + newlines s + 1; column = count starts t }
unfolding position_onto
position-lines line column [] t e =
    position-line (line + 1) 0 t e
    ∙ ap (λ (k : ℕ). record { line = line + 1; column = k }) (omega arith)
    ∙ ap (λ (k : ℕ). record { line = k; column = count starts t }) (omega arith)
position-lines line column (c ∷ s) t e = elim (Bool-cases (c == 10)) [
  | inl q ↦ rw q (
      position-lines (line + 1) 0 s t e
      ∙ ap (λ (k : ℕ). record { line = k; column = count starts t }) (omega arith))
  | inr q ↦ rw q (elim (Bool-cases (c == 13)) [
    | inl r ↦ rw r (position-lines line column s t e)
    | inr r ↦ rw r (elim (Bool-cases (is_continuation c)) [
      | inl m ↦ rw m (position-lines line column s t e)
      | inr m ↦ rw m (position-lines line (column + 1) s t e)
    ])
  ])
]

take-before :
    (s fragment : Text) → take (length (s ++ fragment) - length fragment) (s ++ fragment) ≡ s
take-before [] fragment =
    let none_left : length fragment - length fragment ≡ 0 = omega arith in rw none_left refl
take-before (c ∷ s) fragment =
    let more : suc (length (s ++ fragment)) - length fragment
        ≡ suc (length (s ++ fragment) - length fragment) =
      omega (arith, length-append s fragment) in
    rw more (ap (λ r. c ∷ r) (take-before s fragment))

-- An error at the start of `fragment`, with `t` before it on its line, is at the column whose number
-- is that of the characters of `t`, carriage returns not counted; and on the line whose number is
-- that of the newlines before it, which is the line 0 without any.
pub of-lines :
    (s t fragment : Text)
    → newlines t ≡ 0
    → (of (t ++ fragment) fragment ≡ record { line = 0; column = count starts t })
      × (of ((s ++ 10 ∷ t) ++ fragment) fragment
          ≡ record { line = newlines s + 1; column = count starts t })
unfolding of
of-lines s t fragment e = (
  rw (take-before t fragment)
      (position-line 0 0 t e ∙ ap (λ (k : ℕ). record { line = 0; column = k }) (omega arith)),
  rw (take-before (s ++ 10 ∷ t) fragment) (
      position-lines 0 0 s t e
      ∙ ap (λ (k : ℕ). record { line = k; column = count starts t }) (omega arith)),
)
