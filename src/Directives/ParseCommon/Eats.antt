-- ===== src/Directives/ParseCommon/Eats.antt =====
-- The parsers that all others use take nothing back and need no fuel.
use lopez.Prelude.{ℕ, suc, ◌≤◌, length, Text, List, [], ◌∷◌, ok, err, arith, false}
use lopez.Extern.{Extern}
use lopez.Nom.{Nom, IsNom, Parser, IResult, Goes}
use lopez.Prelude.Outcome
use lopez.Nom.Eats.{Eats, Anything, Goes-mapped}
use lopez.Nom.Eats.Rules.{
  Eats-tag, Eats-tag_any, Eats-is_not, Eats-multispace1, Eats-map, Eats-tuple, Eats-alt, Eats-many0,
  Eats-delimited, Eats-weaken, Eats-escaped,
}
use lopez.Directives.ParseCommon.{
  eof, unescape, comment, whitespace, trailing_whitespace, tag_whitespace, escaped_string,
  tags_whitespace,
}

Eats-eof : (n : ℕ) → Eats 0 n Anything eof
Eats-eof n = record { go = λ i lt. eof-Goes i }
  where
    eof-Goes : (i : Text) → Goes 0 Anything i (eof i)
    eof-Goes [] = (omega arith, tt)
    eof-Goes (c ∷ i) = tt

module _ {A B : Type 0} where
  then-Goes :
      (i : Text) (r : IResult A) (q : Parser B)
      → Goes 0 Anything i r
      → ((rest : Text) → Goes 0 Anything rest (q rest))
      → Goes 0 Anything i (Outcome.◌>>=◌ r λ (matched, _). q matched)
  then-Goes i (ok (rest, a)) q h g = shorter i rest (q rest) (omega (arith, h.0)) (g rest)
    where
      shorter :
          (i rest : Text) (r : IResult B)
          → length rest ≤ length i
          → Goes 0 Anything rest r
          → Goes 0 Anything i r
      shorter i rest (ok (end, b)) le k = (omega (arith, le, k.0), tt)
      shorter i rest (err e) le k = k
  then-Goes i (err e) q h g = h

module _ {ext : Extern} {nom : Nom ext} (law : IsNom nom) where
  Eats-comment : (n : ℕ) → Eats 1 n Anything (comment nom)
  unfolding comment
  Eats-comment n =
      let line = Eats-map law {Q = Anything} (Eats-tag law n _ _) (λ _ _. tt) in
      let end = Eats-alt law _ _ (Eats-weaken line) (Eats-eof n, tt) in
      Eats-map law (Eats-delimited law (Eats-tag law n _ _) (Eats-weaken (Eats-is_not law n _)) end)
        (λ _ _. tt)

  -- A comment or a run of white space.
  pub Eats-white :
      (n : ℕ) → Eats 0 n Anything (nom.alt (comment nom ∷ nom.map nom.multispace1 (λ _. tt) ∷ []))
  Eats-white n =
      let space = Eats-map law {Q = Anything} (Eats-multispace1 law n) (λ _ _. tt) in
      Eats-weaken (Eats-alt law _ _ (Eats-comment n) (space, tt))

  pub Eats-whitespace : (n : ℕ) → Eats 0 n Anything (whitespace nom)
  unfolding whitespace
  Eats-whitespace n = Eats-map law (Eats-many0 law (Eats-white n)) (λ _ _. tt)

  pub Eats-trailing :
      {T : Type 0} {P : T → Type 0} {k n : ℕ} {p : Parser T}
      → Eats k n P p
      → Eats k n P (trailing_whitespace nom p)
  unfolding trailing_whitespace
  Eats-trailing {n = n} h = Eats-map law (Eats-tuple law h (Eats-whitespace n)) (λ x px. px.0)

  pub Eats-tag_whitespace : (n c : ℕ) (p : Text) → Eats 1 n Anything (tag_whitespace nom (c ∷ p))
  unfolding tag_whitespace
  Eats-tag_whitespace n c p = Eats-trailing (Eats-tag law n c p)

  tags_whitespace-Goes :
      (tags : List Text) (i : Text) → Goes 0 Anything i (tags_whitespace nom tags i)
  unfolding tags_whitespace tag_whitespace
  tags_whitespace-Goes [] i = (omega arith, tt)
  tags_whitespace-Goes (tag ∷ tags) i =
      let first = Eats-trailing (Eats-tag_any law (suc (length i)) tag) in
      then-Goes i (tag_whitespace nom tag i) (λ matched. tags_whitespace nom tags matched)
        (first.go i (omega arith)) (λ rest. tags_whitespace-Goes tags rest)

  pub Eats-tags_whitespace :
      (n : ℕ) (tags : List Text) → Eats 0 n Anything (tags_whitespace nom tags)
  Eats-tags_whitespace n tags = record { go = λ i lt. tags_whitespace-Goes tags i }

  pub Eats-escaped_string : (n : ℕ) → Eats 1 n Anything (escaped_string nom)
  unfolding escaped_string
  Eats-escaped_string n =
      let quote = Eats-tag law n 34 [] in
      let text = Eats-delimited law quote (Eats-escaped law n _ _) (Eats-weaken quote) in
      record {
        go =
            λ i lt. Goes-mapped Anything Anything 1 (unescape false) i _ (text.go i lt) (λ _ _. tt);
      }
