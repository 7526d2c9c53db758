-- ===== src/Crawler/Robots/Strict.antt =====
-- Rules of robots.txt that end in `$`.
use lopez.Prelude.{
  Text, split, find_from, is_empty, ends_with, drop_last, true, false, some, List, [], ◌∷◌, ◌≡◌,
  refl, arith, Bool-cases, Option-cases, inl, inr,
}
use lopez.Crawler.Robots.{new_match, matches, find_patterns}

-- What is found in a route that is not empty is not empty.
find_from_not_empty :
    (route pattern found : Text)
    → is_empty route ≡ false
    → find_from route pattern ≡ some found
    → is_empty found ≡ false
find_from_not_empty [] pattern found h e = absurd (cc)
find_from_not_empty (c ∷ []) [] found h e = ground arith
find_from_not_empty (c ∷ []) (p ∷ pattern) found h e = ground arith
find_from_not_empty (c ∷ d ∷ s) pattern found h e =
    ground (arith, find_from_not_empty (d ∷ s) pattern found refl)

find_patterns_not_empty :
    (patterns : List Text) (route found : Text)
    → is_empty route ≡ false
    → find_patterns patterns route ≡ some found
    → is_empty found ≡ false
unfolding find_patterns
find_patterns_not_empty [] route found h e = ground arith
find_patterns_not_empty (p ∷ ps) route found h e = elim (Option-cases (find_from route p)) [
  | inl missing ↦ absurd (cc (rw (missing, find_patterns) at e))
  | inr (next, q) ↦
      find_patterns_not_empty ps next found (find_from_not_empty route p next h q)
        (rw (q, find_patterns) at e)
]

-- A rule with a path that ends in `$` matches no route that is not empty.
pub matches-strict :
    (path route : Text)
    → ends_with path b'$' ≡ true
    → is_empty route ≡ false
    → matches (new_match path) route ≡ false
unfolding matches new_match
matches-strict path route strict h = rw strict (elim (Bool-cases (is_empty (drop_last path))) [
  | inl nothing ↦ rw nothing refl
  | inr some_text ↦
      rw some_text (elim (Option-cases (find_patterns (split b'*' (drop_last path)) route)) [
        | inl missing ↦ rw missing refl
        | inr (found, q) ↦
            rw (q, find_patterns_not_empty (split b'*' (drop_last path)) route found h q) refl
      ])
])
