-- ===== src/Crawler/Robots/Search.antt =====
-- Rules of robots.txt without `*` and `$`, and rules that repeat a pattern.
use lopez.Prelude.{
  ◌==◌, Text, split, find_from, starts_with, is_empty, ends_with, true, false, some, List, [], ◌∷◌,
  ◌++◌, ◌≡◌, ◌↔◌, refl, ap, ◌∙◌, arith, Bool-cases, Option-cases, inl, inr, any,
}
use lopez.Prelude.Split.{split_onto-plain}
use lopez.Crawler.Robots.{new_match, matches, find_patterns, accepts}

-- The pattern stands somewhere in the route.
abbrev pub OccursIn : Text → Text → Type 0
OccursIn pattern route = (before : Text) × (behind : Text) × (route ≡ before ++ (pattern ++ behind))

starts_with-append : (p s : Text) → starts_with (p ++ s) p ≡ true
starts_with-append [] [] = refl
starts_with-append [] (c ∷ s) = refl
starts_with-append (c ∷ p) s = ground (arith, starts_with-append p s)

starts_with_split : (s p : Text) → starts_with s p ≡ true → (behind : Text) × (s ≡ p ++ behind)
starts_with_split s [] h = (s, refl)
starts_with_split [] (c ∷ p) h = absurd (cc)
starts_with_split (d ∷ s) (c ∷ p) h =
    let (behind, e) = starts_with_split s p (ground arith) in (behind, ground arith)

find_from_start : (s p : Text) → starts_with s p ≡ true → find_from s p ≡ some s
find_from_start [] p h = rw h refl
find_from_start (c ∷ s) p h = rw h refl

find_from-append :
    (before p behind : Text) → (found : Text) × (find_from (before ++ (p ++ behind)) p ≡ some found)
find_from-append [] p behind =
    (p ++ behind, find_from_start (p ++ behind) p (starts_with-append p behind))
find_from-append (c ∷ before) p behind =
    elim (Bool-cases (starts_with (c ∷ (before ++ (p ++ behind))) p)) [
      | inl here ↦ (c ∷ (before ++ (p ++ behind)), rw here refl)
      | inr later ↦ let (found, e) = find_from-append before p behind in (found, rw later e)
    ]

-- What is found begins with the pattern, and ends the route.
find_from_sound :
    (s p found : Text)
    → find_from s p ≡ some found
    → (starts_with found p ≡ true) × ((before : Text) × (s ≡ before ++ found))
find_from_sound [] p found e = elim (Bool-cases (starts_with [] p)) [
  | inl here ↦ (ground arith, ([], ground arith))
  | inr missing ↦ absurd (cc (rw missing at e))
]
find_from_sound (c ∷ s) p found e = elim (Bool-cases (starts_with (c ∷ s) p)) [
  | inl here ↦ (ground arith, ([], ground arith))
  | inr later ↦
      let (begins, (before, same)) = find_from_sound s p found (rw later at e) in
      (begins, (c ∷ before, ap (λ t. c ∷ t) same))
]

-- `find` succeeds exactly where the pattern occurs.
find_from_iff : (s p : Text) → ((found : Text) × (find_from s p ≡ some found)) ↔ OccursIn p s
find_from_iff s p = (
  λ (found, e).
      let (begins, (before, same)) = find_from_sound s p found e in
      let (behind, split) = starts_with_split found p begins in
      (before, behind, same ∙ ap (λ t. before ++ t) split),
  λ (before, behind, e). rw e (find_from-append before p behind),
)

-- Two patterns in a row that are the same have the outcome of one of them, whatever patterns are
-- behind them.
pub find_patterns-twice :
    (p : Text) (ps : List Text) (route : Text)
    → find_patterns (p ∷ p ∷ ps) route ≡ find_patterns (p ∷ ps) route
unfolding find_patterns
find_patterns-twice p ps route = elim (Option-cases (find_from route p)) [
  | inl missing ↦ rw (missing, find_patterns) refl
  | inr (found, e) ↦
      rw (e, find_patterns, find_from_start found p (find_from_sound route p found e).0) refl
]

-- A single pattern is found exactly when it occurs.
find_patterns-one :
    (p route : Text) → (accepts false (find_patterns (p ∷ []) route) ≡ true) ↔ OccursIn p route
unfolding find_patterns
find_patterns-one p route = elim (Option-cases (find_from route p)) [
  | inl missing ↦ (
    λ e. absurd (cc (rw (missing, find_patterns, accepts) at e)),
    λ occurs. let (found, e) = (find_from_iff route p).1 occurs in absurd (cc (rw missing at e)),
  )
  | inr (found, e) ↦ (λ _. (find_from_iff route p).0 (found, e), λ _. rw (e, find_patterns) refl)
]

-- A rule with a path that is not empty, holds no `*` and does not end in `$` matches a route exactly
-- when the path occurs anywhere in it, at the beginning or not.
pub matches-plain :
    (path route : Text)
    → is_empty path ≡ false
    → ends_with path b'$' ≡ false
    → any (λ c. c == b'*') path ≡ false
    → (matches (new_match path) route ≡ true) ↔ OccursIn path route
unfolding matches new_match find_patterns
matches-plain path route h plain star =
    rw (plain, h, split_onto-plain b'*' [] path star) (find_patterns-one path route)
