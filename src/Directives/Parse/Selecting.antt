-- ===== src/Directives/Parse/Selecting.antt =====
-- Which part of a text is taken as a CSS selector (`css_selector` of parse.rs).
use lopez.Prelude.{
  ℕ, ◌==◌, ◌&&◌, not, Text, Bool, true, false, ℤ, pos, [], ◌∷◌, ◌++◌, Option, none, some, ok, err,
  arith, ◌≡◌, ◌≢◌, refl, append-nil,
}
use lopez.Extern.{Extern}
use lopez.Nom.{Nom, panicked}
use lopez.Directives.HtmlExtractor.{Dom, from_str}
use lopez.Directives.Parse.{
  is_continuation, leveled, is_level, consed, scan, scanned, css_selector, debug_err,
}

-- The level of the brackets behind a text.
abbrev pub level_behind : ℤ → Text → ℤ
level_behind level [] = level
level_behind level (c ∷ s) = level_behind (leveled c level) s

-- No place in the text ends a selector: the hint stands inside brackets only, and each character
-- is a single byte, or at least begins there.
abbrev pub goes_on : ℕ → ℤ → Text → Bool
goes_on hint level [] = true
goes_on hint level (c ∷ s) =
    let rest = goes_on hint (leveled c level) s in
    not (is_continuation c) && (not (is_level level && c == hint) && rest)

-- What `scan` answers behind such a text.
abbrev passed : Text → Option (Text × Text) → Option (Text × Text)
passed [] o = o
passed (c ∷ s) o = consed c (passed s o)

scan-passed :
    (hint : ℕ) (level : ℤ) (s i : Text)
    → goes_on hint level s ≡ true
    → scan hint level (s ++ i) ≡ passed s (scan hint (level_behind level s) i)
unfolding scan
scan-passed hint level [] i h = refl
scan-passed hint level (c ∷ s) i h =
    let starts : is_continuation c ≡ false = ground arith in
    let inside : (is_level level && c == hint) ≡ false = ground arith in
    let rest : goes_on hint (leveled c level) s ≡ true = ground arith in
    rw (starts, inside, scan-passed hint (leveled c level) s i rest) refl

passed-none : (s : Text) → passed s none ≡ none
passed-none [] = refl
passed-none (c ∷ s) = rw (passed-none s) refl

passed-some : (s t rest : Text) → passed s (some (t, rest)) ≡ some (s ++ t, rest)
passed-some [] t rest = refl
passed-some (c ∷ s) t rest = rw (passed-some s t rest) refl

scan-hint :
    (hint : ℕ) (level : ℤ) (rest : Text)
    → is_level level ≡ true
    → is_continuation hint ≡ false
    → scan hint level (hint ∷ rest) ≡ some ([], hint ∷ rest)
unfolding scan
scan-hint hint level rest at_level starts =
    let same : (hint == hint) ≡ true = ground arith in rw (starts, at_level, same) refl

scan-stops :
    (hint : ℕ) (level : ℤ) (c : ℕ) (rest : Text)
    → is_continuation c ≡ true
    → scan hint level (c ∷ rest) ≡ none
unfolding scan
scan-stops hint level c rest k = rw k refl

module _ {ext : Extern} (nom : Nom ext) (dom : Dom) where
  scanned-some :
      (i s rest : Text)
      → s ≢ []
      → scanned nom dom i (some (s, rest)) ≡ ok (rest, debug_err nom dom (from_str s))
  scanned-some i [] rest ne = absurd (ne refl)
  scanned-some i (c ∷ s) rest ne = refl

  -- A selector that is not empty is read up to the character that the caller hints at, for every
  -- text of one-byte characters in which that character stands inside square brackets only and
  -- the brackets are balanced; what is read goes to the parser of selectors as it stands, and the
  -- hinted character and all behind it are left.
  pub css_selector-append :
      (hint : ℕ) (s rest : Text)
      → s ≢ []
      → goes_on hint (pos 0) s ≡ true
      → is_level (level_behind (pos 0) s) ≡ true
      → is_continuation hint ≡ false
      → css_selector nom dom hint (s ++ (hint ∷ rest))
        ≡ ok (hint ∷ rest, debug_err nom dom (from_str s))
  unfolding css_selector
  css_selector-append hint s rest ne h level starts =
      rw
        (
          scan-passed hint (pos 0) s (hint ∷ rest) h,
          scan-hint hint (level_behind (pos 0) s) rest level starts,
          passed-some s [] (hint ∷ rest),
          append-nil s,
          scanned-some (s ++ (hint ∷ rest)) s (hint ∷ rest) ne,
        )
        refl

  -- A character of several bytes makes the parser of selectors panic, wherever it stands in a
  -- selector: `&i[idx..]` is taken inside of it.
  pub css_selector-panics :
      (hint : ℕ) (s : Text) (c : ℕ) (rest : Text)
      → goes_on hint (pos 0) s ≡ true
      → is_continuation c ≡ true
      → css_selector nom dom hint (s ++ (c ∷ rest)) ≡ err panicked
  unfolding css_selector
  css_selector-panics hint s c rest h k =
      rw (scan-passed hint (pos 0) s (c ∷ rest) h)
        (rw (scan-stops hint (level_behind (pos 0) s) c rest k, passed-none s) refl)
