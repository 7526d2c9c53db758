-- ===== src/Directives/ParseCommon/Escaping.antt =====
-- Strings of the directives (parse_common.rs): what is read between quotes.
use lopez.Prelude.{
  ℕ, ◌<◌, ◌≤◌, not, ◌==◌, Text, bytes, length, Bool, Bool-cases, [], ◌∷◌, ◌++◌, any, ok, err, arith,
  ◌≡◌, ◌≢◌, ◌∙◌, refl, ap, sym, subst, false, inl, inr, ◌⊎◌,
}
use lopez.Extern.{Extern}
use lopez.Nom.{
  Nom, IsNom, Parser, ErrorKind, error, while1, take_while, skip_while, Escapes, stop, run, escape,
}
use lopez.Nom.Runs.{tag-here, tuple-ok, tuple-err}
use lopez.Directives.ParseCommon.{unescape, escaped_string}
use lopez.Directives.HtmlExtractor.{escape_quotes}

-- What `is_not("\\\"")` takes.
abbrev plain : ℕ → Bool
plain c = not (any (λ d. c == d) (92 ∷ 34 ∷ []))

unescape-escape_quotes :
    (s : Text) → any (λ c. c == 92) s ≡ false → unescape false (escape_quotes s) ≡ s
unescape-escape_quotes [] h = refl
unescape-escape_quotes (c ∷ s) h = elim (Bool-cases (c == 34)) [
  | inl e ↦ rw e (ground (arith, unescape-escape_quotes s))
  | inr e ↦ rw e (ground (arith, unescape-escape_quotes s))
]

skip-length_le : (p : ℕ → Bool) (i : Text) → length (skip_while p i) ≤ length i
skip-length_le p [] = omega arith
skip-length_le p (c ∷ i) = elim (Bool-cases (p c)) [
  | inl e ↦ rw e (omega (arith, skip-length_le p i))
  | inr e ↦ rw e (omega arith)
]

module _ (p : ℕ → Bool) where
  -- Either nothing is taken, or something is.
  while-cases :
      (i : Text)
      → ((take_while p i ≡ []) × (skip_while p i ≡ i))
        ⊎ ((length (skip_while p i) < length i)
            × ((kind : ErrorKind) → while1 kind p i ≡ ok (skip_while p i, take_while p i)))
  while-cases [] = inl (refl, refl)
  while-cases (c ∷ i) = elim (Bool-cases (p c)) [
    | inl e ↦ rw e (inr (omega (arith, skip-length_le p i), λ kind. refl))
    | inr e ↦ rw e (inl (refl, refl))
  ]

module _ {ext : Extern} {nom : Nom ext} (law : IsNom nom) where
  abbrev normal : Parser Text
  normal = nom.is_not (bytes "\\\"")

  abbrev Over : Text → Text → Text → Type 0
  Over i s rest = Escapes normal 92 nom.anychar i s rest

  normal-run : (i : Text) → normal i ≡ while1 ErrorKind.is_not plain i
  normal-run i = law.is_not-run (bytes "\\\"") i

  -- The text behind the plain characters that come first.
  abbrev Behind : Text → Text → Text → Type 0
  Behind i s rest = (e : Text) × (s ≡ take_while plain i ++ e) × Over (skip_while plain i) e rest

  Over-Behind : (i s rest : Text) → Behind i s rest → Over i s rest
  Over-Behind i s rest (e, q, o) = elim (while-cases plain i) [
    | inl (taken, left) ↦
        subst (λ (t : Text). Over i t rest) (sym (q ∙ rw taken refl))
          (subst (λ (j : Text). Over j e rest) left o)
    | inr (less, got) ↦
        subst (λ (t : Text). Over i t rest) (sym q)
          (run i (skip_while plain i) e (take_while plain i) rest
            (normal-run i ∙ got ErrorKind.is_not) less o)
  ]

  module _ (rest : Text) where
    abbrev quoted : Text → Text
    quoted s = escape_quotes s ++ (34 ∷ rest)

    Behind-escape_quotes :
        (s : Text) → any (λ c. c == 92) s ≡ false → Behind (quoted s) (escape_quotes s) (34 ∷ rest)
    Behind-escape_quotes [] h =
        ([], refl, stop 34 rest ErrorKind.is_not (normal-run (34 ∷ rest)) refl)
    Behind-escape_quotes (c ∷ s) h =
        let none_left : any (λ c. c == 92) s ≡ false = ground arith in
        let no_slash : (c == 92) ≡ false = ground arith in
        let (e, q, o) = Behind-escape_quotes s none_left in
        elim (Bool-cases (c == 34)) [
          | inl is ↦ rw is (
            92 ∷ 34 ∷ escape_quotes s,
            refl,
            escape (34 ∷ quoted s) (quoted s) (escape_quotes s) (34 ∷ []) (34 ∷ rest)
                ErrorKind.is_not (normal-run (92 ∷ 34 ∷ quoted s))
                (law.anychar-ascii 34 (quoted s) (omega arith)) (omega arith)
                (Over-Behind (quoted s) (escape_quotes s) (34 ∷ rest) (e, q, o)),
          )
          | inr is ↦ rw (is, no_slash, is) (e, ap (λ t. c ∷ t) q, o)
        ]

    escape_quotes-cons : (s : Text) → s ≢ [] → escape_quotes s ≢ []
    escape_quotes-cons [] ne e = ne refl
    escape_quotes-cons (c ∷ s) ne e = elim (Bool-cases (c == 34)) [
      | inl is ↦ absurd (ground (arith, is, e))
      | inr is ↦ absurd (ground (arith, is, e))
    ]

    escaped-quoted :
        (s : Text)
        → s ≢ []
        → any (λ c. c == 92) s ≡ false
        → nom.escaped normal 92 nom.anychar (quoted s) ≡ ok (34 ∷ rest, escape_quotes s)
    escaped-quoted s ne h =
        law.escaped-run normal nom.anychar 92 (quoted s) (escape_quotes s) (34 ∷ rest)
          (escape_quotes-cons s ne)
          (Over-Behind (quoted s) (escape_quotes s) (34 ∷ rest) (Behind-escape_quotes s h))

    -- A text that is not empty and has no backslash is read back from between quotes, with its own
    -- quotes escaped, and what stands behind it is left.
    pub escaped_string-escape_quotes :
        (s : Text)
        → s ≢ []
        → any (λ c. c == 92) s ≡ false
        → escaped_string nom (34 ∷ (escape_quotes s ++ (34 ∷ rest))) ≡ ok (rest, s)
    unfolding escaped_string
    escaped_string-escape_quotes s ne h =
        rw
          (
            law.delimited-run (nom.tag (bytes "\"")) (nom.escaped normal 92 nom.anychar)
                (nom.tag (bytes "\"")) (34 ∷ quoted s),
            tag-here law (bytes "\"") (quoted s),
            tuple-ok law (escaped-quoted s ne h) (tag-here law (bytes "\"") rest),
            unescape-escape_quotes s h,
          )
          refl

    -- The empty string cannot be written: two quotes are refused.
    pub escaped_string-empty :
        escaped_string nom (34 ∷ 34 ∷ rest) ≡ err (error (34 ∷ rest) ErrorKind.escaped)
    unfolding escaped_string
    escaped_string-empty =
        rw
          (
            law.delimited-run (nom.tag (bytes "\"")) (nom.escaped normal 92 nom.anychar)
                (nom.tag (bytes "\"")) (34 ∷ 34 ∷ rest),
            tag-here law (bytes "\"") (34 ∷ rest),
            tuple-err law {i = 34 ∷ rest} (nom.tag (bytes "\"")) (
                law.escaped-stop normal nom.anychar 92 (34 ∷ rest)
                  (stop 34 rest ErrorKind.is_not (normal-run (34 ∷ rest)) refl)),
          )
          refl
