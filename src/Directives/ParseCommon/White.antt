-- ===== src/Directives/ParseCommon/White.antt =====
-- White space and comments (parse_common.rs): where `whitespace` stops, and what it passes over.
use lopez.Prelude.{
  ℕ, suc, ◌==◌, Text, bytes, length, starts_with, [], ◌∷◌, ◌++◌, ok, err, arith, ◌≡◌, ◌∙◌, refl,
  false,
}
use lopez.Extern.{Extern}
use lopez.Nom.{Nom, IsNom, Parser, ErrorKind, error, is_space, multi_space, LeavesLess}
use lopez.Nom.Eats.Rules.{Eats-LeavesLess}
use lopez.Directives.ParseCommon.Eats.{Eats-white}
use lopez.Nom.Runs.{
  tag-here, tag-missing, map-ok, map-err, tuple-ok, alt-next, many0-end, many0-more,
}
use lopez.Directives.ParseCommon.{eof, comment, whitespace, trailing_whitespace, tag_whitespace}

module _ {ext : Extern} {nom : Nom ext} (law : IsNom nom) where
  -- No white space and no comment begins here.
  abbrev pub IsSettled : Text → Type 0
  IsSettled rest = whitespace nom rest ≡ ok (rest, tt)

  -- A comment does not begin here.
  comment-missing :
      (i : Text) → starts_with i (bytes "//") ≡ false → comment nom i ≡ err (error i ErrorKind.tag)
  unfolding comment
  comment-missing i e = map-err law _ (
      rw
        (
          law.delimited-run (nom.tag (bytes "//")) (nom.is_not (bytes "\n"))
              (nom.alt (nom.map (nom.tag (bytes "\n")) (λ _. tt) ∷ eof ∷ [])) i,
          tag-missing law (bytes "//") i e,
        )
        refl)

  -- Text without a character in it is no comment: `//` at the end of a line.
  comment-empty :
      (i : Text) → comment nom (47 ∷ 47 ∷ 10 ∷ i) ≡ err (error (10 ∷ i) ErrorKind.is_not)
  unfolding comment
  comment-empty i = map-err law _ (
      rw
        (
          law.delimited-run (nom.tag (bytes "//")) (nom.is_not (bytes "\n"))
              (nom.alt (nom.map (nom.tag (bytes "\n")) (λ _. tt) ∷ eof ∷ [])) (47 ∷ 47 ∷ 10 ∷ i),
          tag-here law (bytes "//") (10 ∷ i),
          law.tuple-run (nom.is_not (bytes "\n"))
              (nom.alt (nom.map (nom.tag (bytes "\n")) (λ _. tt) ∷ eof ∷ [])) (10 ∷ i),
          law.is_not-run (bytes "\n") (10 ∷ i),
        )
        refl)

  space-missing :
      (c : ℕ) (i : Text)
      → is_space c ≡ false
      → nom.multispace1 (c ∷ i) ≡ err (error (c ∷ i) multi_space)
  space-missing c i e = rw (law.multispace1-run (c ∷ i), e) refl

  abbrev step : Parser Unit
  step = nom.alt (comment nom ∷ nom.map nom.multispace1 (λ _. tt) ∷ [])

  step-space :
      (i j : Text) (kind : ErrorKind)
      → comment nom i ≡ err (error j kind)
      → step i ≡ nom.map nom.multispace1 (λ _. tt) i
  step-space i j kind e = alt-next law (nom.map nom.multispace1 (λ _. tt)) [] e ∙ law.alt-last _ i

  less : (i : Text) → LeavesLess step i
  less i = Eats-LeavesLess law (Eats-white law (suc (length i))) i (omega arith)

  IsSettled-step :
      (c : ℕ) (i j : Text) (kind : ErrorKind)
      → is_space c ≡ false
      → comment nom (c ∷ i) ≡ err (error j kind)
      → IsSettled (c ∷ i)
  unfolding whitespace
  IsSettled-step c i j kind e k =
      map-ok law (λ _. tt)
        (many0-end law (less (c ∷ i))
          (step-space (c ∷ i) j kind k ∙ map-err law (λ _. tt) (space-missing c i e)))

  -- Where a character is neither white space nor a slash, `whitespace` stops.
  pub whitespace-other :
      (c : ℕ) (i : Text) → is_space c ≡ false → (c == 47) ≡ false → IsSettled (c ∷ i)
  whitespace-other c i e n =
      IsSettled-step c i (c ∷ i) ErrorKind.tag e (comment-missing (c ∷ i) (ground arith))

  pub whitespace-end : IsSettled []
  unfolding whitespace
  whitespace-end =
      map-ok law (λ _. tt)
        (many0-end law {j = []} {kind = multi_space} (less []) (
          step-space [] [] ErrorKind.tag (comment-missing [] refl)
          ∙ map-err law (λ _. tt) (rw (law.multispace1-run []) refl)))

  -- One space, before a character that is none.
  pub whitespace-space :
      (c : ℕ) (i : Text)
      → is_space c ≡ false
      → (c == 47) ≡ false
      → whitespace nom (32 ∷ c ∷ i) ≡ ok (c ∷ i, tt)
  unfolding whitespace
  whitespace-space c i e n =
      let taken : nom.multispace1 (32 ∷ c ∷ i) ≡ ok (c ∷ i, 32 ∷ []) =
        rw (law.multispace1-run (32 ∷ c ∷ i), e) refl in
      let first : step (32 ∷ c ∷ i) ≡ ok (c ∷ i, tt) =
        step-space (32 ∷ c ∷ i) (32 ∷ c ∷ i) ErrorKind.tag (comment-missing (32 ∷ c ∷ i) refl)
        ∙ map-ok law (λ _. tt) taken in
      let last : step (c ∷ i) ≡ err (error (c ∷ i) multi_space) =
        step-space (c ∷ i) (c ∷ i) ErrorKind.tag (comment-missing (c ∷ i) (ground arith))
        ∙ map-err law (λ _. tt) (space-missing c i e) in
      map-ok law (λ _. tt)
        (many0-more law (less (32 ∷ c ∷ i)) first (ground arith)
          (many0-end law (less (c ∷ i)) last))

  -- An empty comment, `//` at the end of a line, is not passed over: whitespace stops before it.
  pub whitespace-empty_comment : (i : Text) → IsSettled (47 ∷ 47 ∷ 10 ∷ i)
  whitespace-empty_comment i =
      IsSettled-step 47 (47 ∷ 10 ∷ i) (10 ∷ i) ErrorKind.is_not refl (comment-empty i)

  pub trailing-ok :
      {T : Type 0} (p : Parser T) {i : Text} (j : Text) {rest : Text} {t : T}
      → p i ≡ ok (j, t)
      → whitespace nom j ≡ ok (rest, tt)
      → trailing_whitespace nom p i ≡ ok (rest, t)
  unfolding trailing_whitespace
  trailing-ok p j e w = map-ok law _ (tuple-ok law e w)

  pub tag_whitespace-ok :
      (p j : Text) {rest : Text}
      → whitespace nom j ≡ ok (rest, tt)
      → tag_whitespace nom p (p ++ j) ≡ ok (rest, p)
  unfolding tag_whitespace
  tag_whitespace-ok p j w = trailing-ok (nom.tag p) j (tag-here law p j) w

  pub tag_whitespace-missing :
      (p i : Text) → starts_with i p ≡ false → tag_whitespace nom p i ≡ err (error i ErrorKind.tag)
  unfolding tag_whitespace trailing_whitespace
  tag_whitespace-missing p i e =
      map-err law _ (rw (law.tuple-run (nom.tag p) (whitespace nom) i, tag-missing law p i e) refl)
