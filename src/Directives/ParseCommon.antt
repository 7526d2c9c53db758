-- ===== src/Directives/ParseCommon.antt =====
-- lib-lopez/src/directives/parse_common.rs: white space, comments and strings of the directives.
pub mod Eats
pub mod White
pub mod Escaping
use lopez.Prelude.{
  ℕ, Text, bytes, ◌==◌, Bool, true, false, List, [], ◌∷◌, Result, ok, err, if◌then◌else◌,
}
use lopez.Prelude.Outcome
use lopez.Extern.{Extern}
use lopez.Nom.{Nom, Parser, IResult, error, is_a, mapped}

abbrev pub eof : Parser Unit
eof [] = ok ([], tt)
eof (c ∷ i) = err (error (c ∷ i) is_a)

-- The loop of `escaped_string`, from `is_escaped`.
abbrev pub unescape : Bool → Text → Text
unescape is_escaped [] = []
unescape true (c ∷ s) = let rest = unescape false s in if c == 34 then 34 ∷ rest else 92 ∷ c ∷ rest
unescape false (c ∷ s) =
    let inside = unescape true s in
    let rest = unescape false s in if c == 92 then inside else c ∷ rest

module _ {ext : Extern} (nom : Nom ext) where
  open nom use {tag, is_not, escaped, anychar, multispace1, map, many0, tuple, alt, delimited}

  unfoldable pub comment : Parser Unit
  comment =
      map
        (delimited (tag (bytes "//")) (is_not (bytes "\n"))
          (alt (map (tag (bytes "\n")) (λ _. tt) ∷ eof ∷ [])))
        (λ _. tt)

  unfoldable pub whitespace : Parser Unit
  whitespace = map (many0 (alt (comment ∷ map multispace1 (λ _. tt) ∷ []))) (λ _. tt)

  unfoldable pub trailing_whitespace : {T : Type 0} → Parser T → Parser T
  trailing_whitespace f = map (tuple f whitespace) (λ (t, _). t)

  unfoldable pub tag_whitespace : Text → Parser Text
  tag_whitespace tag_val = trailing_whitespace (tag tag_val)

  unfoldable pub tags_whitespace : List Text → Parser Unit
  tags_whitespace [] i = ok (i, tt)
  tags_whitespace (tag_val ∷ tag_vals) i =
      Outcome.◌>>=◌ (tag_whitespace tag_val i) λ (matched, _). tags_whitespace tag_vals matched

  unfoldable pub escaped_string : Parser Text
  escaped_string i = mapped (unescape false) (
      delimited (tag (bytes "\"")) (escaped (is_not (bytes "\\\"")) 92 anychar) (tag (bytes "\""))
        i)

-- `regex`.
abbrev pub regex : (ext : Extern) → Text → Result Text ext.Regex
regex ext parsed = ext.regex_from_str parsed
