-- ===== src/Directives/ParseUtils.antt =====
-- lib-lopez/src/directives/parse_utils.rs: where and how a parse error is reported. The input of an
-- error is an end of the text, at the start of a character. `none` is a panic.
pub mod Positions
use lopez.Prelude.{
  ℕ, zero, suc, ◌+◌, ◌-◌, leb, ltb, ◌==◌, ◌&&◌, Text, bytes, ◌++◌, length, take, show_ℕ, Bool, List,
  [], ◌∷◌, Option, none, some, Result, ok, err, if◌then◌else◌,
}
use lopez.Extern.{Extern}
use lopez.Nom.{Nom, IResult, Err, ErrorKind, error, failure, incomplete, panicked, spent}
use lopez.Directives.Parse.{is_continuation}

pub record Position : Type 0 where
  pub line : ℕ
  pub column : ℕ

unfoldable pub position_text : Position → Text
position_text p =
    bytes "line " ++ (show_ℕ (p.line + 1) ++ (bytes ", column " ++ show_ℕ (p.column + 1)))

-- The loop of `Position::of`, over the bytes: a character counts at its first one.
unfoldable pub position_onto : ℕ → ℕ → Text → Position
position_onto line column [] = record { line = line; column = column }
position_onto line column (c ∷ s) =
    let next_line = position_onto (line + 1) 0 s in
    let same = position_onto line column s in
    let next = position_onto line (column + 1) s in
    if c == 10
    then next_line
    else if c == 13
    then same
    else if is_continuation c
    then same
    else next

unfoldable pub of : Text → Text → Position
unfolding position_onto
of text fragment = position_onto 0 0 (take (length text - length fragment) text)

pub record ParseError : Type 0 where
  pub position : Position
  pub hint : Text
  pub message : Text

-- `lines().next().unwrap_or_default()`: without the end of the line, `\n` or `\r\n`.
abbrev first_line : Text → Text
first_line [] = []
first_line (c ∷ []) = if c == 10 then [] else c ∷ []
first_line (c ∷ d ∷ s) =
    let rest = first_line (d ∷ s) in
    if c == 10 then [] else if c == 13 && d == 10 then [] else c ∷ rest

-- `chars().take(n).collect()`.
abbrev take_chars : ℕ → Text → Text
take_chars n [] = []
take_chars zero (c ∷ s) =
    let inside = take_chars zero s in if is_continuation c then c ∷ inside else []
take_chars (suc n) (c ∷ s) =
    let inside = take_chars (suc n) s in
    let rest = take_chars n s in if is_continuation c then c ∷ inside else c ∷ rest

module _ {ext : Extern} (nom : Nom ext) where
  abbrev pub reported : Text → Text → ErrorKind → ParseError
  unfolding of
  reported text input code = record {
    position = of text input;
    hint = take_chars 10 (first_line input) ++ bytes "...";
    message = nom.description code;
  }

  -- `ParseError::new`, for the errors that `nom` has.
  unfoldable pub new_error : Text → Err → Option ParseError
  unfolding reported
  new_error text (error input code) = some (reported text input code)
  new_error text (failure input code) = some (reported text input code)
  new_error text incomplete = none
  new_error text panicked = none
  new_error text spent = none

  abbrev pub failed : {T : Type 0} → Option ParseError → Option (Result ParseError T)
  failed none = none
  failed (some e) = some (err e)

  unfoldable pub map_iresult : {T : Type 0} → Text → IResult T → Option (Result ParseError T)
  unfolding new_error
  map_iresult text (ok (left_over, result)) = some (ok result)
  map_iresult text (err e) = failed (new_error text e)
