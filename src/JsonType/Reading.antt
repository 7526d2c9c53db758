-- ===== src/JsonType/Reading.antt =====
-- lib-lopez/src/type.rs: how types are read (`FromStr`). White space here has no comments, other than
-- in directives.
pub mod RoundTrip
use lopez.Prelude.{ℕ, zero, suc, Text, bytes, length, List, [], ◌∷◌, Result, ok, err}
use lopez.Extern.{Extern}
use lopez.Nom.{Nom, Parser, IResult, Err, spent}
use lopez.JsonType.{JsonType, array}

module _ {ext : Extern} (nom : Nom ext) where
  open nom use {tag, multispace1, map, tuple, alt, many0}

  unfoldable pub whitespace : Parser Unit
  whitespace = map (many0 multispace1) (λ _. tt)

  unfoldable pub trailing_whitespace : {T : Type 0} → Parser T → Parser T
  trailing_whitespace f = map (tuple f whitespace) (λ (t, _). t)

  unfoldable pub tag_whitespace : Text → Parser Text
  tag_whitespace tag_val = trailing_whitespace (tag tag_val)

  -- `r#type`, which calls itself to the depth given.
  unfoldable pub type : ℕ → Parser JsonType
  type zero = λ i. err spent
  type (suc n) =
      let inner = type n in
      alt (
        map (tag (bytes "any")) (λ _. JsonType.any)
        ∷ map (tag (bytes "bool")) (λ _. JsonType.bool)
        ∷ map (tag (bytes "number")) (λ _. JsonType.number)
        ∷ map (tag (bytes "string")) (λ _. JsonType.string)
        ∷ map
            (tuple (tag_whitespace (bytes "array")) (
              tuple (tag_whitespace (bytes "["))
                (tuple (trailing_whitespace inner) (tag (bytes "]")))))
            (λ (_, (_, (t, _))). array t)
        ∷ map
            (tuple (tag_whitespace (bytes "map")) (
              tuple (tag_whitespace (bytes "[")) (
                tuple (tag_whitespace (bytes "string")) (
                  tuple (tag_whitespace (bytes ","))
                    (tuple (trailing_whitespace inner) (tag_whitespace (bytes "]")))))))
            (λ (_, (_, (_, (_, (t, _))))). JsonType.map t)
        ∷ [])

  abbrev pub read : (Err → Text) → IResult JsonType → Result Text JsonType
  read to_string (ok (rest, t)) = ok t
  read to_string (err e) = err (to_string e)

  -- `Type::from_str`, for a way to write parse errors; a text of length `n` holds no type of depth
  -- above `n`.
  unfoldable pub type_from_str : (Err → Text) → Text → Result Text JsonType
  unfolding trailing_whitespace type
  type_from_str to_string s =
      read to_string (nom.all_consuming (trailing_whitespace (type (suc (length s)))) s)
