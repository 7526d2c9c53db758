-- ===== src/Expressions/Transformer/Pretty.antt =====
-- `pretty` (transformer.rs): one line for each paragraph with text in it, one space between words.
use lopez.Prelude.{
  ℕ, Text, split, split_whitespace, ends_with, is_empty, not, ◌&&◌, Option, none, some, List, [],
  ◌∷◌, ◌++◌, if◌then◌else◌,
}

-- Adds a separator, if there is one.
abbrev pub separate : Text → Option ℕ → Text
separate text none = text
separate text (some sep) = text ++ (sep ∷ [])

-- The inner loop: the text, and whether a word was added.
unfoldable pub add_words : Text → Option ℕ → List Text → Text × Option ℕ
add_words text sep [] = (text, sep)
add_words text sep (chunk ∷ chunks) = add_words (separate text sep ++ chunk) (some 32) chunks

-- `if sep.is_some() { Some("\n") } else { None }`.
abbrev pub paragraph_sep : Option ℕ → Option ℕ
paragraph_sep none = none
paragraph_sep (some _) = some 10

unfoldable pub add_paragraphs : Text → Option ℕ → List Text → Text
unfolding add_words
add_paragraphs text p_sep [] = text
add_paragraphs text p_sep (paragraph ∷ rest) =
    let (text', sep) = add_words (separate text p_sep) none (split_whitespace paragraph) in
    add_paragraphs text' (paragraph_sep sep) rest

unfoldable pub pretty : Text → Text
unfolding add_paragraphs
pretty i =
    let text = add_paragraphs [] none (split 10 i) in
    if not (is_empty text) && not (ends_with text 10) then text ++ (10 ∷ []) else text
