-- ===== src/Tests/Load.antt =====
-- Loading a main module that imports an empty one, and the position of an error.
use lopez.Prelude.{
  Bool-cases, inl, inr, ℕ, ◌+◌, ◌<◌, Text, bytes, text_eq, join, is_empty, some, List, [], ◌∷◌,
  ◌++◌, ok, All, if◌then◌else◌, ◌≡◌, refl, subst, arith, sym, ◌∙◌, ap, map,
}
use lopez.Prelude.Outcome.{ok-injective}
use lopez.Directives.Names.{canonical_path, canonical_parts}
use lopez.Directives.Loading.{
  load, content, interpreted, Item, module_paths, read_from_many, load_items_from, sub_module_name,
}
use lopez.Directives.Loading.Enough.{ParsesCalmly, Ranked, ReadsBelow, ImportsBelow}
use lopez.Directives.ParseCommon.{
  escaped_string, tags_whitespace, whitespace, comment, trailing_whitespace, tag_whitespace,
}
use lopez.Directives.Parse.{flag_directive, string_directive, css_selector, block, in_directive}
use lopez.Directives.ParseUtils.{map_iresult}
use lopez.Directives.Validation
use lopez.Directives.Parse.Items.{
  HtmlItem, entrypoint, rule_set, module_path, seed, boundary, set_variable, web_driver,
}
use lopez.Directives.Load.{to_import, parsed_as, FileSystem, files, load_directives}
use lopez.Directives.Load.Sound.{Ends, load_directives-Ends}
use lopez.Directives.ParseUtils.{of}
use lopez.Directives.ParseUtils.Positions.{newlines, count, starts, of-lines}
use lopez.Tests.Samples.{floats-IsFinite, addresses}
use lopez.Tests.Parsers.{plain, many0, escaped}
use lopez.Tests.Parsing.{page}

of-lines_example :
    (of (bytes "cd;e") (bytes ";e") ≡ record { line = 0; column = count starts (bytes "cd") })
    × (of (bytes "a\nb\ncd;e") (bytes ";e")
        ≡ record { line = newlines (bytes "a\nb") + 1; column = count starts (bytes "cd") })
of-lines_example = of-lines (bytes "a\nb") (bytes "cd") (bytes ";e") refl

-- The main file imports `a`, and all others are empty.
abbrev disk : FileSystem
disk = record {
  FilePath = Text;
  parent = λ p. some (bytes "r");
  of_parts = join (bytes "/");
  join_path = λ p q. p ++ (bytes "/" ++ q);
  with_extension = λ p e. p ++ (bytes "." ++ e);
  read_to_string = λ p. content (if text_eq p (bytes "m") then bytes "import \"a\";" else []);
}

abbrev roots : List Text
roots = bytes "r" ∷ bytes "l" ∷ []

abbrev main_rank : Text → ℕ
main_rank name = if is_empty name then 1 else 0

empty_items : entrypoint plain page addresses [] ≡ some (ok (ok []))
unfolding entrypoint map_iresult whitespace many0 comment trailing_whitespace rule_set block
    tag_whitespace module_path string_directive tags_whitespace seed boundary flag_directive
    set_variable web_driver
empty_items = refl

main_items :
    entrypoint plain page addresses (bytes "import \"a\";")
    ≡ some (ok (ok (Validation.Item.import (bytes "a") ∷ [])))
unfolding entrypoint map_iresult whitespace many0 comment trailing_whitespace rule_set block
    tag_whitespace in_directive css_selector module_path string_directive tags_whitespace
    escaped_string escaped seed boundary flag_directive set_variable web_driver
main_items = refl

abbrev AnyItem : Type 0
AnyItem = Item (HtmlItem plain page addresses)

-- The items of a file.
reads :
    (name text : Text) (path : List Text) (items : List (HtmlItem plain page addresses))
    → read_from_many (files plain page addresses disk) path ≡ some text
    → entrypoint plain page addresses text ≡ some (ok (ok items))
    → load_items_from (files plain page addresses disk) name path
      ≡ ok (map (to_import plain page addresses) items)
unfolding load_items_from
reads name text path items read e = rw read (
    ap (λ r. interpreted (files plain page addresses disk) name (parsed_as plain page addresses r))
      e)

disk-Ranked : Ranked (files plain page addresses disk) roots main_rank
unfolding read_from_many mathlib.Core.List.flat_map
disk-Ranked name items e =
    let none_read =
      reads name [] (module_paths (files plain page addresses disk) roots name) [] refl
        empty_items in
    subst (λ xs. All (ImportsBelow (files plain page addresses disk) roots main_rank name) xs)
      (ok-injective (sym none_read ∙ e)) tt

disk-ReadsBelow : ReadsBelow (files plain page addresses disk) roots main_rank [] (bytes "m" ∷ [])
unfolding read_from_many sub_module_name canonical_path canonical_parts
disk-ReadsBelow items e =
    let one_read = reads [] (bytes "import \"a\";") (bytes "m" ∷ []) _ refl main_items in
    subst (λ xs. All (ImportsBelow (files plain page addresses disk) roots main_rank []) xs)
      (ok-injective (sym one_read ∙ e))
      ((λ sub q. subst (λ n. main_rank n < 1) (ok-injective q) (omega arith)), tt)

disk-ParsesCalmly : ParsesCalmly (files plain page addresses disk) roots main_rank
unfolding load_items_from read_from_many
disk-ParsesCalmly name [] e = absurd (cc)
disk-ParsesCalmly name (p ∷ ps) e = elim (Bool-cases (text_eq p (bytes "m"))) [
  | inl main ↦
      let one_read = reads name (bytes "import \"a\";") (p ∷ ps) _ (rw main refl) main_items in
      let calm = sym one_read ∙ e in absurd (cc)
  | inr empty ↦
      let none_read = reads name [] (p ∷ ps) [] (rw empty refl) empty_items in
      let calm = sym none_read ∙ e in absurd (cc)
]

load_directives-Ends_example :
    Ends plain page addresses disk
      (bytes "lopez")
      (load (files plain page addresses disk) roots 2 [] [] (bytes "m" ∷ []))
      (load_directives plain page addresses disk (bytes "lopez") 2 (bytes "m") (bytes "l"))
load_directives-Ends_example =
    load_directives-Ends plain page addresses disk (bytes "lopez") floats-IsFinite main_rank 2
      (bytes "m") (bytes "l") (bytes "r") refl disk-Ranked disk-ParsesCalmly disk-ReadsBelow
      (omega arith)
