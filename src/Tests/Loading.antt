-- ===== src/Tests/Loading.antt =====
-- Loading a module that imports itself.
use lopez.Prelude.{
  Text, bytes, join, is_empty, none, [], ◌∷◌, ◌++◌, if◌then◌else◌, ◌≡◌, refl, sym, subst,
}
use lopez.Directives.Names.{canonical_path, canonical_parts}
use lopez.Directives.Loading.{
  Files, FileRead, content, import, parsed, module_paths, sub_module_name, read_from_many,
  load_items_from, load,
}
use lopez.Directives.Loading.Cycle.{load-cycle, FirstImport}

-- Paths are texts, and a file is empty or one import.
abbrev read_with : (Text → FileRead) → Files
read_with read = record {
  FilePath = Text;
  of_parts = join (bytes "/");
  join_path = λ p q. p ++ (bytes "/" ++ q);
  with_extension = λ p e. p ++ (bytes "." ++ e);
  read_to_string = read;
  Other = Unit;
  entrypoint = λ s. parsed (if is_empty s then [] else import s ∷ []);
}

-- A module `a` that imports itself.
abbrev self_import : Files
self_import = read_with λ p. content (bytes "root.a")

self_import-FirstImport : FirstImport self_import (bytes "r" ∷ []) (bytes "a") (bytes "a")
unfolding load_items_from read_from_many sub_module_name canonical_path canonical_parts
    mathlib.Core.List.flat_map
self_import-FirstImport = record {
  before = [];
  path = bytes "root.a";
  behind = [];
  reads = refl;
  leads = refl;
}

load-cycle_example :
    load self_import
      (bytes "r" ∷ [])
      100
      (bytes "a")
      []
      (module_paths self_import (bytes "r" ∷ []) (bytes "a"))
    ≡ none
load-cycle_example =
    load-cycle self_import (bytes "r" ∷ []) (λ n. n ≡ bytes "a")
      (λ name c.
        subst
          (λ n. (sub : Text) × FirstImport self_import (bytes "r" ∷ []) n sub × (sub ≡ bytes "a"))
          (sym c) (bytes "a", self_import-FirstImport, refl))
      100 (bytes "a") [] (λ n c. refl) refl
