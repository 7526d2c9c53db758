-- ===== src/Directives/Loading.antt =====
-- lib-lopez/src/directives/directives.rs: how the modules of directives are read from files. The
-- paths of the standard library, the files and the parser of a file are parameters. A module may
-- import itself in the end, so that `load` is given fuel, one for each import on the way.
pub mod Cycle
pub mod Enough
pub mod Inserted
pub mod Closed
use lopez.Prelude.{
  ℕ, suc, zero, Text, bytes, text_eq, text_cmp, split, Bool, true, false, ◌||◌, Option, none, some,
  List, [], ◌∷◌, ◌++◌, any, flat_map, map, Ordering, Result, ok, err, if◌then◌else◌,
}
use lopez.Prelude.Outcome
use lopez.Prelude.Panic
use lopez.Directives.Names.{canonical_path}

-- What `fs::read_to_string` gives.
pub data FileRead : Type 0 where
  content : Text → FileRead
  not_found other_error : FileRead

-- An item of a module: an import (`Item::Module`), or any other.
pub data Item (Other : Type 0) : Type 0 where
  import : Text → Item Other
  other : Other → Item Other

-- What `parse::entrypoint` gives: items, a text that cannot be parsed, items that cannot be
-- interpreted, or a panic. The errors are only quoted.
pub data Parsed (A : Type 0) : Type 0 where
  parsed : A → Parsed A
  malformed uninterpretable parser_panic : Parsed A

pub record Files : Type 1 where
  pub FilePath : Type 0
  pub of_parts : List Text → FilePath
  pub join_path : FilePath → FilePath → FilePath
  pub with_extension : FilePath → Text → FilePath
  pub read_to_string : FilePath → FileRead
  pub Other : Type 0
  pub entrypoint : Text → Parsed (List (Item Other))

pub data LoadError : Type 0 where
  could_not_open : (module_name : Text) → LoadError
  failed_to_parse : (module_name : Text) → LoadError
  failed_to_interpret : (module_name : Text) → LoadError
  empty_path : (path : Text) → LoadError

-- Why the loading stops before its end: with an error that it returns, or by a panic of the parser.
pub data Stop : Type 0 where
  error : LoadError → Stop
  parser_panicked : Stop

module _ (files : Files) where
  open files use {FilePath, of_parts, join_path, with_extension, read_to_string, Other, entrypoint}

  -- `read_from_many`: the first file that is found, unless a file before it has another error.
  unfoldable pub read_from_many : List FilePath → Option Text
  read_from_many [] = none
  read_from_many (path ∷ paths) = elim (read_to_string path) [
    | content text ↦ some text
    | not_found ↦ read_from_many paths
    | other_error ↦ none
  ]

  abbrev pub interpreted : Text → Parsed (List (Item Other)) → Result Stop (List (Item Other))
  interpreted module_name (parsed items) = ok items
  interpreted module_name malformed = err (error (failed_to_parse module_name))
  interpreted module_name uninterpretable = err (error (failed_to_interpret module_name))
  interpreted module_name parser_panic = err parser_panicked

  abbrev pub parsed_items : Text → Option Text → Result Stop (List (Item Other))
  parsed_items module_name none = err (error (could_not_open module_name))
  parsed_items module_name (some text) = interpreted module_name (entrypoint text)

  unfoldable pub load_items_from : Text → List FilePath → Result Stop (List (Item Other))
  unfolding read_from_many
  load_items_from module_name paths = parsed_items module_name (read_from_many paths)

  -- `BTreeMap<String, Module>`.
  abbrev pub Modules : Type 0
  Modules = List (Text × List (Item Other))

  abbrev pub contains_key : Text → Modules → Bool
  contains_key name modules = any (λ (m : Text × List (Item Other)). text_eq name m.0) modules

  abbrev pub put_module :
      Ordering → Text × List (Item Other) → Text × List (Item Other) → Modules → Modules → Modules
  put_module Ordering.lt m n ns rest = m ∷ n ∷ ns
  put_module Ordering.eq m n ns rest = m ∷ ns
  put_module Ordering.gt m n ns rest = n ∷ rest

  unfoldable pub insert_module : Text × List (Item Other) → Modules → Modules
  insert_module m [] = m ∷ []
  insert_module m (n ∷ ns) = put_module (text_cmp m.0 n.0) m n ns (insert_module m ns)

  -- The two files in which a root may hold a module.
  abbrev pub paths_in : Text → FilePath → List FilePath
  paths_in module_name root =
      let file_path = join_path root (of_parts (split b'.' module_name)) in
      let folder_path = join_path file_path (of_parts (bytes "module" ∷ [])) in
      with_extension file_path (bytes "lcd") ∷ with_extension folder_path (bytes "lcd") ∷ []

  abbrev pub module_paths : List FilePath → Text → List FilePath
  module_paths roots module_name = flat_map (paths_in module_name) roots

  -- The name of an imported module.
  unfoldable pub sub_module_name : Text → Text → Result LoadError Text
  unfolding canonical_path
  sub_module_name module_name path = elim (canonical_path (module_name ++ (bytes "." ++ path))) [
    | ok name ↦ ok name
    | err p ↦ err (empty_path p)
  ]

  -- What `load` gives, `none` where the fuel ran out.
  abbrev pub Loaded : Type 0
  Loaded = Option (Result Stop Modules)

  -- `?` on a result that may be missing.
  abbrev pub then_load : Loaded → (Modules → Loaded) → Loaded
  then_load none next = none
  then_load (some (err e)) next = some (err e)
  then_load (some (ok modules)) next = next modules

  module _ (roots : List FilePath) where
    abbrev pub load_named :
        (Text → Modules → List FilePath → Loaded) → Modules → Result LoadError Text → Loaded
    load_named load_one modules (err e) = some (err (error e))
    load_named load_one modules (ok name) = load_one name modules (module_paths roots name)

    -- The loop over the items, with the recursive call.
    unfoldable pub load_imports :
        (Text → Modules → List FilePath → Loaded) → Text → List (Item Other) → Modules → Loaded
    unfolding sub_module_name
    load_imports load_one module_name [] modules = some (ok modules)
    load_imports load_one module_name (import path ∷ items) modules =
        then_load (load_named load_one modules (sub_module_name module_name path))
          (load_imports load_one module_name items)
    load_imports load_one module_name (other item ∷ items) modules =
        load_imports load_one module_name items modules

    abbrev pub load_with :
        (Text → Modules → List FilePath → Loaded)
        → Text
        → Modules
        → Result Stop (List (Item Other))
        → Loaded
    load_with load_one module_name modules (err e) = some (err e)
    load_with load_one module_name modules (ok items) =
        then_load (load_imports load_one module_name items modules)
          λ loaded. some (ok (insert_module (module_name, items) loaded))

    unfoldable pub load : ℕ → Text → Modules → List FilePath → Loaded
    unfolding load_items_from load_imports insert_module
    load zero module_name modules paths = none
    load (suc fuel) module_name modules paths =
        let fresh = load_with (load fuel) module_name modules (load_items_from module_name paths) in
        if contains_key module_name modules then some (ok modules) else fresh
