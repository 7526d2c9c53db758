-- ===== src/Directives/Loading/Cycle.antt =====
-- Modules that import each other in a circle.
use lopez.Prelude.{ℕ, suc, zero, Text, false, none, List, [], ◌∷◌, ◌++◌, map, ok, ◌≡◌, refl}
use lopez.Directives.Loading.{
  Files, Item, import, other, Modules, Loaded, contains_key, load_items_from, module_paths,
  sub_module_name, load_imports, load,
}

module _ (files : Files) (roots : List files.FilePath) where
  -- Where the first import of a module leads: the module is read from its paths.
  pub record FirstImport (name sub : Text) : Type 0 where
    pub before : List files.Other
    pub path : Text
    pub behind : List (Item files.Other)
    pub reads :
        load_items_from files name (module_paths files roots name)
        ≡ ok (map other before ++ (import path ∷ behind))
    pub leads : sub_module_name files name path ≡ ok sub

  load_imports-other :
      (load_one : Text → Modules files → List files.FilePath → Loaded files) (name : Text)
      (before : List files.Other) (items : List (Item files.Other)) (modules : Modules files)
      → load_imports files roots load_one name (map other before ++ items) modules
        ≡ load_imports files roots load_one name items modules
  unfolding load_imports
  load_imports-other load_one name [] items modules = refl
  load_imports-other load_one name (o ∷ before) items modules =
      load_imports-other load_one name before items modules

  -- If every module of a set has a first import that leads into the set, and none of them is loaded
  -- yet, then the loading of any of them never ends, whatever the fuel: a module is marked as loaded
  -- only behind its imports.
  pub load-cycle :
      (Circle : Text → Type 0)
      → ((name : Text) → Circle name → (sub : Text) × FirstImport name sub × Circle sub)
      → (fuel : ℕ) (name : Text) (modules : Modules files)
      → ((n : Text) → Circle n → contains_key files n modules ≡ false)
      → Circle name
      → load files roots fuel name modules (module_paths files roots name) ≡ none
  unfolding load load_imports
  load-cycle Circle leads_on zero name modules fresh c = refl
  load-cycle Circle leads_on (suc fuel) name modules fresh c =
      let (sub, first, c') = leads_on name c in
      rw
        (
          fresh name c,
          first.reads,
          load_imports-other (load files roots fuel) name first.before
              (import first.path ∷ first.behind) modules,
          first.leads,
          load-cycle Circle leads_on fuel sub modules fresh c',
        )
        refl
