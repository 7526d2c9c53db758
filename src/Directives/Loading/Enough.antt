-- ===== src/Directives/Loading/Enough.antt =====
-- How much fuel modules need that import each other in no circle.
use lopez.Prelude.{
  ℕ, suc, zero, ◌<◌, Text, none, some, List, [], ◌∷◌, Result, ok, err, All, ◌≡◌, ◌≢◌, refl, arith,
  Bool-cases, inl, inr,
}
use lopez.Directives.Loading.{
  Files, Item, import, other, Modules, Loaded, LoadError, Stop, error, parser_panicked,
  contains_key, load_items_from, module_paths, sub_module_name, load_imports, load_named, load_with,
  then_load, load,
}

module _ (files : Files) (roots : List files.FilePath) (rank : Text → ℕ) where
  -- An item imports only modules below the rank of its own.
  abbrev pub ImportsBelow : Text → Item files.Other → Type 0
  ImportsBelow name (import path) =
      (sub : Text) → sub_module_name files name path ≡ ok sub → rank sub < rank name
  ImportsBelow name (other item) = Unit

  -- What a module is read with imports only modules below it.
  abbrev pub ReadsBelow : Text → List files.FilePath → Type 0
  ReadsBelow name paths =
      (items : List (Item files.Other))
      → load_items_from files name paths ≡ ok items
      → All (ImportsBelow name) items

  -- All modules that are found from the roots import only modules below them.
  abbrev pub Ranked : Type 0
  Ranked = (name : Text) → ReadsBelow name (module_paths files roots name)

  abbrev Ends : Loaded files → Type 0
  Ends none = ⊥
  Ends (some (err parser_panicked)) = ⊥
  Ends (some r) = Unit

  then_load-Ends :
      (l : Loaded files) (next : Modules files → Loaded files)
      → Ends l
      → ((modules : Modules files) → Ends (next modules))
      → Ends (then_load files l next)
  then_load-Ends none next h k = absurd h
  then_load-Ends (some (err (error e))) next h k = tt
  then_load-Ends (some (err parser_panicked)) next h k = absurd h
  then_load-Ends (some (ok modules)) next h k = k modules

  load_named-Ends :
      (load_one : Text → Modules files → List files.FilePath → Loaded files)
      (modules : Modules files) (r : Result LoadError Text)
      → ((sub : Text) → r ≡ ok sub → Ends (load_one sub modules (module_paths files roots sub)))
      → Ends (load_named files roots load_one modules r)
  load_named-Ends load_one modules (ok sub) h = h sub refl
  load_named-Ends load_one modules (err e) h = tt

  load_imports-Ends :
      (load_one : Text → Modules files → List files.FilePath → Loaded files) (name : Text)
      → ((sub : Text) (modules : Modules files)
          → rank sub < rank name
          → Ends (load_one sub modules (module_paths files roots sub)))
      → (items : List (Item files.Other)) (modules : Modules files) → All (ImportsBelow name) items
      → Ends (load_imports files roots load_one name items modules)
  unfolding load_imports
  load_imports-Ends load_one name ends [] modules h = tt
  load_imports-Ends load_one name ends (import path ∷ items) modules (h, hs) =
      then_load-Ends (load_named files roots load_one modules (sub_module_name files name path)) _
        (load_named-Ends load_one modules (sub_module_name files name path)
          (λ sub e. ends sub modules (h sub e)))
        (λ loaded. load_imports-Ends load_one name ends items loaded hs)
  load_imports-Ends load_one name ends (other item ∷ items) modules (h, hs) =
      load_imports-Ends load_one name ends items modules hs

  load_with-Ends :
      (load_one : Text → Modules files → List files.FilePath → Loaded files) (name : Text)
      (modules : Modules files) (r : Result Stop (List (Item files.Other)))
      → ((sub : Text) (modules : Modules files)
          → rank sub < rank name
          → Ends (load_one sub modules (module_paths files roots sub)))
      → ((items : List (Item files.Other)) → r ≡ ok items → All (ImportsBelow name) items)
      → r ≢ err parser_panicked
      → Ends (load_with files roots load_one name modules r)
  load_with-Ends load_one name modules (err (error e)) ends h calm = tt
  load_with-Ends load_one name modules (err parser_panicked) ends h calm = absurd (calm refl)
  load_with-Ends load_one name modules (ok items) ends h calm =
      then_load-Ends (load_imports files roots load_one name items modules) _
        (load_imports-Ends load_one name ends items modules (h items refl)) (λ loaded. tt)

  -- No file that is read makes the parser panic.
  abbrev pub ParsesCalmly : Type 0
  ParsesCalmly =
      (name : Text) (paths : List files.FilePath)
      → load_items_from files name paths ≢ err parser_panicked

  load-Ends :
      Ranked
      → ParsesCalmly
      → (fuel : ℕ) (name : Text) (modules : Modules files) (paths : List files.FilePath)
      → ReadsBelow name paths
      → rank name < fuel
      → Ends (load files roots fuel name modules paths)
  unfolding load
  load-Ends ranked calm zero name modules paths reads h = absurd (omega arith)
  load-Ends ranked calm (suc fuel) name modules paths reads h =
      elim (Bool-cases (contains_key files name modules)) [
        | inl loaded ↦ rw loaded tt
        | inr fresh ↦ rw fresh (
            load_with-Ends (load files roots fuel) name modules (load_items_from files name paths)
              (λ sub ms below.
                load-Ends ranked calm fuel sub ms (module_paths files roots sub) (ranked sub)
                  (omega arith))
              reads (calm name paths))
      ]

  returned :
      (l : Loaded files)
      → Ends l
      → (r : Result Stop (Modules files)) × (l ≡ some r) × (r ≢ err parser_panicked)
  returned none h = absurd h
  returned (some (ok modules)) h = (_, refl, λ e. absurd (cc))
  returned (some (err (error x))) h = (_, refl, λ e. absurd (cc))
  returned (some (err parser_panicked)) h = absurd h

  -- If the module that is loaded, and all modules that are found from the roots, import only modules
  -- of a lower rank, and no file makes the parser panic, then loading it returns, with modules or an
  -- error, on any fuel above its rank.
  pub load-Ranked :
      (fuel : ℕ) (name : Text) (modules : Modules files) (paths : List files.FilePath)
      → Ranked
      → ParsesCalmly
      → ReadsBelow name paths
      → rank name < fuel
      → (r : Result Stop (Modules files)) × (load files roots fuel name modules paths ≡ some r)
        × (r ≢ err parser_panicked)
  load-Ranked fuel name modules paths ranked calm reads h =
      returned (load files roots fuel name modules paths)
        (load-Ends ranked calm fuel name modules paths reads h)
