-- ===== src/Directives/Loading/Closed.antt =====
-- Which modules are loaded at the end.
use lopez.Prelude.{
  ℕ, suc, zero, Text, none, some, List, [], ◌∷◌, Result, ok, err, All, ◌≡◌, subst, Bool-cases, inl,
  inr,
}
use lopez.Prelude.Outcome.{ok-injective}
use lopez.Directives.Loading.{
  Files, Item, import, other, Modules, Loaded, LoadError, Stop, contains_key, load_items_from,
  module_paths, sub_module_name, insert_module, load_imports, load_named, load_with, then_load,
  load,
}
use lopez.Directives.Loading.Inserted.{
  Has, Keeps, ImportIn, Closed, ImportsIn-Keeps, Closed-Keeps, insert_module-Has,
  insert_module-Closed,
}

module _ (files : Files) where
  -- What a load of modules into `ms` owes.
  abbrev Grows : (Modules files → Type 0) → Modules files → Loaded files → Type 0
  Grows P ms none = Unit
  Grows P ms (some (err e)) = Unit
  Grows P ms (some (ok ms')) =
      P ms' × (Closed files ms ms → Closed files ms' ms') × Keeps files ms ms'

  Grows-map :
      (P Q : Modules files → Type 0) (ms : Modules files) (l : Loaded files)
      → Grows P ms l
      → ((ms' : Modules files) → P ms' → Keeps files ms ms' → Q ms')
      → Grows Q ms l
  Grows-map P Q ms none h k = tt
  Grows-map P Q ms (some (err e)) h k = tt
  Grows-map P Q ms (some (ok ms')) (p, c, g) k = (k ms' p g, c, g)

  then_load-Grows :
      (P Q : Modules files → Type 0) (ms : Modules files) (l : Loaded files)
      (next : Modules files → Loaded files)
      → Grows P ms l
      → ((ms' : Modules files) → P ms' → Grows Q ms' (next ms'))
      → Grows Q ms (then_load files l next)
  then_load-Grows P Q ms none next h k = tt
  then_load-Grows P Q ms (some (err e)) next h k = tt
  then_load-Grows P Q ms (some (ok ms')) next (p, c, g) k = go (next ms') (k ms' p)
    where
      go : (l : Loaded files) → Grows Q ms' l → Grows Q ms l
      go none h = tt
      go (some (err e)) h = tt
      go (some (ok ms'')) (q, c', g') = (q, (λ x. c' (c x)), λ n x. g' n (g n x))

  module _ (roots : List files.FilePath) where
    -- One call of `load` leaves its module loaded.
    abbrev LoadsOne : (Text → Modules files → List files.FilePath → Loaded files) → Type 0
    LoadsOne load_one =
        (name : Text) (ms : Modules files) (paths : List files.FilePath)
        → Grows (Has files name) ms (load_one name ms paths)

    -- Whatever name the import has, it is loaded.
    abbrev Named : Result LoadError Text → Modules files → Type 0
    Named r ms = (sub : Text) → r ≡ ok sub → Has files sub ms

    load_named-Grows :
        (load_one : Text → Modules files → List files.FilePath → Loaded files)
        → LoadsOne load_one
        → (r : Result LoadError Text) (ms : Modules files)
        → Grows (Named r) ms (load_named files roots load_one ms r)
    load_named-Grows load_one h (err e) ms = tt
    load_named-Grows load_one h (ok name) ms =
        Grows-map (Has files name) (Named (ok name)) ms
          (load_one name ms (module_paths files roots name))
          (h name ms (module_paths files roots name))
          (λ ms' p _ sub e. subst (λ n. Has files n ms') (ok-injective e) p)

    load_imports-Grows :
        (load_one : Text → Modules files → List files.FilePath → Loaded files)
        → LoadsOne load_one
        → (name : Text) (items : List (Item files.Other)) (ms : Modules files)
        → Grows
            (λ ms'. All (ImportIn files ms' name) items)
            ms
            (load_imports files roots load_one name items ms)
    unfolding load_imports
    load_imports-Grows load_one h name [] ms = (tt, (λ c. c), λ n x. x)
    load_imports-Grows load_one h name (import path ∷ items) ms =
        let r = sub_module_name files name path in
        then_load-Grows (Named r) (λ ms'. All (ImportIn files ms' name) (import path ∷ items)) ms
          (load_named files roots load_one ms r) (load_imports files roots load_one name items)
          (load_named-Grows load_one h r ms)
          (λ ms1 named.
            Grows-map (λ ms'. All (ImportIn files ms' name) items)
              (λ ms'. All (ImportIn files ms' name) (import path ∷ items)) ms1
              (load_imports files roots load_one name items ms1)
              (load_imports-Grows load_one h name items ms1)
              (λ ms2 rest keeps. ((λ sub e. keeps sub (named sub e)), rest)))
    load_imports-Grows load_one h name (other item ∷ items) ms =
        Grows-map (λ ms'. All (ImportIn files ms' name) items)
          (λ ms'. All (ImportIn files ms' name) (other item ∷ items)) ms
          (load_imports files roots load_one name items ms)
          (load_imports-Grows load_one h name items ms) (λ ms' rest _. (tt, rest))

    insert_module-Grows :
        (name : Text) (items : List (Item files.Other)) (ms : Modules files)
        → All (ImportIn files ms name) items
        → Grows (Has files name) ms (some (ok (insert_module files (name, items) ms)))
    insert_module-Grows name items ms h =
        let all = insert_module files (name, items) ms in
        let (has, keeps) = insert_module-Has files (name, items) ms in
        (
          has,
          (λ closed.
              insert_module-Closed files all (name, items) ms
                (ImportsIn-Keeps files ms all name items keeps h)
                (Closed-Keeps files ms all ms keeps closed)),
          keeps,
        )

    load_with-Grows :
        (load_one : Text → Modules files → List files.FilePath → Loaded files)
        → LoadsOne load_one
        → (name : Text) (ms : Modules files) (r : Result Stop (List (Item files.Other)))
        → Grows (Has files name) ms (load_with files roots load_one name ms r)
    load_with-Grows load_one h name ms (err e) = tt
    load_with-Grows load_one h name ms (ok items) =
        then_load-Grows (λ ms'. All (ImportIn files ms' name) items) (Has files name) ms
          (load_imports files roots load_one name items ms) _
          (load_imports-Grows load_one h name items ms)
          (λ ms' imported. insert_module-Grows name items ms' imported)

    load-Grows : (fuel : ℕ) → LoadsOne (load files roots fuel)
    unfolding load
    load-Grows zero name ms paths = tt
    load-Grows (suc fuel) name ms paths = elim (Bool-cases (contains_key files name ms)) [
      | inl loaded ↦ rw loaded (loaded, (λ c. c), λ n x. x)
      | inr fresh ↦ rw fresh (
          load_with-Grows (load files roots fuel) (load-Grows fuel) name ms
            (load_items_from files name paths))
    ]

    -- Where loading succeeds, the module is loaded, every import of every loaded module is loaded
    -- under its canonical name if that held before, and what was loaded before still is.
    pub load-Closed :
        (fuel : ℕ) (name : Text) (ms ms' : Modules files) (paths : List files.FilePath)
        → load files roots fuel name ms paths ≡ some (ok ms')
        → Closed files ms ms
        → Has files name ms' × Closed files ms' ms' × Keeps files ms ms'
    load-Closed fuel name ms ms' paths e closed =
        let (has, c, keeps) = subst (Grows (Has files name) ms) e (load-Grows fuel name ms paths) in
        (has, c closed, keeps)
