-- ===== src/Directives/Load/Sound.antt =====
-- What directives that were loaded are worth, and when loading ends.
use lopez.Prelude.{
  ℕ, ◌<◌, Text, Option, none, some, List, [], ◌∷◌, map, Result, ok, err, ◌≡◌, ◌≢◌, ◌⊎◌, inl, inr,
  Option-cases, filter_map, refl, subst, ◌∙◌, ap,
}
use lopez.Prelude.Outcome.{ok-injective}
use lopez.Prelude.Panic.{◌>>=◌}
use lopez.Extern.{Extern, IsFinite}
use lopez.Urls.{Urls}
use lopez.Nom.{Nom}
use lopez.Directives.HtmlExtractor.{Dom, Selector, html_extraction}
use lopez.Directives.Variable.Laws.{find_bad_set_variable_values-total}
use lopez.Directives.Bounds.{boundaries}
use lopez.Directives.Validation.{as_boundary, all_items, set_variables, validate}
use lopez.Directives.Validation.Passed.{IsValid, validate-IsValid}
use lopez.Directives.Loading
use lopez.Directives.Loading.{Stop, error, parser_panicked, Loaded, load}
use lopez.Directives.Loading.Inserted.{Has, Closed}
use lopez.Directives.Loading.Closed.{load-Closed}
use lopez.Directives.Loading.Enough.{ParsesCalmly, Ranked, ReadsBelow, load-Ranked}
use lopez.Directives.Load.{
  FileSystem, Modules, AnyIssue, files, Directives, DirectivesError, Outcome, returned, panicked,
  module_of, validated, check, load_under, load_directives,
}

then_total :
    {A B : Type 0} {o : Option A} (f : A → B)
    → (a : A) × (o ≡ some a)
    → (b : B) × ((o >>= λ a. some (f a)) ≡ some b)
then_total f (a, e) = (f a, rw e refl)

module _ {ext : Extern} (nom : Nom ext) (dom : Dom) (urls : Urls) (fs : FileSystem)
    (default : Text) where
  -- What is used of directives: they are valid, their main module is loaded, and so is the module of
  -- every import.
  pub record IsLoaded (directives : Directives nom dom urls) : Type 0 where
    pub valid : IsValid (html_extraction ext dom) urls (Selector dom) default directives.modules
    pub closed :
        (loaded : Loading.Modules (files nom dom urls fs)) × (directives.modules
          ≡ map (module_of nom dom urls) loaded)
        × Has (files nom dom urls fs) [] loaded
        × Closed (files nom dom urls fs) loaded loaded

  abbrev checked : Modules nom dom urls → Option (List (AnyIssue nom dom urls))
  checked modules = validate (html_extraction ext dom) urls (Selector dom) default modules

  -- The sets of regular expressions of the boundaries cannot be built.
  abbrev pub TooBig : Modules nom dom urls → Type 0
  TooBig modules =
      boundaries (
        filter_map (as_boundary (html_extraction ext dom) urls (Selector dom))
          (all_items (html_extraction ext dom) urls (Selector dom) modules))
      ≡ none

  validate-total :
      IsFinite ext
      → (modules : Modules nom dom urls)
      → TooBig modules ⊎ ((issues : List (AnyIssue nom dom urls)) × (checked modules ≡ some issues))
  unfolding validate
  validate-total finite modules =
      elim (Option-cases (
        boundaries (
          filter_map (as_boundary (html_extraction ext dom) urls (Selector dom))
            (all_items (html_extraction ext dom) urls (Selector dom) modules)))) [
              | inl fails ↦ inl fails
              | inr (bounds, built) ↦
                  let set = set_variables (html_extraction ext dom) urls (Selector dom) modules in
                  inr (
                    rw built (then_total _ (find_bad_set_variable_values-total finite default set)))
            ]

  validate-TooBig : (modules : Modules nom dom urls) → TooBig modules → checked modules ≡ none
  unfolding validate
  validate-TooBig modules e = rw e refl

  -- How the loading of these modules ends: it panics, for their boundaries are too big, or it returns
  -- what is worth something.
  abbrev pub Ends : Loaded (files nom dom urls fs) → Outcome nom dom urls → Type 0
  Ends loading l =
      ((loaded : Loading.Modules (files nom dom urls fs)) × (loading ≡ some (ok loaded))
        × TooBig (map (module_of nom dom urls) loaded)
        × (l ≡ panicked))
      ⊎ ((r : Result (DirectivesError nom dom urls) (Directives nom dom urls)) × (l ≡ returned r)
          × ((directives : Directives nom dom urls) → r ≡ ok directives → IsLoaded directives))

  validated-IsLoaded :
      (loaded : Loading.Modules (files nom dom urls fs)) (issues : List (AnyIssue nom dom urls))
      → checked (map (module_of nom dom urls) loaded) ≡ some issues
      → Has (files nom dom urls fs) [] loaded
      → Closed (files nom dom urls fs) loaded loaded
      → (directives : Directives nom dom urls)
      → validated nom dom urls (record { modules = map (module_of nom dom urls) loaded }) issues
        ≡ ok directives
      → IsLoaded directives
  validated-IsLoaded loaded [] e has closed directives q = subst IsLoaded (ok-injective q) (record {
    valid = validate-IsValid (html_extraction ext dom) urls (Selector dom) default _ e;
    closed = (loaded, refl, has, closed);
  })
  validated-IsLoaded loaded (issue ∷ issues) e has closed directives q = absurd (cc)

  check-Ends :
      IsFinite ext
      → (r : Result Stop (Loading.Modules (files nom dom urls fs))) → r ≢ err parser_panicked
      → ((loaded : Loading.Modules (files nom dom urls fs))
          → r ≡ ok loaded
          → Has (files nom dom urls fs) [] loaded × Closed (files nom dom urls fs) loaded loaded)
      → Ends (some r) (check nom dom urls fs default r)
  unfolding check
  check-Ends finite (err (error e)) calm h = inr (_, refl, λ directives q. absurd (cc))
  check-Ends finite (err parser_panicked) calm h = absurd (calm refl)
  check-Ends finite (ok loaded) calm h =
      elim (validate-total finite (map (module_of nom dom urls) loaded)) [
        | inl big ↦
            let fails = validate-TooBig (map (module_of nom dom urls) loaded) big in
            inl (loaded, refl, big, rw fails refl)
        | inr (issues, e) ↦
            let (has, closed) = h loaded refl in
            inr (_, rw e refl, validated-IsLoaded loaded issues e has closed)
      ]

  -- If JSON numbers are finite, the path has a parent, the modules that are found import each other in
  -- no circle, and no file makes the parser panic, then loading the directives comes to an end on
  -- enough fuel. It panics only if the regular expressions of the boundaries are too big for a set;
  -- otherwise it returns, and directives that it returns are valid, and hold the main module and the
  -- module of every import.
  pub load_directives-Ends :
      IsFinite ext
      → (rank : Text → ℕ) (fuel : ℕ) (path imports parent : fs.FilePath)
      → fs.parent path ≡ some parent
      → Ranked (files nom dom urls fs) (parent ∷ imports ∷ []) rank
      → ParsesCalmly (files nom dom urls fs) (parent ∷ imports ∷ []) rank
      → ReadsBelow (files nom dom urls fs) (parent ∷ imports ∷ []) rank [] (path ∷ [])
      → rank [] < fuel
      → Ends
          (load (files nom dom urls fs) (parent ∷ imports ∷ []) fuel [] [] (path ∷ []))
          (load_directives nom dom urls fs default fuel path imports)
  unfolding load_directives load_under
  load_directives-Ends finite rank fuel path imports parent p ranked calm reads enough =
      let (r, e, still) =
        load-Ranked (files nom dom urls fs) (parent ∷ imports ∷ []) rank fuel [] [] (path ∷ [])
          ranked calm reads enough in
      rw (p, e)
        (check-Ends finite r still (λ loaded q.
          let (has, closed, keeps) =
            load-Closed (files nom dom urls fs) (parent ∷ imports ∷ []) fuel [] [] loaded
              (path ∷ []) (e ∙ ap some q) tt in
          (has, closed)))
