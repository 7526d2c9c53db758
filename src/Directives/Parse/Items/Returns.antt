-- ===== src/Directives/Parse/Items/Returns.antt =====
-- `entrypoint` returns, with items or with an error, except where a CSS selector makes it panic.
use lopez.Prelude.{ℕ, suc, Text, length, List, none, ok, err, arith, ◌≡◌, refl}
use lopez.Extern.{Extern}
use lopez.Urls.{Urls}
use lopez.Nom.{Nom, IsNom, IResult, Goes, panicked, error, failure, incomplete, spent}
use lopez.Nom.Eats.{Eats, Anything}
use lopez.Nom.Eats.Rules.{
  ◌&◌, Eats-tag, Eats-is_not, Eats-map, Eats-tuple, Eats-alt, Eats-opt, Eats-many0,
  Eats-all_consuming, Eats-weaken, Eats-forget,
}
use lopez.Expressions.Parse.Total.{sign}
use lopez.Expressions.Parse.Total.Aggregators.{Eats-aggregator_expression}
use lopez.Directives.HtmlExtractor.{Dom, html_extraction}
use lopez.Directives.ParseCommon.Eats.{Eats-whitespace, Eats-trailing}
use lopez.Directives.Parse.{extractor, identifier, string_directive}
use lopez.Directives.Parse.Total.{
  Eats-identified_value, Eats-block, Eats-in_directive, Eats-string_directive, Eats-flag_directive,
  Eats-literal, Eats-css_selector, Eats-extractor,
}
use lopez.Directives.Parse.Items.{
  rule_set, module_path, seed, boundary, set_variable, web_driver, item, items, entrypoint,
}
use lopez.Directives.ParseUtils.{map_iresult}

module _ {ext : Extern} {nom : Nom ext} (law : IsNom nom) (dom : Dom) (urls : Urls) where
  Eats-rule_set : (n : ℕ) → Eats 0 n Anything (rule_set nom dom urls n)
  unfolding rule_set html_extraction
  Eats-rule_set n =
      let extractors = Eats-extractor law dom n in
      let rules = Eats-identified_value law n (
        Eats-aggregator_expression law (html_extraction ext dom) (extractor nom dom n) n
          extractors) in
      let in_page = Eats-forget (Eats-opt law (Eats-trailing law (Eats-in_directive law n))) in
      let head = Eats-forget (
        Eats-tuple law (sign law n _ _)
          (Eats-forget (Eats-tuple law in_page (Eats-weaken (Eats-css_selector law dom n _))))) in
      Eats-map law (Eats-block law head rules) (λ _ _. tt)

  module _ {A : Type 0} (n : ℕ) (tags : List Text) (f : Text → A) where
    Eats-directive : Eats 0 n Anything (nom.map (string_directive nom tags) f)
    Eats-directive = Eats-map law (Eats-string_directive law n tags) (λ _ _. tt)

  Eats-boundary : (n : ℕ) → Eats 0 n Anything (boundary nom dom urls)
  unfolding boundary
  Eats-boundary n = Eats-alt law _ _ (Eats-directive n _ _) (
      Eats-directive n _ _
      & Eats-directive n _ _
      & Eats-directive n _ _
      & Eats-map law (Eats-flag_directive law n _) (λ _ _. tt)
      & Eats-directive n _ _
      & tt)

  Eats-set_variable : (n : ℕ) → Eats 0 n Anything (set_variable nom dom urls n)
  unfolding set_variable identifier
  Eats-set_variable n =
      Eats-map law
        (Eats-tuple law (sign law n _ _) (
          Eats-tuple law (Eats-trailing law (Eats-weaken (Eats-is_not law n _))) (
            Eats-tuple law (sign law n _ _) (
              Eats-tuple law (Eats-trailing law (Eats-literal law n))
                (Eats-weaken (Eats-tag law n _ _))))))
        (λ _ _. tt)

  Eats-item : (n : ℕ) → Eats 0 n Anything (item nom dom urls n)
  unfolding item module_path seed web_driver
  Eats-item n = Eats-alt law _ _ (Eats-map law (Eats-rule_set n) (λ _ _. tt)) (
      Eats-map law (Eats-directive n _ _) (λ _ _. tt)
      & Eats-map law (Eats-directive n _ _) (λ _ _. tt)
      & Eats-map law (Eats-boundary n) (λ _ _. tt)
      & Eats-map law (Eats-set_variable n) (λ _ _. tt)
      & Eats-map law (Eats-directive n _ _) (λ _ _. tt)
      & tt)

  Eats-items : (n : ℕ) → Eats 0 n Anything (items nom dom urls n)
  unfolding items
  Eats-items n = Eats-all_consuming law (
      Eats-map law
        (Eats-tuple law (Eats-whitespace law n) (Eats-many0 law (Eats-trailing law (Eats-item n))))
        (λ _ _. tt))

  map_iresult-none :
      {A : Type 0} (i : Text) (r : IResult A)
      → Goes 0 Anything i r
      → map_iresult nom i r ≡ none
      → r ≡ err panicked
  unfolding map_iresult
  map_iresult-none i (ok (rest, a)) h e = absurd (cc)
  map_iresult-none i (err (error input kind)) h e = absurd (cc)
  map_iresult-none i (err (failure input kind)) h e = absurd (cc)
  map_iresult-none i (err incomplete) h e = absurd h
  map_iresult-none i (err panicked) h e = refl
  map_iresult-none i (err spent) h e = absurd h

  -- Reading the directives of a file ends with items or with an error for every text, except where
  -- a parser inside it panics: the model's depth of calls, one more than the text is long, is never
  -- used up, and no error is left that cannot be reported.
  pub entrypoint-none :
      (i : Text)
      → entrypoint nom dom urls i ≡ none
      → items nom dom urls (suc (length i)) i ≡ err panicked
  unfolding entrypoint
  entrypoint-none i e =
      map_iresult-none i (items nom dom urls (suc (length i)) i)
        ((Eats-items (suc (length i))).go i (omega arith)) e
