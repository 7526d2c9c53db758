-- ===== src/Directives/Load.antt =====
-- `Directives::load` (lib-lopez/src/directives/directives.rs): the modules that a file leads to are
-- read, parsed and validated. What the loaded directives are then asked for: the rules to run on a
-- page, and the pages that need a web driver. The paths of the standard library and the files are
-- parameters.
pub mod Sound
pub mod Analyzer
use lopez.Prelude.{
  ℕ, Text, Bool, Option, none, some, List, [], ◌∷◌, ◌++◌, any, map, filter_map, Result, ok, err,
}
use lopez.Extern.{Extern}
use lopez.Urls.{Urls}
use lopez.Nom.{Nom}
use lopez.Directives.HtmlExtractor.{Dom, Selector, html_extraction}
use lopez.Directives.Validation
use lopez.Directives.Validation.{Item, Issue, validate}
use lopez.Directives.Loading
use lopez.Directives.Loading.{
  FileRead, Parsed, parsed, malformed, uninterpretable, parser_panic, Files, LoadError, Stop, error,
  parser_panicked, import, other,
}
use lopez.Directives.Parse.Items.{HtmlItem, HtmlRuleSet, entrypoint}
use lopez.Directives.ParseUtils

-- Paths and files, as the standard library has them.
pub record FileSystem : Type 1 where
  pub FilePath : Type 0
  pub parent : FilePath → Option FilePath
  pub of_parts : List Text → FilePath
  pub join_path : FilePath → FilePath → FilePath
  pub with_extension : FilePath → Text → FilePath
  pub read_to_string : FilePath → FileRead

module _ {ext : Extern} (nom : Nom ext) (dom : Dom) (urls : Urls) where
  abbrev pub Modules : Type 0
  Modules = Validation.Modules (html_extraction ext dom) urls (Selector dom)

  abbrev pub AnyIssue : Type 0
  AnyIssue = Issue (html_extraction ext dom) urls (Selector dom)

  -- An item, as the loading of modules tells it from others.
  abbrev pub to_import : HtmlItem nom dom urls → Loading.Item (HtmlItem nom dom urls)
  to_import (Item.import path) = import path
  to_import item = other item

  abbrev pub of_import : Loading.Item (HtmlItem nom dom urls) → HtmlItem nom dom urls
  of_import (import path) = Item.import path
  of_import (other item) = item

  abbrev pub parsed_as :
      Option (Result ParseUtils.ParseError (Result Text (List (HtmlItem nom dom urls))))
      → Parsed (List (Loading.Item (HtmlItem nom dom urls)))
  parsed_as none = parser_panic
  parsed_as (some (err e)) = malformed
  parsed_as (some (ok (err e))) = uninterpretable
  parsed_as (some (ok (ok items))) = parsed (map to_import items)

  -- The files of directives, read with the parser.
  abbrev pub files : FileSystem → Files
  files fs = record {
    FilePath = fs.FilePath;
    of_parts = fs.of_parts;
    join_path = fs.join_path;
    with_extension = fs.with_extension;
    read_to_string = fs.read_to_string;
    Other = HtmlItem nom dom urls;
    entrypoint = λ text. parsed_as (entrypoint nom dom urls text);
  }

  pub data DirectivesError : Type 0 where
    root_path : DirectivesError
    not_loaded : LoadError → DirectivesError
    not_valid : List AnyIssue → DirectivesError

  pub record Directives : Type 0 where
    pub modules : Modules

  abbrev pub module_of :
      Text × List (Loading.Item (HtmlItem nom dom urls)) → Text × List (HtmlItem nom dom urls)
  module_of (name, items) = (name, map of_import items)

  -- `validate()?`, and the directives.
  abbrev pub validated : Directives → List AnyIssue → Result DirectivesError Directives
  validated directives [] = ok directives
  validated directives (issue ∷ issues) = err (not_valid (issue ∷ issues))

  -- How the loading goes: it returns, a panic ends it, or the fuel of `Module::load` runs out.
  pub data Outcome : Type 0 where
    returned : Result DirectivesError Directives → Outcome
    panicked running : Outcome

  module _ (fs : FileSystem) (default : Text) where
    abbrev pub checked : Modules → Option (List AnyIssue) → Outcome
    checked modules none = panicked
    checked modules (some issues) = returned (validated (record { modules = modules }) issues)

    unfoldable pub check :
        Result Stop (List (Text × List (Loading.Item (HtmlItem nom dom urls)))) → Outcome
    unfolding validate
    check (err (error e)) = returned (err (not_loaded e))
    check (err parser_panicked) = panicked
    check (ok loaded) =
        let modules = map module_of loaded in
        checked modules (validate (html_extraction ext dom) urls (Selector dom) default modules)

    abbrev pub check_loaded :
        Option (Result Stop (List (Text × List (Loading.Item (HtmlItem nom dom urls))))) → Outcome
    unfolding check
    check_loaded none = running
    check_loaded (some r) = check r

    unfoldable pub load_under : ℕ → fs.FilePath → fs.FilePath → Option fs.FilePath → Outcome
    unfolding Loading.load check
    load_under fuel path imports none = returned (err root_path)
    load_under fuel path imports (some parent) =
        check_loaded (Loading.load (files fs) (parent ∷ imports ∷ []) fuel [] [] (path ∷ []))

    unfoldable pub load_directives : ℕ → fs.FilePath → fs.FilePath → Outcome
    unfolding load_under
    load_directives fuel path imports = load_under fuel path imports (fs.parent path)

  abbrev pub as_rule_set : HtmlItem nom dom urls → Option (HtmlRuleSet nom dom urls)
  as_rule_set (Item.rule_set r) = some r
  as_rule_set item = none

  abbrev pub as_web_driver : HtmlItem nom dom urls → Option ext.Regex
  as_web_driver (Item.web_driver regex) = some regex
  as_web_driver item = none

  abbrev pub under : Text → HtmlRuleSet nom dom urls → Text × HtmlRuleSet nom dom urls
  under name r = (name, r)

  -- `Directives::analyzer`: the rule sets of all modules.
  unfoldable pub analyzer : Modules → List (Text × HtmlRuleSet nom dom urls)
  analyzer [] = []
  analyzer ((name, items) ∷ modules) =
      map (under name) (filter_map as_rule_set items) ++ analyzer modules

  -- `Directives::webdriver_selector`.
  unfoldable pub webdriver_selector : Modules → List ext.Regex
  webdriver_selector [] = []
  webdriver_selector ((name, items) ∷ modules) =
      filter_map as_web_driver items ++ webdriver_selector modules

  unfoldable pub use_webdriver : List ext.Regex → Text → Bool
  use_webdriver rules page_url = any (λ (rule : ext.Regex). ext.is_match rule page_url) rules
