-- ===== src/Directives/Bounds.antt =====
-- lib-lopez/src/directives/directives.rs: the boundaries of a crawl, gathered from the items of all
-- modules, and how they stand in for the trait of the crawler (directives/mod.rs).
pub mod Params
pub mod Followed
use lopez.Prelude.{
  Text, text_eq, is_empty, Bool, true, false, not, ◌&&◌, ◌||◌, List, [], ◌∷◌, any, filter, map,
  filter_map, Option, none, some, if◌then◌else◌,
}
use lopez.Prelude.Panic.{◌>>=◌}
use lopez.Extern.{Extern}
use lopez.Urls.{Urls}
use lopez.Crawler.Boundaries

-- `Boundary` (directives/parse.rs).
pub data Boundary (ext : Extern) : Type 0 where
  allowed disallowed frontier : ext.Regex → Boundary ext
  use_param ignore_param : Text → Boundary ext
  use_all_params : Boundary ext

-- `Boundaries`.
pub record Bounds (ext : Extern) : Type 0 where
  pub allowed_set : ext.RegexSet
  pub disallowed_set : ext.RegexSet
  pub frontier_set : ext.RegexSet
  pub use_params : List Text
  pub ignore_params : List Text
  pub all_params : Bool

-- The query is removed where no pair is left.
abbrev pub set_params : (urls : Urls) → urls.Url → List (Text × Text) → urls.Url
set_params urls url [] = urls.without_query url
set_params urls url (p ∷ ps) = urls.with_pairs url (p ∷ ps)

module _ {ext : Extern} where
  abbrev allowed_text : Boundary ext → Option Text
  allowed_text (allowed rx) = some (ext.regex_text rx)
  allowed_text b = none

  abbrev disallowed_text : Boundary ext → Option Text
  disallowed_text (disallowed rx) = some (ext.regex_text rx)
  disallowed_text b = none

  abbrev frontier_text : Boundary ext → Option Text
  frontier_text (frontier rx) = some (ext.regex_text rx)
  frontier_text b = none

  abbrev used_param : Boundary ext → Option Text
  used_param (use_param param) = some param
  used_param b = none

  abbrev ignored_param : Boundary ext → Option Text
  ignored_param (ignore_param param) = some param
  ignored_param b = none

  abbrev uses_all : Boundary ext → Bool
  uses_all use_all_params = true
  uses_all b = false

  -- `boundaries`, on the boundaries among the items: each loop variable is gathered by itself. A set
  -- of regular expressions that cannot be built is a panic.
  unfoldable pub boundaries : List (Boundary ext) → Option (Bounds ext)
  boundaries bs = ext.new_set (filter_map allowed_text bs) >>= λ allowed_set.
      ext.new_set (filter_map disallowed_text bs) >>= λ disallowed_set.
      ext.new_set (filter_map frontier_text bs) >>= λ frontier_set. some (record {
        allowed_set = allowed_set;
        disallowed_set = disallowed_set;
        frontier_set = frontier_set;
        use_params = filter_map used_param bs;
        ignore_params = filter_map ignored_param bs;
        all_params = any uses_all bs;
      })

  -- The test of `filter_query_params` on the key of a pair.
  abbrev pub keeps_param : Bounds ext → Text × Text → Bool
  keeps_param self pair =
      (self.all_params || any (λ use_param. text_eq use_param pair.0) self.use_params)
      && not (any (λ ignore_param. text_eq ignore_param pair.0) self.ignore_params)

  module _ (urls : Urls) where
    open urls use {Url, url_text, query_pairs}

    unfoldable pub is_allowed : Bounds ext → Url → Bool
    is_allowed self url =
        ext.set_matches self.allowed_set (url_text url)
        && not (ext.set_matches self.disallowed_set (url_text url))

    unfoldable pub is_frontier : Bounds ext → Url → Bool
    is_frontier self url = ext.set_matches self.frontier_set (url_text url)

    unfoldable pub filter_query_params : Bounds ext → Url → Url
    filter_query_params self url = set_params urls url (filter (keeps_param self) (query_pairs url))

    -- `impl Boundaries for DirectivesBoundaries`.
    abbrev pub as_boundaries : Bounds ext → lopez.Crawler.Boundaries.Boundaries urls
    as_boundaries self = record {
      is_allowed = is_allowed self;
      is_frontier = is_frontier self;
      clean_query_params = filter_query_params self;
    }

    -- `find_invalid_seeds`, on the seeds among the items.
    abbrev pub rejects_seed : Bounds ext → Url → Bool
    rejects_seed self url = not (is_allowed self url) || is_frontier self url

    unfoldable pub find_invalid_seeds : Bounds ext → List Url → List Url
    find_invalid_seeds self seeds =
        filter (rejects_seed self) (map (filter_query_params self) seeds)
