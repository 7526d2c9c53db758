-- ===== src/Crawler/Boundaries.antt =====
-- lib-lopez/src/crawler/boundaries.rs: which links of a page are followed.
pub mod CheckedJoin
pub mod Links
use lopez.Prelude.{
  Text, bytes, text_eq, starts_with, is_empty, Bool, true, false, not, ◌&&◌, ◌||◌, Ordering, Option,
  none, some, List, [], ◌∷◌, Result, ok, err, filter, map, filter_map, if◌then◌else◌,
}
use lopez.Prelude.Sort.{sort_unstable, dedup}
use lopez.Urls.{Urls, ParseError, relative_url_without_base, other}
use lopez.Crawler.Reason.{Reason, reason_cmp}

-- The errors of `checked_join`, each with the link that it quotes.
pub data LinkError : Type 0 where
  bad_link unaccepted_scheme no_domain : Text → LinkError

-- `Ord` of pairs.
abbrev pub by_reason : Ordering → Ordering → Ordering
by_reason Ordering.eq rest = rest
by_reason outcome rest = outcome

module _ (urls : Urls) where
  open urls use {Url, parse, join, url_cmp, scheme, domain}

  abbrev pub parse_or_join : Url → Text → Result ParseError Url → Result ParseError Url
  parse_or_join base_url raw (ok url) = ok url
  parse_or_join base_url raw (err relative_url_without_base) = join base_url raw
  parse_or_join base_url raw (err other) = err other

  abbrev pub has_domain : Url → Bool
  has_domain url = elim (domain url) [ none ↦ false | some d ↦ true ]

  abbrev pub check_url : Text → Url → Result LinkError Url
  check_url raw url =
      if is_empty raw || starts_with raw (bytes "#")
      then err (bad_link raw)
      else if not (text_eq (scheme url) (bytes "http"))
          && not (text_eq (scheme url) (bytes "https"))
      then err (unaccepted_scheme raw)
      else if has_domain url
      then ok url
      else err (no_domain raw)

  abbrev pub check_parsed : Text → Result ParseError Url → Result LinkError Url
  check_parsed raw (ok url) = check_url raw url
  check_parsed raw (err e) = err (bad_link raw)

  unfoldable pub checked_join : Url → Text → Result LinkError Url
  checked_join base_url raw = check_parsed raw (parse_or_join base_url raw (parse raw))

  -- The trait `Boundaries`.
  pub record Boundaries : Type 0 where
    pub is_allowed : Url → Bool
    pub is_frontier : Url → Bool
    pub clean_query_params : Url → Url

  abbrev pub Link : Type 0
  Link = Reason × Url

  unfoldable pub link_cmp : Link → Link → Ordering
  unfolding reason_cmp
  link_cmp a b = by_reason (reason_cmp a.0 b.0) (url_cmp a.1 b.1)

  abbrev pub joined_link : Boundaries → Reason → Result LinkError Url → Option Link
  joined_link bounds reason (ok url) = some (reason, bounds.clean_query_params url)
  joined_link bounds reason (err e) = none

  -- The closures of the three steps of `clean_links`.
  abbrev pub join_link : Boundaries → Url → Reason × Text → Option Link
  join_link bounds page_url l = joined_link bounds l.0 (checked_join page_url l.1)

  abbrev pub allows_link : Boundaries → Link → Bool
  allows_link bounds l = bounds.is_allowed l.1

  abbrev pub clean_link : Boundaries → Link → Link
  clean_link bounds l = (l.0, bounds.clean_query_params l.1)

  -- The links that stay, before they are sorted.
  unfoldable pub raw_links : Boundaries → Url → List (Reason × Text) → List Link
  unfolding checked_join
  raw_links bounds page_url links =
      map (clean_link bounds)
        (filter (allows_link bounds) (filter_map (join_link bounds page_url) links))

  unfoldable pub clean_links : Boundaries → Url → List (Reason × Text) → List Link
  unfolding raw_links sort_unstable dedup link_cmp
  clean_links bounds page_url links =
      if bounds.is_frontier page_url
      then []
      else dedup link_cmp (sort_unstable link_cmp (raw_links bounds page_url links))
