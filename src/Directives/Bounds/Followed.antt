-- ===== src/Directives/Bounds/Followed.antt =====
-- The links that a page contributes under the boundaries of the directives.
use lopez.Prelude.{Text, true, false, List, All, ◌≡◌, sym, subst, ◌∙◌}
use lopez.Prelude.Sort.{Member}
use lopez.Extern.{Extern}
use lopez.Urls.{Urls, HasQueries, IsOrdered}
use lopez.Crawler.Reason.{Reason}
use lopez.Crawler.Boundaries.{Link, clean_links}
use lopez.Crawler.Boundaries.Links.{clean_links_iff}
use lopez.Directives.Bounds.{Bounds, keeps_param, is_allowed, is_frontier, as_boundaries}
use lopez.Directives.Bounds.Params.{filter_query_params-idempotent, filter_query_params-All}

-- What every link that is followed obeys.
abbrev pub IsInside : {ext : Extern} (urls : Urls) → Bounds ext → urls.Url → Type 0
IsInside urls self url =
    (is_allowed urls self url ≡ true)
    × All (λ pair. keeps_param self pair ≡ true) (urls.query_pairs url)

-- Under the boundaries of the directives, every link that `clean_links` gives is allowed as it
-- stands and has only the query parameters that are used and not ignored; and a page on the frontier
-- gives none. URLs are ordered, and setting a query sets its pairs and nothing else.
pub clean_links-IsInside :
    {ext : Extern} (urls : Urls) (order : IsOrdered urls) (queries : HasQueries urls)
    (self : Bounds ext) (page_url : urls.Url) (links : List (Reason × Text)) (l : Link urls)
    → Member l (clean_links urls (as_boundaries urls self) page_url links)
    → (is_frontier urls self page_url ≡ false) × IsInside urls self l.1
clean_links-IsInside urls order queries self page_url links l m =
    let (inside, (raw, url, _, _, a, e)) =
      (clean_links_iff urls order (as_boundaries urls self) page_url links l).0.0 m in
    let once = e ∙ filter_query_params-idempotent urls queries self url in
    (
      inside,
      subst (IsInside urls self) (sym once) (a, filter_query_params-All urls queries self url),
    )
