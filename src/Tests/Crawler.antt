-- ===== src/Tests/Crawler.antt =====
-- Links, robots.txt and the tasks of a worker on sample pages.
use lopez.Prelude.{
  ℕ, Text, bytes, true, false, List, [], ◌∷◌, ◌++◌, ok, All, if◌then◌else◌, ◌≡◌, ◌↔◌, refl, inl,
}
use lopez.Prelude.Sort.{Member, StrictlyAscending, sort_unstable, insert_sorted, dedup, dedup_after}
use lopez.Crawler.Reason.{Reason, ahref, reason_cmp}
use lopez.Crawler.Boundaries.{Boundaries, checked_join, raw_links, clean_links, link_cmp}
use lopez.Crawler.Boundaries.CheckedJoin.{IsLink, LeadsTo, checked_join_iff}
use lopez.Crawler.Boundaries.Links.{ComesFrom, clean_links_iff}
use lopez.Directives.Bounds.{
  Bounds, boundaries, as_boundaries, is_allowed, is_frontier, filter_query_params,
}
use lopez.Directives.Bounds.Followed.{IsInside, clean_links-IsInside}
use lopez.Crawler.Robots.{new_match, matches}
use lopez.Crawler.Robots.Search.{OccursIn, matches-plain}
use lopez.Crawler.Robots.Strict.{matches-strict}
use lopez.Crawler.Worker.{
  Pages, Worker, Call, ensure_active, finished, moved, crawl, crawl_task, not_accepted,
}
use lopez.Crawler.Worker.Settled.{settling, strands, crawl_task-settles}
use lopez.Crawler.Worker.Frontier.{StoresNoLinks, crawl_task-frontier}
use lopez.Tests.Samples.{floats, addresses, addresses-IsOrdered, addresses-HasQueries, Address}

abbrev home : Address
home = (bytes "https://a.com", [])

checked_join_iff_example :
    (checked_join addresses home (bytes "/b") ≡ ok (bytes "https://a.com/b", [])) ↔ (
      LeadsTo addresses home (bytes "/b") (bytes "https://a.com/b", [])
      × IsLink addresses (bytes "/b") (bytes "https://a.com/b", []))
checked_join_iff_example =
    checked_join_iff addresses home (bytes "/b") (bytes "https://a.com/b", [])

abbrev bounds : Bounds floats
bounds = record {
  allowed_set = bytes "https://a.com" ∷ [];
  disallowed_set = [];
  frontier_set = bytes "https://a.com/last" ∷ [];
  use_params = [];
  ignore_params = [];
  all_params = false;
}

abbrev links : List (Reason × Text)
links = (ahref, bytes "/c") ∷ (ahref, bytes "/b") ∷ (ahref, bytes "/c") ∷ (ahref, bytes "#top") ∷ []

abbrev link_b : Reason × Address
link_b = (ahref, (bytes "https://a.com/b", []))

clean_links_iff_example :
    (Member link_b (clean_links addresses (as_boundaries addresses bounds) home links) ↔ (
      ((as_boundaries addresses bounds).is_frontier home ≡ false)
      × ComesFrom addresses addresses-IsOrdered (as_boundaries addresses bounds) home links link_b))
    × StrictlyAscending
        (link_cmp addresses)
        (clean_links addresses (as_boundaries addresses bounds) home links)
clean_links_iff_example =
    clean_links_iff addresses addresses-IsOrdered (as_boundaries addresses bounds) home links link_b

clean_links-IsInside_example :
    (is_frontier addresses bounds home ≡ false) × IsInside addresses bounds link_b.1
unfolding clean_links raw_links sort_unstable insert_sorted dedup dedup_after link_cmp reason_cmp
    checked_join is_allowed is_frontier filter_query_params
clean_links-IsInside_example =
    clean_links-IsInside addresses addresses-IsOrdered addresses-HasQueries bounds home links link_b
      (inl refl)

matches-plain_example :
    (matches (new_match (bytes "/a")) (bytes "/x/a") ≡ true) ↔ OccursIn (bytes "/a") (bytes "/x/a")
matches-plain_example = matches-plain (bytes "/a") (bytes "/x/a") refl refl refl

matches-strict_example : matches (new_match (bytes "/a$")) (bytes "/a") ≡ false
matches-strict_example = matches-strict (bytes "/a$") (bytes "/a") refl refl

abbrev texts : Pages
texts = record { StatusCode = ℕ; Content = Text; Analysis = Text; Failure = Text }

-- Every page redirects to the location, within the boundaries given.
abbrev redirecting : Boundaries addresses → Text → Worker addresses texts
redirecting bounds location = record {
  bounds = bounds;
  download = λ url. finished (ok (moved location 301));
  parse_page = λ url content. not_accepted;
  respond = λ log c. ok tt;
}

abbrev to_section : Worker addresses texts
to_section = redirecting (as_boundaries addresses bounds) (bytes "#top")

crawl_task-settles_example :
    (behind : List (Call addresses texts)) × ((crawl_task addresses texts to_section true home 0
        []).1
      ≡ [] ++ (ensure_active home ∷ behind))
    × (settling addresses texts behind
        ≡ (if strands addresses texts to_section true home then [] else home ∷ []))
crawl_task-settles_example =
    crawl_task-settles addresses texts to_section true home 0 [] (λ log c. refl)

-- This page is never settled, although its origin allows it and the backend answers.
to_section-strands : strands addresses texts to_section true home ≡ true
unfolding crawl checked_join
to_section-strands = refl

abbrev last_page : Address
last_page = (bytes "https://a.com/last", [])

crawl_task-frontier_example :
    (behind : List (Call addresses texts)) × ((crawl_task addresses texts
        (redirecting (as_boundaries addresses bounds) (bytes "/b"))
        true
        last_page
        0
        []).1
      ≡ [] ++ behind)
    × All (StoresNoLinks addresses texts) behind
unfolding is_frontier boundaries
crawl_task-frontier_example =
    crawl_task-frontier addresses texts (redirecting (as_boundaries addresses bounds) (bytes "/b"))
      true last_page 0 [] refl
