-- ===== src/Crawler/Worker/Frontier.antt =====
-- What is stored of a page on the frontier.
use lopez.Prelude.{
  ℕ, Bool, true, false, List, [], ◌∷◌, ◌++◌, append_assoc, append-nil, Result, ok, err, All, ◌≡◌,
  refl, ◌∙◌,
}
use lopez.Urls.{Urls}
use lopez.Crawler.Boundaries.{LinkError, checked_join, clean_links}
use lopez.Crawler.Worker.{
  Pages, Download, Parsed, finished, elapsed, page, bad_status_page, moved, accepted, not_accepted,
  Crawled, success, bad_status, redirected, failed, timed_out, Call, ensure_active, ensure_explored,
  TaskError, page_failed, page_timed_out, bad_redirect, Worker, Task, call, answered, after,
  ◌then_do◌, crawl, store, store_redirect, crawl_task, downloaded, parsed_page,
}

module _ (urls : Urls) (pages : Pages) where
  open urls use {Url}

  -- A call stores no links.
  abbrev pub StoresNoLinks : Call urls pages → Type 0
  StoresNoLinks (ensure_explored u status depth links) = links ≡ []
  StoresNoLinks c = Unit

  abbrev HasNoLinks : Crawled urls pages → Type 0
  HasNoLinks (success status links analyses) = links ≡ []
  HasNoLinks c = Unit

  -- A task adds only calls without links to the log.
  abbrev AddsNoLinks : Task urls pages → Type 0
  AddsNoLinks task =
      (log : List (Call urls pages))
      → (behind : List (Call urls pages)) × ((task log).1 ≡ log ++ behind)
        × All StoresNoLinks behind

  call-AddsNoLinks :
      (self : Worker urls pages) (c : Call urls pages)
      → StoresNoLinks c
      → AddsNoLinks (call urls pages self c)
  call-AddsNoLinks self c h log = (c ∷ [], refl, (h, tt))

  empty-AddsNoLinks : (r : Result (TaskError urls pages) Unit) → AddsNoLinks (λ log. (r, log))
  empty-AddsNoLinks r log = ([], rw append-nil refl, tt)

  then_do-AddsNoLinks :
      (self : Worker urls pages) (c : Call urls pages) (next : Task urls pages)
      → StoresNoLinks c
      → AddsNoLinks next
      → AddsNoLinks (◌then_do◌ urls pages (call urls pages self c) next)
  then_do-AddsNoLinks self c next h k log = go (self.respond log c)
    where
      go :
          (r : Result pages.Failure Unit)
          → (behind : List (Call urls pages)) × ((after urls pages next
                (answered urls pages r, log ++ (c ∷ []))).1
              ≡ log ++ behind)
            × All StoresNoLinks behind
      go (ok u) =
          let (behind, e, b) = k (log ++ (c ∷ [])) in (c ∷ behind, e ∙ append_assoc log _ _, (h, b))
      go (err x) = (c ∷ [], refl, (h, tt))

  store_redirect-AddsNoLinks :
      (self : Worker urls pages) (page_url : Url) (depth : ℕ) (status : pages.StatusCode)
      (r : Result LinkError Url)
      → self.bounds.is_frontier page_url ≡ true
      → AddsNoLinks (store_redirect urls pages self page_url depth status r)
  store_redirect-AddsNoLinks self page_url depth status (ok location) h =
      call-AddsNoLinks self _ (rw h refl)
  store_redirect-AddsNoLinks self page_url depth status (err e) h =
      empty-AddsNoLinks (err (bad_redirect page_url e))

  store-AddsNoLinks :
      (self : Worker urls pages) (page_url : Url) (depth : ℕ) (c : Crawled urls pages)
      → self.bounds.is_frontier page_url ≡ true
      → HasNoLinks c
      → AddsNoLinks (store urls pages self page_url depth c)
  unfolding store
  store-AddsNoLinks self page_url depth (success status links analyses) h k =
      then_do-AddsNoLinks self _ _ tt (call-AddsNoLinks self _ k)
  store-AddsNoLinks self page_url depth (bad_status status) h k = call-AddsNoLinks self _ refl
  store-AddsNoLinks self page_url depth (redirected status location) h k =
      store_redirect-AddsNoLinks self page_url depth status (checked_join urls page_url location) h
  store-AddsNoLinks self page_url depth (failed e) h k =
      then_do-AddsNoLinks self _ _ tt (empty-AddsNoLinks (err (page_failed page_url e)))
  store-AddsNoLinks self page_url depth timed_out h k =
      then_do-AddsNoLinks self _ _ tt (empty-AddsNoLinks (err (page_timed_out page_url)))

  parsed_page-HasNoLinks :
      (self : Worker urls pages) (page_url : Url) (status : pages.StatusCode) (p : Parsed pages)
      → self.bounds.is_frontier page_url ≡ true
      → HasNoLinks (parsed_page urls pages self page_url status p)
  unfolding clean_links
  parsed_page-HasNoLinks self page_url status (accepted links analyses) h = rw h refl
  parsed_page-HasNoLinks self page_url status not_accepted h = refl

  downloaded-HasNoLinks :
      (self : Worker urls pages) (page_url : Url) (d : Download pages)
      → self.bounds.is_frontier page_url ≡ true
      → HasNoLinks (downloaded urls pages self page_url d)
  downloaded-HasNoLinks self page_url (finished (ok (page content status))) h =
      parsed_page-HasNoLinks self page_url status (self.parse_page page_url content) h
  downloaded-HasNoLinks self page_url (finished (ok (bad_status_page status))) h = tt
  downloaded-HasNoLinks self page_url (finished (ok (moved location status))) h = tt
  downloaded-HasNoLinks self page_url (finished (err e)) h = tt
  downloaded-HasNoLinks self page_url elapsed h = tt

  -- A task for a page on the frontier stores no links, redirects included, whatever the downloader,
  -- the parser, the origin and the backend answer.
  pub crawl_task-frontier :
      (self : Worker urls pages) (allows : Bool) (page_url : Url) (depth : ℕ)
      (log : List (Call urls pages))
      → self.bounds.is_frontier page_url ≡ true
      → (behind : List (Call urls pages)) × ((crawl_task urls pages self allows page_url depth
            log).1
          ≡ log ++ behind)
        × All StoresNoLinks behind
  unfolding crawl_task crawl
  crawl_task-frontier self false page_url depth log h =
      then_do-AddsNoLinks self (ensure_active page_url) _ tt (empty-AddsNoLinks (ok tt)) log
  crawl_task-frontier self true page_url depth log h =
      then_do-AddsNoLinks self (ensure_active page_url) _ tt
        (store-AddsNoLinks self page_url depth (crawl urls pages self page_url) h
          (downloaded-HasNoLinks self page_url (self.download page_url) h))
        log
