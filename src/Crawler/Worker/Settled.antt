-- ===== src/Crawler/Worker/Settled.antt =====
-- When a page that was taken is settled.
use lopez.Prelude.{
  ℕ, Bool, true, false, not, ◌||◌, List, [], ◌∷◌, ◌++◌, append_assoc, append-nil, Result, ok, err,
  if◌then◌else◌, ◌≡◌, refl, ◌∙◌,
}
use lopez.Urls.{Urls}
use lopez.Crawler.Boundaries.{LinkError, checked_join}
use lopez.Crawler.Worker.{
  Pages, Crawled, success, bad_status, redirected, failed, timed_out, Call, ensure_active,
  ensure_explored, ensure_error, Worker, crawl, store, store_redirect, crawl_task,
}

module _ (urls : Urls) (pages : Pages) where
  open urls use {Url}

  -- The pages that calls settle: they do not count as taken any more.
  abbrev pub settling : List (Call urls pages) → List Url
  settling [] = []
  settling (ensure_explored u status depth links ∷ cs) = u ∷ settling cs
  settling (ensure_error u ∷ cs) = u ∷ settling cs
  settling (c ∷ cs) = settling cs

  abbrev pub is_err : Result LinkError Url → Bool
  is_err (ok url) = false
  is_err (err e) = true

  -- A redirect to a location that is no acceptable link.
  abbrev pub redirects_badly : Url → Crawled urls pages → Bool
  redirects_badly page_url (redirected status location) =
      is_err (checked_join urls page_url location)
  redirects_badly page_url c = false

  -- The task leaves the page taken.
  abbrev pub strands : Worker urls pages → Bool → Url → Bool
  strands self allows page_url =
      not allows || redirects_badly page_url (crawl urls pages self page_url)

  -- The backend fails no call.
  abbrev pub Answers : Worker urls pages → Type 0
  Answers self = (log : List (Call urls pages)) (c : Call urls pages) → self.respond log c ≡ ok tt

  -- The task adds calls to the log, which settle these pages.
  abbrev Adds : List (Call urls pages) → List (Call urls pages) → List Url → Type 0
  Adds log log' us =
      (behind : List (Call urls pages)) × (log' ≡ log ++ behind) × (settling behind ≡ us)

  store_redirect-Adds :
      (self : Worker urls pages) (page_url : Url) (depth : ℕ) (status : pages.StatusCode)
      (r : Result LinkError Url) (log : List (Call urls pages))
      → Adds log
          (store_redirect urls pages self page_url depth status r log).1
          (if is_err r then [] else page_url ∷ [])
  store_redirect-Adds self page_url depth status (ok location) log = (_, refl, refl)
  store_redirect-Adds self page_url depth status (err e) log = ([], rw append-nil refl, refl)

  store-Adds :
      (self : Worker urls pages)
      → Answers self
      → (page_url : Url) (depth : ℕ) (c : Crawled urls pages) (log : List (Call urls pages))
      → Adds log
          (store urls pages self page_url depth c log).1
          (if redirects_badly page_url c then [] else page_url ∷ [])
  unfolding store
  store-Adds self h page_url depth (success status links analyses) log =
      rw h (_, append_assoc log _ _, refl)
  store-Adds self h page_url depth (bad_status status) log = (_, refl, refl)
  store-Adds self h page_url depth (redirected status location) log =
      store_redirect-Adds self page_url depth status (checked_join urls page_url location) log
  store-Adds self h page_url depth (failed e) log = rw h (_, refl, refl)
  store-Adds self h page_url depth timed_out log = rw h (_, refl, refl)

  -- With a backend that fails no call, a task first takes its page, and then settles that page
  -- exactly once, as explored or as an error, and no other page, but for two cases in which it settles
  -- none: the origin does not allow the page, or the page redirects to a location that is no
  -- acceptable link.
  pub crawl_task-settles :
      (self : Worker urls pages) (allows : Bool) (page_url : Url) (depth : ℕ)
      (log : List (Call urls pages))
      → Answers self
      → (behind : List (Call urls pages)) × ((crawl_task urls pages self allows page_url depth
            log).1
          ≡ log ++ (ensure_active page_url ∷ behind))
        × (settling behind ≡ (if strands self allows page_url then [] else page_url ∷ []))
  unfolding crawl_task
  crawl_task-settles self false page_url depth log h = rw h ([], refl, refl)
  crawl_task-settles self true page_url depth log h =
      let (behind, e, n) =
        store-Adds self h page_url depth (crawl urls pages self page_url)
          (log ++ (ensure_active page_url ∷ [])) in
      rw h (behind, e ∙ append_assoc log _ _, n)
