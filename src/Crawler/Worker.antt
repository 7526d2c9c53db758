-- ===== src/Crawler/Worker.antt =====
-- lib-lopez/src/crawler/worker/mod.rs: what a worker does with one page. The calls of the backend
-- are kept in a log; the backend answers a call by what it was called before. Downloader, parser and
-- origin are parameters, by their answers for the page; status codes and contents are abstract.
pub mod Settled
pub mod Frontier
pub mod Run
use lopez.Prelude.{
  ℕ, ◌+◌, ◌%◌, ◌^◌, Text, Bool, true, false, not, ◌&&◌, List, [], ◌∷◌, ◌++◌, Result, ok, err,
  if◌then◌else◌,
}
use lopez.Urls.{Urls}
use lopez.Crawler.Reason.{Reason, redirect}
use lopez.Crawler.Boundaries.{Boundaries, LinkError, checked_join, clean_links}

abbrev pub add_u16 : ℕ → ℕ → ℕ
add_u16 a b = (a + b) % 2 ^ 16

-- The types that the worker only hands on.
pub record Pages : Type 1 where
  pub StatusCode : Type 0
  pub Content : Type 0
  pub Analysis : Type 0
  -- Errors of the downloader and of the backend.
  pub Failure : Type 0

-- `Downloaded` (crawler/downloader/mod.rs), without the fields that the worker does not read.
pub data Downloaded (pages : Pages) : Type 0 where
  page : pages.Content → pages.StatusCode → Downloaded pages
  bad_status_page : pages.StatusCode → Downloaded pages
  moved : Text → pages.StatusCode → Downloaded pages

-- What `time::timeout` gives for the download.
pub data Download (pages : Pages) : Type 0 where
  finished : Result pages.Failure (Downloaded pages) → Download pages
  elapsed : Download pages

-- `Parsed` (crawler/parser.rs).
pub data Parsed (pages : Pages) : Type 0 where
  accepted : List (Reason × Text) → List pages.Analysis → Parsed pages
  not_accepted : Parsed pages

module _ (urls : Urls) (pages : Pages) where
  open urls use {Url}
  open pages use {StatusCode, Content, Analysis, Failure}

  pub data Crawled : Type 0 where
    success : StatusCode → List (Reason × Url) → List Analysis → Crawled
    bad_status : StatusCode → Crawled
    redirected : StatusCode → Text → Crawled
    failed : Failure → Crawled
    timed_out : Crawled

  -- The calls of `WorkerBackend` (backend/mod.rs).
  pub data Call : Type 0 where
    ensure_active : Url → Call
    ensure_analyzed : Url → List Analysis → Call
    ensure_explored : Url → StatusCode → ℕ → List (Reason × Url) → Call
    ensure_error : Url → Call

  -- The errors of a task: those of the backend, those of the page, and a redirect to a bad link.
  pub data TaskError : Type 0 where
    backend_failed : Failure → TaskError
    page_failed : Url → Failure → TaskError
    page_timed_out : Url → TaskError
    bad_redirect : Url → LinkError → TaskError

  pub record Worker : Type 0 where
    pub bounds : Boundaries urls
    pub download : Url → Download pages
    pub parse_page : Url → Content → Parsed pages
    -- What the backend answers to a call, after the calls of the log.
    pub respond : List Call → Call → Result Failure Unit

  -- An action on the log.
  abbrev pub Task : Type 0
  Task = List Call → Result TaskError Unit × List Call

  abbrev pub answered : Result Failure Unit → Result TaskError Unit
  answered (ok u) = ok u
  answered (err e) = err (backend_failed e)

  abbrev pub call : Worker → Call → Task
  call self c log = (answered (self.respond log c), log ++ (c ∷ []))

  -- `.await?` before the rest of a task.
  abbrev pub after : Task → Result TaskError Unit × List Call → Result TaskError Unit × List Call
  after next (ok u, log) = next log
  after next (err e, log) = (err e, log)

  infixr 3 ◌then_do◌
  abbrev pub ◌then_do◌ : Task → Task → Task
  (task then_do next) log = after next (task log)

  abbrev pub fail : TaskError → Task
  fail e log = (err e, log)

  abbrev pub done : Task
  done log = (ok tt, log)

  abbrev pub parsed_page : Worker → Url → StatusCode → Parsed pages → Crawled
  parsed_page self page_url status (accepted links analyses) =
      success status (clean_links urls self.bounds page_url links) analyses
  parsed_page self page_url status not_accepted = success status [] []

  abbrev pub downloaded : Worker → Url → Download pages → Crawled
  downloaded self page_url (finished (ok (page content status))) =
      parsed_page self page_url status (self.parse_page page_url content)
  downloaded self page_url (finished (ok (bad_status_page status))) = bad_status status
  downloaded self page_url (finished (ok (moved location status))) = redirected status location
  downloaded self page_url (finished (err e)) = failed e
  downloaded self page_url elapsed = timed_out

  unfoldable pub crawl : Worker → Url → Crawled
  unfolding clean_links
  crawl self page_url = downloaded self page_url (self.download page_url)

  abbrev pub redirect_links : Worker → Url → Url → List (Reason × Url)
  redirect_links self page_url location =
      if not (self.bounds.is_frontier page_url) && self.bounds.is_allowed location
      then (redirect, self.bounds.clean_query_params location) ∷ []
      else []

  abbrev pub store_redirect : Worker → Url → ℕ → StatusCode → Result LinkError Url → Task
  store_redirect self page_url depth status (ok location) =
      call self
        (ensure_explored page_url status (add_u16 depth 1) (redirect_links self page_url location))
  store_redirect self page_url depth status (err e) = fail (bad_redirect page_url e)

  unfoldable pub store : Worker → Url → ℕ → Crawled → Task
  unfolding checked_join
  store self page_url depth (success status links analyses) =
      call self (ensure_analyzed page_url analyses)
      then_do call self (ensure_explored page_url status (add_u16 depth 1) links)
  store self page_url depth (bad_status status) =
      call self (ensure_explored page_url status (add_u16 depth 1) [])
  store self page_url depth (redirected status location) =
      store_redirect self page_url depth status (checked_join urls page_url location)
  store self page_url depth (failed e) =
      call self (ensure_error page_url) then_do fail (page_failed page_url e)
  store self page_url depth timed_out =
      call self (ensure_error page_url) then_do fail (page_timed_out page_url)

  -- `allows` is the answer of the origin of the page.
  unfoldable pub crawl_task : Worker → Bool → Url → ℕ → Task
  unfolding crawl store
  crawl_task self allows page_url depth =
      call self (ensure_active page_url)
      then_do (if allows then store self page_url depth (crawl self page_url) else done)

  -- `TestRunReport`.
  pub data ReportType : Type 0 where
    disallowed_by_directives disallowed_by_origin : ReportType
    crawled : Crawled → ReportType

  unfoldable pub test_url : Worker → (Url → Bool) → Url → Url × ReportType
  unfolding crawl
  test_url self allows url =
      let actual_url = self.bounds.clean_query_params url in
      (
        actual_url,
        if not (self.bounds.is_allowed actual_url)
            then disallowed_by_directives
            else if not (allows actual_url)
            then disallowed_by_origin
            else crawled (crawl self actual_url),
      )
