-- ===== src/Crawler/Worker/Run/Programs.antt =====
-- Tasks are their programs.
use lopez.Prelude.{true, false, Bool, List, [], ◌∷◌, Result, ok, err, ◌≡◌, refl, ℕ}
use lopez.Urls.{Urls}
use lopez.Crawler.Boundaries.{LinkError, checked_join}
use lopez.Crawler.Worker.{
  Pages, Crawled, success, bad_status, redirected, failed, timed_out, Call, Worker, TaskError,
  store, after, call, ensure_active, store_redirect, crawl, crawl_task,
}
use lopez.Crawler.Worker.Run.{redirect_program, store_program, task_program, run_calls}

module _ (urls : Urls) (pages : Pages) where
  open urls use {Url}

  abbrev Made : Type 0
  Made = Result (TaskError urls pages) Unit × List (Call urls pages)

  after-done : (r : Made) → after urls pages (λ log. (ok tt, log)) r ≡ r
  after-done (ok u, log) = refl
  after-done (err e, log) = refl

  after-same :
      (next next' : List (Call urls pages) → Made)
      → ((log : List (Call urls pages)) → next log ≡ next' log)
      → (r : Made) → after urls pages next r ≡ after urls pages next' r
  after-same next next' h (ok u, log) = h log
  after-same next next' h (err e, log) = refl

  one_call :
      (self : Worker urls pages) (c : Call urls pages) (log : List (Call urls pages))
      → run_calls urls pages self (c ∷ []) (ok tt) log ≡ call urls pages self c log
  unfolding run_calls
  one_call self c log = after-done (call urls pages self c log)

  redirect-same :
      (self : Worker urls pages) (page_url : Url) (depth : ℕ) (status : pages.StatusCode)
      (r : Result LinkError Url) (log : List (Call urls pages))
      → let (calls, result) = redirect_program urls pages self page_url depth status r in
        run_calls urls pages self calls result log
        ≡ store_redirect urls pages self page_url depth status r log
  unfolding run_calls
  redirect-same self page_url depth status (ok location) log = one_call self _ log
  redirect-same self page_url depth status (err e) log = refl

  store-same :
      (self : Worker urls pages) (page_url : Url) (depth : ℕ) (c : Crawled urls pages)
      (log : List (Call urls pages))
      → let (calls, result) = store_program urls pages self page_url depth c in
        run_calls urls pages self calls result log ≡ store urls pages self page_url depth c log
  unfolding run_calls store store_program
  store-same self page_url depth (success status links analyses) log =
      after-same _ _ (λ log. one_call self _ log) (call urls pages self _ log)
  store-same self page_url depth (bad_status status) log = one_call self _ log
  store-same self page_url depth (redirected status location) log =
      redirect-same self page_url depth status (checked_join urls page_url location) log
  store-same self page_url depth (failed e) log = refl
  store-same self page_url depth timed_out log = refl

  -- On every backend, whichever calls fail, a task makes the calls of its program up to the first
  -- that fails, and ends as the program does if none fails.
  run_calls-task_program :
      (self : Worker urls pages) (allows : Bool) (page_url : Url) (depth : ℕ)
      (log : List (Call urls pages))
      → run_calls urls pages self
          (task_program urls pages self allows page_url depth).0
          (task_program urls pages self allows page_url depth).1
          log
        ≡ crawl_task urls pages self allows page_url depth log
  unfolding run_calls task_program crawl_task
  run_calls-task_program self true page_url depth log =
      after-same _ _ (store-same self page_url depth (crawl urls pages self page_url))
        (call urls pages self (ensure_active page_url) log)
  run_calls-task_program self false page_url depth log = refl
