-- ===== src/Crawler/Worker/Run.antt =====
-- `CrawlWorker::run` (lib-lopez/src/crawler/worker/mod.rs): the tasks of a stream of pages, of which
-- so many run at the same time, and whose calls of the backend come in any order. A task is what it
-- calls, one call after the other, and how it ends; the first call that fails ends it. The steps are
-- the calls of the backend: the lookup of an origin, which may never return or panic
-- (Crawler/RobotsFetch), the download and the throttle of a task are no steps, and are taken to have
-- returned. The worker has one backend, and the stream is closed. An error of a task is only logged.
pub mod Programs
pub mod Ends
pub mod Settles
use lopez.Prelude.{
  ℕ, suc, ◌+◌, ◌<◌, length, Bool, List, [], ◌∷◌, ◌++◌, Result, ok, err, if◌then◌else◌, ◌≡◌,
}
use lopez.Urls.{Urls}
use lopez.Crawler.Boundaries.{LinkError, checked_join}
use lopez.Crawler.Worker.{
  Pages, Crawled, success, bad_status, redirected, failed, timed_out, Call, ensure_active,
  ensure_analyzed, ensure_explored, ensure_error, TaskError, page_failed, page_timed_out,
  bad_redirect, Worker, Task, after, call, add_u16, redirect_links, crawl,
}

module _ (urls : Urls) (pages : Pages) where
  open urls use {Url}

  -- What a task calls if no call fails, and how it ends then.
  abbrev pub Program : Type 0
  Program = List (Call urls pages) × Result (TaskError urls pages) Unit

  abbrev pub redirect_program :
      Worker urls pages → Url → ℕ → pages.StatusCode → Result LinkError Url → Program
  redirect_program self page_url depth status (ok location) = (
    ensure_explored page_url status (add_u16 depth 1)
          (redirect_links urls pages self page_url location)
        ∷ [],
    ok tt,
  )
  redirect_program self page_url depth status (err e) = ([], err (bad_redirect page_url e))

  unfoldable pub store_program : Worker urls pages → Url → ℕ → Crawled urls pages → Program
  unfolding checked_join
  store_program self page_url depth (success status links analyses) = (
    ensure_analyzed page_url analyses
        ∷ ensure_explored page_url status (add_u16 depth 1) links
        ∷ [],
    ok tt,
  )
  store_program self page_url depth (bad_status status) =
      (ensure_explored page_url status (add_u16 depth 1) [] ∷ [], ok tt)
  store_program self page_url depth (redirected status location) =
      redirect_program self page_url depth status (checked_join urls page_url location)
  store_program self page_url depth (failed e) =
      (ensure_error page_url ∷ [], err (page_failed page_url e))
  store_program self page_url depth timed_out =
      (ensure_error page_url ∷ [], err (page_timed_out page_url))

  abbrev pub begin : Url → Program → Program
  begin page_url (calls, result) = (ensure_active page_url ∷ calls, result)

  unfoldable pub task_program : Worker urls pages → Bool → Url → ℕ → Program
  unfolding store_program crawl
  task_program self allows page_url depth = begin page_url (
      if allows
      then store_program self page_url depth (crawl urls pages self page_url)
      else ([], ok tt))

  -- The task that makes these calls.
  unfoldable pub run_calls :
      Worker urls pages
      → List (Call urls pages)
      → Result (TaskError urls pages) Unit
      → Task urls pages
  run_calls self [] result log = (result, log)
  run_calls self (c ∷ cs) result log =
      after urls pages (run_calls self cs result) (call urls pages self c log)

  -- The pages that wait in the stream, with their depths; what the running tasks have still to call;
  -- and the log.
  pub record Pool : Type 0 where
    pub waiting : List (Url × ℕ)
    pub tasks : List (List (Call urls pages))
    pub log : List (Call urls pages)

  module _ (self : Worker urls pages) (allows : Url → Bool) (max_tasks_per_worker : ℕ) where
    abbrev pub calls_of : Url × ℕ → List (Call urls pages)
    unfolding task_program
    calls_of page = (task_program self (allows page.0) page.0 page.1).0

    -- One step of `for_each_concurrent`: a task is started, makes its next call, fails on it, or is
    -- over.
    pub data Step (s : Pool) : Pool → Type 0 where
      starts :
          (page : Url × ℕ) (waiting : List (Url × ℕ))
          → s.waiting ≡ page ∷ waiting
          → length s.tasks < max_tasks_per_worker
          → Step s (record { waiting = waiting; tasks = calls_of page ∷ s.tasks; log = s.log })
      calls :
          (before : List (List (Call urls pages))) (c : Call urls pages)
          (cs : List (Call urls pages)) (behind : List (List (Call urls pages)))
          → s.tasks ≡ before ++ ((c ∷ cs) ∷ behind)
          → self.respond s.log c ≡ ok tt
          → Step s (record {
            waiting = s.waiting;
            tasks = before ++ (cs ∷ behind);
            log = s.log ++ (c ∷ []);
          })
      fails :
          (before : List (List (Call urls pages))) (c : Call urls pages)
          (cs : List (Call urls pages)) (behind : List (List (Call urls pages))) (e : pages.Failure)
          → s.tasks ≡ before ++ ((c ∷ cs) ∷ behind)
          → self.respond s.log c ≡ err e
          → Step s
              (record { waiting = s.waiting; tasks = before ++ behind; log = s.log ++ (c ∷ []) })
      is_over :
          (before behind : List (List (Call urls pages)))
          → s.tasks ≡ before ++ ([] ∷ behind)
          → Step s (record { waiting = s.waiting; tasks = before ++ behind; log = s.log })

    -- The worker before it takes a page of the stream.
    abbrev pub fresh : List (Url × ℕ) → Pool
    fresh stream = record { waiting = stream; tasks = []; log = [] }

    -- What is reached in so many steps.
    pub data Runs (stream : List (Url × ℕ)) : ℕ → Pool → Type 0 where
      at_first : Runs stream 0 (fresh stream)
      later : {n : ℕ} {s t : Pool} → Runs stream n s → Step s t → Runs stream (suc n) t
