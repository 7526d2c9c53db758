-- ===== src/Crawler/Worker/Run/Settles.antt =====
-- Which pages of the stream are settled once a worker is done.
use lopez.Prelude.{
  ℕ, ◌+◌, ◌<◌, Bool, true, false, not, ◌&&◌, List, [], ◌∷◌, ◌++◌, Result, ok, err, ◌≡◌, refl, arith,
  sym, ◌∙◌, if◌then◌else◌, Bool-cases, inl, inr,
}
use lopez.Urls.{Urls}
use lopez.Crawler.Boundaries.{LinkError, checked_join}
use lopez.Crawler.Worker.{
  Pages, Crawled, success, bad_status, redirected, failed, timed_out, Call, ensure_active,
  ensure_analyzed, ensure_explored, ensure_error, Worker, crawl,
}
use lopez.Crawler.Worker.Settled.{Answers, strands, redirects_badly, is_err}
use lopez.Crawler.Worker.Run.{
  Pool, redirect_program, store_program, task_program, calls_of, Step, starts, calls, fails,
  is_over, Runs, at_first, later,
}
use lopez.Crawler.Worker.Run.Ends.{IsStuck, Runs-ends}

module _ (urls : Urls) (pages : Pages) (p : urls.Url → Bool) where
  open urls use {Url}

  -- How often pages that pass a test are settled.
  abbrev pub settled : List (Call urls pages) → ℕ
  settled [] = 0
  settled (ensure_explored u status depth links ∷ cs) = (if p u then 1 else 0) + settled cs
  settled (ensure_error u ∷ cs) = (if p u then 1 else 0) + settled cs
  settled (ensure_active u ∷ cs) = settled cs
  settled (ensure_analyzed u analyses ∷ cs) = settled cs

  settled-append : (cs ds : List (Call urls pages)) → settled (cs ++ ds) ≡ settled cs + settled ds
  settled-append [] ds = omega arith
  settled-append (ensure_explored u status depth links ∷ cs) ds =
      omega (arith, settled-append cs ds)
  settled-append (ensure_error u ∷ cs) ds = omega (arith, settled-append cs ds)
  settled-append (ensure_active u ∷ cs) ds = settled-append cs ds
  settled-append (ensure_analyzed u analyses ∷ cs) ds = settled-append cs ds

  -- And by what the running tasks have still to call.
  abbrev pub to_settle : List (List (Call urls pages)) → ℕ
  to_settle [] = 0
  to_settle (cs ∷ tasks) = settled cs + to_settle tasks

  to_settle-append :
      (before behind : List (List (Call urls pages)))
      → to_settle (before ++ behind) ≡ to_settle before + to_settle behind
  to_settle-append [] behind = omega arith
  to_settle-append (cs ∷ before) behind = omega (arith, to_settle-append before behind)

  once : (u : Url) → (if p u then 1 else 0) + 0 ≡ (if p u && true then 1 else 0)
  once u = elim (Bool-cases (p u)) [ inl e ↦ rw e refl | inr e ↦ rw e refl ]

  never : (u : Url) → settled [] ≡ (if p u && false then 1 else 0)
  never u = elim (Bool-cases (p u)) [ inl e ↦ rw e refl | inr e ↦ rw e refl ]

  redirect-settled :
      (self : Worker urls pages) (u : Url) (depth : ℕ) (status : pages.StatusCode)
      (r : Result LinkError Url)
      → settled (redirect_program urls pages self u depth status r).0
        ≡ (if p u && not (is_err urls pages r) then 1 else 0)
  redirect-settled self u depth status (ok location) = once u
  redirect-settled self u depth status (err e) = never u

  store-settled :
      (self : Worker urls pages) (u : Url) (depth : ℕ) (c : Crawled urls pages)
      → settled (store_program urls pages self u depth c).0
        ≡ (if p u && not (redirects_badly urls pages u c) then 1 else 0)
  unfolding store_program
  store-settled self u depth (success status links analyses) = once u
  store-settled self u depth (bad_status status) = once u
  store-settled self u depth (redirected status location) =
      redirect-settled self u depth status (checked_join urls u location)
  store-settled self u depth (failed e) = once u
  store-settled self u depth timed_out = once u

  module _ (self : Worker urls pages) (allows : Url → Bool) (max_tasks_per_worker : ℕ) where
    -- The pages of a stream that pass the test and are not left taken.
    abbrev pub settling_pages : List (Url × ℕ) → ℕ
    settling_pages [] = 0
    settling_pages (page ∷ stream) =
        (if p page.0 && not (strands urls pages self (allows page.0) page.0) then 1 else 0)
        + settling_pages stream

    calls_of-settled :
        (page : Url × ℕ)
        → settled (calls_of urls pages self allows max_tasks_per_worker page)
          ≡ (if p page.0 && not (strands urls pages self (allows page.0) page.0) then 1 else 0)
    unfolding task_program calls_of
    calls_of-settled page = elim (Bool-cases (allows page.0)) [
      | inl e ↦ rw e (store-settled self page.0 page.1 (crawl urls pages self page.0))
      | inr e ↦ rw e (never page.0)
    ]

    Step-settled :
        (s t : Pool urls pages)
        → Answers urls pages self
        → Step urls pages self allows max_tasks_per_worker s t
        → settled t.log + to_settle t.tasks + settling_pages t.waiting
          ≡ settled s.log + to_settle s.tasks + settling_pages s.waiting
    Step-settled s t h (starts page waiting e few) = rw e (omega (arith, calls_of-settled page))
    Step-settled s t h (calls before c cs behind e q) = rw e (
        omega (
          arith,
          to_settle-append before ((c ∷ cs) ∷ behind),
          to_settle-append before (cs ∷ behind),
          settled-append s.log (c ∷ []),
          settled-append (c ∷ []) cs,
        ))
    Step-settled s t h (fails before c cs behind x e q) =
        let answered : ok tt ≡ err x = sym (h s.log c) ∙ q in absurd (cc)
    Step-settled s t h (is_over before behind e) =
        rw e (omega (arith, to_settle-append before ([] ∷ behind), to_settle-append before behind))

    Runs-settled :
        (stream : List (Url × ℕ)) (n : ℕ) (s : Pool urls pages)
        → Answers urls pages self
        → Runs urls pages self allows max_tasks_per_worker stream n s
        → settled s.log + to_settle s.tasks + settling_pages s.waiting ≡ settling_pages stream
    Runs-settled stream n s h at_first = omega arith
    Runs-settled stream n t h (later {n = m} {s} runs step) =
        Step-settled s t h step ∙ Runs-settled stream m s h runs

    -- With a backend that fails no call, in whichever order the tasks go on: where a worker that may
    -- run a task cannot go on, each page of the stream was settled exactly as often as it is in the
    -- stream and is allowed by its origin and does not redirect to a bad link; for every test of
    -- pages, and so for each page and for all.
    pub Runs-settles :
        (stream : List (Url × ℕ)) (n : ℕ) (s : Pool urls pages)
        → 0 < max_tasks_per_worker
        → Answers urls pages self
        → Runs urls pages self allows max_tasks_per_worker stream n s
        → IsStuck urls pages self allows max_tasks_per_worker s
        → settled s.log ≡ settling_pages stream
    Runs-settles stream n s some_task h runs stuck =
        let (bound, few, done) =
          Runs-ends urls pages self allows max_tasks_per_worker stream n s some_task runs in
        let (no_pages, no_tasks) = done stuck in
        let kept = Runs-settled stream n s h runs in omega (arith, rw (no_tasks, no_pages) at kept)
