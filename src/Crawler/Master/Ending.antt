-- ===== src/Crawler/Master/Ending.antt =====
-- Whether `start` returns.
use lopez.Prelude.{
  ℕ, ◌+◌, ◌==◌, Bool, true, false, none, some, [], ◌≡◌, refl, arith, Bool-cases, inl, inr,
}
use lopez.Urls.{Urls}
use lopez.Crawler.Master.{
  Host, State, Place, master, await_completion, ended, panicked, start, conclude, Quotas, Outcome,
  empty_crawl, crawl_interrupted, remaining_quota,
}
use lopez.Crawler.Master.Waiting.{NeverSettles, Running, run-Running, SettlesAt, run-Ends}

module _ (urls : Urls) (self : Host urls) (q : Quotas) (enable_page_rank : Bool) where
  conclude-ended :
      (interrupted : Bool) (s : State urls)
      → (outcome : Outcome) × (conclude urls q enable_page_rank (ended interrupted s)
          ≡ some outcome)
  conclude-ended true s = (crawl_interrupted, refl)
  conclude-ended false s = (_, refl)

  -- If there are workers, and no poll finds a page taken from some length of the log on, then `start`
  -- returns, and that length and the remaining quota bound the steps of its loop.
  pub start-ends :
      (settled : ℕ)
      → SettlesAt urls self settled
      → (self.workers == 0) ≡ false
      → (outcome : Outcome) × (start urls self q enable_page_rank (settled + remaining_quota q + 1)
          ≡ some outcome)
  unfolding start
  start-ends settled settles w = elim (Bool-cases (remaining_quota q == 0)) [
    | inl nothing ↦ (empty_crawl, rw nothing refl)
    | inr something ↦
        let (interrupted, s, e) =
          run-Ends urls self (remaining_quota q) settled (settled + remaining_quota q + 1)
            (master (record { n_sent = 0; log = [] })) settles w (ground arith, omega arith) in
        let (outcome, c) = conclude-ended interrupted s in (outcome, rw (something, e) c)
  ]

  conclude-Running :
      (place : Place urls)
      → Running urls self (remaining_quota q) place
      → conclude urls q enable_page_rank place ≡ none
  conclude-Running (master s) h = refl
  conclude-Running (await_completion s) h = refl
  conclude-Running (ended interrupted s) h = absurd h
  conclude-Running (panicked s) h = absurd h

  -- If some quota remains, every call succeeds and some page counts as taken at every poll, then
  -- `start` never returns, after any number of steps.
  pub start-NeverSettles :
      (fuel : ℕ)
      → NeverSettles urls self
      → (remaining_quota q == 0) ≡ false
      → start urls self q enable_page_rank fuel ≡ none
  unfolding start
  start-NeverSettles fuel h something = rw something (
      conclude-Running _ (
        run-Running urls self (remaining_quota q) h fuel (master (record { n_sent = 0; log = [] }))
          tt))
