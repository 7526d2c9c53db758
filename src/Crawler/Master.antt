-- ===== src/Crawler/Master.antt =====
-- lib-lopez/src/crawler/master.rs: the loop of `start`, which hands pages to the workers. What the
-- backend and the workers answer depends on the log of what was asked before. Sleeping is not
-- modelled: a poll of the backend is a step of its own, so that a run is given fuel for its steps.
pub mod Quota
pub mod Waiting
pub mod Ending
pub mod Routing
use lopez.Prelude.{
  ℕ, suc, zero, ◌+◌, ◌-◌, ◌%◌, min, compare, leb, ◌==◌, Bool, true, false, not, Option, none, some,
  List, [], ◌∷◌, ◌++◌, Ordering, if◌then◌else◌,
}
use lopez.Prelude.Sort.{sort_unstable}
use lopez.Urls.{Urls}

-- The quotas that `start` computes.
pub record Quotas : Type 0 where
  pub crawl_quota : ℕ
  pub max_quota : ℕ
  pub consumed : ℕ

abbrev pub effective_quota : Quotas → ℕ
effective_quota q = min q.max_quota q.crawl_quota

abbrev pub will_crawl_end : Quotas → Bool
will_crawl_end q = leb q.crawl_quota q.max_quota

-- `effective_quota.saturating_sub(consumed)`.
abbrev pub remaining_quota : Quotas → ℕ
remaining_quota q = effective_quota q - q.consumed

-- How `start` returns: with no crawl at all, an error, or `Ok`, with the page rank or without it.
pub data Outcome : Type 0 where
  empty_crawl crawl_interrupted incomplete : Outcome
  crawl_done : Bool → Outcome

module _ (urls : Urls) where
  open urls use {Url}

  -- What the master asks, in the order of asking: a batch, whether pages are taken, and a task for
  -- a worker.
  pub data Event : Type 0 where
    fetched polled : Event
    sent : ℕ → Url → ℕ → Event

  pub record Host : Type 1 where
    -- `none` is an error, which is only logged.
    pub fetch : List Event → Option (List (Url × ℕ))
    pub exists_taken : List Event → Option Bool
    -- Whether the worker takes the task.
    pub send_task : List Event → ℕ → Url × ℕ → Bool
    -- `url.origin()`, and `crate::hash` of it `as usize`.
    pub Origin : Type 0
    pub origin : Url → Origin
    pub hash : Origin → ℕ
    -- `handlers.len()`.
    pub workers : ℕ

  pub record State : Type 0 where
    pub n_sent : ℕ
    pub log : List Event

  -- Where the loop is: at the head of `'master`, in `'await_completion`, or behind the loop with
  -- `is_interrupted`. A remainder by no workers at all panics.
  pub data Place : Type 0 where
    master await_completion : State → Place
    ended : Bool → State → Place
    panicked : State → Place

  abbrev pub note : Event → State → State
  note event s = record { n_sent = s.n_sent; log = s.log ++ (event ∷ []) }

  -- `batch.sort_unstable_by_key(|(_, depth)| *depth)`.
  abbrev pub by_depth : Url × ℕ → Url × ℕ → Ordering
  by_depth a b = compare a.1 b.1

  module _ (self : Host) (remaining_quota : ℕ) where
    abbrev pub chosen : Url → ℕ
    chosen url = self.hash (self.origin url) % self.workers

    abbrev pub count_sent : Url × ℕ → State → State
    count_sent task s = record {
      n_sent = s.n_sent + 1;
      log = s.log ++ (sent (chosen task.0) task.0 task.1 ∷ []);
    }

    -- Behind the batch: is the quota reached?
    abbrev pub check_quota : State → Place
    check_quota s = if leb remaining_quota s.n_sent then await_completion s else master s

    unfoldable pub round_robin : List (Url × ℕ) → State → Place
    round_robin [] s = check_quota s
    round_robin (task ∷ tasks) s =
        let next = round_robin tasks in
        if self.workers == 0
        then panicked s
        else if self.send_task s.log (chosen task.0) task
        then next (count_sent task s)
        else ended true (note (sent (chosen task.0) task.0 task.1) s)

    -- The answer to a poll, with the place to go back to while pages are taken.
    abbrev pub polled_at : Place → State → Option Bool → Place
    polled_at back s (some true) = back
    polled_at back s (some false) = ended false s
    polled_at back s none = ended false s

    abbrev pub after_fetch : State → Option (List (Url × ℕ)) → Place
    after_fetch s none = ended false s
    after_fetch s (some []) =
        polled_at (master (note polled s)) (note polled s) (self.exists_taken s.log)
    after_fetch s (some (task ∷ tasks)) = round_robin (sort_unstable by_depth (task ∷ tasks)) s

    unfoldable pub step : Place → Place
    unfolding round_robin sort_unstable
    step (master s) = after_fetch (note fetched s) (self.fetch s.log)
    step (await_completion s) =
        polled_at (await_completion (note polled s)) (note polled s) (self.exists_taken s.log)
    step (ended interrupted s) = ended interrupted s
    step (panicked s) = panicked s

    unfoldable pub run : ℕ → Place → Place
    unfolding step
    run zero place = place
    run (suc fuel) place = run fuel (step place)

  abbrev pub conclude : Quotas → Bool → Place → Option Outcome
  conclude q enable_page_rank (ended true s) = some crawl_interrupted
  conclude q enable_page_rank (ended false s) =
      some (if not (will_crawl_end q) then incomplete else crawl_done enable_page_rank)
  conclude q enable_page_rank _ = none

  -- `none`: the fuel ran out, or a panic.
  unfoldable pub start : Host → Quotas → Bool → ℕ → Option Outcome
  unfolding run
  start self q enable_page_rank fuel =
      if remaining_quota q == 0
      then some empty_crawl
      else conclude q enable_page_rank
          (run self (remaining_quota q) fuel (master (record { n_sent = 0; log = [] })))
