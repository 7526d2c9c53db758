-- ===== src/Crawler/Master/Waiting.antt =====
-- Whether the loop of the master ends, by what the polls of the backend answer.
use lopez.Prelude.{
  ℕ, suc, zero, ◌+◌, ◌-◌, ◌<◌, ◌≤◌, leb, ◌==◌, length, length-append, Bool, true, false, some, List,
  [], ◌∷◌, ◌≡◌, ◌≢◌, refl, arith, Bool-cases, Option-cases, inl, inr,
}
use lopez.Prelude.Sort.{sort_unstable}
use lopez.Urls.{Urls}
use lopez.Crawler.Master.{
  Event, fetched, polled, sent, Host, State, Place, master, await_completion, ended, panicked, note,
  by_depth, chosen, count_sent, check_quota, round_robin, polled_at, after_fetch, step, run,
}
use lopez.Crawler.Master.Quota.{length-sort_unstable}

module _ (urls : Urls) (self : Host urls) where
  -- Every call succeeds, there are workers, and some page counts as taken at every poll.
  pub record NeverSettles : Type 0 where
    pub fetches :
        (log : List (Event urls)) → (batch : List (urls.Url × ℕ)) × (self.fetch log ≡ some batch)
    pub takes : (log : List (Event urls)) → self.exists_taken log ≡ some true
    pub sends :
        (log : List (Event urls)) (worker : ℕ) (task : urls.Url × ℕ)
        → self.send_task log worker task ≡ true
    pub workers_exist : (self.workers == 0) ≡ false

  -- From a log of this length on, no poll finds a page that is taken.
  abbrev pub SettlesAt : ℕ → Type 0
  SettlesAt settled =
      (log : List (Event urls)) → settled ≤ length log → self.exists_taken log ≢ some true

  module _ (remaining : ℕ) where
    abbrev pub Running : Place urls → Type 0
    Running (master s) = Unit
    Running (await_completion s) = Unit
    Running (ended interrupted s) = ⊥
    Running (panicked s) = ⊥

    check_quota-Running : (s : State urls) → Running (check_quota urls self remaining s)
    check_quota-Running s = elim (Bool-cases (leb remaining s.n_sent)) [
      | inl reached ↦ rw reached tt
      | inr below ↦ rw below tt
    ]

    round_robin-Running :
        NeverSettles
        → (tasks : List (urls.Url × ℕ)) (s : State urls)
        → Running (round_robin urls self remaining tasks s)
    unfolding round_robin
    round_robin-Running h [] s = check_quota-Running s
    round_robin-Running h (task ∷ tasks) s =
        rw (h.workers_exist, h.sends s.log (chosen urls self remaining task.0) task)
          (round_robin-Running h tasks (count_sent urls self remaining task s))

    after_fetch-Running :
        NeverSettles
        → (s : State urls) (batch : List (urls.Url × ℕ))
        → Running (after_fetch urls self remaining s (some batch))
    after_fetch-Running h s [] = rw (h.takes s.log) tt
    after_fetch-Running h s (task ∷ tasks) =
        round_robin-Running h (sort_unstable (by_depth urls) (task ∷ tasks)) s

    step-Running :
        NeverSettles
        → (place : Place urls) → Running place
        → Running (step urls self remaining place)
    unfolding step
    step-Running h (master s) k =
        let (batch, e) = h.fetches s.log in rw e (after_fetch-Running h (note urls fetched s) batch)
    step-Running h (await_completion s) k = rw (h.takes s.log) tt
    step-Running h (ended interrupted s) k = absurd k
    step-Running h (panicked s) k = absurd k

    pub run-Running :
        NeverSettles
        → (fuel : ℕ) (place : Place urls) → Running place
        → Running (run urls self remaining fuel place)
    unfolding run
    run-Running h zero place k = k
    run-Running h (suc fuel) place k =
        run-Running h fuel (step urls self remaining place) (step-Running h place k)

    -- The steps that are left for a place, at the most.
    abbrev pub Ends : ℕ → ℕ → Place urls → Type 0
    Ends settled fuel (master s) =
        (s.n_sent < remaining) × ((settled - length s.log) + (remaining - s.n_sent) + 1 ≤ fuel)
    Ends settled fuel (await_completion s) = (settled - length s.log) + 1 ≤ fuel
    Ends settled fuel (ended interrupted s) = Unit
    Ends settled fuel (panicked s) = ⊥

    length-note : (e : Event urls) (s : State urls) → length (note urls e s).log ≡ length s.log + 1
    length-note e s = length-append s.log (e ∷ [])

    check_quota-Ends :
        (settled fuel : ℕ) (s : State urls)
        → (settled - length s.log) + (remaining - s.n_sent) + 1 ≤ fuel
        → Ends settled fuel (check_quota urls self remaining s)
    check_quota-Ends settled fuel s h = elim (Bool-cases (leb remaining s.n_sent)) [
      | inl reached ↦ rw reached (omega arith)
      | inr below ↦ rw below (ground arith, h)
    ]

    round_robin-Ends :
        (settled fuel : ℕ)
        → (self.workers == 0) ≡ false
        → (tasks : List (urls.Url × ℕ)) (s : State urls)
        → (settled - length s.log) + (remaining - s.n_sent) + 1 ≤ fuel
        → Ends settled fuel (round_robin urls self remaining tasks s)
    unfolding round_robin
    round_robin-Ends settled fuel w [] s h = check_quota-Ends settled fuel s h
    round_robin-Ends settled fuel w (task ∷ tasks) s h =
        let n = length-append s.log (sent (chosen urls self remaining task.0) task.0 task.1 ∷ []) in
        elim (Bool-cases (self.send_task s.log (chosen urls self remaining task.0) task)) [
          | inl taken ↦
              rw (w, taken)
                (round_robin-Ends settled fuel w tasks (count_sent urls self remaining task s)
                  (omega (arith, n)))
          | inr refused ↦ rw (w, refused) tt
        ]

    first_sent-Ends :
        (settled fuel : ℕ)
        → (self.workers == 0) ≡ false
        → (tasks : List (urls.Url × ℕ)) (s : State urls) → 1 ≤ length tasks
        → s.n_sent < remaining
        → (settled - length s.log) + (remaining - s.n_sent) ≤ fuel
        → Ends settled fuel (round_robin urls self remaining tasks s)
    unfolding round_robin
    first_sent-Ends settled fuel w [] s some_task h k = absurd (omega arith)
    first_sent-Ends settled fuel w (task ∷ tasks) s some_task h k =
        let n = length-append s.log (sent (chosen urls self remaining task.0) task.0 task.1 ∷ []) in
        elim (Bool-cases (self.send_task s.log (chosen urls self remaining task.0) task)) [
          | inl taken ↦
              rw (w, taken)
                (round_robin-Ends settled fuel w tasks (count_sent urls self remaining task s)
                  (omega (arith, n)))
          | inr refused ↦ rw (w, refused) tt
        ]

    polled_at-Ends :
        (settled fuel : ℕ) (back : Place urls) (s : State urls) (log : List (Event urls))
        → SettlesAt settled
        → (length log < settled → Ends settled fuel back)
        → Ends settled fuel (polled_at urls self remaining back s (self.exists_taken log))
    polled_at-Ends settled fuel back s log settles h = elim (Option-cases (self.exists_taken log)) [
      | inl fails ↦ rw fails tt
      | inr (false, e) ↦ rw e tt
      | inr (true, e) ↦ elim (Bool-cases (leb settled (length log))) [
        | inl late ↦ absurd (settles log (ground arith) e)
        | inr early ↦ rw e (h (ground arith))
      ]
    ]

    step-Ends :
        (settled fuel : ℕ) (place : Place urls)
        → SettlesAt settled
        → (self.workers == 0) ≡ false
        → Ends settled (suc fuel) place
        → Ends settled fuel (step urls self remaining place)
    unfolding step
    step-Ends settled fuel (master s) settles w (below, h) =
        elim (Option-cases (self.fetch s.log)) [
          | inl fails ↦ rw fails tt
          | inr ([], e) ↦ rw e (
              polled_at-Ends settled fuel (master (note urls polled (note urls fetched s)))
                (note urls polled (note urls fetched s)) (note urls fetched s).log settles
                (λ early. (
                  below,
                  omega (arith, length-note fetched s, length-note polled (note urls fetched s)),
                )))
          | inr (task ∷ tasks, e) ↦ rw e (
              first_sent-Ends settled fuel w (sort_unstable (by_depth urls) (task ∷ tasks))
                (note urls fetched s)
                (omega (arith, length-sort_unstable (by_depth urls) (task ∷ tasks))) below
                (omega (arith, length-note fetched s)))
        ]
    step-Ends settled fuel (await_completion s) settles w h =
        polled_at-Ends settled fuel (await_completion (note urls polled s)) (note urls polled s)
          s.log settles (λ early. omega (arith, length-note polled s))
    step-Ends settled fuel (ended interrupted s) settles w h = tt
    step-Ends settled fuel (panicked s) settles w h = absurd h

    pub run-Ends :
        (settled fuel : ℕ) (place : Place urls)
        → SettlesAt settled
        → (self.workers == 0) ≡ false
        → Ends settled fuel place
        → (interrupted : Bool) × (s : State urls) × (run urls self remaining fuel place
            ≡ ended interrupted s)
    unfolding run
    run-Ends settled zero (master s) settles w h = absurd (omega arith)
    run-Ends settled zero (await_completion s) settles w h = absurd (omega arith)
    run-Ends settled zero (ended interrupted s) settles w h = (interrupted, s, refl)
    run-Ends settled zero (panicked s) settles w h = absurd h
    run-Ends settled (suc fuel) place settles w h =
        run-Ends settled fuel (step urls self remaining place) settles w
          (step-Ends settled fuel place settles w h)
