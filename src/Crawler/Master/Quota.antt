-- ===== src/Crawler/Master/Quota.antt =====
-- How many pages are sent.
use lopez.Prelude.{
  ℕ, suc, zero, ◌+◌, ◌<◌, ◌≤◌, leb, ◌==◌, length, Bool, true, false, Option, none, some, List, [],
  ◌∷◌, Ordering, ◌≡◌, refl, ap, ◌∙◌, arith, Bool-cases, inl, inr,
}
use lopez.Prelude.Sort.{sort_unstable, insert_sorted, insert_at}
use lopez.Urls.{Urls}
use lopez.Crawler.Master.{
  Event, fetched, polled, Host, State, Place, master, await_completion, ended, panicked, note,
  by_depth, chosen, count_sent, check_quota, round_robin, polled_at, after_fetch, step, run,
}

module _ {A : Type 0} (cmp : A → A → Ordering) where
  length-insert_at :
      (o : Ordering) (a b : A) (bs rest : List A)
      → length rest ≡ suc (length bs)
      → length (insert_at cmp o a b bs rest) ≡ suc (suc (length bs))
  length-insert_at Ordering.lt a b bs rest h = refl
  length-insert_at Ordering.eq a b bs rest h = refl
  length-insert_at Ordering.gt a b bs rest h = ap suc h

  length-insert_sorted : (a : A) (bs : List A) → length (insert_sorted cmp a bs) ≡ suc (length bs)
  unfolding insert_sorted
  length-insert_sorted a [] = refl
  length-insert_sorted a (b ∷ bs) =
      length-insert_at (cmp a b) a b bs (insert_sorted cmp a bs) (length-insert_sorted a bs)

  pub length-sort_unstable : (as' : List A) → length (sort_unstable cmp as') ≡ length as'
  unfolding sort_unstable
  length-sort_unstable [] = refl
  length-sort_unstable (a ∷ as') =
      length-insert_sorted a (sort_unstable cmp as') ∙ ap suc (length-sort_unstable as')

module _ (urls : Urls) (self : Host urls) (remaining batch_size : ℕ) where
  -- `fetch` gives no more pages than it is asked for.
  abbrev pub FetchesBatches : Type 0
  FetchesBatches =
      (log : List (Event urls)) (batch : List (urls.Url × ℕ))
      → self.fetch log ≡ some batch
      → length batch ≤ batch_size

  -- The bounds on what was sent: below the quota at the head of the loop, at least the quota while
  -- completion is awaited, and never a whole batch above it.
  abbrev pub Within : Place urls → Type 0
  Within (master s) = s.n_sent < remaining
  Within (await_completion s) = (remaining ≤ s.n_sent) × (s.n_sent < remaining + batch_size)
  Within (ended interrupted s) = s.n_sent < remaining + batch_size
  Within (panicked s) = s.n_sent < remaining + batch_size

  check_quota-Within :
      (s : State urls)
      → s.n_sent < remaining + batch_size
      → Within (check_quota urls self remaining s)
  check_quota-Within s h = elim (Bool-cases (leb remaining s.n_sent)) [
    | inl reached ↦ rw reached (ground arith, h)
    | inr below ↦ rw below (ground arith)
  ]

  round_robin-Within :
      (tasks : List (urls.Url × ℕ)) (s : State urls)
      → s.n_sent + length tasks < remaining + batch_size
      → Within (round_robin urls self remaining tasks s)
  unfolding round_robin
  round_robin-Within [] s h = check_quota-Within s (omega arith)
  round_robin-Within (task ∷ tasks) s h = elim (Bool-cases (self.workers == 0)) [
    | inl nobody ↦ rw nobody (omega arith)
    | inr somebody ↦
        elim (Bool-cases (self.send_task s.log (chosen urls self remaining task.0) task)) [
          | inl taken ↦
              rw (somebody, taken)
                (round_robin-Within tasks (count_sent urls self remaining task s) (omega arith))
          | inr refused ↦ rw (somebody, refused) (omega arith)
        ]
  ]

  polled_at-Within :
      (back : Place urls) (s : State urls) (answer : Option Bool)
      → Within back
      → s.n_sent < remaining + batch_size
      → Within (polled_at urls self remaining back s answer)
  polled_at-Within back s (some true) h k = h
  polled_at-Within back s (some false) h k = k
  polled_at-Within back s none h k = k

  after_fetch-Within :
      (s : State urls) (answer : Option (List (urls.Url × ℕ)))
      → s.n_sent < remaining
      → ((batch : List (urls.Url × ℕ)) → answer ≡ some batch → length batch ≤ batch_size)
      → Within (after_fetch urls self remaining s answer)
  after_fetch-Within s none h b = omega arith
  after_fetch-Within s (some []) h b =
      polled_at-Within (master (note urls polled s)) (note urls polled s) (self.exists_taken s.log)
        h (omega arith)
  after_fetch-Within s (some (task ∷ tasks)) h b =
      let fits : length (task ∷ tasks) ≤ batch_size = b (task ∷ tasks) refl in
      let same = length-sort_unstable (by_depth urls) (task ∷ tasks) in
      round_robin-Within (sort_unstable (by_depth urls) (task ∷ tasks)) s (omega arith)

  step-Within :
      (place : Place urls) → FetchesBatches → Within place → Within (step urls self remaining place)
  unfolding step
  step-Within (master s) f h =
      after_fetch-Within (note urls fetched s) (self.fetch s.log) h (f s.log)
  step-Within (await_completion s) f h =
      polled_at-Within (await_completion (note urls polled s)) (note urls polled s)
        (self.exists_taken s.log) h h.1
  step-Within (ended interrupted s) f h = h
  step-Within (panicked s) f h = h

  -- However long the loop runs, it stays within its bounds: at the head of the loop fewer pages were
  -- sent than the quota that remained; while completion is awaited, at least as many; and at no time
  -- a whole batch more, if `fetch` gives no more pages than it is asked for.
  pub run-Within :
      (fuel : ℕ) (place : Place urls)
      → FetchesBatches
      → Within place
      → Within (run urls self remaining fuel place)
  unfolding run
  run-Within zero place f h = h
  run-Within (suc fuel) place f h =
      run-Within fuel (step urls self remaining place) f (step-Within place f h)
