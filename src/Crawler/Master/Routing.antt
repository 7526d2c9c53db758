-- ===== src/Crawler/Master/Routing.antt =====
-- Which worker gets a page.
use native.Mathlib.Nat.{mod-lt}
use lopez.Prelude.{
  ◌<◌, ℕ, suc, zero, ◌%◌, leb, ◌==◌, Bool, true, false, Option, none, some, List, [], ◌∷◌, All,
  All-append, ◌≡◌, refl, sym, ◌∙◌, ap, subst, Bool-cases, inl, inr,
}
use lopez.Prelude.Sort.{sort_unstable, Member}
use lopez.Urls.{Urls}
use lopez.Crawler.Master.{
  Event, fetched, polled, sent, Host, State, Place, master, await_completion, ended, panicked, note,
  by_depth, chosen, count_sent, check_quota, round_robin, polled_at, after_fetch, step, run,
}

module _ (urls : Urls) (self : Host urls) where
  -- A page goes to the worker that the hash of its origin chooses.
  abbrev pub IsRouted : Event urls → Type 0
  IsRouted (sent worker url depth) = worker ≡ self.hash (self.origin url) % self.workers
  IsRouted event = Unit

  abbrev pub state_of : Place urls → State urls
  state_of (master s) = s
  state_of (await_completion s) = s
  state_of (ended interrupted s) = s
  state_of (panicked s) = s

  abbrev pub Routed : State urls → Type 0
  Routed s = All IsRouted s.log

  note-Routed : (e : Event urls) (s : State urls) → IsRouted e → Routed s → Routed (note urls e s)
  note-Routed e s h k = All-append IsRouted s.log (e ∷ []) k (h, tt)

  module _ (remaining : ℕ) where
    check_quota-Routed :
        (s : State urls) → Routed s → Routed (state_of (check_quota urls self remaining s))
    check_quota-Routed s h = elim (Bool-cases (leb remaining s.n_sent)) [
      | inl reached ↦ rw reached h
      | inr below ↦ rw below h
    ]

    round_robin-Routed :
        (tasks : List (urls.Url × ℕ)) (s : State urls)
        → Routed s
        → Routed (state_of (round_robin urls self remaining tasks s))
    unfolding round_robin
    round_robin-Routed [] s h = check_quota-Routed s h
    round_robin-Routed (task ∷ tasks) s h =
        let next = note-Routed (sent (chosen urls self remaining task.0) task.0 task.1) s refl h in
        elim (Bool-cases (self.workers == 0)) [
          | inl nobody ↦ rw nobody h
          | inr somebody ↦
              elim (Bool-cases (self.send_task s.log (chosen urls self remaining task.0) task)) [
                | inl taken ↦
                    rw (somebody, taken)
                      (round_robin-Routed tasks (count_sent urls self remaining task s) next)
                | inr refused ↦ rw (somebody, refused) next
              ]
        ]

    polled_at-Routed :
        (back : Place urls) (s : State urls) (answer : Option Bool)
        → Routed (state_of back)
        → Routed s
        → Routed (state_of (polled_at urls self remaining back s answer))
    polled_at-Routed back s (some true) h k = h
    polled_at-Routed back s (some false) h k = k
    polled_at-Routed back s none h k = k

    after_fetch-Routed :
        (s : State urls) (answer : Option (List (urls.Url × ℕ)))
        → Routed s
        → Routed (state_of (after_fetch urls self remaining s answer))
    after_fetch-Routed s none h = h
    after_fetch-Routed s (some []) h =
        let next = note-Routed polled s tt h in
        polled_at-Routed (master (note urls polled s)) (note urls polled s)
          (self.exists_taken s.log) next next
    after_fetch-Routed s (some (task ∷ tasks)) h =
        round_robin-Routed (sort_unstable (by_depth urls) (task ∷ tasks)) s h

    step-Routed :
        (place : Place urls)
        → Routed (state_of place)
        → Routed (state_of (step urls self remaining place))
    unfolding step
    step-Routed (master s) h =
        after_fetch-Routed (note urls fetched s) (self.fetch s.log) (note-Routed fetched s tt h)
    step-Routed (await_completion s) h =
        let next = note-Routed polled s tt h in
        polled_at-Routed (await_completion (note urls polled s)) (note urls polled s)
          (self.exists_taken s.log) next next
    step-Routed (ended interrupted s) h = h
    step-Routed (panicked s) h = h

    run-Routed :
        (fuel : ℕ) (place : Place urls)
        → Routed (state_of place)
        → Routed (state_of (run urls self remaining fuel place))
    unfolding run
    run-Routed zero place h = h
    run-Routed (suc fuel) place h =
        run-Routed fuel (step urls self remaining place) (step-Routed place h)

    Member-All :
        (P : Event urls → Type 0) (e : Event urls) (log : List (Event urls))
        → Member e log
        → All P log
        → P e
    Member-All P e [] m h = absurd m
    Member-All P e (x ∷ log) (inl q) h = subst P (sym q) h.0
    Member-All P e (x ∷ log) (inr m) h = Member-All P e log m h.1

    -- However long the loop runs, from a log without events, if there are workers, then a page is sent
    -- to one of them, and any two pages of one origin to the same, whatever the hash of origins is.
    pub run-one_worker :
        (fuel n_sent : ℕ) (worker worker' : ℕ) (url url' : urls.Url) (depth depth' : ℕ)
        → 0 < self.workers
        → let place =
            run urls self remaining fuel (master (record { n_sent = n_sent; log = [] })) in
          Member (sent worker url depth) (state_of place).log
          → Member (sent worker' url' depth') (state_of place).log
          → self.origin url ≡ self.origin url'
          → (worker ≡ worker') × (worker < self.workers)
    run-one_worker fuel n_sent worker worker' url url' depth depth' some_worker m m' same =
        let place = run urls self remaining fuel (master (record { n_sent = n_sent; log = [] })) in
        let routed = run-Routed fuel (master (record { n_sent = n_sent; log = [] })) tt in
        let first = Member-All IsRouted (sent worker url depth) (state_of place).log m routed in
        let second =
          Member-All IsRouted (sent worker' url' depth') (state_of place).log m' routed in
        (
          first ∙ ap (λ o. self.hash o % self.workers) same ∙ sym second,
          rw first (mod-lt (self.hash (self.origin url)) some_worker),
        )
