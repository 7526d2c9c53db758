-- ===== src/Crawler/Worker/Run/Ends.antt =====
-- How long a worker runs, and what is left where it cannot go on.
use lopez.Prelude.{
  ℕ, suc, ◌+◌, ◌<◌, ◌≤◌, length, Bool, List, [], ◌∷◌, ◌++◌, Result, ok, err, ◌≡◌, refl, arith,
  length-append, ◌⊎◌, inl, inr,
}
use lopez.Urls.{Urls}
use lopez.Crawler.Worker.{Pages, Call, Worker}
use lopez.Crawler.Worker.Run.{
  Pool, calls_of, Step, starts, calls, fails, is_over, Runs, at_first, later,
}

module _ (urls : Urls) (pages : Pages) where
  open urls use {Url}

  -- A step for each call of the running tasks, and one for their end.
  abbrev pub left_of : List (List (Call urls pages)) → ℕ
  left_of [] = 0
  left_of (cs ∷ tasks) = suc (length cs) + left_of tasks

  left_of-append :
      (before behind : List (List (Call urls pages)))
      → left_of (before ++ behind) ≡ left_of before + left_of behind
  left_of-append [] behind = omega arith
  left_of-append (cs ∷ before) behind = omega (arith, left_of-append before behind)

  answer_cases : (r : Result pages.Failure Unit) → (r ≡ ok tt) ⊎ ((e : pages.Failure) × (r ≡ err e))
  answer_cases (ok u) = inl refl
  answer_cases (err e) = inr (e, refl)

  module _ (self : Worker urls pages) (allows : Url → Bool) (max_tasks_per_worker : ℕ) where
    -- The steps of all tasks of a stream.
    abbrev pub steps_of : List (Url × ℕ) → ℕ
    steps_of [] = 0
    steps_of (page ∷ stream) =
        2 + length (calls_of urls pages self allows max_tasks_per_worker page) + steps_of stream

    -- No step is possible.
    abbrev pub IsStuck : Pool urls pages → Type 0
    IsStuck s = (t : Pool urls pages) → Step urls pages self allows max_tasks_per_worker s t → ⊥

    Step-left :
        (s t : Pool urls pages)
        → Step urls pages self allows max_tasks_per_worker s t
        → length s.tasks ≤ max_tasks_per_worker
        → (1 + (steps_of t.waiting + left_of t.tasks) ≤ steps_of s.waiting + left_of s.tasks)
          × (length t.tasks ≤ max_tasks_per_worker)
    Step-left s t (starts page waiting e few) h = rw e (omega arith, omega (arith, few))
    Step-left s t (calls before c cs behind e q) h =
        let old = left_of-append before ((c ∷ cs) ∷ behind) in
        let new = left_of-append before (cs ∷ behind) in
        let kept = length-append before ((c ∷ cs) ∷ behind) in
        let now = length-append before (cs ∷ behind) in
        (rw e (omega (arith, old, new)), omega (arith, kept, now, rw e at h))
    Step-left s t (fails before c cs behind x e q) h =
        let old = left_of-append before ((c ∷ cs) ∷ behind) in
        let new = left_of-append before behind in
        let kept = length-append before ((c ∷ cs) ∷ behind) in
        let now = length-append before behind in
        (rw e (omega (arith, old, new)), omega (arith, kept, now, rw e at h))
    Step-left s t (is_over before behind e) h =
        let old = left_of-append before ([] ∷ behind) in
        let new = left_of-append before behind in
        let kept = length-append before ([] ∷ behind) in
        let now = length-append before behind in
        (rw e (omega (arith, old, new)), omega (arith, kept, now, rw e at h))

    Runs-left :
        (stream : List (Url × ℕ)) (n : ℕ) (s : Pool urls pages)
        → Runs urls pages self allows max_tasks_per_worker stream n s
        → (n + (steps_of s.waiting + left_of s.tasks) ≤ steps_of stream)
          × (length s.tasks ≤ max_tasks_per_worker)
    Runs-left stream n s at_first = (omega arith, omega arith)
    Runs-left stream n t (later {n = m} {s} runs step) =
        let (before, few) = Runs-left stream m s runs in
        let (less, still) = Step-left s t step few in (omega (arith, before, less), still)

    can_go_on :
        (waiting : List (Url × ℕ)) (tasks : List (List (Call urls pages)))
        (log : List (Call urls pages))
        → 0 < max_tasks_per_worker
        → IsStuck (record { waiting = waiting; tasks = tasks; log = log })
        → (waiting ≡ []) × (tasks ≡ [])
    can_go_on [] [] log some_task stuck = (refl, refl)
    can_go_on (page ∷ waiting) [] log some_task stuck =
        absurd (stuck _ (starts page waiting refl some_task))
    can_go_on waiting ([] ∷ tasks) log some_task stuck = absurd (stuck _ (is_over [] tasks refl))
    can_go_on waiting ((c ∷ cs) ∷ tasks) log some_task stuck =
        elim (answer_cases (self.respond log c)) [
          | inl q ↦ absurd (stuck _ (calls [] c cs tasks refl q))
          | inr (e, q) ↦ absurd (stuck _ (fails [] c cs tasks e refl q))
        ]

    -- In whichever order the tasks go on, and whichever calls of the backend fail, a worker takes no
    -- more steps than two for each page of the stream and one for each call, and never runs more
    -- tasks than it may; and if it may run one, then it cannot go on only once the stream is
    -- exhausted and all tasks are over.
    pub Runs-ends :
        (stream : List (Url × ℕ)) (n : ℕ) (s : Pool urls pages)
        → 0 < max_tasks_per_worker
        → Runs urls pages self allows max_tasks_per_worker stream n s
        → (n ≤ steps_of stream)
          × (length s.tasks ≤ max_tasks_per_worker)
          × (IsStuck s → (s.waiting ≡ []) × (s.tasks ≡ []))
    Runs-ends stream n s some_task runs =
        let (bound, few) = Runs-left stream n s runs in
        (omega (arith, bound), few, can_go_on s.waiting s.tasks s.log some_task)
