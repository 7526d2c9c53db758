-- ===== src/Tests/Running.antt =====
-- A worker that runs two tasks, with their calls in turns.
use lopez.Prelude.{ℕ, Text, bytes, Bool, true, [], ◌∷◌, List, ok, ◌++◌, ◌≡◌, refl, arith}
use lopez.Crawler.Worker.{
  Pages, bad_status_page, finished, not_accepted, Worker, Call, ensure_active, ensure_explored,
  crawl,
}
use lopez.Crawler.Worker.Run.{
  Pool, starts, calls, fails, is_over, Runs, at_first, later, task_program, store_program,
}
use lopez.Crawler.Worker.Run.Ends.{IsStuck}
use lopez.Crawler.Worker.Run.Settles.{settled, settling_pages, Runs-settles}
use lopez.Tests.Samples.{Address, addresses}

abbrev texts : Pages
texts = record { StatusCode = ℕ; Content = Text; Analysis = Text; Failure = Text }

-- Every page is missing.
abbrev not_found : Worker addresses texts
not_found = record {
  bounds = record { is_allowed = λ u. true; is_frontier = λ u. true; clean_query_params = λ u. u };
  download = λ url. finished (ok (bad_status_page 404));
  parse_page = λ url content. not_accepted;
  respond = λ log c. ok tt;
}

abbrev first : Address
first = (bytes "https://a.com", [])

abbrev second : Address
second = (bytes "https://b.com", [])

abbrev stream : List (Address × ℕ)
stream = (first, 0) ∷ (second, 1) ∷ []

abbrev all : Address → Bool
all u = true

abbrev missing : Address → ℕ → Call addresses texts
missing u depth = ensure_explored u 404 depth []

abbrev last : Pool addresses texts
last = record {
  waiting = [];
  tasks = [];
  log = ensure_active second ∷ ensure_active first ∷ missing first 1 ∷ missing second 2 ∷ [];
}

both_run : Runs addresses texts not_found all 2 stream 8 last
unfolding task_program store_program crawl
both_run =
    later
      (later
        (later
          (later
            (later
              (later
                (later (later at_first (starts (first, 0) ((second, 1) ∷ []) refl (omega arith)))
                  (starts (second, 1) [] refl (omega arith)))
                (calls [] (ensure_active second) (missing second 2 ∷ [])
                  ((ensure_active first ∷ missing first 1 ∷ []) ∷ []) refl refl))
              (calls ((missing second 2 ∷ []) ∷ []) (ensure_active first) (missing first 1 ∷ []) []
                refl refl))
            (calls ((missing second 2 ∷ []) ∷ []) (missing first 1) [] [] refl refl))
          (is_over ((missing second 2 ∷ []) ∷ []) [] refl))
        (calls [] (missing second 2) [] [] refl refl))
      (is_over [] [] refl)

not_nil : {A : Type 0} (before : List A) (x : A) (behind : List A) → [] ≡ before ++ (x ∷ behind) → ⊥
not_nil [] x behind e = absurd (cc)
not_nil (y ∷ before) x behind e = absurd (cc)

last-IsStuck : IsStuck addresses texts not_found all 2 last
last-IsStuck t (starts page waiting e few) = absurd (cc)
last-IsStuck t (calls before c cs behind e q) = not_nil before (c ∷ cs) behind e
last-IsStuck t (fails before c cs behind x e q) = not_nil before (c ∷ cs) behind e
last-IsStuck t (is_over before behind e) = not_nil before [] behind e

Runs-settles_example :
    settled addresses texts all last.log ≡ settling_pages addresses texts all not_found all 2 stream
Runs-settles_example =
    Runs-settles addresses texts all not_found all 2 stream 8 last (omega arith) (λ log c. refl)
      both_run last-IsStuck
