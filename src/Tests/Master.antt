-- ===== src/Tests/Master.antt =====
-- The master on a backend with one page.
use lopez.Prelude.{
  ◌<◌, ◌+◌, length, Text, bytes, ◌%◌, Bool, true, false, none, some, [], ◌∷◌, if◌then◌else◌,
  is_empty, ◌≡◌, refl, arith, Bool-cases, inl, inr,
}
use lopez.Crawler.Master.{Host, Place, master, run, start, Quotas, Outcome, remaining_quota}
use lopez.Prelude.Sort.{insert_sorted}
use lopez.Crawler.Master.Quota.{Within, FetchesBatches, run-Within}
use lopez.Crawler.Master.Routing.{run-one_worker}
use lopez.Crawler.Master.Waiting.{NeverSettles}
use lopez.Crawler.Master.Ending.{start-ends, start-NeverSettles}
use lopez.Tests.Samples.{addresses}

-- One page is fetched, and it counts as taken from then on, or not at all.
abbrev one_page : Bool → Host addresses
one_page taken = record {
  fetch = λ log. some (if is_empty log then ((bytes "https://a.com", []), 0) ∷ [] else []);
  exists_taken = λ log. some taken;
  send_task = λ log worker task. true;
  Origin = Text;
  origin = λ url. url.0;
  hash = λ o. length o;
  workers = 2;
}

one_page-FetchesBatches : FetchesBatches addresses (one_page true) 5 1
one_page-FetchesBatches log batch e = elim (Bool-cases (is_empty log)) [
  | inl first ↦ ground arith
  | inr later ↦ ground arith
]

abbrev at_start : Place addresses
at_start = master (record { n_sent = 0; log = [] })

run-Within_example :
    Within addresses (one_page true) 5 1 (run addresses (one_page true) 5 10 at_start)
run-Within_example =
    run-Within addresses (one_page true) 5 1 10 at_start one_page-FetchesBatches (omega arith)

-- Two pages of one origin, in the first batch.
abbrev two_pages : Host addresses
two_pages = record {
  fetch = λ log. some (
      if is_empty log
      then ((bytes "https://a.com", []), 0)
        ∷ ((bytes "https://a.com", (bytes "q", bytes "1") ∷ []), 1)
        ∷ []
      else []);
  exists_taken = λ log. some true;
  send_task = λ log worker task. true;
  Origin = Text;
  origin = λ url. url.0;
  hash = λ o. length o;
  workers = 3;
}

run-one_worker_example : (length (bytes "https://a.com") % two_pages.workers ≡ 1) × (1 < 3)
unfolding run insert_sorted
run-one_worker_example =
    run-one_worker addresses two_pages 5 1 0 (length (bytes "https://a.com") % two_pages.workers) 1
      (bytes "https://a.com", []) (bytes "https://a.com", (bytes "q", bytes "1") ∷ []) 0 1
      (omega arith) (inr (inl refl)) (inr (inr (inl refl))) refl

abbrev quotas : Quotas
quotas = record { crawl_quota = 8; max_quota = 6; consumed = 1 }

start-ends_example :
    (outcome : Outcome) × (start addresses
        (one_page false)
        quotas
        true
        (0 + remaining_quota quotas + 1)
      ≡ some outcome)
start-ends_example =
    start-ends addresses (one_page false) quotas true 0 (λ log late e. absurd (cc)) refl

one_page-NeverSettles : NeverSettles addresses (one_page true)
one_page-NeverSettles = record {
  fetches = λ log. (_, refl);
  takes = λ log. refl;
  sends = λ log worker task. refl;
  workers_exist = refl;
}

start-NeverSettles_example : start addresses (one_page true) quotas true 50 ≡ none
start-NeverSettles_example =
    start-NeverSettles addresses (one_page true) quotas true 50 one_page-NeverSettles refl
