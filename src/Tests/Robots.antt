-- ===== src/Tests/Robots.antt =====
-- The search for robots.txt where none is found.
use lopez.Prelude.{
  ℕ, Text, bytes, is_empty, false, Option, none, some, [], ok, err, if◌then◌else◌, ◌≡◌, refl,
}
use lopez.Crawler.Worker.{Pages, bad_status_page}
use lopez.Crawler.RobotsFetch.{
  Hosts, running, panicked, do_get_robots, follow_redirects, get_robots,
}
use lopez.Crawler.RobotsFetch.Domains.{get_robots-no_domain, get_robots-one_part}

abbrev texts : Pages
texts = record { StatusCode = ℕ; Content = Text; Analysis = Text; Failure = Text }

-- A URL is its domain, if it has one; every page answers 404.
abbrev missing : Hosts texts
missing = record {
  Url = Option Text;
  domain = λ u. u;
  set_host = λ u d. if is_empty d then none else some (some d);
  robots_url = λ u. ok u;
  parse_url = λ s. err s;
  is_success = λ status. false;
  from_utf8_lossy = λ s. s;
  download = λ log u. ok (bad_status_page 404);
}

get_robots-no_domain_example : get_robots missing 100 [] none ≡ running
unfolding do_get_robots follow_redirects
get_robots-no_domain_example = get_robots-no_domain missing 100 [] none refl (λ log. refl)

get_robots-one_part_example : get_robots missing 1 [] (some (bytes "localhost")) ≡ panicked
unfolding do_get_robots follow_redirects
get_robots-one_part_example =
    get_robots-one_part missing 0 [] (some (bytes "localhost")) (bytes "localhost") (λ u. refl) refl
      refl refl
