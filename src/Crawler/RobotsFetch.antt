-- ===== src/Crawler/RobotsFetch.antt =====
-- lib-lopez/src/crawler/robots.rs: how robots.txt is found, over redirects and up the domains. What the
-- downloader answers depends on the log of the URLs that it was asked for before. The loop up the
-- domains is given fuel, one for each domain.
pub mod Domains
use lopez.Prelude.{
  ℕ, suc, zero, Text, bytes, split, join, drop, length, ◌==◌, Bool, true, false, Option, none, some,
  List, [], ◌∷◌, ◌++◌, Result, ok, err, if◌then◌else◌,
}
use lopez.Crawler.Worker.{Pages, Downloaded, page, bad_status_page, moved}

-- What is asked of URLs and of pages here.
pub record Hosts (pages : Pages) : Type 1 where
  pub Url : Type 0
  pub domain : Url → Option Text
  -- `set_host(Some(…))`; `none` is an error, on which the code panics.
  pub set_host : Url → Text → Option Url
  -- `base_url.join("/robots.txt")` and `location.parse()`.
  pub robots_url : Url → Result pages.Failure Url
  pub parse_url : Text → Result pages.Failure Url
  pub is_success : pages.StatusCode → Bool
  pub from_utf8_lossy : pages.Content → Text
  pub download : List Url → Url → Result pages.Failure (Downloaded pages)

-- How `get_robots` ends, and `running` where the fuel ran out.
pub data Outcome (Failure : Type 0) : Type 0 where
  returned : Result Failure (Option Text) → Outcome Failure
  panicked running : Outcome Failure

-- `domain.split(".").skip(1)`.
abbrev pub parts_one_up : Text → List Text
parts_one_up d = drop 1 (split b'.' d)

module _ {pages : Pages} (hosts : Hosts pages) where
  open pages use {Failure}
  open hosts use {
    Url, domain, set_host, robots_url, parse_url, is_success, from_utf8_lossy, download,
  }

  -- The answer, and the log behind it.
  abbrev pub Answer : Type 0
  Answer = Result Failure (Option Text) × List Url

  abbrev pub read_page : pages.Content → Bool → Option Text
  read_page content true = some (from_utf8_lossy content)
  read_page content false = none

  abbrev pub follow : (Url → List Url → Answer) → List Url → Result Failure Url → Answer
  follow next log (ok url) = next url log
  follow next log (err e) = (err e, log)

  abbrev pub after_download :
      (Url → List Url → Answer) → List Url → Result Failure (Downloaded pages) → Answer
  after_download next log (err e) = (err e, log)
  after_download next log (ok (moved location status)) = follow next log (parse_url location)
  after_download next log (ok (page content status)) =
      (ok (read_page content (is_success status)), log)
  after_download next log (ok (bad_status_page status)) = (ok none, log)

  -- `for _ in 0..patience`, with the URL that redirects change.
  unfoldable pub follow_redirects : ℕ → Url → List Url → Answer
  follow_redirects zero url log = (ok none, log)
  follow_redirects (suc patience) url log =
      after_download (follow_redirects patience) (log ++ (url ∷ [])) (download log url)

  unfoldable pub do_get_robots : Url → List Url → Answer
  unfolding follow_redirects
  do_get_robots base_url log = follow (follow_redirects 5) log (robots_url base_url)

  abbrev pub at_host : (Url → Outcome Failure) → Option Url → Outcome Failure
  at_host next none = panicked
  at_host next (some url) = next url

  -- Up from a domain, by its parts, unless it has none above but a top level domain.
  abbrev pub move_up : (Url → Outcome Failure) → Url → List Text → Outcome Failure
  move_up next url parts =
      if length parts == 1
      then returned (ok none)
      else at_host next (set_host url (join (bytes ".") parts))

  -- Without a domain, the loop goes round with the same URL.
  abbrev pub one_up : (Url → Outcome Failure) → Url → Option Text → Outcome Failure
  one_up next url none = next url
  one_up next url (some d) = move_up next url (parts_one_up d)

  abbrev pub after_robots : (List Url → Url → Outcome Failure) → Url → Answer → Outcome Failure
  after_robots next url (err e, log) = returned (err e)
  after_robots next url (ok (some text), log) = returned (ok (some text))
  after_robots next url (ok none, log) = one_up (next log) url (domain url)

  unfoldable pub get_robots : ℕ → List Url → Url → Outcome Failure
  unfolding do_get_robots
  get_robots zero log url = running
  get_robots (suc fuel) log url = after_robots (get_robots fuel) url (do_get_robots url log)
