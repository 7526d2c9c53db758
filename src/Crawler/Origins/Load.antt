-- ===== src/Crawler/Origins/Load.antt =====
-- `Origin::load` and `Origin::allows` (lib-lopez/src/crawler/worker/origins.rs): what robots.txt says
-- about an origin. Floats, the crate `robots_txt` and the search for the file are parameters.
pub mod Sound
use lopez.Prelude.{ℕ, Text, Bool, true, Option, none, some, List, Result, ok, err}
use lopez.Crawler.Worker.{Pages}
use lopez.Crawler.Robots.{Section, RobotExclusion, new_exclusion, allows}
use lopez.Crawler.RobotsFetch
use lopez.Crawler.RobotsFetch.{Hosts, Outcome, returned, get_robots}
use lopez.Crawler.Origins.{Origin}

-- What is computed of floats, and the section for "lopez" in the text of a file.
pub record Delays : Type 1 where
  pub F64 : Type 0
  pub zero_f64 : F64
  -- `seconds as f64 / requests as f64`.
  pub ratio : ℕ → ℕ → F64
  -- `1. / x`.
  pub recip : F64 → F64
  -- `f64::max`.
  pub max : F64 → F64 → F64
  -- `(x * 1e3) as u64`.
  pub millis : F64 → ℕ
  pub my_section : Text → Section F64

-- `Origin`, with what robots.txt excludes.
pub record LoadedOrigin (F64 : Type 0) : Type 0 where
  pub exclusion : Option (RobotExclusion F64)
  pub throttle : Origin

-- How `load` ends, and `running` where the fuel of the search ran out.
pub data LoadOutcome (F64 : Type 0) : Type 0 where
  loaded : LoadedOrigin F64 → LoadOutcome F64
  panicked running : LoadOutcome F64

unfoldable pub origin_allows : {F64 : Type 0} → LoadedOrigin F64 → Text → Bool
unfolding allows
origin_allows self path = elim self.exclusion [
  | none ↦ true
  | some exclusion ↦ allows exclusion path
]

module _ {pages : Pages} (hosts : Hosts pages) (delays : Delays) where
  open delays use {F64, zero_f64, ratio, recip, max, millis, my_section}

  -- The delay of an exclusion, `unwrap_or(0.)`.
  abbrev pub robots_delay : Option (RobotExclusion F64) → F64
  robots_delay none = zero_f64
  robots_delay (some exclusion) = elim exclusion.crawl_delay [ none ↦ zero_f64 | some d ↦ d ]

  -- The origin with what is excluded, created at `now`.
  unfoldable pub new_origin : F64 → ℕ → Option (RobotExclusion F64) → LoadedOrigin F64
  new_origin default_requests_per_sec now exclusion = record {
    exclusion = exclusion;
    throttle = record {
      crawl_delay = millis (max (recip default_requests_per_sec) (robots_delay exclusion));
      last_instant = now;
    };
  }

  -- `RobotExclusion::new`.
  abbrev pub exclusion_of : Text → RobotExclusion F64
  exclusion_of robots = new_exclusion ratio (my_section robots)

  -- `.ok().flatten().map(…)`: an error is as good as no file.
  abbrev pub after_search : F64 → ℕ → Outcome pages.Failure → LoadOutcome F64
  unfolding new_origin new_exclusion
  after_search rate now (returned (ok (some robots))) =
      loaded (new_origin rate now (some (exclusion_of robots)))
  after_search rate now (returned (ok none)) = loaded (new_origin rate now none)
  after_search rate now (returned (err e)) = loaded (new_origin rate now none)
  after_search rate now RobotsFetch.panicked = panicked
  after_search rate now RobotsFetch.running = running

  -- For the base URL of an origin, unless it is opaque.
  unfoldable pub load_origin : ℕ → List hosts.Url → Option hosts.Url → F64 → ℕ → LoadOutcome F64
  unfolding get_robots new_origin new_exclusion
  load_origin fuel log none rate now = loaded (new_origin rate now none)
  load_origin fuel log (some base_url) rate now =
      after_search rate now (get_robots hosts fuel log base_url)
