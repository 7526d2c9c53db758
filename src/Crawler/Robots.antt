-- ===== src/Crawler/Robots.antt =====
-- lib-lopez/src/crawler/robots.rs: robots.txt. Its parser, the crate `robots_txt`, is a parameter:
-- it answers the rules and the delays of the section for "lopez".
pub mod Strict
pub mod Search
use lopez.Prelude.{
  ℕ, zero, suc, ltb, ◌==◌, Text, bytes, split, find_from, is_empty, ends_with, drop_last, join,
  drop, length, Bool, true, false, not, ◌&&◌, ◌||◌, Option, none, some, List, [], ◌∷◌, Result, ok,
  err, any, filter, map, if◌then◌else◌,
}

-- `Match`.
pub record Match : Type 0 where
  pub match_str : Text
  pub is_strict : Bool

unfoldable pub new_match : Text → Match
new_match path =
    if ends_with path b'$'
    then record { match_str = drop_last path; is_strict = true }
    else record { match_str = path; is_strict = false }

-- The loop over the patterns between the stars: each moves the route to where it was found.
unfoldable pub find_patterns : List Text → Text → Option Text
find_patterns [] route = some route
find_patterns (pattern ∷ patterns) route = elim (find_from route pattern) [
  | none ↦ none
  | some found ↦ find_patterns patterns found
]

-- `!self.is_strict || route.is_empty()`, where every pattern was found.
abbrev pub accepts : Bool → Option Text → Bool
accepts strict none = false
accepts strict (some route) = not strict || is_empty route

unfoldable pub matches : Match → Text → Bool
unfolding find_patterns
matches self route =
    if is_empty self.match_str
    then false
    else accepts self.is_strict (find_patterns (split b'*' self.match_str) route)

-- A section of `robots_txt`: the paths with their rule (`allow` or not), the crawl delay, and the
-- request rate as requests and seconds. Delays are of an abstract type of floats.
pub record Section (F64 : Type 0) : Type 0 where
  pub rules : List (Text × Bool)
  pub delay : Option F64
  pub req_rate : Option (ℕ × ℕ)

pub record RobotExclusion (F64 : Type 0) : Type 0 where
  pub disallow : List Match
  pub crawl_delay : Option F64

module _ {F64 : Type 0} (ratio : ℕ → ℕ → F64) where
  -- `seconds as f64 / requests as f64`, unless no requests are allowed.
  abbrev pub rate_delay : Option (ℕ × ℕ) → Option F64
  rate_delay none = none
  rate_delay (some (requests, seconds)) =
      if ltb 0 requests then some (ratio seconds requests) else none

  abbrev pub or_rate : Option F64 → Option (ℕ × ℕ) → Option F64
  or_rate (some d) rate = some d
  or_rate none rate = rate_delay rate

  unfoldable pub new_exclusion : Section F64 → RobotExclusion F64
  unfolding new_match
  new_exclusion my_section = record {
    disallow =
        map (λ rule. new_match rule.0)
          (filter (λ (rule : Text × Bool). not rule.1) my_section.rules);
    crawl_delay = or_rate my_section.delay my_section.req_rate;
  }

-- `allows`, on the path and query of a URL.
unfoldable pub allows : {F64 : Type 0} → RobotExclusion F64 → Text → Bool
unfolding matches
allows self path = not (any (λ rule. matches rule path) self.disallow)
