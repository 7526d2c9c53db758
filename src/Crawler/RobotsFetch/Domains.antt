-- ===== src/Crawler/RobotsFetch/Domains.antt =====
-- Whether the search for robots.txt ends.
use lopez.Prelude.{ℕ, suc, zero, Text, bytes, join, none, some, List, [], ◌∷◌, ok, ◌≡◌, refl}
use lopez.Prelude.Split.{Lacks, split_onto-plain}
use lopez.Crawler.Worker.{Pages}
use lopez.Crawler.RobotsFetch.{
  Hosts, Outcome, panicked, running, Answer, do_get_robots, one_up, after_robots, get_robots,
}

-- The last of the parts, if there are any.
abbrev pub EndsIn : Text → List Text → Type 0
EndsIn last [] = Unit
EndsIn last (p ∷ []) = p ≡ last
EndsIn last (p ∷ q ∷ ps) = EndsIn last (q ∷ ps)

module _ {pages : Pages} (hosts : Hosts pages) where
  -- A host that is set is the domain of the URL, if its last part is the one given: a host is an IP
  -- address, and then no domain, only where its last part is a number. The empty host is refused.
  pub record SetsHosts (last : Text) : Type 0 where
    pub sets :
        (u v : hosts.Url) (parts : List Text)
        → EndsIn last parts
        → hosts.set_host u (join (bytes ".") parts) ≡ some v
        → hosts.domain v ≡ some (join (bytes ".") parts)
    pub refuses_empty : (u : hosts.Url) → hosts.set_host u [] ≡ none

  abbrev IsOver : Outcome pages.Failure → Type 0
  IsOver running = ⊥
  IsOver o = Unit

  after_robots-missing :
      (next : List hosts.Url → hosts.Url → Outcome pages.Failure) (url : hosts.Url)
      (answer : Answer hosts)
      → answer.0 ≡ ok none
      → after_robots hosts next url answer ≡ one_up hosts (next answer.1) url (hosts.domain url)
  after_robots-missing next url (r, log) e = rw e refl

  -- From a URL without a domain, as one with an IP address, the search never ends if no robots.txt is
  -- ever found there, whatever the fuel.
  pub get_robots-no_domain :
      (fuel : ℕ) (log : List hosts.Url) (url : hosts.Url)
      → hosts.domain url ≡ none
      → ((l : List hosts.Url) → (do_get_robots hosts url l).0 ≡ ok none)
      → get_robots hosts fuel log url ≡ running
  unfolding get_robots
  get_robots-no_domain zero log url e missing = refl
  get_robots-no_domain (suc fuel) log url e missing =
      let log' = (do_get_robots hosts url log).1 in
      rw
        (
          after_robots-missing (get_robots hosts fuel) url (do_get_robots hosts url log)
              (missing log),
          e,
        )
        (get_robots-no_domain fuel log' url e missing)

  -- From a URL with a domain of one part, as `localhost`, the search panics if no robots.txt is found
  -- there and the empty host is refused.
  pub get_robots-one_part :
      (fuel : ℕ) (log : List hosts.Url) (url : hosts.Url) (d : Text)
      → ((u : hosts.Url) → hosts.set_host u [] ≡ none)
      → hosts.domain url ≡ some d
      → Lacks b'.' d
      → (do_get_robots hosts url log).0 ≡ ok none
      → get_robots hosts (suc fuel) log url ≡ panicked
  unfolding get_robots
  get_robots-one_part fuel log url d refuses_empty e lacks missing =
      rw
        (
          after_robots-missing (get_robots hosts fuel) url (do_get_robots hosts url log) missing,
          e,
          split_onto-plain b'.' [] d lacks,
          refuses_empty url,
        )
        refl
