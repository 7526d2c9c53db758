-- ===== src/Crawler/Origins/Load/Sound.antt =====
-- What a loaded origin allows, and how far apart its tasks are.
use lopez.Prelude.{
  ℕ, ltb, ◌<◌, ◌∙◌, Result, sym, ◌+◌, ◌≤◌, Text, Bool, true, false, not, any, filter, map, Option,
  none, some, List, [], ◌∷◌, All, ok, err, ◌≡◌, ◌↔◌, ◌⊎◌, refl, arith, ap, inl, inr, ◌&&◌, ◌||◌,
  subst,
}
use lopez.Crawler.Worker.{Pages}
use lopez.Crawler.Robots.{Section, RobotExclusion, new_match, new_exclusion, allows, matches}
use lopez.Crawler.RobotsFetch.{Hosts, returned, get_robots}
use lopez.Crawler.Origins.{block_all}
use lopez.Crawler.Origins.Spaced.{Spaced, NoEarlier, block_all-Spaced}
use lopez.Crawler.Origins.Load.{
  Delays, exclusion_of, LoadedOrigin, loaded, origin_allows, robots_delay, new_origin, after_search,
  load_origin,
}

-- A maximum is no shorter than either, in milliseconds: `max` skips a `NaN`, and `as` saturates and
-- keeps the order.
pub record IsMaximum (delays : Delays) : Type 0 where
  pub left : (x y : delays.F64) → delays.millis x ≤ delays.millis (delays.max x y)
  pub right : (x y : delays.F64) → delays.millis y ≤ delays.millis (delays.max x y)

-- Some rule of a section disallows the path.
abbrev pub disallows : List (Text × Bool) → Text → Bool
disallows [] path = false
disallows (rule ∷ rules) path =
    (not rule.1 && matches (new_match rule.0) path) || disallows rules path

below-all : (d e w : ℕ) (ws : List ℕ) → e ≤ d → All (λ v. w + d ≤ v) ws → All (λ v. w + e ≤ v) ws
below-all d e w [] le h = tt
below-all d e w (v ∷ ws) le h = (omega (arith, le, h.0), below-all d e w ws le h.1)

Spaced-less : (d e : ℕ) (ws : List ℕ) → e ≤ d → Spaced d ws → Spaced e ws
Spaced-less d e [] le s = tt
Spaced-less d e (w ∷ ws) le s = (below-all d e w ws le s.0, Spaced-less d e ws le s.1)

module _ {pages : Pages} (hosts : Hosts pages) (delays : Delays) where
  any-disallows :
      (rules : List (Text × Bool)) (path : Text)
      → any
          (λ rule. matches rule path)
          (map
            (λ (rule : Text × Bool). new_match rule.0)
            (filter (λ (rule : Text × Bool). not rule.1) rules))
        ≡ disallows rules path
  any-disallows [] path = refl
  any-disallows ((pattern, true) ∷ rules) path = any-disallows rules path
  any-disallows ((pattern, false) ∷ rules) path =
      ap (λ b. matches (new_match pattern) path || b) (any-disallows rules path)

  -- How the search for robots.txt returned; for an opaque origin there is none.
  abbrev pub Searched :
      ℕ → List hosts.Url → Option hosts.Url → Result pages.Failure (Option Text) → Type 0
  Searched fuel log none r = r ≡ ok none
  Searched fuel log (some base_url) r = get_robots hosts fuel log base_url ≡ returned r

  abbrev excluded : Result pages.Failure (Option Text) → Option (RobotExclusion delays.F64)
  excluded (ok (some robots)) = some (exclusion_of hosts delays robots)
  excluded (ok none) = none
  excluded (err e) = none

  after_search-loaded :
      (rate : delays.F64) (now : ℕ) (r : Result pages.Failure (Option Text))
      → after_search hosts delays rate now (returned r)
        ≡ loaded (new_origin hosts delays rate now (excluded r))
  unfolding after_search
  after_search-loaded rate now (ok (some robots)) = refl
  after_search-loaded rate now (ok none) = refl
  after_search-loaded rate now (err e) = refl

  load_origin-loaded :
      (fuel : ℕ) (log : List hosts.Url) (base_url : Option hosts.Url) (rate : delays.F64) (now : ℕ)
      (r : Result pages.Failure (Option Text))
      → Searched fuel log base_url r
      → load_origin hosts delays fuel log base_url rate now
        ≡ loaded (new_origin hosts delays rate now (excluded r))
  unfolding load_origin
  load_origin-loaded fuel log none rate now r e = rw e refl
  load_origin-loaded fuel log (some base_url) rate now r e =
      ap (after_search hosts delays rate now) e ∙ after_search-loaded rate now r

  exclusion-disallows :
      (robots path : Text)
      → allows (exclusion_of hosts delays robots) path
        ≡ not (disallows (delays.my_section robots).rules path)
  unfolding allows new_exclusion
  exclusion-disallows robots path = ap not (any-disallows (delays.my_section robots).rules path)

  -- The file was found, and a rule in it disallows the path.
  abbrev pub FoundDisallowing : Result pages.Failure (Option Text) → Text → Type 0
  FoundDisallowing r path =
      (robots : Text) × (r ≡ ok (some robots))
      × (disallows (delays.my_section robots).rules path ≡ true)

  excluded-disallows :
      (rate : delays.F64) (now : ℕ) (r : Result pages.Failure (Option Text)) (path : Text)
      → (origin_allows (new_origin hosts delays rate now (excluded r)) path ≡ false)
        ↔ FoundDisallowing r path
  unfolding origin_allows new_origin
  excluded-disallows rate now (ok (some robots)) path =
      let told = exclusion-disallows robots path in
      (
        (λ h. (robots, refl, ground (arith, told, h))),
        λ (other, e, h).
            let same : other ≡ robots = cc in
            told ∙ ap not (subst (λ r. disallows (delays.my_section r).rules path ≡ true) same h),
      )
  excluded-disallows rate now (ok none) path = ((λ h. absurd (cc)), λ (robots, e, h). absurd (cc))
  excluded-disallows rate now (err x) path = ((λ h. absurd (cc)), λ (robots, e, h). absurd (cc))

  -- However the search for robots.txt returned, with a file, without one or with an error, the origin
  -- is loaded, and it disallows a path exactly when the file was found and a rule in it disallows the
  -- path; so where the search fails or finds nothing, and for an opaque origin, every path is allowed.
  pub load_origin-allows_iff :
      (fuel : ℕ) (log : List hosts.Url) (base_url : Option hosts.Url) (rate : delays.F64) (now : ℕ)
      (r : Result pages.Failure (Option Text)) (path : Text)
      → Searched fuel log base_url r
      → (self : LoadedOrigin delays.F64) × (load_origin hosts delays fuel log base_url rate now
          ≡ loaded self)
        × ((origin_allows self path ≡ false) ↔ FoundDisallowing r path)
  load_origin-allows_iff fuel log base_url rate now r path e = (
    new_origin hosts delays rate now (excluded r),
    load_origin-loaded fuel log base_url rate now r e,
    excluded-disallows rate now r path,
  )

  -- The delay that a section asks for: its crawl delay, or else the time per request of its rate.
  abbrev pub IsAsked : Section delays.F64 → delays.F64 → Type 0
  IsAsked section d =
      (section.delay ≡ some d)
      ⊎ ((section.delay ≡ none)
          × (rate : ℕ × ℕ) × (section.req_rate ≡ some rate)
          × (0 < rate.0)
          × (d ≡ delays.ratio rate.1 rate.0))

  robots_delay-asked :
      (robots : Text) (d : delays.F64)
      → IsAsked (delays.my_section robots) d
      → robots_delay hosts delays (some (exclusion_of hosts delays robots)) ≡ d
  unfolding new_exclusion
  robots_delay-asked robots d (inl e) = rw e refl
  robots_delay-asked robots d (inr (no_delay, rate, e, some_requests, q)) =
      let counted : ltb 0 rate.0 ≡ true = ground (arith, some_requests) in
      rw (no_delay, e, counted) (sym q)

  -- A delay that the origin owes: that of the default rate, or what its robots.txt asks for.
  abbrev pub IsOwed : delays.F64 → Result pages.Failure (Option Text) → delays.F64 → Type 0
  IsOwed rate r d =
      (d ≡ delays.recip rate)
      ⊎ ((robots : Text) × (r ≡ ok (some robots)) × IsAsked (delays.my_section robots) d)

  owed_less :
      (rate : delays.F64) (now : ℕ) (r : Result pages.Failure (Option Text)) (d : delays.F64)
      → IsMaximum delays
      → IsOwed rate r d
      → delays.millis d ≤ (new_origin hosts delays rate now (excluded r)).throttle.crawl_delay
  unfolding new_origin
  owed_less rate now r d m (inl e) = rw e (m.left _ _)
  owed_less rate now r d m (inr (robots, e, asked)) =
      rw (e, sym (robots_delay-asked robots d asked)) (m.right _ _)

  -- However the search for robots.txt returned, the origin is loaded, and its tasks go on no earlier
  -- than they called, and at least as far apart as each delay that it owes: that of the default rate,
  -- and the crawl delay that its robots.txt asks for, or, without one, the seconds per request of the
  -- rate that it asks for. Delays are compared in milliseconds; a maximum is no shorter than either.
  pub load_origin-Spaced :
      (fuel : ℕ) (log : List hosts.Url) (base_url : Option hosts.Url) (rate : delays.F64) (now : ℕ)
      (r : Result pages.Failure (Option Text)) (d : delays.F64) (instants : List ℕ)
      → IsMaximum delays
      → Searched fuel log base_url r
      → IsOwed rate r d
      → (self : LoadedOrigin delays.F64) × (load_origin hosts delays fuel log base_url rate now
          ≡ loaded self)
        × NoEarlier instants (block_all instants self.throttle)
        × Spaced (delays.millis d) (block_all instants self.throttle)
  load_origin-Spaced fuel log base_url rate now r d instants m e owed =
      let self = new_origin hosts delays rate now (excluded r) in
      let (later, apart) = block_all-Spaced instants self.throttle in
      (
        self,
        load_origin-loaded fuel log base_url rate now r e,
        later,
        Spaced-less _ _ (block_all instants self.throttle) (owed_less rate now r d m owed) apart,
      )
