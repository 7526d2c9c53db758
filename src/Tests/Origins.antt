-- ===== src/Tests/Origins.antt =====
-- Tasks for one origin.
use lopez.Prelude.{
  ℕ, Text, bytes, some, none, ok, err, false, true, ltb, ◌-◌, inr, arith, if◌then◌else◌, ◌↔◌, [],
  ◌∷◌, ◌≡◌, ◌≢◌, refl,
}
use lopez.Crawler.Origins.{Origin, Origins, block, block_all, check_origin, finish_origin}
use lopez.Crawler.Origins.Spaced.{Spaced, NoEarlier}
use lopez.Crawler.Worker.{Pages, Downloaded, page}
use lopez.Crawler.RobotsFetch.{Hosts, get_robots}
use lopez.Crawler.Origins.Load.{Delays, LoadedOrigin, loaded, origin_allows, load_origin}
use lopez.Crawler.Origins.Load.Sound.{
  IsMaximum, Searched, FoundDisallowing, load_origin-allows_iff, load_origin-Spaced,
}
use lopez.Crawler.Origins.Shared.{finish_origin-race}

abbrev texts : Pages
texts = record { StatusCode = ℕ; Content = Text; Analysis = Text; Failure = Text }

abbrev slow : Origin
slow = record { crawl_delay = 10; last_instant = 3 }

abbrev nothing : Origins
nothing = record { store = []; origins = [] }

-- Of four calls, the first three wait.
block_all-slow : block_all (0 ∷ 1 ∷ 20 ∷ 90 ∷ []) slow ≡ 3 ∷ 13 ∷ 23 ∷ 90 ∷ []
unfolding block_all block
block_all-slow = refl

finish_origin-race_example :
    let (first, next) =
      finish_origin (bytes "a.com") (check_origin (bytes "a.com") nothing) slow nothing in
    let (second, last) =
      finish_origin (bytes "a.com") (check_origin (bytes "a.com") nothing) slow next in
    (i : ℕ) × (j : ℕ) × (first ≡ some i) × (second ≡ some j) × (i ≢ j)
unfolding check_origin
finish_origin-race_example = finish_origin-race (bytes "a.com") slow slow nothing refl

-- Every page answers the same.
abbrev answers : Downloaded texts → Hosts texts
answers d = record {
  Url = Text;
  domain = λ u. some u;
  set_host = λ u d. some d;
  robots_url = λ u. ok u;
  parse_url = λ s. err s;
  is_success = λ status. true;
  from_utf8_lossy = λ s. s;
  download = λ log u. ok d;
}

-- Delays in milliseconds, and a section that disallows what the file is.
abbrev whole : Delays
whole = record {
  F64 = ℕ;
  zero_f64 = 0;
  ratio = λ n m. n - 5;
  recip = λ n. n;
  max = λ x y. if ltb x y then y else x;
  millis = λ x. x;
  my_section = λ s. record { rules = (s, false) ∷ []; delay = none; req_rate = some (2, 10) };
}

whole-IsMaximum : IsMaximum whole
whole-IsMaximum = record { left = λ x y. ground arith; right = λ x y. ground arith }

abbrev host : Hosts texts
host = answers (page (bytes "/a") 200)

-- The file is found at the first address.
host-Searched : Searched host whole 1 [] (some (bytes "b.com")) (ok (some (bytes "/a")))
unfolding get_robots
host-Searched = refl

load_origin-allows_iff_example :
    (self : LoadedOrigin ℕ) × (load_origin host whole 1 [] (some (bytes "b.com")) 20 7
      ≡ loaded self)
    × ((origin_allows self (bytes "/ab") ≡ false)
        ↔ FoundDisallowing host whole (ok (some (bytes "/a"))) (bytes "/ab"))
load_origin-allows_iff_example =
    load_origin-allows_iff host whole 1 [] (some (bytes "b.com")) 20 7 (ok (some (bytes "/a")))
      (bytes "/ab") host-Searched

load_origin-Spaced_example :
    (self : LoadedOrigin ℕ) × (load_origin host whole 1 [] (some (bytes "b.com")) 20 7
      ≡ loaded self)
    × NoEarlier (0 ∷ 1 ∷ 20 ∷ []) (block_all (0 ∷ 1 ∷ 20 ∷ []) self.throttle)
    × Spaced 5 (block_all (0 ∷ 1 ∷ 20 ∷ []) self.throttle)
load_origin-Spaced_example =
    load_origin-Spaced host whole 1 [] (some (bytes "b.com")) 20 7 (ok (some (bytes "/a"))) 5
      (0 ∷ 1 ∷ 20 ∷ []) whole-IsMaximum host-Searched
      (inr (bytes "/a", refl, inr (refl, (2, 10), refl, omega arith, refl)))
