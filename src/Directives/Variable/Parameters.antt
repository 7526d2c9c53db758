-- ===== src/Directives/Variable/Parameters.antt =====
-- `find_bad_set_variable_values` (directives/directives.rs), and the settings that
-- `DirectivesConfiguration` (directives/mod.rs) reads with `expect("bad val")` once it passed.
use lopez.Prelude.{ℕ, ℤ, as_i16, Text, Bool, Option, none, some, List, [], ◌∷◌, ok, err}
use lopez.Prelude.Panic.{◌>>=◌, filter_map_all}
use lopez.Extern.{Extern}
use lopez.Directives.Variable.{
  user_agent, quota, max_depth, max_hits_per_sec, request_timeout, max_body_size, enable_page_rank,
  BadValue, Read, SetVariables, get_as_bool, get_as_str, get_as_positive_f64, get_as_u64,
}

-- `Parameters` (crawler/mod.rs).
pub record Parameters (ext : Extern) : Type 0 where
  pub hits_per_sec : ext.F64
  pub crawl_quota : ℕ
  pub timeout : ext.F64
  pub depth : ℤ
  pub page_rank : Bool

module _ {ext : Extern} where
  -- `.err()` and `.expect("bad val")`.
  abbrev pub as_err : {A : Type 0} → Read ext A → Option (Option (BadValue ext))
  as_err none = none
  as_err (some (ok a)) = some none
  as_err (some (err e)) = some (some e)

  abbrev pub expect : {A : Type 0} → Read ext A → Option A
  expect none = none
  expect (some (ok a)) = some a
  expect (some (err e)) = none

  abbrev pub bad_value_tests : Text → SetVariables ext → List (Option (Option (BadValue ext)))
  bad_value_tests default set =
      as_err (get_as_str default set user_agent)
      ∷ as_err (get_as_u64 set quota)
      ∷ as_err (get_as_u64 set max_depth)
      ∷ as_err (get_as_positive_f64 set max_hits_per_sec)
      ∷ as_err (get_as_positive_f64 set request_timeout)
      ∷ as_err (get_as_u64 set max_body_size)
      ∷ as_err (get_as_bool set enable_page_rank)
      ∷ []

  unfoldable pub find_bad_set_variable_values :
      Text → SetVariables ext → Option (List (BadValue ext))
  find_bad_set_variable_values default set =
      filter_map_all (λ test. test) (bad_value_tests default set)

  unfoldable pub parameters : SetVariables ext → Option (Parameters ext)
  parameters set = expect (get_as_positive_f64 set max_hits_per_sec) >>= λ hits.
      expect (get_as_u64 set quota) >>= λ q.
      expect (get_as_positive_f64 set request_timeout) >>= λ t.
      expect (get_as_u64 set max_depth) >>= λ d. expect (get_as_bool set enable_page_rank) >>= λ p.
      some (record {
        hits_per_sec = hits;
        crawl_quota = q;
        timeout = t;
        depth = as_i16 d;
        page_rank = p;
      })

  -- The settings of `downloader`: the user agent, and the greatest size of a body.
  unfoldable pub downloader_settings : Text → SetVariables ext → Option (Text × ℕ)
  downloader_settings default set = expect (get_as_str default set user_agent) >>= λ agent.
      expect (get_as_u64 set max_body_size) >>= λ size. some (agent, size)
