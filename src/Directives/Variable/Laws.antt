-- ===== src/Directives/Variable/Laws.antt =====
-- The names of variables, and what validation of their values is worth.
use lopez.Prelude.{
  ℕ, ◌≤◌, ◌<◌, ◌^◌, ◌-◌, negsuc, as_i16, Text, text_eq, text_eq_sound, Option, none, some, List, [],
  ◌∷◌, drop, Result, ok, err, ◌≡◌, ◌↔◌, refl, ◌∙◌, ap, arith, if◌then◌else◌, Bool-cases,
  Option-cases, inl, inr,
}
use mathlib.Core.Option.{some-injective}
use lopez.Prelude.Panic.{◌>>=◌, filter_map_all}
use lopez.Prelude.Returns.{of_Returns}
use lopez.Expressions.Transformer.Compare.{force_f64}
use lopez.Expressions.Transformer.Eval.{is_gt}
use lopez.Expressions.Transformer.Eval.Cases.{Done}
use lopez.Extern.{Extern, IsFinite}
use lopez.Value.{Value}
use lopez.Expressions.Transformer.Compare.Total.{force_f64_lem}
use lopez.Directives.Variable.{
  Variable, user_agent, quota, max_depth, max_hits_per_sec, request_timeout, max_body_size,
  enable_page_rank, variable_text, try_parse, BadValue, Read, SetVariables, get_as_bool, get_as_str,
  get_as_positive_f64, get_as_u64, retrieve_as_bool, retrieve_as_str, retrieve_as_positive_f64,
  retrieve_as_u64, if_positive, u64_or_bad, as_u64,
}
use lopez.Directives.Variable.Parameters.{
  Parameters, bad_value_tests, as_err, expect, find_bad_set_variable_values, parameters,
  downloader_settings,
}

try_parse-variable_text : (v : Variable) → try_parse (variable_text v) ≡ some v
unfolding try_parse variable_text
try_parse-variable_text user_agent = refl
try_parse-variable_text quota = refl
try_parse-variable_text max_depth = refl
try_parse-variable_text max_hits_per_sec = refl
try_parse-variable_text request_timeout = refl
try_parse-variable_text max_body_size = refl
try_parse-variable_text enable_page_rank = refl

-- One test of `try_parse`.
try_parse_step :
    (s name : Text) (w : Variable) (rest : Option Variable)
    → name ≡ variable_text w
    → ((v : Variable) → rest ≡ some v → s ≡ variable_text v)
    → (v : Variable) → (if text_eq s name then some w else rest) ≡ some v
    → s ≡ variable_text v
try_parse_step s name w rest named ih v e = elim (Bool-cases (text_eq s name)) [
  | inl same ↦
      text_eq_sound s name same ∙ named ∙ ap variable_text (some-injective w v (rw same at e))
  | inr other ↦ ih v (rw other at e)
]

try_parse_sound : (s : Text) (v : Variable) → try_parse s ≡ some v → s ≡ variable_text v
unfolding try_parse variable_text
try_parse_sound s = try_parse_step s _ user_agent _ refl (
    try_parse_step s _ quota _ refl (
      try_parse_step s _ max_depth _ refl (
        try_parse_step s _ max_hits_per_sec _ refl (
          try_parse_step s _ request_timeout _ refl (
            try_parse_step s _ max_body_size _ refl
              (try_parse_step s _ enable_page_rank none refl (λ v e. absurd (cc))))))))

-- A name parses as a variable exactly when it is the text of that variable.
pub try_parse_iff : (s : Text) (v : Variable) → (try_parse s ≡ some v) ↔ (s ≡ variable_text v)
try_parse_iff s v = (try_parse_sound s v, λ e. rw e (try_parse-variable_text v))

-- The variables that are read as `u64`, and those that are read as a positive float.
abbrev IsU64 : Variable → Type 0
IsU64 quota = Unit
IsU64 max_depth = Unit
IsU64 max_body_size = Unit
IsU64 _ = ⊥

module _ {ext : Extern} where
  -- The first test of a list that finds nothing found nothing.
  first_test :
      {A : Type 0} (r : Read ext A) (ts : List (Option (Option (BadValue ext))))
      → filter_map_all (λ test. test) (as_err r ∷ ts) ≡ some []
      → (a : A) × (expect r ≡ some a) × (filter_map_all (λ test. test) ts ≡ some [])
  first_test none ts e = absurd (cc)
  first_test (some (ok a)) ts e = elim (Option-cases (filter_map_all (λ test. test) ts)) [
    | inl fails ↦ absurd (cc (rw fails at e))
    | inr (rest, found) ↦ (a, refl, found ∙ rw found at e)
  ]
  first_test (some (err b)) ts e = elim (Option-cases (filter_map_all (λ test. test) ts)) [
    | inl fails ↦ absurd (cc (rw fails at e))
    | inr (rest, found) ↦ absurd (cc (rw found at e))
  ]

  -- If validation finds no bad value, then no `expect` on a variable panics afterwards: the
  -- parameters of the crawl and the settings of the downloader can be read.
  pub find_bad_set_variable_values-empty :
      (default : Text) (set : SetVariables ext)
      → find_bad_set_variable_values default set ≡ some []
      → ((p : Parameters ext) × (parameters set ≡ some p))
        × ((s : Text × ℕ) × (downloader_settings default set ≡ some s))
  unfolding find_bad_set_variable_values parameters downloader_settings
  find_bad_set_variable_values-empty default set e =
      let tests = bad_value_tests default set in
      let (agent, a, e1) = first_test (get_as_str default set user_agent) (drop 1 tests) e in
      let (q, b, e2) = first_test (get_as_u64 set quota) (drop 2 tests) e1 in
      let (d, c, e3) = first_test (get_as_u64 set max_depth) (drop 3 tests) e2 in
      let (h, k, e4) = first_test (get_as_positive_f64 set max_hits_per_sec) (drop 4 tests) e3 in
      let (t, l, e5) = first_test (get_as_positive_f64 set request_timeout) (drop 5 tests) e4 in
      let (m, n, e6) = first_test (get_as_u64 set max_body_size) (drop 6 tests) e5 in
      let (p, o, e7) = first_test (get_as_bool set enable_page_rank) (drop 7 tests) e6 in
      (
        (
          record {
            hits_per_sec = h;
            crawl_quota = q;
            timeout = t;
            depth = as_i16 d;
            page_rank = p;
          },
          rw (k, b, l, c, o) refl,
        ),
        ((agent, m), rw (a, n) refl),
      )

  str_Done : (default : Text) (o : Option (Value ext)) → Done (retrieve_as_str default user_agent o)
  unfolding retrieve_as_str
  str_Done default none = tt
  str_Done default (some (Value.string s)) = tt
  str_Done default (some _) = tt

  bool_Done : (o : Option (Value ext)) → Done (retrieve_as_bool enable_page_rank o)
  unfolding retrieve_as_bool
  bool_Done none = tt
  bool_Done (some (Value.bool b)) = tt
  bool_Done (some _) = tt

  u64_or_bad-Done : (v : Variable) (value : Value ext) (o : Option ℕ) → Done (u64_or_bad v value o)
  u64_or_bad-Done v value none = tt
  u64_or_bad-Done v value (some n) = tt

  u64_Done : (v : Variable) (o : Option (Value ext)) → IsU64 v → Done (retrieve_as_u64 v o)
  unfolding retrieve_as_u64
  u64_Done quota none h = tt
  u64_Done quota (some v) h = u64_or_bad-Done quota v (as_u64 v)
  u64_Done max_depth none h = tt
  u64_Done max_depth (some v) h = u64_or_bad-Done max_depth v (as_u64 v)
  u64_Done max_body_size none h = tt
  u64_Done max_body_size (some v) h = u64_or_bad-Done max_body_size v (as_u64 v)
  u64_Done user_agent o h = absurd h
  u64_Done max_hits_per_sec o h = absurd h
  u64_Done request_timeout o h = absurd h
  u64_Done enable_page_rank o h = absurd h

  test_kept :
      {A : Type 0} (r : Read ext A) (ts : List (Option (Option (BadValue ext))))
      → Done r
      → Done (filter_map_all (λ test. test) ts)
      → Done (filter_map_all (λ test. test) (as_err r ∷ ts))
  test_kept none ts h k = absurd h
  test_kept (some (ok a)) ts h k = ground arith
  test_kept (some (err e)) ts h k = ground arith

module _ {ext : Extern} (finite : IsFinite ext) where
  positive-Done :
      (v : Variable) (n : ext.Number)
      → Done {A = Result (BadValue ext) ext.F64}
          (force_f64 ext n >>= λ f. if_positive {ext = ext} v f)
  positive-Done v n = let (f, e) = force_f64_lem finite n in rw e (checked v f)
    where
      checked :
          (v : Variable) (f : ext.F64)
          → Done {A = Result (BadValue ext) ext.F64} (if_positive {ext = ext} v f)
      checked v f = elim (Bool-cases (is_gt (ext.partial_cmp f ext.zero_f64))) [
        | inl positive ↦ rw positive tt
        | inr other ↦ rw other tt
      ]

  hits_Done : (o : Option (Value ext)) → Done (retrieve_as_positive_f64 max_hits_per_sec o)
  unfolding retrieve_as_positive_f64
  hits_Done none = tt
  hits_Done (some (Value.number n)) = positive-Done max_hits_per_sec n
  hits_Done (some _) = tt

  timeout_Done : (o : Option (Value ext)) → Done (retrieve_as_positive_f64 request_timeout o)
  unfolding retrieve_as_positive_f64
  timeout_Done none = tt
  timeout_Done (some (Value.number n)) = positive-Done request_timeout n
  timeout_Done (some _) = tt

  -- Validation of the values of variables never panics, whatever values were set, if JSON numbers
  -- are finite.
  pub find_bad_set_variable_values-total :
      (default : Text) (set : SetVariables ext)
      → (bad : List (BadValue ext)) × (find_bad_set_variable_values default set ≡ some bad)
  unfolding find_bad_set_variable_values
  find_bad_set_variable_values-total default set =
      let tests = bad_value_tests default set in
      let (bad, e, _) =
        of_Returns (λ _. Unit) _
          (test_kept (get_as_str default set user_agent) (drop 1 tests) (str_Done default _) (
            test_kept (get_as_u64 set quota) (drop 2 tests) (u64_Done quota _ tt) (
              test_kept (get_as_u64 set max_depth) (drop 3 tests) (u64_Done max_depth _ tt) (
                test_kept (get_as_positive_f64 set max_hits_per_sec) (drop 4 tests) (hits_Done _) (
                  test_kept (get_as_positive_f64 set request_timeout) (drop 5 tests)
                    (timeout_Done _)
                    (test_kept (get_as_u64 set max_body_size) (drop 6 tests)
                      (u64_Done max_body_size _ tt)
                      (test_kept (get_as_bool set enable_page_rank) [] (bool_Done _) tt))))))) in
      (bad, e)

parameters-depth :
    {ext : Extern} (set : SetVariables ext) (n : ℕ) (p : Parameters ext)
    → get_as_u64 set max_depth ≡ some (ok n)
    → parameters set ≡ some p
    → p.depth ≡ as_i16 n
unfolding parameters
parameters-depth set n p e q = ground arith

-- Where validation finds no bad value and the depth limit reads as a number `n` from 2 ^ 15 on but
-- below 2 ^ 16, the parameters can be read, and their depth limit is `n - 2 ^ 16`, which is negative.
pub parameters-negative_depth :
    {ext : Extern} (default : Text) (set : SetVariables ext) (n : ℕ)
    → find_bad_set_variable_values default set ≡ some []
    → get_as_u64 set max_depth ≡ some (ok n)
    → 2 ^ 15 ≤ n
    → n < 2 ^ 16
    → (p : Parameters ext) × (parameters set ≡ some p) × (p.depth ≡ negsuc (2 ^ 16 - 1 - n))
unfolding parameters as_i16
parameters-negative_depth default set n valid e low high =
    let ((p, q), _) = find_bad_set_variable_values-empty default set valid in
    (p, q, parameters-depth set n p e q ∙ ground arith)
