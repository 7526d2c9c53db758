-- ===== src/Tests/Samples.antt =====
-- Floats that are natural numbers, regular expressions that are prefixes, and URLs that are an
-- address with a query.
use lopez.Prelude.{
  ℕ, ◌+◌, ◌-◌, Text, bytes, starts_with, text_cmp, none, some, List, [], ◌∷◌, ◌++◌, any, compare,
  ◌==◌, ok, err, if◌then◌else◌, refl, show_ℕ,
}
use lopez.Extern.{Extern, IsFinite}
use lopez.Urls.{Urls, HasQueries, IsOrdered, relative_url_without_base}
use lopez.Tests.Order.{pair_cmp, list_cmp, pair_cmp-IsOrder, list_cmp-IsOrder, text_cmp-IsOrder}

abbrev pub floats : Extern
floats = record {
  F64 = ℕ;
  partial_cmp = λ f g. some (compare f g);
  sub = λ f g. f - g;
  add = λ f g. f + g;
  abs = λ f. f;
  epsilon = 1;
  zero_f64 = 0;
  decimal = λ m k. m;
  of_i64 = λ i. 0;
  of_u64 = λ n. n;
  parse_f64 = λ s. none;
  f64_text = λ f. show_ℕ f;
  Number = ℕ;
  as_f64 = λ n. some n;
  as_i64 = λ n. none;
  as_u64 = λ n. some n;
  from_f64 = λ f. some f;
  from_i64 = λ i. 0;
  from_u64 = λ n. n;
  number_text = λ n. show_ℕ n;
  number_eq = λ n m. n == m;
  number_bytes = λ n. n ∷ [];
  Regex = Text;
  regex_from_str = λ s. ok s;
  regex_text = λ r. r;
  regex_debug = λ r. r;
  capture_names = λ r. [];
  captures = λ r s. none;
  captures_iter = λ r s. [];
  is_match = λ r s. starts_with s r;
  replace_all = λ r s t. s;
  RegexSet = List Text;
  new_set = λ rs. some rs;
  set_matches = λ rs s. any (λ r. starts_with s r) rs;
  debug_text = λ s. s;
  sip_hash = λ s. 0;
}

pub floats-IsFinite : IsFinite floats
floats-IsFinite = record { force = λ n. (n, refl); ordered = λ n m f g p q. (compare f g, refl) }

abbrev pub Address : Type 0
Address = Text × List (Text × Text)

abbrev pub addresses : Urls
addresses = record {
  Url = Address;
  parse = λ s. if starts_with s (bytes "http") then ok (s, []) else err relative_url_without_base;
  error_text = λ e. bytes "relative URL without a base";
  join = λ base s. ok (base.0 ++ s, []);
  url_text = λ u. u.0;
  url_cmp = pair_cmp text_cmp (list_cmp (pair_cmp text_cmp text_cmp));
  scheme = λ u. if starts_with u.0 (bytes "https") then bytes "https" else bytes "http";
  domain = λ u. some u.0;
  query_pairs = λ u. u.1;
  with_pairs = λ u ps. (u.0, ps);
  without_query = λ u. (u.0, []);
  before_path = λ u. u.0;
}

pub addresses-HasQueries : HasQueries addresses
addresses-HasQueries = record {
  pairs-with = λ u ps. refl;
  pairs-without = λ u. refl;
  with-with = λ u ps qs. refl;
  without-without = λ u. refl;
}

pub addresses-IsOrdered : IsOrdered addresses
addresses-IsOrdered =
    let texts = text_cmp-IsOrder in
    let pairs = pair_cmp-IsOrder text_cmp text_cmp texts texts in
    let h =
      pair_cmp-IsOrder text_cmp (list_cmp (pair_cmp text_cmp text_cmp)) texts
        (list_cmp-IsOrder (pair_cmp text_cmp text_cmp) pairs) in
    record { cmp-eq = h.cmp-eq; cmp-self = h.cmp-self; cmp-gt = h.cmp-gt; cmp-trans = h.cmp-trans }
