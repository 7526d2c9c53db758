-- ===== src/Urls.antt =====
-- The `url` crate: what the crawler asks of URLs. A query is the list of its decoded pairs.
use lopez.Prelude.{Text, Option, List, Ordering, Result, ◌≡◌, []}

-- The one `url::ParseError` that the code tells apart.
pub data ParseError : Type 0 where
  relative_url_without_base other : ParseError

pub record Urls : Type 1 where
  pub Url : Type 0
  pub parse : Text → Result ParseError Url
  pub error_text : ParseError → Text
  pub join : Url → Text → Result ParseError Url
  pub url_text : Url → Text
  pub url_cmp : Url → Url → Ordering
  pub scheme : Url → Text
  pub domain : Url → Option Text
  pub query_pairs : Url → List (Text × Text)
  -- `query_pairs_mut().clear().extend_pairs(…)`, `set_query(None)` and `[Position::BeforePath..]`.
  pub with_pairs : Url → List (Text × Text) → Url
  pub without_query : Url → Url
  pub before_path : Url → Text

-- Setting the query sets its pairs and nothing else.
pub record HasQueries (urls : Urls) : Type 0 where
  pub pairs-with :
      (u : urls.Url) (ps : List (Text × Text)) → urls.query_pairs (urls.with_pairs u ps) ≡ ps
  pub pairs-without : (u : urls.Url) → urls.query_pairs (urls.without_query u) ≡ []
  pub with-with :
      (u : urls.Url) (ps qs : List (Text × Text))
      → urls.with_pairs (urls.with_pairs u ps) qs ≡ urls.with_pairs u qs
  pub without-without :
      (u : urls.Url) → urls.without_query (urls.without_query u) ≡ urls.without_query u

-- `Ord` of URLs is an order.
pub record IsOrdered (urls : Urls) : Type 0 where
  pub cmp-eq : (u v : urls.Url) → urls.url_cmp u v ≡ Ordering.eq → u ≡ v
  pub cmp-self : (u : urls.Url) → urls.url_cmp u u ≡ Ordering.eq
  pub cmp-gt : (u v : urls.Url) → urls.url_cmp u v ≡ Ordering.gt → urls.url_cmp v u ≡ Ordering.lt
  pub cmp-trans :
      (u v w : urls.Url)
      → urls.url_cmp u v ≡ Ordering.lt
      → urls.url_cmp v w ≡ Ordering.lt
      → urls.url_cmp u w ≡ Ordering.lt
