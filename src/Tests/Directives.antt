-- ===== src/Tests/Directives.antt =====
-- Variables, names, boundaries and page ranks on sample values.
use lopez.Prelude.{
  false, ℕ, ◌^◌, ◌-◌, negsuc, Text, bytes, join, some, List, [], ◌∷◌, ◌++◌, ok, All, ◌≡◌, refl,
  arith,
}
use lopez.Value.{Value}
use lopez.Directives.Variable.{
  quota, max_depth, SetVariables, retrieve_as_u64, retrieve_as_str, retrieve_as_bool,
  retrieve_as_positive_f64,
}
use lopez.Directives.Variable.Parameters.{Parameters, find_bad_set_variable_values, parameters}
use lopez.Directives.Variable.Laws.{parameters-negative_depth}
use lopez.Directives.Names.{canonical_path, pop}
use lopez.Directives.Names.Canonical.{IsName, canonical_path-steps}
use lopez.Directives.Bounds.{
  Boundary, boundaries, Bounds, filter_query_params, is_allowed, is_frontier, find_invalid_seeds,
}
use lopez.Backend.PageRank.{page_rank}
use lopez.Backend.PageRank.Batches.{concat, keep_then_drop, page_rank-pushes}
use lopez.Tests.Samples.{floats, addresses, Address}

abbrev deep : SetVariables floats
deep = (max_depth, Value.number 40000) ∷ (quota, Value.number 5) ∷ []

deep_is_valid : find_bad_set_variable_values (bytes "lopez") deep ≡ some []
unfolding find_bad_set_variable_values retrieve_as_u64 retrieve_as_str retrieve_as_bool
    retrieve_as_positive_f64
deep_is_valid = refl

parameters-negative_depth_example :
    (p : Parameters floats) × (parameters deep ≡ some p) × (p.depth ≡ negsuc (2 ^ 16 - 1 - 40000))
unfolding retrieve_as_u64
parameters-negative_depth_example =
    parameters-negative_depth (bytes "lopez") deep 40000 deep_is_valid refl (omega arith)
      (omega arith)

canonical_path-steps_example :
    (names : List Text) × (canonical_path (bytes "super.super.a") ≡ ok (join (bytes ".") names))
    × All IsName names
    × (canonical_path (bytes "super.super.a.super") ≡ ok (join (bytes ".") (pop names)))
    × (canonical_path (bytes "super.super.a.root") ≡ ok [])
    × (canonical_path (bytes "super.super.a.") ≡ ok (join (bytes ".") names))
    × (canonical_path (bytes "super.super.a.b") ≡ ok (join (bytes ".") (names ++ (bytes "b" ∷ []))))
canonical_path-steps_example =
    canonical_path-steps (bytes "super.super.a") (bytes "b")
      (record { no_dot = refl; not_empty = refl; not_super = refl; not_root = refl })

abbrev bounds : Bounds floats
bounds = record {
  allowed_set = bytes "https://a.com" ∷ [];
  disallowed_set = bytes "https://a.com/x" ∷ [];
  frontier_set = [];
  use_params = bytes "page" ∷ [];
  ignore_params = [];
  all_params = false;
}

-- The boundaries of three items.
bounds_of_items :
    boundaries {ext = floats} (
      Boundary.allowed (bytes "https://a.com")
      ∷ Boundary.disallowed (bytes "https://a.com/x")
      ∷ Boundary.use_param (bytes "page")
      ∷ [])
    ≡ some bounds
unfolding boundaries
bounds_of_items = refl

abbrev seed : Address
seed = (bytes "https://a.com/y", (bytes "page", bytes "1") ∷ (bytes "sid", bytes "2") ∷ [])

seed_is_good : find_invalid_seeds addresses bounds (seed ∷ []) ≡ []
unfolding find_invalid_seeds is_allowed is_frontier filter_query_params
seed_is_good = refl

page_rank-pushes_example :
    ((page_rank {Ranked = ℕ} {Failure = Unit} (λ pushed ranked. ok tt) (1 ∷ 2 ∷ 3 ∷ [])).0 ≡ ok tt)
    × (concat (page_rank {Ranked = ℕ} {Failure = Unit} (λ pushed ranked. ok tt) (1 ∷ 2 ∷ 3 ∷ [])).1
        ≡ keep_then_drop {Ranked = ℕ} 1024 1024 (1 ∷ 2 ∷ 3 ∷ []))
page_rank-pushes_example =
    page_rank-pushes {Ranked = ℕ} {Failure = Unit} (λ pushed ranked. ok tt) (1 ∷ 2 ∷ 3 ∷ [])
      (λ pushed ranked. refl)
