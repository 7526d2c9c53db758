-- ===== src/Directives/Bounds/Params.antt =====
-- The query parameters that are left, and the seeds that are accepted.
use lopez.Prelude.{
  Text, Bool, true, false, List, [], ◌∷◌, filter, All, ◌≡◌, ◌↔◌, refl, ap, Bool-cases, inl, inr,
}
use lopez.Extern.{Extern}
use lopez.Urls.{Urls, HasQueries}
use lopez.Directives.Bounds.{
  Bounds, keeps_param, filter_query_params, set_params, is_allowed, is_frontier, find_invalid_seeds,
}

filter-filter : {A : Type 0} (p : A → Bool) (xs : List A) → filter p (filter p xs) ≡ filter p xs
filter-filter p [] = refl
filter-filter p (x ∷ xs) = elim (Bool-cases (p x)) [
  | inl kept ↦ rw (kept, kept) (ap (λ ys. x ∷ ys) (filter-filter p xs))
  | inr left ↦ rw left (filter-filter p xs)
]

filter-All : {A : Type 0} (p : A → Bool) (xs : List A) → All (λ x. p x ≡ true) (filter p xs)
filter-All p [] = tt
filter-All p (x ∷ xs) = elim (Bool-cases (p x)) [
  | inl kept ↦ rw kept (kept, filter-All p xs)
  | inr left ↦ rw left (filter-All p xs)
]

module _ (urls : Urls) (queries : HasQueries urls) where
  set_params-query_pairs :
      (url : urls.Url) (ps : List (Text × Text)) → urls.query_pairs (set_params urls url ps) ≡ ps
  set_params-query_pairs url [] = queries.pairs-without url
  set_params-query_pairs url (p ∷ ps) = queries.pairs-with url (p ∷ ps)

  set_params-twice :
      (url : urls.Url) (ps : List (Text × Text))
      → set_params urls (set_params urls url ps) ps ≡ set_params urls url ps
  set_params-twice url [] = queries.without-without url
  set_params-twice url (p ∷ ps) = queries.with-with url (p ∷ ps) (p ∷ ps)

module _ {ext : Extern} (urls : Urls) (queries : HasQueries urls) where
  -- The pairs that are left are those with a key that is used and not ignored, in their order.
  query_pairs-filter_query_params :
      (self : Bounds ext) (url : urls.Url)
      → urls.query_pairs (filter_query_params urls self url)
        ≡ filter (keeps_param self) (urls.query_pairs url)
  unfolding filter_query_params
  query_pairs-filter_query_params self url =
      set_params-query_pairs urls queries url (filter (keeps_param self) (urls.query_pairs url))

  -- Filtering the parameters of a URL twice is filtering them once, if setting a query sets its
  -- pairs and nothing else.
  pub filter_query_params-idempotent :
      (self : Bounds ext) (url : urls.Url)
      → filter_query_params urls self (filter_query_params urls self url)
        ≡ filter_query_params urls self url
  unfolding filter_query_params
  filter_query_params-idempotent self url =
      let ps = filter (keeps_param self) (urls.query_pairs url) in
      rw
        (
          set_params-query_pairs urls queries url ps,
          filter-filter (keeps_param self) (urls.query_pairs url),
        )
        (set_params-twice urls queries url ps)

  pub filter_query_params-All :
      (self : Bounds ext) (url : urls.Url)
      → All
          (λ pair. keeps_param self pair ≡ true)
          (urls.query_pairs (filter_query_params urls self url))
  filter_query_params-All self url =
      rw (query_pairs-filter_query_params self url)
        (filter-All (keeps_param self) (urls.query_pairs url))

-- What a seed must be after its parameters are filtered.
abbrev pub IsGoodSeed : {ext : Extern} (urls : Urls) → Bounds ext → urls.Url → Type 0
IsGoodSeed urls self seed =
    (is_allowed urls self (filter_query_params urls self seed) ≡ true)
    × (is_frontier urls self (filter_query_params urls self seed) ≡ false)

-- Validation finds no invalid seed exactly when every seed is allowed and not on the frontier.
pub find_invalid_seeds-empty :
    {ext : Extern} (urls : Urls) (self : Bounds ext) (seeds : List urls.Url)
    → (find_invalid_seeds urls self seeds ≡ []) ↔ All (IsGoodSeed urls self) seeds
unfolding find_invalid_seeds
find_invalid_seeds-empty urls self [] = ((λ _. tt), λ _. refl)
find_invalid_seeds-empty {ext} urls self (seed ∷ seeds) =
    let url = filter_query_params urls self seed in
    let ih = find_invalid_seeds-empty urls self seeds in
    elim (Bool-cases (is_allowed urls self url)) [
      | inl a ↦ elim (Bool-cases (is_frontier urls self url)) [
        | inl f ↦ ((λ e. absurd (cc (rw (a, f) at e))), λ h. absurd (cc (h.0.1)))
        | inr f ↦ ((λ e. ((a, f), ih.0 (rw (a, f) at e))), λ h. rw (a, f) (ih.1 h.1))
      ]
      | inr a ↦ ((λ e. absurd (cc (rw a at e))), λ h. absurd (cc (h.0.0)))
    ]
