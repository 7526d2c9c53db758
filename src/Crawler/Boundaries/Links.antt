-- ===== src/Crawler/Boundaries/Links.antt =====
-- What `clean_links` gives: the accepted links of the page, each once.
use lopez.Prelude.{
  Text, true, false, Ordering, some, List, Result, ok, err, filter, filter_map, ◌≡◌, refl, sym, ap,
  subst, ◌∙◌, ◌↔◌, ◌⊎◌, inl, inr, arith, Bool-cases,
}
use mathlib.Core.Option.{some-injective}
use lopez.Prelude.Outcome.{ok-injective}
use lopez.Prelude.Sort.{Member, StrictlyAscending}
use lopez.Prelude.Sort.Members.{dedup-sort-Member}
use lopez.Prelude.Sort.Ascending.{dedup-sort-Ascending}
use lopez.Prelude.Membership.{Member-map, Member-filter, Member-filter_map}
use lopez.Urls.{Urls, IsOrdered}
use lopez.Crawler.Reason.{Reason, reason_cmp}
use lopez.Crawler.Boundaries.{
  Boundaries, Link, LinkError, by_reason, link_cmp, joined_link, join_link, allows_link, clean_link,
  checked_join, raw_links, clean_links,
}

reason_cmp-eq : (a b : Reason) → reason_cmp a b ≡ Ordering.eq → a ≡ b
unfolding reason_cmp
reason_cmp-eq a b e = ground arith

reason_cmp-gt : (a b : Reason) → reason_cmp a b ≡ Ordering.gt → reason_cmp b a ≡ Ordering.lt
unfolding reason_cmp
reason_cmp-gt a b e = ground arith

reason_cmp_self : (a : Reason) → reason_cmp a a ≡ Ordering.eq
unfolding reason_cmp
reason_cmp_self a = ground arith

reason_cmp_trans :
    (a b c : Reason)
    → reason_cmp a b ≡ Ordering.lt
    → reason_cmp b c ≡ Ordering.lt
    → reason_cmp a c ≡ Ordering.lt
unfolding reason_cmp
reason_cmp_trans a b c p q = ground arith

by_reason_cases : (o u r : Ordering) → by_reason o u ≡ r → ((o ≡ Ordering.eq) × (u ≡ r)) ⊎ (o ≡ r)
by_reason_cases Ordering.lt u r e = inr e
by_reason_cases Ordering.eq u r e = inl (refl, e)
by_reason_cases Ordering.gt u r e = inr e

module _ (urls : Urls) (order : IsOrdered urls) where
  open urls use {Url, url_cmp}
  open order use {cmp-eq, cmp-self, cmp-gt, cmp-trans}

  link_cmp-eq : (a b : Link urls) → link_cmp urls a b ≡ Ordering.eq → a ≡ b
  unfolding link_cmp
  link_cmp-eq (r, u) (s, v) e = ground (arith, reason_cmp-eq r s, cmp-eq u v)

  link_cmp-gt :
      (a b : Link urls) → link_cmp urls a b ≡ Ordering.gt → link_cmp urls b a ≡ Ordering.lt
  unfolding link_cmp
  link_cmp-gt (r, u) (s, v) e =
      ground (arith, reason_cmp-eq r s, reason_cmp-gt r s, reason_cmp_self r, cmp-gt u v)

  link_cmp_trans :
      (a b c : Link urls)
      → link_cmp urls a b ≡ Ordering.lt
      → link_cmp urls b c ≡ Ordering.lt
      → link_cmp urls a c ≡ Ordering.lt
  unfolding link_cmp
  link_cmp_trans (r, u) (s, v) (t, w) p q = ground (
    arith,
    reason_cmp-eq r s,
    reason_cmp-eq s t,
    reason_cmp_trans r s t,
    reason_cmp_self r,
    cmp-trans u v w,
  )

  -- The link `l` comes from a raw link of the page.
  abbrev pub ComesFrom : Boundaries urls → Url → List (Reason × Text) → Link urls → Type 0
  ComesFrom bounds page_url links l =
      (raw : Text) × (url : Url) × Member (l.0, raw) links
      × (checked_join urls page_url raw ≡ ok url)
      × (bounds.is_allowed (bounds.clean_query_params url) ≡ true)
      × (l.1 ≡ bounds.clean_query_params (bounds.clean_query_params url))

  joined_link_iff :
      (bounds : Boundaries urls) (reason : Reason) (r : Result LinkError Url) (l : Link urls)
      → (joined_link urls bounds reason r ≡ some l)
        ↔ ((url : Url) × (r ≡ ok url) × ((reason, bounds.clean_query_params url) ≡ l))
  joined_link_iff bounds reason (ok url) l = (
    λ e. (url, refl, some-injective _ _ e),
    λ (v, e, k). ap some (ap (λ w. (reason, bounds.clean_query_params w)) (ok-injective e) ∙ k),
  )
  joined_link_iff bounds reason (err x) l = (λ e. absurd (cc), λ (v, e, k). absurd (cc))

  raw_links_iff :
      (bounds : Boundaries urls) (page_url : Url) (links : List (Reason × Text)) (l : Link urls)
      → Member l (raw_links urls bounds page_url links) ↔ ComesFrom bounds page_url links l
  unfolding raw_links
  raw_links_iff bounds page_url links l =
      let joined = filter_map (join_link urls bounds page_url) links in
      (
        λ m.
            let (x, m1, e) =
              (Member-map (clean_link urls bounds) (filter (allows_link urls bounds) joined) l).0
                m in
            let (m2, q) = (Member-filter (allows_link urls bounds) joined x).0 m1 in
            let (raw, m3, j) = (Member-filter_map (join_link urls bounds page_url) links x).0 m2 in
            let (url, c, k) =
              (joined_link_iff bounds raw.0 (checked_join urls page_url raw.1) x).0 j in
            let same : l ≡ (raw.0, bounds.clean_query_params (bounds.clean_query_params url)) =
              e ∙ ap (clean_link urls bounds) (sym k) in
            (
              raw.1,
              url,
              subst (λ r. Member (r, raw.1) links) (sym (ap (λ (p : Link urls). p.0) same)) m3,
              c,
              subst (λ (p : Link urls). bounds.is_allowed p.1 ≡ true) (sym k) q,
              ap (λ (p : Link urls). p.1) same,
            ),
        λ (raw, url, m, c, q, e).
            (Member-map (clean_link urls bounds) (filter (allows_link urls bounds) joined) l).1 (
              (l.0, bounds.clean_query_params url),
              (Member-filter (allows_link urls bounds) joined
                    (l.0, bounds.clean_query_params url)).1
                  (
                    (Member-filter_map (join_link urls bounds page_url) links
                          (l.0, bounds.clean_query_params url)).1
                        (
                          (l.0, raw),
                          m,
                          (joined_link_iff bounds l.0 (checked_join urls page_url raw) _).1
                              (url, c, refl),
                        ),
                    q,
                  ),
              ap (λ u. (l.0, u)) e,
            ),
      )

  -- A link is among the results of `clean_links` exactly when the page is not on the frontier and
  -- some raw link of the page with the same reason passes `checked_join`, is allowed once its query
  -- is cleaned, and is the result when it is cleaned again; and the results ascend strictly, so
  -- that none occurs twice. `Ord` of URLs is taken to be an order.
  pub clean_links_iff :
      (bounds : Boundaries urls) (page_url : Url) (links : List (Reason × Text)) (l : Link urls)
      → (Member l (clean_links urls bounds page_url links)
          ↔ ((bounds.is_frontier page_url ≡ false) × ComesFrom bounds page_url links l))
        × StrictlyAscending (link_cmp urls) (clean_links urls bounds page_url links)
  unfolding clean_links
  clean_links_iff bounds page_url links l = elim (Bool-cases (bounds.is_frontier page_url)) [
    | inl frontier ↦ rw frontier ((λ m. absurd m, λ (e, c). absurd (cc)), tt)
    | inr inside ↦
        let raw = raw_links urls bounds page_url links in
        let d = dedup-sort-Member (link_cmp urls) link_cmp-eq l raw in
        let r = raw_links_iff bounds page_url links l in
        rw inside (
          (λ m. (refl, r.0 (d.0 m)), λ (e, c). d.1 (r.1 c)),
          dedup-sort-Ascending (link_cmp urls) link_cmp-eq link_cmp-gt link_cmp_trans raw,
        )
  ]
