-- ===== src/Crawler/Boundaries/CheckedJoin.antt =====
-- What `checked_join` answers.
use lopez.Prelude.{
  Text, bytes, text_eq, text_eq_sound, starts_with, is_empty, true, false, ◌&&◌, Result, ok, err,
  ap, subst, not, Bool-cases, ◌≡◌, ◌⊎◌, inl, inr, refl, arith, ◌↔◌,
}
use lopez.Prelude.Outcome.{ok-injective}
use lopez.Urls.{Urls, ParseError, relative_url_without_base, other}
use lopez.Crawler.Boundaries.{checked_join, parse_or_join, check_parsed, check_url, has_domain}

module _ (urls : Urls) where
  open urls use {Url, parse, join, scheme, domain}

  -- What makes a link acceptable: its text is not empty and no reference to a section of the page,
  -- and the URL is HTTP or HTTPS with a domain.
  pub record IsLink (raw : Text) (url : Url) : Type 0 where
    pub not_empty : is_empty raw ≡ false
    pub not_section : starts_with raw (bytes "#") ≡ false
    pub http : (scheme url ≡ bytes "http") ⊎ (scheme url ≡ bytes "https")
    pub on_domain : has_domain urls url ≡ true

  scheme_http :
      (url : Url)
      → (not (text_eq (scheme url) (bytes "http")) && not (text_eq (scheme url) (bytes "https")))
        ≡ false
      → (scheme url ≡ bytes "http") ⊎ (scheme url ≡ bytes "https")
  scheme_http url e = elim (Bool-cases (text_eq (scheme url) (bytes "http"))) [
    | inl h ↦ inl (text_eq_sound _ _ h)
    | inr h ↦ elim (Bool-cases (text_eq (scheme url) (bytes "https"))) [
      | inl k ↦ inr (text_eq_sound _ _ k)
      | inr k ↦ absurd (cc (rw (h, k) at e))
    ]
  ]

  scheme_test :
      (url : Url)
      → (scheme url ≡ bytes "http") ⊎ (scheme url ≡ bytes "https")
      → (not (text_eq (scheme url) (bytes "http")) && not (text_eq (scheme url) (bytes "https")))
        ≡ false
  scheme_test url (inl e) = rw e refl
  scheme_test url (inr e) = rw e refl

  check_url_sound :
      (raw : Text) (u url : Url) → check_url urls raw u ≡ ok url → (u ≡ url) × IsLink raw u
  check_url_sound raw u url e = ground (arith, scheme_http u)

  check_url_complete : (raw : Text) (u : Url) → IsLink raw u → check_url urls raw u ≡ ok u
  check_url_complete raw u h =
      rw (h.not_empty, h.not_section, scheme_test u h.http, h.on_domain) refl

  check_parsed_iff :
      (raw : Text) (r : Result ParseError Url) (url : Url)
      → (check_parsed urls raw r ≡ ok url) ↔ ((r ≡ ok url) × IsLink raw url)
  check_parsed_iff raw (ok u) url = (
    λ e. let (same, h) = check_url_sound raw u url e in (ap ok same, subst (IsLink raw) same h),
    λ (e, h). rw (ok-injective e) (check_url_complete raw url h),
  )
  check_parsed_iff raw (err e) url = (λ e'. absurd (cc), λ (e', h). absurd (cc))

  -- What a link leads to from a page: what it parses as, or, if it is relative, what it joins to.
  abbrev pub LeadsTo : Url → Text → Url → Type 0
  LeadsTo base_url raw url =
      (parse raw ≡ ok url)
      ⊎ ((parse raw ≡ err relative_url_without_base) × (join base_url raw ≡ ok url))

  parse_or_join_iff :
      (base_url : Url) (raw : Text) (r : Result ParseError Url) (url : Url)
      → (parse_or_join urls base_url raw r ≡ ok url)
        ↔ ((r ≡ ok url) ⊎ ((r ≡ err relative_url_without_base) × (join base_url raw ≡ ok url)))
  parse_or_join_iff base_url raw (ok u) url =
      ((λ e. inl e), elim [ inl e ↦ e | inr (q, j) ↦ absurd (cc) ])
  parse_or_join_iff base_url raw (err relative_url_without_base) url =
      ((λ e. inr (refl, e)), elim [ inl e ↦ absurd (cc) | inr (q, j) ↦ j ])
  parse_or_join_iff base_url raw (err other) url =
      ((λ e. absurd (cc)), elim [ inl e ↦ absurd (cc) | inr (q, j) ↦ absurd (cc) ])

  -- `checked_join` gives a URL exactly when the text parses as it, or is relative and joins to it on
  -- the page, and the URL is acceptable.
  pub checked_join_iff :
      (base_url : Url) (raw : Text) (url : Url)
      → (checked_join urls base_url raw ≡ ok url) ↔ (LeadsTo base_url raw url × IsLink raw url)
  unfolding checked_join
  checked_join_iff base_url raw url =
      let (to, back) = check_parsed_iff raw (parse_or_join urls base_url raw (parse raw)) url in
      let (leads, led) = parse_or_join_iff base_url raw (parse raw) url in
      ((λ e. let (q, h) = to e in (leads q, h)), λ (q, h). back (led q, h))
