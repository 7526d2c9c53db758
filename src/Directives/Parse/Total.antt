-- ===== src/Directives/Parse/Total.antt =====
-- The parser of directives returns: a text of length `n` is read, or refused, within a depth of
-- `n + 1` calls of a parser by itself.
use lopez.Prelude.{
  ℕ, zero, suc, ◌+◌, ◌==◌, ◌&&◌, pos, ℤ, Text, length, Bool-cases, inl, inr, List, [], ◌∷◌, Option,
  none, some, true, false, Result, ok, arith, ◌≡◌, refl,
}
use lopez.Extern.{Extern}
use lopez.Nom.{Nom, IsNom, Parser, Goes}
use lopez.Nom.Eats.{Eats, Anything, OfOption}
use lopez.Nom.Eats.Rules.{
  ◌&◌, Eats-tag, Eats-is_not, Eats-digit1, Eats-double, Eats-map, Eats-map_res, Eats-tuple,
  Eats-tuple_less, Eats-alt, Eats-not, Eats-many0, Eats-delimited, Eats-separated_list0,
  Eats-weaken, Eats-forget,
}
use lopez.Value.{Value}
use lopez.Expressions.Extractor.{ExtractorExpression}
use lopez.Expressions.Parse.Total.{Eats-constant, Eats-bracketed, sign}
use lopez.Expressions.Parse.Total.Aggregators.{Eats-extractor_expression}
use lopez.Directives.HtmlExtractor.{
  Dom, Selector, Extractor, Inner, name, text, html, inner_html, attrs, classes, id, parent,
  children, select_any, select_all, html_extraction,
}
use lopez.Directives.ParseCommon.Eats.{
  Eats-trailing, Eats-tag_whitespace, Eats-tags_whitespace, Eats-escaped_string,
}
use lopez.Directives.Parse.{
  is_continuation, is_level, leveled, consed, scan, scanned, css_selector, identifier,
  identified_value, block, in_directive, string_directive, flag_directive, literal, around,
  selecting, extractor,
}

-- What `scan` passes over and what it leaves are together as long as the text.
consed-length :
    (c : ℕ) (i : Text) (o : Option (Text × Text)) {taken rest : Text}
    → ((t r : Text) → o ≡ some (t, r) → length t + length r ≡ length i)
    → consed c o ≡ some (taken, rest)
    → length taken + length rest ≡ suc (length i)
consed-length c i none h e = absurd (cc)
consed-length c i (some (t, r)) h e = ground (arith, h t r refl)

scan-length :
    (hint : ℕ) (level : ℤ) (i taken rest : Text)
    → scan hint level i ≡ some (taken, rest)
    → length taken + length rest ≡ length i
unfolding scan
scan-length hint level [] taken rest e = ground arith
scan-length hint level (c ∷ i) taken rest e = elim (Bool-cases (is_continuation c)) [
  | inl p ↦ absurd (ground (arith, p, e))
  | inr p ↦ elim (Bool-cases (is_level level && c == hint)) [
    | inl q ↦ ground (arith, p, q, e)
    | inr q ↦
        consed-length c i (scan hint (leveled c level) i)
          (λ t r k. scan-length hint (leveled c level) i t r k) (rw (p, q) at e)
  ]
]

module _ {ext : Extern} {nom : Nom ext} (law : IsNom nom) where
  pub Eats-identified_value :
      {T : Type 0} {p : Parser T} (n : ℕ)
      → Eats 0 n Anything p
      → Eats 0 n Anything (identified_value nom p)
  unfolding identified_value identifier
  Eats-identified_value n h = Eats-weaken (
      Eats-map law
        (Eats-tuple law (Eats-trailing law (Eats-is_not law n _)) (
          Eats-tuple law (sign law n _ _)
            (Eats-tuple law (Eats-trailing law h) (Eats-weaken (Eats-tag law n _ _)))))
        (λ _ _. tt))

  pub Eats-block :
      {H V : Type 0} {head : Parser H} {value : Parser V} {k n : ℕ}
      → Eats k n Anything head
      → Eats 0 n Anything value
      → Eats k n Anything (block nom head value)
  unfolding block
  Eats-block {n = n} h v =
      let values = Eats-forget (Eats-many0 law (Eats-trailing law v)) in
      let listed = Eats-delimited law (sign law n _ _) values (Eats-weaken (Eats-tag law n _ _)) in
      Eats-forget (
        Eats-tuple law (Eats-trailing law h)
          (Eats-alt law _ _ listed (Eats-weaken (Eats-constant law Anything n _ _ [] tt) & tt)))

  pub Eats-in_directive : (n : ℕ) → Eats 0 n Anything (in_directive nom)
  unfolding in_directive
  Eats-in_directive n =
      Eats-map law (Eats-tuple law (sign law n _ _) (Eats-weaken (Eats-escaped_string law n)))
        (λ _ _. tt)

  pub Eats-string_directive :
      (n : ℕ) (tags : List Text) → Eats 0 n Anything (string_directive nom tags)
  unfolding string_directive
  Eats-string_directive n tags =
      Eats-map law
        (Eats-tuple law (Eats-tags_whitespace law n tags) (
          Eats-tuple law (Eats-trailing law (Eats-weaken (Eats-escaped_string law n)))
            (Eats-weaken (Eats-tag law n _ _))))
        (λ _ _. tt)

  pub Eats-flag_directive : (n : ℕ) (tags : List Text) → Eats 0 n Anything (flag_directive nom tags)
  unfolding flag_directive
  Eats-flag_directive n tags =
      Eats-map law
        (Eats-tuple law (Eats-tags_whitespace law n tags) (Eats-weaken (Eats-tag law n _ _)))
        (λ _ _. tt)

  AnyOption : {A : Type 0} (o : Option A) → OfOption Anything o
  AnyOption none = tt
  AnyOption (some a) = tt

  pub Eats-literal : (n : ℕ) → Eats 0 n Anything (literal nom n)
  unfolding literal
  Eats-literal zero = record { go = λ i lt. absurd (omega (arith, lt)) }
  Eats-literal (suc n) =
      let no_point = Eats-not law (Eats-weaken (Eats-tag law (suc n) _ _)) in
      let digits = Eats-tuple law (Eats-weaken (Eats-digit1 law (suc n))) no_point in
      let items =
        Eats-forget
          (Eats-separated_list0 law (λ m. Eats-tag_whitespace law m 44 []) (Eats-literal n)) in
      Eats-alt law _ _ (Eats-map law (Eats-weaken (Eats-escaped_string law (suc n))) (λ _ _. tt)) (
        Eats-weaken (Eats-constant law Anything _ _ _ (Value.bool true) tt)
        & Eats-weaken (Eats-constant law Anything _ _ _ (Value.bool false) tt)
        & Eats-map_res law digits (λ _ _. AnyOption _)
        & Eats-map_res law (Eats-tuple law (Eats-weaken (Eats-tag law (suc n) _ _)) digits)
            (λ _ _. AnyOption _)
        & Eats-map law (Eats-weaken (Eats-double law (suc n))) (λ _ _. tt)
        & Eats-map law
            (Eats-weaken (
              Eats-tuple_less law (Eats-tag_whitespace law (suc n) _ _)
                (Eats-tuple law items (Eats-weaken (Eats-tag law n _ _)))))
            (λ _ _. tt)
        & tt)

  module _ (dom : Dom) where
    scanned-Goes :
        (i : Text) (o : Option (Text × Text))
        → ((t r : Text) → o ≡ some (t, r) → length t + length r ≡ length i)
        → Goes 1 Anything i (scanned nom dom i o)
    scanned-Goes i none h = tt
    scanned-Goes i (some ([], rest)) h = tt
    scanned-Goes i (some (c ∷ t, rest)) h = (omega (arith, h (c ∷ t) rest refl), tt)

    pub Eats-css_selector : (n hint : ℕ) → Eats 1 n Anything (css_selector nom dom hint)
    unfolding css_selector
    Eats-css_selector n hint = record {
      go = λ i lt. scanned-Goes i (scan hint (pos 0) i) (λ t r e. scan-length hint (pos 0) i t r e);
    }

    Eats-around :
        (n c : ℕ) (w : Text) (f : Inner ext dom → Extractor ext dom)
        (inner : Parser (Result Text (ExtractorExpression (html_extraction ext dom))))
        → Eats 0 n Anything inner
        → Eats 1 (suc n) Anything (around nom dom (c ∷ w) f inner)
    unfolding around
    Eats-around n c w f inner h =
        Eats-map law (Eats-bracketed law n _ _ _ _ _ _ (Eats-trailing law h)) (λ _ _. tt)

    Eats-selecting :
        (n c : ℕ) (w : Text) (f : Inner ext dom → Selector dom → Extractor ext dom)
        (inner : Parser (Result Text (ExtractorExpression (html_extraction ext dom))))
        → Eats 0 n Anything inner
        → Eats 1 (suc n) Anything (selecting nom dom (c ∷ w) f inner)
    unfolding selecting
    Eats-selecting n c w f inner h =
        Eats-map law
          (Eats-tuple_less law (Eats-tag_whitespace law (suc n) _ _) (
            Eats-tuple law (sign law n _ _) (
              Eats-tuple law (Eats-trailing law h) (
                Eats-tuple law (sign law n _ _) (
                  Eats-tuple law (Eats-weaken (Eats-css_selector n _))
                    (Eats-weaken (Eats-tag law n _ _)))))))
          (λ _ _. tt)

    pub Eats-extractor : (n : ℕ) → Eats 0 n Anything (extractor nom dom n)
    unfolding extractor html_extraction
    Eats-extractor zero = record { go = λ i lt. absurd (omega (arith, lt)) }
    Eats-extractor (suc n) =
        let inner =
          Eats-extractor_expression law (html_extraction ext dom) (extractor nom dom n) n
            (Eats-extractor n) in
        Eats-weaken (
          Eats-alt law _ _ (Eats-constant law Anything _ _ _ (ok name) tt) (
            Eats-constant law Anything _ _ _ (ok text) tt
            & Eats-constant law Anything _ _ _ (ok html) tt
            & Eats-constant law Anything _ _ _ (ok inner_html) tt
            & Eats-constant law Anything _ _ _ (ok attrs) tt
            & Eats-constant law Anything _ _ _ (ok classes) tt
            & Eats-constant law Anything _ _ _ (ok id) tt
            & Eats-map law
                (Eats-tuple law (Eats-tag_whitespace law (suc n) _ _)
                  (Eats-weaken (Eats-escaped_string law (suc n))))
                (λ _ _. tt)
            & Eats-around n _ _ parent _ inner
            & Eats-around n _ _ children _ inner
            & Eats-selecting n _ _ select_any _ inner
            & Eats-selecting n _ _ select_all _ inner
            & tt))
