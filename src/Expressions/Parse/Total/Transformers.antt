-- ===== src/Expressions/Parse/Total/Transformers.antt =====
-- The parser of transformer expressions returns, and what it reads has no `sort-by`, which has no
-- syntax.
use lopez.Prelude.{
  ℕ, zero, suc, ◌<◌, length, Text, bytes, List, [], ◌∷◌, none, some, Result, ok, err, arith, All,
}
use lopez.Prelude.Outcome
use lopez.Prelude.Returns.{OnOk, OnOk-bind}
use lopez.Extern.{Extern}
use lopez.Nom.{Nom, IsNom, Parser, Goes}
use lopez.Nom.Eats.{Eats, Anything}
use lopez.Nom.Eats.Rules.{
  ◌&◌, Eats-tag, Eats-digit1, Eats-double, Eats-map, Eats-tuple, Eats-alt, Eats-many0,
  Eats-separated_list0, Eats-weaken,
}
use lopez.Expressions.Transformer.{
  Transformer, TransformerExpression, is_null, is_not_null, hash, as_number, greater_than,
  lesser_than, greater_or_equal, lesser_or_equal, equals, in_numbers, is_empty, get, get_idx,
  flatten, each, filter, any, all, sort, sort_by, as_string, pretty, equals_string, in_strings,
  capture, all_captures, matches, replace, nil, cons,
}
use lopez.Directives.ParseCommon.{regex}
use lopez.Directives.ParseCommon.Eats.{Eats-trailing, Eats-tag_whitespace, Eats-escaped_string}
use lopez.Expressions.Parse.{
  word, with_number, with_string, with_list, nested, index_of, parse_u64, numeric, structural,
  textual, collect_transformers, expression_of, transformer, transformer_expression,
}
use lopez.Expressions.Parse.Total.{Eats-constant, sign, Eats-bracketed}

unfoldable mutual
  -- No `sort-by`, at any depth.
  pub SortsByNone : {ext : Extern} → Transformer ext → Type 0
  SortsByNone (each inner) = AllSortByNone inner
  SortsByNone (filter inner) = AllSortByNone inner
  SortsByNone (any inner) = AllSortByNone inner
  SortsByNone (all inner) = AllSortByNone inner
  SortsByNone (sort_by key) = ⊥
  SortsByNone _ = Unit

  pub AllSortByNone : {ext : Extern} → TransformerExpression ext → Type 0
  AllSortByNone nil = Unit
  AllSortByNone (cons x xs) = SortsByNone x × AllSortByNone xs

-- What may be wrong with a parsed text is no matter.
abbrev pub Reads : {A : Type 0} → (A → Type 0) → Result Text A → Type 0
Reads P r = OnOk r P

module _ {A B : Type 0} (P : A → Type 0) (Q : B → Type 0) where
  Reads-bind :
      (r : Result Text A) (f : A → Result Text B)
      → Reads P r
      → ((a : A) → P a → Reads Q (f a))
      → Reads Q (Outcome.◌>>=◌ r f)
  Reads-bind r f h g = OnOk-bind P Q r f h g

module _ (ext : Extern) (Q : Transformer ext → Type 0) (f : ext.Regex → Transformer ext)
    (h : (r : ext.Regex) → Q (f r)) where
  Reads-then : (m : Result Text ext.Regex) → Reads Q (Outcome.◌>>=◌ m λ r. ok (f r))
  Reads-then (ok r) = h r
  Reads-then (err e) = tt

module _ {ext : Extern} {nom : Nom ext} (law : IsNom nom) where
  abbrev Reader : ℕ → Parser (Result Text (Transformer ext)) → Type 0
  Reader n p = Eats 1 n (Reads SortsByNone) p

  abbrev Expression : ℕ → Parser (Result Text (TransformerExpression ext)) → Type 0
  Expression n p = Eats 0 n (Reads AllSortByNone) p

  Reader-word :
      (n c : ℕ) (w : Text) (x : Transformer ext) → SortsByNone x → Reader n (word nom (c ∷ w) x)
  Reader-word n c w x h = Eats-constant law (Reads SortsByNone) n c w (ok x) h

  Reader-with_number :
      (n c : ℕ) (w : Text) (f : ext.F64 → Transformer ext)
      → ((lhs : ext.F64) → SortsByNone (f lhs))
      → Reader n (with_number nom (c ∷ w) f)
  Reader-with_number n c w f h =
      Eats-map law
        (Eats-tuple law (Eats-tag_whitespace law n c w) (Eats-weaken (Eats-double law n)))
        (λ x _. h x.1)

  Reader-with_string :
      (n c : ℕ) (w : Text) (f : Text → Result Text (Transformer ext))
      → ((s : Text) → Reads SortsByNone (f s))
      → Reader n (with_string nom (c ∷ w) f)
  Reader-with_string n c w f h =
      Eats-map law
        (Eats-tuple law (Eats-tag_whitespace law n c w) (Eats-weaken (Eats-escaped_string law n)))
        (λ x _. h x.1)

  Reader-with_list :
      {A : Type 0} (n : ℕ) (p : Parser A) (f : List A → Transformer ext)
      → Eats 0 n Anything p
      → ((xs : List A) → SortsByNone (f xs))
      → Reader n (with_list nom p f)
  Reader-with_list n p f h g =
      Eats-map law
        (Eats-tuple law (Eats-tag_whitespace law n _ _) (
          Eats-tuple law (sign law n _ _) (
            Eats-tuple law (Eats-separated_list0 law (λ m. Eats-tag_whitespace law m _ _) h)
              (Eats-weaken (Eats-tag law n _ _)))))
        (λ (_, (_, (xs, _))) _. g xs)

  Reader-nested :
      (n c : ℕ) (w : Text) (f : TransformerExpression ext → Transformer ext)
      (inner : Parser (Result Text (TransformerExpression ext)))
      → ((te : TransformerExpression ext) → AllSortByNone te → SortsByNone (f te))
      → Expression n inner
      → Reader (suc n) (nested nom (c ∷ w) f inner)
  Reader-nested n c w f inner h g =
      Eats-map law (Eats-bracketed law n _ _ _ _ _ _ g)
        (λ (_, (_, (e, _))) k. Reads-bind AllSortByNone SortsByNone e (λ te. ok (f te)) k.1.1.0 h)

  index_of-Reads : (digits : Text) → Reads SortsByNone (index_of nom digits)
  unfolding SortsByNone
  index_of-Reads digits =
      elim (parse_u64 digits)
        as (λ o. Reads (SortsByNone {ext = ext}) (elim o [
          | none ↦ err (bytes "number too large to fit in target type")
          | some n ↦ ok (get_idx n)
        ])) [ none ↦ tt | some n ↦ tt ]

  Reader-numeric : (n : ℕ) → Reader n (numeric nom)
  unfolding SortsByNone
  Reader-numeric n =
      let number = Eats-weaken (Eats-double law n) in
      Eats-alt law _ _ (Reader-word n _ _ is_null tt) (
        Reader-word n _ _ is_not_null tt
        & Reader-word n _ _ hash tt
        & Reader-word n _ _ Transformer.not tt
        & Reader-word n _ _ as_number tt
        & Reader-with_number n _ _ greater_than (λ _. tt)
        & Reader-with_number n _ _ lesser_than (λ _. tt)
        & Reader-with_number n _ _ greater_or_equal (λ _. tt)
        & Reader-with_number n _ _ lesser_or_equal (λ _. tt)
        & Eats-map law
            (Eats-tuple law (Eats-tag_whitespace law n _ _)
              (Eats-tuple law (Eats-trailing law number) (Eats-tuple law (sign law n _ _) number)))
            (λ _ _. tt)
        & Reader-with_number n _ _ equals (λ _. tt)
        & Reader-with_list n nom.double in_numbers number (λ _. tt)
        & tt)

  Reader-textual : (n : ℕ) → Reader n (textual nom)
  unfolding SortsByNone
  Reader-textual n =
      let string = Eats-weaken (Eats-escaped_string law n) in
      Eats-alt law _ _ (Reader-word n _ _ as_string tt) (
        Reader-word n _ _ pretty tt
        & Reader-with_string n _ _ (λ s. ok (equals_string s)) (λ _. tt)
        & Reader-with_list n _ in_strings string (λ _. tt)
        & Reader-with_string n _ _ _
            (λ s. Reads-then ext SortsByNone capture (λ _. tt) (regex ext s))
        & Reader-with_string n _ _ _
            (λ s. Reads-then ext SortsByNone all_captures (λ _. tt) (regex ext s))
        & Reader-with_string n _ _ _
            (λ s. Reads-then ext SortsByNone matches (λ _. tt) (regex ext s))
        & Eats-map law
            (Eats-tuple law (Eats-tag_whitespace law n _ _)
              (Eats-tuple law (Eats-trailing law string) (Eats-tuple law (sign law n _ _) string)))
            (λ (_, (s, (_, by))) _.
              Reads-then ext SortsByNone (λ r. replace r by) (λ _. tt) (regex ext s))
        & tt)

  Reader-structural :
      (n : ℕ) (inner : Parser (Result Text (TransformerExpression ext)))
      → Expression n inner
      → Reader (suc n) (structural nom inner)
  unfolding SortsByNone
  Reader-structural n inner h =
      let nest = Reader-nested n in
      Eats-alt law _ _ (Reader-word (suc n) _ _ Transformer.length tt) (
        Reader-word (suc n) _ _ is_empty tt
        & Eats-map law
            (Eats-tuple law (Eats-tag_whitespace law (suc n) _ _)
              (Eats-weaken (Eats-digit1 law (suc n))))
            (λ x _. index_of-Reads x.1)
        & Reader-with_string (suc n) _ _ (λ s. ok (get s)) (λ _. tt)
        & Reader-word (suc n) _ _ flatten tt
        & Reader-nested n _ _ each inner (λ te k. k) h
        & Reader-nested n _ _ filter inner (λ te k. k) h
        & Reader-nested n _ _ any inner (λ te k. k) h
        & Reader-nested n _ _ all inner (λ te k. k) h
        & Reader-word (suc n) _ _ sort tt
        & tt)

  collect_transformers-Reads :
      (xs : List (Result Text (Transformer ext)))
      → All (Reads SortsByNone) xs
      → Reads AllSortByNone (collect_transformers nom xs)
  unfolding SortsByNone
  collect_transformers-Reads [] h = tt
  collect_transformers-Reads (x ∷ xs) h = Reads-bind SortsByNone AllSortByNone x _ h.0 (λ t k.
      Reads-bind AllSortByNone AllSortByNone (collect_transformers nom xs) _
        (collect_transformers-Reads xs h.1) (λ ts ks. (k, ks)))

  Expression-of :
      (n : ℕ) (p : Parser (Result Text (Transformer ext)))
      → Eats 0 n (Reads SortsByNone) p
      → Expression n (expression_of nom p)
  Expression-of n p h =
      Eats-map law (Eats-many0 law (Eats-trailing law h)) collect_transformers-Reads

  Reader-transformer : (n : ℕ) → Eats 0 n (Reads SortsByNone) (transformer nom n)
  unfolding transformer
  Reader-transformer zero = record { go = λ i lt. absurd (omega (arith, lt)) }
  Reader-transformer (suc n) =
      let inner = Expression-of n (transformer nom n) (Reader-transformer n) in
      Eats-weaken (
        Eats-alt law _ _ (Reader-numeric (suc n))
          (Reader-structural n _ inner & Reader-textual (suc n) & tt))

  -- On texts shorter than the depth, an expression is read, or refused, and has no `sort-by`.
  pub Eats-transformer_expression :
      (n : ℕ) → Eats 0 n (Reads AllSortByNone) (transformer_expression nom n)
  unfolding transformer_expression
  Eats-transformer_expression n = Expression-of n (transformer nom n) (Reader-transformer n)

-- On a text shorter than the depth of calls that it is given, the parser of transformer expressions
-- returns, never for want of depth; it leaves no more text than there was, and no expression that
-- it reads has `sort-by` in it, at any depth: what the evaluator runs as `sort-by` cannot be written.
pub transformer_expression-Goes :
    {ext : Extern} {nom : Nom ext} (law : IsNom nom) (n : ℕ) (i : Text)
    → length i < n
    → Goes 0 (Reads AllSortByNone) i (transformer_expression nom n i)
transformer_expression-Goes law n i lt = (Eats-transformer_expression law n).go i lt
