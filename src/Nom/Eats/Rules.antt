-- ===== src/Nom/Eats/Rules.antt =====
-- The combinators of parsers that do not run out of fuel, from what the crate documents of them.
use lopez.Prelude.{
  ℕ, zero, suc, ◌+◌, ◌<◌, ◌≤◌, Bool, true, Text, length, drop, starts_with, List, [], ◌∷◌, Option,
  ok, err, arith, ◌≡◌, All, Bool-cases, inl, inr, if◌then◌else◌, refl, subst,
}
use lopez.Extern.{Extern}
use lopez.Nom.{
  Nom, IsNom, Parser, IResult, Goes, while1, take_while, skip_while, at_least_one, ErrorKind, error,
  LeavesLess,
}
use lopez.Nom.Eats.{
  Eats, Anything, OfOption, Both, Goes-weaken, Goes-recovered, Goes-optional, Goes-negated,
  Goes-all_consumed, Goes-mapped, Goes-mapped_res, Goes-paired, Goes-repeated, Goes-separated,
}

drop-length :
    (p i : Text) → starts_with i p ≡ true → length (drop (length p) i) + length p ≡ length i
drop-length [] i h = omega arith
drop-length (c ∷ p) [] h = absurd (cc)
drop-length (c ∷ p) (d ∷ i) h = ground (arith, drop-length p i)

while-length :
    (p : ℕ → Bool) (i : Text) → length (take_while p i) + length (skip_while p i) ≡ length i
while-length p [] = omega arith
while-length p (c ∷ s) = elim (Bool-cases (p c)) [
  | inl e ↦ rw e (omega (arith, while-length p s))
  | inr e ↦ rw e (omega arith)
]

at_least_one-Goes :
    (kind : ErrorKind) (i taken rest : Text)
    → length taken + length rest ≡ length i
    → Goes 1 Anything i (at_least_one kind i taken rest)
at_least_one-Goes kind i [] rest e = tt
at_least_one-Goes kind i (c ∷ s) rest e = (omega (arith, e), tt)

module _ {A : Type 0} {P : A → Type 0} {p : Parser A} where
  pub Eats-weaken : {n : ℕ} → Eats 1 n P p → Eats 0 n P p
  Eats-weaken h = record { go = λ i lt. Goes-weaken P i (p i) (h.go i lt) }

  pub Eats-restrict : {k m : ℕ} (n : ℕ) → n ≤ m → Eats k m P p → Eats k n P p
  Eats-restrict n le h = record { go = λ i lt. h.go i (omega (arith, lt, le)) }

module _ {A : Type 0} (P : A → Type 0) where
  Goes-forget : (k : ℕ) (i : Text) (r : IResult A) → Goes k P i r → Goes k Anything i r
  Goes-forget k i (ok (rest, a)) h = (h.0, tt)
  Goes-forget k i (err e) h = h

module _ {A : Type 0} {P : A → Type 0} {p : Parser A} where
  pub Eats-forget : {k n : ℕ} → Eats k n P p → Eats k n Anything p
  Eats-forget {k} h = record { go = λ i lt. Goes-forget P k i (p i) (h.go i lt) }

tag-Goes :
    (i p : Text) (k : ℕ)
    → length p ≡ suc k
    → Goes 1 Anything i
        (if starts_with i p then ok (drop (length p) i, p) else err (error i ErrorKind.tag))
tag-Goes i p k l = elim (Bool-cases (starts_with i p)) [
  | inl e ↦ rw e (omega (arith, drop-length p i e), tt)
  | inr e ↦ rw e tt
]

tag-Goes_any :
    (i p : Text)
    → Goes 0 Anything i
        (if starts_with i p then ok (drop (length p) i, p) else err (error i ErrorKind.tag))
tag-Goes_any i p = elim (Bool-cases (starts_with i p)) [
  | inl e ↦ rw e (omega (arith, drop-length p i e), tt)
  | inr e ↦ rw e tt
]

pub while1-Goes :
    (kind : ErrorKind) (test : ℕ → Bool) (i : Text) → Goes 1 Anything i (while1 kind test i)
while1-Goes kind test i =
    at_least_one-Goes kind i (take_while test i) (skip_while test i) (while-length test i)

-- What holds of the first alternative, and of the others.
infixr 4 ◌&◌
abbrev pub ◌&◌ : {A B : Type 0} → A → B → A × B
a & b = (a, b)

module _ {ext : Extern} {nom : Nom ext} (law : IsNom nom) where
  pub Eats-tag : (n c : ℕ) (p : Text) → Eats 1 n Anything (nom.tag (c ∷ p))
  Eats-tag n c p = record {
    go = λ i lt. rw (law.tag-run (c ∷ p) i) (tag-Goes i (c ∷ p) (length p) refl);
  }

  pub Eats-tag_any : (n : ℕ) (p : Text) → Eats 0 n Anything (nom.tag p)
  Eats-tag_any n p = record { go = λ i lt. rw (law.tag-run p i) (tag-Goes_any i p) }

  pub Eats-is_not : (n : ℕ) (cs : Text) → Eats 1 n Anything (nom.is_not cs)
  Eats-is_not n cs = record { go = λ i lt. rw (law.is_not-run cs i) (while1-Goes _ _ i) }

  pub Eats-digit1 : (n : ℕ) → Eats 1 n Anything nom.digit1
  Eats-digit1 n = record { go = λ i lt. rw (law.digit1-run i) (while1-Goes _ _ i) }

  pub Eats-multispace1 : (n : ℕ) → Eats 1 n Anything nom.multispace1
  Eats-multispace1 n = record { go = λ i lt. rw (law.multispace1-run i) (while1-Goes _ _ i) }

  pub Eats-double : (n : ℕ) → Eats 1 n Anything nom.double
  Eats-double n = record { go = λ i lt. law.double-Goes i }

  pub Eats-escaped :
      (n c : ℕ) (cs : Text) → Eats 0 n Anything (nom.escaped (nom.is_not cs) c nom.anychar)
  Eats-escaped n c cs = record {
    go = λ i lt.
        law.escaped-Goes (nom.is_not cs) nom.anychar c
          (λ j. Goes-weaken Anything j _ (rw (law.is_not-run cs j) (while1-Goes _ _ j)))
          (λ j. Goes-weaken Anything j _ (law.anychar-Goes j)) i;
  }

  module _ {A B : Type 0} {P : A → Type 0} {Q : B → Type 0} where
    pub Eats-map :
        {k n : ℕ} {p : Parser A} {f : A → B}
        → Eats k n P p
        → ((a : A) → P a → Q (f a))
        → Eats k n Q (nom.map p f)
    Eats-map {k} {n} {p} {f} h g = record {
      go = λ i lt. rw (law.map-run p f i) (Goes-mapped P Q k f i (p i) (h.go i lt) g);
    }

    pub Eats-map_res :
        {k n : ℕ} {p : Parser A} {f : A → Option B}
        → Eats k n P p
        → ((a : A) → P a → OfOption Q (f a))
        → Eats k n Q (nom.map_res p f)
    Eats-map_res {k} {n} {p} {f} h g = record {
      go = λ i lt. rw (law.map_res-run p f i) (Goes-mapped_res P Q k f i (p i) (h.go i lt) g);
    }

    pub Eats-tuple :
        {k n : ℕ} {p : Parser A} {q : Parser B}
        → Eats k n P p
        → Eats 0 n Q q
        → Eats k n (Both P Q) (nom.tuple p q)
    Eats-tuple {k} {n} {p} {q} h g = record {
      go = λ i lt.
          rw (law.tuple-run p q i) (
            Goes-paired P Q k i (p i) q (h.go i lt) (λ rest le. g.go rest (omega (arith, le, lt))));
    }

    -- Behind a parser that takes something, less fuel is enough.
    pub Eats-tuple_less :
        {n : ℕ} {p : Parser A} {q : Parser B}
        → Eats 1 (suc n) P p
        → Eats 0 n Q q
        → Eats 1 (suc n) (Both P Q) (nom.tuple p q)
    Eats-tuple_less {n} {p} {q} h g = record {
      go = λ i lt.
          rw (law.tuple-run p q i) (
            Goes-paired P Q 1 i (p i) q (h.go i lt) (λ rest le. g.go rest (omega (arith, le, lt))));
    }

  module _ {A B C : Type 0} {Q : B → Type 0} where
    pub Eats-delimited :
        {k n : ℕ} {p : Parser A} {q : Parser B} {r : Parser C}
        → Eats k n Anything p
        → Eats 0 n Q q
        → Eats 0 n Anything r
        → Eats k n Q (nom.delimited p q r)
    Eats-delimited {k} {n} {p} {q} {r} h g f =
        let inner = Eats-tuple {P = Q} {Q = Anything} g f in
        record {
          go = λ i lt. rw (law.delimited-run p q r i) (
              Goes-mapped (Both Anything (Both Q Anything)) Q k _ i _
                (Goes-paired Anything (Both Q Anything) k i (p i) (nom.tuple q r) (h.go i lt)
                  (λ rest le. inner.go rest (omega (arith, le, lt))))
                (λ x px. px.1.0));
        }

  module _ {A : Type 0} {P : A → Type 0} where
    pub Eats-alt :
        {k n : ℕ} (p : Parser A) (ps : List (Parser A))
        → Eats k n P p
        → All (Eats k n P) ps
        → Eats k n P (nom.alt (p ∷ ps))
    Eats-alt p [] h hs = record { go = λ i lt. rw (law.alt-last p i) (h.go i lt) }
    Eats-alt {k} p (q ∷ qs) h hs =
        let rest = Eats-alt q qs hs.0 hs.1 in
        record {
          go = λ i lt.
              rw (law.alt-run p q qs i)
                (Goes-recovered P k i (p i) (nom.alt (q ∷ qs) i) (h.go i lt) (rest.go i lt));
        }

    pub Eats-opt : {n : ℕ} {p : Parser A} → Eats 0 n P p → Eats 0 n (OfOption P) (nom.opt p)
    Eats-opt {n} {p} h = record {
      go = λ i lt. rw (law.opt-run p i) (Goes-optional P i (p i) (h.go i lt));
    }

    pub Eats-not : {n : ℕ} {p : Parser A} → Eats 0 n P p → Eats 0 n Anything (nom.not p)
    Eats-not {n} {p} h = record {
      go = λ i lt. rw (law.not-run p i) (Goes-negated P i (p i) (h.go i lt));
    }

    pub Eats-all_consuming :
        {n : ℕ} {p : Parser A} → Eats 0 n P p → Eats 0 n P (nom.all_consuming p)
    Eats-all_consuming {n} {p} h = record {
      go = λ i lt. rw (law.all_consuming-run p i) (Goes-all_consumed P i (p i) (h.go i lt));
    }

    -- A parser that goes on short texts leaves no more than it was given.
    pub Eats-LeavesLess :
        {n : ℕ} {p : Parser A} → Eats 0 n P p → (i : Text) → length i < n → LeavesLess p i
    Eats-LeavesLess {n} {p} h i lt j rest a le e =
        let got = subst (λ r. Goes 0 P j r) e (h.go j (omega (arith, lt, le))) in
        omega (arith, got.0)

    many0-Goes :
        {n : ℕ} {p : Parser A}
        → Eats 0 n P p
        → (m : ℕ) (i : Text) → length i < m
        → length i < n
        → Goes 0 (λ xs. All P xs) i (nom.many0 p i)
    many0-Goes h zero i lt lt' = absurd (omega (arith, lt))
    many0-Goes {n} {p} h (suc m) i lt lt' = rw (law.many0-run p i (Eats-LeavesLess h i lt')) (
        Goes-repeated P i (p i) (nom.many0 p) (h.go i lt')
          (λ rest less. many0-Goes h m rest (omega (arith, less, lt)) (omega (arith, less, lt'))))

    pub Eats-many0 : {n : ℕ} {p : Parser A} → Eats 0 n P p → Eats 0 n (λ xs. All P xs) (nom.many0 p)
    Eats-many0 h = record { go = λ i lt. many0-Goes h (suc (length i)) i (omega arith) lt }

  module _ {A B : Type 0} {P : B → Type 0} where
    pub Eats-separated_list0 :
        {n : ℕ} {sep : Parser A} {p : Parser B}
        → ((m : ℕ) → Eats 1 m Anything sep)
        → Eats 0 n P p
        → Eats 0 n (λ xs. All P xs) (nom.separated_list0 sep p)
    Eats-separated_list0 {n} {sep} {p} hs h =
        let step =
          Eats-many0 (Eats-map {Q = P} (Eats-tuple (Eats-weaken (hs n)) h) (λ x px. px.1)) in
        record {
          go = λ i lt.
              rw (law.separated_list0-run sep p i (λ j. (hs (suc (length j))).go j (omega arith))) (
                Goes-separated P i (p i) _ (h.go i lt)
                  (λ rest le. step.go rest (omega (arith, le, lt))));
        }
