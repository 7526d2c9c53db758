-- ===== src/Tests/Parsers.antt =====
-- Parser combinators by plain recursion, for which what is documented of `nom` holds.
use lopez.Prelude.{
  ℕ, zero, suc, ◌<◌, ◌≤◌, ◌==◌, ltb, Text, bytes, length, drop, starts_with, any, not, true, false,
  Bool-cases, inl, inr, List, [], ◌∷◌, ◌++◌, ok, err, arith, ◌≡◌, ◌≢◌, refl, if◌then◌else◌,
}
use lopez.Nom.{
  Nom, IsNom, Parser, IResult, ErrorKind, error, failure, incomplete, panicked, spent, Goes, while1,
  is_digit, is_space, digit, multi_space, mapped, paired, mapped_res, recovered, optional, negated,
  repeated, separated, all_consumed, Escapes, stop, run, escape, LeavesLess, eof,
}
use lopez.Nom.Eats.Rules.{while1-Goes}
use lopez.Nom.Eats.{Anything}
use lopez.Expressions.Parse.{digits_onto}
use lopez.Tests.Samples.{floats}

abbrev tag : Text → Parser Text
tag p i = if starts_with i p then ok (drop (length p) i, p) else err (error i ErrorKind.tag)

abbrev anychar : Parser Text
anychar [] = err (error [] eof)
anychar (c ∷ s) = ok (s, c ∷ [])

abbrev tuple : {A B : Type 0} → Parser A → Parser B → Parser (A × B)
tuple p q i = paired (p i) q

abbrev alt : {A : Type 0} → List (Parser A) → Parser A
alt [] i = err (error i ErrorKind.tag)
alt (p ∷ []) i = p i
alt (p ∷ q ∷ ps) i = recovered (p i) (alt (q ∷ ps) i)

-- A repetition with fuel.
repeat : {A : Type 0} → ℕ → Parser A → Parser (List A)
repeat zero p i = err spent
repeat (suc n) p i = repeated i (p i) (repeat n p)

unfoldable pub many0 : {A : Type 0} → Parser A → Parser (List A)
unfolding repeat
many0 p i = repeat (suc (length i)) p i

abbrev behind : Text → IResult Text → IResult Text
behind t (ok (rest, s)) = ok (rest, t ++ s)
behind t (err e) = err e

-- What follows an escaped character.
abbrev escaped_step : ℕ → IResult Text → Parser Text → IResult Text
escaped_step control (ok (j, t)) more = behind (control ∷ t) (more j)
escaped_step control (err e) more = err e

abbrev over_step : Parser Text → ℕ → Text → IResult Text → Parser Text → IResult Text
over_step escapable control i (ok (j, t)) more =
    if ltb (length j) (length i) then behind t (more j) else ok (i, [])
over_step escapable control [] (err (error input kind)) more = ok ([], [])
over_step escapable control (c ∷ i) (err (error input kind)) more =
    if c == control then escaped_step control (escapable i) more else ok (c ∷ i, [])
over_step escapable control i (err e) more = err e

abbrev finish : Text → IResult Text → IResult Text
finish i (ok (rest, [])) = err (error i ErrorKind.escaped)
finish i (ok (rest, c ∷ s)) = ok (rest, c ∷ s)
finish i (err e) = err e

behind-Goes :
    (i j t : Text) (r : IResult Text)
    → length j ≤ length i
    → Goes 0 Anything j r
    → Goes 0 Anything i (behind t r)
behind-Goes i j t (ok (rest, s)) le h = (omega (arith, le, h.0), tt)
behind-Goes i j t (err e) le h = h

finish-Goes : (i : Text) (r : IResult Text) → Goes 0 Anything i r → Goes 0 Anything i (finish i r)
finish-Goes i (ok (rest, [])) h = tt
finish-Goes i (ok (rest, c ∷ s)) h = h
finish-Goes i (err e) h = h

module _ (normal : Parser Text) (control : ℕ) (escapable : Parser Text) where
  over : ℕ → Parser Text
  over zero i = err spent
  over (suc n) i = over_step escapable control i (normal i) (over n)

  unfoldable pub escaped : Parser Text
  unfolding over
  escaped i = finish i (over (suc (length i)) i)

  over-run :
      (n : ℕ) {i s rest : Text}
      → Escapes normal control escapable i s rest
      → length i < n
      → over n i ≡ ok (rest, s)
  unfolding over
  over-run zero e lt = absurd (omega (arith, lt))
  over-run (suc n) (stop c s kind e ne) lt = rw (e, ne) refl
  over-run (suc n) (run i j s t rest e less more) lt =
      let shorter : ltb (length j) (length i) ≡ true = ground (arith, less) in
      rw (e, shorter, over-run n more (omega (arith, less, lt))) refl
  over-run (suc n) (escape i j s t rest kind e k less more) lt =
      let same : (control == control) ≡ true = ground arith in
      rw (e, same, k, over-run n more (omega (arith, less, lt))) refl

  finish-some : (i s rest : Text) → s ≢ [] → finish i (ok (rest, s)) ≡ ok (rest, s)
  finish-some i [] rest ne = absurd (ne refl)
  finish-some i (c ∷ s) rest ne = refl

  escaped-run :
      (i s rest : Text)
      → s ≢ []
      → Escapes normal control escapable i s rest
      → escaped i ≡ ok (rest, s)
  unfolding escaped
  escaped-run i s rest ne e =
      rw (over-run (suc (length i)) e (omega arith)) (finish-some i s rest ne)

  escaped-stop :
      (i : Text)
      → Escapes normal control escapable i [] i
      → escaped i ≡ err (error i ErrorKind.escaped)
  unfolding escaped
  escaped-stop i e = rw (over-run (suc (length i)) e (omega arith)) refl

  module _ (hn : (i : Text) → Goes 0 (λ _. Unit) i (normal i))
      (he : (i : Text) → Goes 0 (λ _. Unit) i (escapable i)) where
    escaped_step-Goes :
        (c : ℕ) (i : Text) (r : IResult Text) (more : Parser Text)
        → Goes 0 Anything i r
        → ((j : Text) → length j ≤ length i → Goes 0 Anything j (more j))
        → Goes 0 Anything (c ∷ i) (escaped_step control r more)
    escaped_step-Goes c i (ok (j, t)) more h g =
        behind-Goes (c ∷ i) j (control ∷ t) (more j) (omega (arith, h.0)) (g j (omega (arith, h.0)))
    escaped_step-Goes c i (err e) more h g = h

    over_step-Goes :
        (i : Text) (r : IResult Text) (more : Parser Text)
        → Goes 0 Anything i r
        → ((j : Text) → length j < length i → Goes 0 Anything j (more j))
        → Goes 0 Anything i (over_step escapable control i r more)
    over_step-Goes i (ok (j, t)) more h g = elim (Bool-cases (ltb (length j) (length i))) [
      | inl e ↦ rw e (behind-Goes i j t (more j) (omega (arith, h.0)) (g j (ground (arith, e))))
      | inr e ↦ rw e (omega arith, tt)
    ]
    over_step-Goes [] (err (error input kind)) more h g = (omega arith, tt)
    over_step-Goes (c ∷ i) (err (error input kind)) more h g = elim (Bool-cases (c == control)) [
      | inl e ↦
          rw e (escaped_step-Goes c i (escapable i) more (he i) (λ j le. g j (omega (arith, le))))
      | inr e ↦ rw e (omega arith, tt)
    ]
    over_step-Goes [] (err (failure input kind)) more h g = tt
    over_step-Goes (c ∷ i) (err (failure input kind)) more h g = tt
    over_step-Goes [] (err incomplete) more h g = absurd h
    over_step-Goes (c ∷ i) (err incomplete) more h g = absurd h
    over_step-Goes [] (err panicked) more h g = tt
    over_step-Goes (c ∷ i) (err panicked) more h g = tt
    over_step-Goes [] (err spent) more h g = absurd h
    over_step-Goes (c ∷ i) (err spent) more h g = absurd h

    over-Goes : (n : ℕ) (i : Text) → length i < n → Goes 0 Anything i (over n i)
    unfolding over
    over-Goes zero i lt = absurd (omega (arith, lt))
    over-Goes (suc n) i lt =
        over_step-Goes i (normal i) (over n) (hn i)
          (λ j less. over-Goes n j (omega (arith, less, lt)))

    escaped-Goes : (i : Text) → Goes 0 Anything i (escaped i)
    unfolding escaped
    escaped-Goes i =
        finish-Goes i (over (suc (length i)) i) (over-Goes (suc (length i)) i (omega arith))

-- A number with nothing behind a point.
abbrev double : Parser ℕ
double i = mapped (digits_onto 0) (while1 ErrorKind.float is_digit i)

double-Goes :
    (i : Text) (r : IResult Text)
    → Goes 1 Anything i r
    → Goes 1 Anything i (mapped (digits_onto 0) r)
double-Goes i (ok (rest, a)) h = h
double-Goes i (err e) h = h

anychar-Goes : (i : Text) → Goes 1 Anything i (anychar i)
anychar-Goes [] = tt
anychar-Goes (c ∷ s) = (omega arith, tt)

-- The rest of a repetition matters on shorter texts only.
repeated-more :
    {A : Type 0} (i : Text) (r : IResult A) (f g : Parser (List A))
    → ((rest : Text) (a : A)
        → r ≡ ok (rest, a)
        → (length rest == length i) ≡ false
        → f rest ≡ g rest)
    → repeated i r f ≡ repeated i r g
repeated-more i (ok (rest, a)) f g h = elim (Bool-cases (length rest == length i)) [
  | inl e ↦ rw e refl
  | inr e ↦ rw (e, h rest a refl e) refl
]
repeated-more i (err (error input kind)) f g h = refl
repeated-more i (err (failure input kind)) f g h = refl
repeated-more i (err incomplete) f g h = refl
repeated-more i (err panicked) f g h = refl
repeated-more i (err spent) f g h = refl

module _ {A : Type 0} (p : Parser A) where
  -- Fuel that is enough, and more of it.
  repeat_more :
      (n m : ℕ) (i : Text)
      → length i < n
      → length i < m
      → LeavesLess p i
      → repeat n p i ≡ repeat m p i
  unfolding repeat
  repeat_more zero m i ln lm less = absurd (omega (arith, ln))
  repeat_more (suc n) zero i ln lm less = absurd (omega (arith, lm))
  repeat_more (suc n) (suc m) i ln lm less =
      repeated-more i (p i) (repeat n p) (repeat m p) (λ rest a e ne.
        let le : length rest ≤ length i = less i rest a (omega arith) e in
        let lt : length rest < length i = ground (arith, le, ne) in
        repeat_more n m rest (omega (arith, lt, ln)) (omega (arith, lt, lm))
          (λ j r b l k. less j r b (omega (arith, l, le)) k))

  many0-run : (i : Text) → LeavesLess p i → many0 p i ≡ repeated i (p i) (many0 p)
  unfolding many0 repeat
  many0-run i less = repeated-more i (p i) (repeat (length i) p) (many0 p) (λ rest a e ne.
      let le : length rest ≤ length i = less i rest a (omega arith) e in
      let lt : length rest < length i = ground (arith, le, ne) in
      repeat_more (length i) (suc (length rest)) rest lt (omega arith)
        (λ j r b l k. less j r b (omega (arith, l, le)) k))

abbrev pub plain : Nom floats
plain = record {
  tag = tag;
  is_not = λ cs. while1 ErrorKind.is_not (λ c. not (any (λ d. c == d) cs));
  digit1 = while1 digit is_digit;
  multispace1 = while1 multi_space is_space;
  double = double;
  anychar = anychar;
  escaped = escaped;
  map = λ p f i. mapped f (p i);
  map_res = λ p f i. mapped_res i f (p i);
  tuple = tuple;
  delimited = λ p q r i. mapped (λ x. x.1.0) (paired (p i) (tuple q r));
  alt = alt;
  opt = λ p i. optional i (p i);
  not = λ p i. negated i (p i);
  many0 = many0;
  separated_list0 = λ sep p i. separated i (p i) (many0 (λ i. mapped (λ x. x.1) (tuple sep p i)));
  all_consuming = λ p i. all_consumed (p i);
  description = λ k. bytes "error";
}

pub plain-IsNom : IsNom plain
plain-IsNom = record {
  tag-run = λ p i. refl;
  is_not-run = λ cs i. refl;
  digit1-run = λ i. refl;
  multispace1-run = λ i. refl;
  double-Goes = λ i. double-Goes i _ (while1-Goes ErrorKind.float is_digit i);
  anychar-ascii = λ c s lt. refl;
  anychar-Goes = anychar-Goes;
  escaped-run = λ normal escapable control. escaped-run normal control escapable;
  escaped-stop = λ normal escapable control. escaped-stop normal control escapable;
  escaped-Goes = λ normal escapable control. escaped-Goes normal control escapable;
  map-run = λ p f i. refl;
  map_res-run = λ p f i. refl;
  tuple-run = λ p q i. refl;
  delimited-run = λ p q r i. refl;
  alt-last = λ p i. refl;
  alt-run = λ p q ps i. refl;
  opt-run = λ p i. refl;
  not-run = λ p i. refl;
  many0-run = many0-run;
  separated_list0-run = λ sep p i h. refl;
  all_consuming-run = λ p i. refl;
}
