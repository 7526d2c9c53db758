-- ===== src/Nom/Eats.antt =====
-- Parsers that do not run out of fuel on short texts, and take a part of them: a rule for each
-- combinator.
pub mod Rules
use lopez.Prelude.{
  ℕ, suc, ◌+◌, ◌<◌, ◌≤◌, ◌==◌, Text, length, drop, starts_with, List, [], ◌∷◌, Option, none, some,
  Result, ok, err, arith, ◌≡◌, All, Bool-cases, Option-cases, inl, inr, ==_iff, refl, sym,
}
use lopez.Extern.{Extern}
use lopez.Nom.{
  Nom, IsNom, Parser, IResult, Err, error, failure, incomplete, panicked, spent, Goes, IsNoms,
  mapped, paired, recovered, optional, negated, repeated, separated, all_consumed, mapped_res,
  converted, while1, take_while, skip_while, at_least_one, ErrorKind,
}

-- On texts shorter than `n`, it takes at least `k` bytes and gives a value with `P`.
pub record Eats {A : Type 0} (k n : ℕ) (P : A → Type 0) (p : Parser A) : Type 0 where
  pub go : (i : Text) → length i < n → Goes k P i (p i)

abbrev pub Anything : {A : Type 0} → A → Type 0
Anything a = Unit

module _ {A : Type 0} (P : A → Type 0) where
  pub Goes-weaken : (i : Text) (r : IResult A) → Goes 1 P i r → Goes 0 P i r
  Goes-weaken i (ok (rest, a)) h = (omega (arith, h.0), h.1)
  Goes-weaken i (err e) h = h

  pub Goes-recovered :
      (k : ℕ) (i : Text) (r s : IResult A)
      → Goes k P i r
      → Goes k P i s
      → Goes k P i (recovered r s)
  Goes-recovered k i (ok x) s h g = h
  Goes-recovered k i (err (error input kind)) s h g = g
  Goes-recovered k i (err (failure input kind)) s h g = tt
  Goes-recovered k i (err incomplete) s h g = absurd h
  Goes-recovered k i (err panicked) s h g = tt
  Goes-recovered k i (err spent) s h g = absurd h

  abbrev pub OfOption : Option A → Type 0
  OfOption none = Unit
  OfOption (some a) = P a

  pub Goes-optional : (i : Text) (r : IResult A) → Goes 0 P i r → Goes 0 OfOption i (optional i r)
  Goes-optional i (ok (rest, a)) h = h
  Goes-optional i (err (error input kind)) h = (omega arith, tt)
  Goes-optional i (err (failure input kind)) h = tt
  Goes-optional i (err incomplete) h = absurd h
  Goes-optional i (err panicked) h = tt
  Goes-optional i (err spent) h = absurd h

  Goes-converted :
      (k : ℕ) (i rest : Text) (o : Option A)
      → length rest + k ≤ length i
      → OfOption o
      → Goes k P i (converted i rest o)
  Goes-converted k i rest none le h = tt
  Goes-converted k i rest (some a) le h = (le, h)

  pub Goes-negated : (i : Text) (r : IResult A) → Goes 0 P i r → Goes 0 (λ _. Unit) i (negated i r)
  Goes-negated i (ok x) h = tt
  Goes-negated i (err (error input kind)) h = (omega arith, tt)
  Goes-negated i (err (failure input kind)) h = tt
  Goes-negated i (err incomplete) h = absurd h
  Goes-negated i (err panicked) h = tt
  Goes-negated i (err spent) h = absurd h

  pub Goes-all_consumed : (i : Text) (r : IResult A) → Goes 0 P i r → Goes 0 P i (all_consumed r)
  Goes-all_consumed i (ok ([], a)) h = h
  Goes-all_consumed i (ok (c ∷ rest, a)) h = tt
  Goes-all_consumed i (err e) h = h

module _ {A B : Type 0} (P : A → Type 0) (Q : B → Type 0) where
  pub Goes-mapped :
      (k : ℕ) (f : A → B) (i : Text) (r : IResult A)
      → Goes k P i r
      → ((a : A) → P a → Q (f a))
      → Goes k Q i (mapped f r)
  Goes-mapped k f i (ok (rest, a)) h g = (h.0, g a h.1)
  Goes-mapped k f i (err e) h g = h

  pub Goes-mapped_res :
      (k : ℕ) (f : A → Option B) (i : Text) (r : IResult A)
      → Goes k P i r
      → ((a : A) → P a → OfOption Q (f a))
      → Goes k Q i (mapped_res i f r)
  Goes-mapped_res k f i (ok (rest, a)) h g = Goes-converted Q k i rest (f a) h.0 (g a h.1)
  Goes-mapped_res k f i (err e) h g = h

  -- Both values.
  abbrev pub Both : A × B → Type 0
  Both (a, b) = P a × Q b

  Goes-second :
      (k : ℕ) (i rest : Text) (a : A) (r : IResult B)
      → length rest + k ≤ length i
      → P a
      → Goes 0 Q rest r
      → Goes k Both i (mapped (λ b. (a, b)) r)
  Goes-second k i rest a (ok (end, b)) le pa h = (omega (arith, le, h.0), (pa, h.1))
  Goes-second k i rest a (err e) le pa h = h

  -- The second parser needs to go on what the first one leaves only.
  pub Goes-paired :
      (k : ℕ) (i : Text) (r : IResult A) (q : Parser B)
      → Goes k P i r
      → ((rest : Text) → length rest + k ≤ length i → Goes 0 Q rest (q rest))
      → Goes k Both i (paired r q)
  Goes-paired k i (ok (rest, a)) q h g = Goes-second k i rest a (q rest) h.0 h.1 (g rest h.0)
  Goes-paired k i (err e) q h g = h

module _ {A : Type 0} (P : A → Type 0) where
  Goes-cons :
      (i rest : Text) (a : A) (r : IResult (List A))
      → length rest ≤ length i
      → P a
      → Goes 0 (λ xs. All P xs) rest r
      → Goes 0 (λ xs. All P xs) i (mapped (λ xs. a ∷ xs) r)
  Goes-cons i rest a (ok (end, xs)) le pa h = (omega (arith, le, h.0), (pa, h.1))
  Goes-cons i rest a (err e) le pa h = h

  pub Goes-repeated :
      (i : Text) (r : IResult A) (more : Parser (List A))
      → Goes 0 P i r
      → ((rest : Text) → length rest < length i → Goes 0 (λ xs. All P xs) rest (more rest))
      → Goes 0 (λ xs. All P xs) i (repeated i r more)
  Goes-repeated i (ok (rest, a)) more h g = elim (Bool-cases (length rest == length i)) [
    | inl e ↦ rw e tt
    | inr e ↦
        rw e
          (Goes-cons i rest a (more rest) (omega (arith, h.0)) h.1 (g rest (ground (arith, h.0))))
  ]
  Goes-repeated i (err (error input kind)) more h g = (omega arith, tt)
  Goes-repeated i (err (failure input kind)) more h g = tt
  Goes-repeated i (err incomplete) more h g = absurd h
  Goes-repeated i (err panicked) more h g = tt
  Goes-repeated i (err spent) more h g = absurd h

  pub Goes-separated :
      (i : Text) (r : IResult A) (more : Parser (List A))
      → Goes 0 P i r
      → ((rest : Text) → length rest ≤ length i → Goes 0 (λ xs. All P xs) rest (more rest))
      → Goes 0 (λ xs. All P xs) i (separated i r more)
  Goes-separated i (ok (rest, a)) more h g =
      Goes-cons i rest a (more rest) (omega (arith, h.0)) h.1 (g rest (omega (arith, h.0)))
  Goes-separated i (err (error input kind)) more h g = (omega arith, tt)
  Goes-separated i (err (failure input kind)) more h g = tt
  Goes-separated i (err incomplete) more h g = absurd h
  Goes-separated i (err panicked) more h g = tt
  Goes-separated i (err spent) more h g = absurd h
