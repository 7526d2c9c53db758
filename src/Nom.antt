-- ===== src/Nom.antt =====
-- The `nom` crate (version 7.1), of which lib-lopez/src/directives takes its parser combinators:
-- parsers are functions of the text that is left, and the combinators are a parameter.
pub mod Eats
pub mod Runs
use lopez.Prelude.{
  ℕ, ◌<◌, Text, Bool, false, any, drop, length, starts_with, ◌==◌, leb, ◌&&◌, ◌||◌, ◌+◌, ◌≤◌, List,
  [], ◌∷◌, ◌++◌, Option, none, some, Result, ok, err, if◌then◌else◌, ◌≡◌, ◌≢◌,
}
use lopez.Prelude.Outcome
use mathlib.Core.Bool
use lopez.Extern.{Extern}

-- The kinds of `nom::error::ErrorKind` that the combinators in use report.
pub data ErrorKind : Type 0 where
  is_a is_not tag digit multi_space separated_list many0 eof escaped map_res not float : ErrorKind

-- `nom::Err` over `nom::error::Error`. The last two are the model's own: a panic of the code that
-- a parser runs, and the end of the fuel of a recursive parser.
pub data Err : Type 0 where
  error failure : (input : Text) → ErrorKind → Err
  incomplete : Err
  panicked spent : Err

abbrev pub IResult : Type 0 → Type 0
IResult A = Result Err (Text × A)

abbrev pub Parser : Type 0 → Type 0
Parser A = Text → IResult A

-- `tuple` takes its parsers as nested pairs, and `alt` as a list.
pub record Nom (ext : Extern) : Type 1 where
  pub tag : Text → Parser Text
  pub is_not : Text → Parser Text
  pub digit1 : Parser Text
  pub multispace1 : Parser Text
  pub double : Parser ext.F64
  pub anychar : Parser Text
  pub escaped : Parser Text → ℕ → Parser Text → Parser Text
  pub map : {A B : Type 0} → Parser A → (A → B) → Parser B
  pub map_res : {A B : Type 0} → Parser A → (A → Option B) → Parser B
  pub tuple : {A B : Type 0} → Parser A → Parser B → Parser (A × B)
  pub delimited : {A B C : Type 0} → Parser A → Parser B → Parser C → Parser B
  pub alt : {A : Type 0} → List (Parser A) → Parser A
  pub opt : {A : Type 0} → Parser A → Parser (Option A)
  pub not : {A : Type 0} → Parser A → Parser Unit
  pub many0 : {A : Type 0} → Parser A → Parser (List A)
  pub separated_list0 : {A B : Type 0} → Parser A → Parser B → Parser (List B)
  pub all_consuming : {A : Type 0} → Parser A → Parser A
  -- `ErrorKind::description`.
  pub description : ErrorKind → Text

-- What a parser of the first characters with a property gives.
abbrev pub take_while : (ℕ → Bool) → Text → Text
take_while p [] = []
take_while p (c ∷ s) = let rest = take_while p s in if p c then c ∷ rest else []

abbrev pub skip_while : (ℕ → Bool) → Text → Text
skip_while p [] = []
skip_while p (c ∷ s) = let rest = skip_while p s in if p c then rest else c ∷ s

abbrev pub at_least_one : ErrorKind → Text → Text → Text → IResult Text
at_least_one kind i [] rest = err (error i kind)
at_least_one kind i (c ∷ s) rest = ok (rest, c ∷ s)

abbrev pub while1 : ErrorKind → (ℕ → Bool) → Parser Text
while1 kind p i = at_least_one kind i (take_while p i) (skip_while p i)

abbrev pub is_digit : ℕ → Bool
is_digit c = leb 48 c && leb c 57

-- Space, tab, carriage return and line feed.
abbrev pub is_space : ℕ → Bool
is_space c = c == 32 || (c == 9 || (c == 13 || c == 10))

module _ {B : Type 0} where
  abbrev pub converted : Text → Text → Option B → IResult B
  converted i rest none = err (error i map_res)
  converted i rest (some b) = ok (rest, b)

module _ {A B : Type 0} where
  -- `f` on the value of a parser.
  abbrev pub mapped : (A → B) → IResult A → IResult B
  mapped f (ok (rest, a)) = ok (rest, f a)
  mapped f (err e) = err e

module _ {A B : Type 0} where
  -- A parser behind another one.
  abbrev pub paired : IResult A → Parser B → IResult (A × B)
  paired (ok (rest, a)) q = mapped (λ b. (a, b)) (q rest)
  paired (err e) q = err e

  abbrev pub mapped_res : Text → (A → Option B) → IResult A → IResult B
  mapped_res i f (ok (rest, a)) = converted i rest (f a)
  mapped_res i f (err e) = err e

module _ {A : Type 0} where
  -- Only `Err::Error` lets the caller try something else.
  abbrev pub recovered : IResult A → IResult A → IResult A
  recovered (ok x) other = ok x
  recovered (err (error input kind)) other = other
  recovered (err e) other = err e

  abbrev pub optional : Text → IResult A → IResult (Option A)
  optional i (ok (rest, a)) = ok (rest, some a)
  optional i (err (error input kind)) = ok (i, none)
  optional i (err e) = err e

  abbrev pub negated : Text → IResult A → IResult Unit
  negated i (ok x) = err (error i not)
  negated i (err (error input kind)) = ok (i, tt)
  negated i (err e) = err e

  -- One turn of `many0`: it ends where its parser fails, and refuses one that takes nothing.
  abbrev pub repeated : Text → IResult A → Parser (List A) → IResult (List A)
  repeated i (ok (rest, a)) more =
      if length rest == length i then err (error i many0) else mapped (λ xs. a ∷ xs) (more rest)
  repeated i (err (error input kind)) more = ok (i, [])
  repeated i (err e) more = err e

  abbrev pub separated : Text → IResult A → Parser (List A) → IResult (List A)
  separated i (ok (rest, a)) more = mapped (λ xs. a ∷ xs) (more rest)
  separated i (err (error input kind)) more = ok (i, [])
  separated i (err e) more = err e

  abbrev pub all_consumed : IResult A → IResult A
  all_consumed (ok ([], a)) = ok ([], a)
  all_consumed (ok (c ∷ rest, a)) = err (error (c ∷ rest) eof)
  all_consumed (err e) = err e

-- `escaped(normal, control, escapable)`: `Escapes i s rest` where it goes over `s` in `i`, and
-- `rest` is left.
module _ (normal : Parser Text) (control : ℕ) (escapable : Parser Text) where
  pub data Escapes : Text → Text → Text → Type 0 where
    stop :
        (c : ℕ) (s : Text) (kind : ErrorKind)
        → normal (c ∷ s) ≡ err (error (c ∷ s) kind)
        → (c == control) ≡ false
        → Escapes (c ∷ s) [] (c ∷ s)
    run :
        (i j s t rest : Text)
        → normal i ≡ ok (j, t)
        → length j < length i
        → Escapes j s rest
        → Escapes i (t ++ s) rest
    escape :
        (i j s t rest : Text) (kind : ErrorKind)
        → normal (control ∷ i) ≡ err (error (control ∷ i) kind)
        → escapable i ≡ ok (j, t)
        → length j ≤ length i
        → Escapes j s rest
        → Escapes (control ∷ i) (control ∷ (t ++ s)) rest

-- The model's fuel has not run out, and the parsers of complete texts want no more of them.
abbrev pub IsNoms : Err → Type 0
IsNoms spent = ⊥
IsNoms incomplete = ⊥
IsNoms e = Unit

-- A result of a parser at `i`: not for want of fuel, and with at least `k` bytes fewer left.
abbrev pub Goes : {A : Type 0} → ℕ → (A → Type 0) → Text → IResult A → Type 0
Goes k P i (ok (rest, a)) = (length rest + k ≤ length i) × P a
Goes k P i (err e) = IsNoms e

-- On texts no longer than `i`, a parser leaves no more than it was given.
abbrev pub LeavesLess : {A : Type 0} → Parser A → Text → Type 0
LeavesLess {A} p i =
    (j rest : Text) (a : A) → length j ≤ length i → p j ≡ ok (rest, a) → length rest ≤ length j

-- What the documentation of the crate says of the combinators.
pub record IsNom {ext : Extern} (n : Nom ext) : Type 1 where
  pub tag-run :
      (p i : Text)
      → n.tag p i
        ≡ (if starts_with i p then ok (drop (length p) i, p) else err (error i ErrorKind.tag))
  pub is_not-run :
      (cs i : Text)
      → n.is_not cs i
        ≡ while1 ErrorKind.is_not (λ c. mathlib.Core.Bool.not (any (λ d. c == d) cs)) i
  pub digit1-run : (i : Text) → n.digit1 i ≡ while1 digit is_digit i
  pub multispace1-run : (i : Text) → n.multispace1 i ≡ while1 multi_space is_space i
  pub double-Goes : (i : Text) → Goes 1 (λ _. Unit) i (n.double i)
  pub anychar-ascii : (c : ℕ) (s : Text) → c < 128 → n.anychar (c ∷ s) ≡ ok (s, c ∷ [])
  pub anychar-Goes : (i : Text) → Goes 1 (λ _. Unit) i (n.anychar i)
  pub escaped-run :
      (normal escapable : Parser Text) (control : ℕ) (i s rest : Text)
      → s ≢ []
      → Escapes normal control escapable i s rest
      → n.escaped normal control escapable i ≡ ok (rest, s)
  pub escaped-stop :
      (normal escapable : Parser Text) (control : ℕ) (i : Text)
      → Escapes normal control escapable i [] i
      → n.escaped normal control escapable i ≡ err (error i ErrorKind.escaped)
  pub escaped-Goes :
      (normal escapable : Parser Text) (control : ℕ)
      → ((i : Text) → Goes 0 (λ _. Unit) i (normal i))
      → ((i : Text) → Goes 0 (λ _. Unit) i (escapable i))
      → (i : Text) → Goes 0 (λ _. Unit) i (n.escaped normal control escapable i)
  pub map-run : {A B : Type 0} (p : Parser A) (f : A → B) (i : Text) → n.map p f i ≡ mapped f (p i)
  pub map_res-run :
      {A B : Type 0} (p : Parser A) (f : A → Option B) (i : Text)
      → n.map_res p f i ≡ mapped_res i f (p i)
  pub tuple-run :
      {A B : Type 0} (p : Parser A) (q : Parser B) (i : Text) → n.tuple p q i ≡ paired (p i) q
  pub delimited-run :
      {A B C : Type 0} (p : Parser A) (q : Parser B) (r : Parser C) (i : Text)
      → n.delimited p q r i ≡ mapped (λ x. x.1.0) (paired (p i) (n.tuple q r))
  pub alt-last : {A : Type 0} (p : Parser A) (i : Text) → n.alt (p ∷ []) i ≡ p i
  pub alt-run :
      {A : Type 0} (p q : Parser A) (ps : List (Parser A)) (i : Text)
      → n.alt (p ∷ q ∷ ps) i ≡ recovered (p i) (n.alt (q ∷ ps) i)
  pub opt-run : {A : Type 0} (p : Parser A) (i : Text) → n.opt p i ≡ optional i (p i)
  pub not-run : {A : Type 0} (p : Parser A) (i : Text) → n.not p i ≡ negated i (p i)
  pub many0-run :
      {A : Type 0} (p : Parser A) (i : Text)
      → LeavesLess p i
      → n.many0 p i ≡ repeated i (p i) (n.many0 p)
  -- For a separator that takes something.
  pub separated_list0-run :
      {A B : Type 0} (sep : Parser A) (p : Parser B) (i : Text)
      → ((j : Text) → Goes 1 (λ _. Unit) j (sep j))
      → n.separated_list0 sep p i ≡ separated i (p i) (n.many0 (n.map (n.tuple sep p) (λ x. x.1)))
  pub all_consuming-run :
      {A : Type 0} (p : Parser A) (i : Text) → n.all_consuming p i ≡ all_consumed (p i)
