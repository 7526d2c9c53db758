-- ===== src/Nom/Runs.antt =====
-- What combinators give on texts of which the beginning is known.
use lopez.Prelude.{
  ◌==◌, Text, length, drop, starts_with, List, [], ◌∷◌, ◌++◌, ok, err, arith, ◌≡◌, refl, true,
  false,
}
use lopez.Extern.{Extern}
use lopez.Nom.{Nom, IsNom, Parser, Err, ErrorKind, error, LeavesLess}

starts_with-append : (p rest : Text) → starts_with (p ++ rest) p ≡ true
starts_with-append [] [] = refl
starts_with-append [] (c ∷ rest) = refl
starts_with-append (c ∷ p) rest = ground (arith, starts_with-append p rest)

drop-append : (p rest : Text) → drop (length p) (p ++ rest) ≡ rest
drop-append [] rest = refl
drop-append (c ∷ p) rest = drop-append p rest

module _ {ext : Extern} {nom : Nom ext} (law : IsNom nom) where
  pub tag-here : (p rest : Text) → nom.tag p (p ++ rest) ≡ ok (rest, p)
  tag-here p rest =
      rw (law.tag-run p (p ++ rest), starts_with-append p rest, drop-append p rest) refl

  pub tag-missing :
      (p i : Text) → starts_with i p ≡ false → nom.tag p i ≡ err (error i ErrorKind.tag)
  tag-missing p i e = rw (law.tag-run p i, e) refl

  module _ {A B : Type 0} where
    pub map-ok :
        {p : Parser A} {i rest : Text} {a : A} (f : A → B)
        → p i ≡ ok (rest, a)
        → nom.map p f i ≡ ok (rest, f a)
    map-ok {p} {i} f e = rw (law.map-run p f i, e) refl

    pub map-err :
        {p : Parser A} {i : Text} {e : Err} (f : A → B) → p i ≡ err e → nom.map p f i ≡ err e
    map-err {p} {i} f e = rw (law.map-run p f i, e) refl

    pub tuple-ok :
        {p : Parser A} {q : Parser B} {i j rest : Text} {a : A} {b : B}
        → p i ≡ ok (j, a)
        → q j ≡ ok (rest, b)
        → nom.tuple p q i ≡ ok (rest, (a, b))
    tuple-ok {p} {q} {i} e f = rw (law.tuple-run p q i, e, f) refl

    pub tuple-err :
        {p : Parser A} {i : Text} {e : Err} (q : Parser B) → p i ≡ err e → nom.tuple p q i ≡ err e
    tuple-err {p} {i} q e = rw (law.tuple-run p q i, e) refl

  module _ {A : Type 0} where
    pub alt-here :
        {p : Parser A} {i : Text} {x : Text × A} (q : Parser A) (ps : List (Parser A))
        → p i ≡ ok x
        → nom.alt (p ∷ q ∷ ps) i ≡ ok x
    alt-here {p} {i} q ps e = rw (law.alt-run p q ps i, e) refl

    pub alt-next :
        {p : Parser A} {i j : Text} {kind : ErrorKind} (q : Parser A) (ps : List (Parser A))
        → p i ≡ err (error j kind)
        → nom.alt (p ∷ q ∷ ps) i ≡ nom.alt (q ∷ ps) i
    alt-next {p} {i} q ps e = rw (law.alt-run p q ps i, e) refl

    pub many0-end :
        {p : Parser A} {i j : Text} {kind : ErrorKind}
        → LeavesLess p i
        → p i ≡ err (error j kind)
        → nom.many0 p i ≡ ok (i, [])
    many0-end {p} {i} less e = rw (law.many0-run p i less, e) refl

    pub many0-more :
        {p : Parser A} {i j rest : Text} {a : A} {xs : List A}
        → LeavesLess p i
        → p i ≡ ok (j, a)
        → (length j == length i) ≡ false
        → nom.many0 p j ≡ ok (rest, xs)
        → nom.many0 p i ≡ ok (rest, a ∷ xs)
    many0-more {p} {i} less e l f = rw (law.many0-run p i less, e, l, f) refl
