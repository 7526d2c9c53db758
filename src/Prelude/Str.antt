-- ===== src/Prelude/Str.antt =====
-- Rust strings as their bytes, and the operations of `str` that the program uses. A literal is
-- given by `bytes`, which is right for ASCII text.
use Prim.Native.Nat.{ℕ, zero, suc, ◌+◌, ◌/◌, ◌%◌, compare, Ordering, pred}
use Prim.Native.Char.{code}
use Prim.Native.String.{String}
use mathlib.Core.Path.{◌≡◌, refl}
use mathlib.Core.Bool.{Bool, true, false, ◌&&◌, ◌||◌}
use mathlib.Core.List.{List, [], ◌∷◌, ◌++◌}
use mathlib.Core.Option.{Option, none, some}
use native.Mathlib.Omega.{arith}
use lopez.Prelude.Tests.{ltb, leb, ◌==◌, if◌then◌else◌}

abbrev pub Text : Type 0
Text = List ℕ

abbrev pub bytes : String → Text
bytes String.[] = []
bytes (String.◌∷◌ c s) = code c ∷ bytes s

-- `==` on strings.
abbrev pub text_eq : Text → Text → Bool
text_eq [] [] = true
text_eq [] (y ∷ ys) = false
text_eq (x ∷ xs) [] = false
text_eq (x ∷ xs) (y ∷ ys) = x == y && text_eq xs ys

pub text_eq_sound : (s t : Text) → text_eq s t ≡ true → s ≡ t
text_eq_sound [] [] h = refl
text_eq_sound [] (y ∷ ys) h = absurd (cc)
text_eq_sound (x ∷ xs) [] h = absurd (cc)
text_eq_sound (x ∷ xs) (y ∷ ys) h = ground (arith, text_eq_sound xs ys)

pub text_eq_refl : (s : Text) → text_eq s s ≡ true
text_eq_refl [] = refl
text_eq_refl (x ∷ xs) = ground (arith, text_eq_refl xs)

-- `Ord::cmp` on strings is by bytes.
abbrev pub text_cmp : Text → Text → Ordering
text_cmp [] [] = Ordering.eq
text_cmp [] (y ∷ ys) = Ordering.lt
text_cmp (x ∷ xs) [] = Ordering.gt
text_cmp (x ∷ xs) (y ∷ ys) =
    let rest = text_cmp xs ys in
    elim (compare x y) [
      | Ordering.eq ↦ rest
      | Ordering.lt ↦ Ordering.lt
      | Ordering.gt ↦ Ordering.gt
    ]

abbrev pub starts_with : Text → Text → Bool
starts_with s [] = true
starts_with [] (p ∷ ps) = false
starts_with (c ∷ s) (p ∷ ps) = c == p && starts_with s ps

-- `s.ends_with(c)` and `s[..s.len() - 1]`.
abbrev pub ends_with : Text → ℕ → Bool
ends_with [] c = false
ends_with (x ∷ []) c = x == c
ends_with (x ∷ y ∷ s) c = ends_with (y ∷ s) c

abbrev pub drop_last : Text → Text
drop_last [] = []
drop_last (x ∷ []) = []
drop_last (x ∷ y ∷ s) = x ∷ drop_last (y ∷ s)

-- `&s[found..]` for `found = s.find(p)`: the text from the first occurrence of `p` on.
abbrev pub find_from : Text → Text → Option Text
find_from [] p = if starts_with [] p then some [] else none
find_from (c ∷ s) p =
    let rest = find_from s p in if starts_with (c ∷ s) p then some (c ∷ s) else rest

-- `s.split(sep)`, for a separator of one byte: never empty.
abbrev pub split_onto : ℕ → Text → Text → List Text
split_onto sep part [] = part ∷ []
split_onto sep part (c ∷ s) =
    let next = split_onto sep [] s in
    let on = split_onto sep (part ++ (c ∷ [])) s in if c == sep then part ∷ next else on

abbrev pub split : ℕ → Text → List Text
split sep s = split_onto sep [] s

-- `parts.join(sep)`.
abbrev pub join : Text → List Text → Text
join sep [] = []
join sep (p ∷ []) = p
join sep (p ∷ q ∷ ps) = p ++ (sep ++ join sep (q ∷ ps))

-- The decimal digits of a number, as `to_string` writes them; a number has fewer digits than
-- `n + 1`, the fuel that `show_ℕ` gives.
show_onto : ℕ → ℕ → Text → Text
show_onto zero n acc = acc
show_onto (suc f) n acc =
    let digit = (48 + n % 10) ∷ acc in
    let more = show_onto f (n / 10) digit in if ltb n 10 then digit else more

unfoldable pub show_ℕ : ℕ → Text
unfolding show_onto
show_ℕ n = show_onto (suc n) n []

abbrev white_three : ℕ → ℕ → Text → ℕ
white_three a b [] = 0
white_three a b (c ∷ s) =
    if (a == 225 && b == 154 && c == 128)
      || (a == 226 && b == 128 && (leb 128 c && leb c 138 || (c == 168 || (c == 169 || c == 175))))
      || (a == 226 && b == 129 && c == 159)
      || (a == 227 && b == 128 && c == 128)
    then 3
    else 0

abbrev white_wide : ℕ → Text → ℕ
white_wide a [] = 0
white_wide a (b ∷ s) = if a == 194 && (b == 133 || b == 160) then 2 else white_three a b s

-- The length in bytes of the white space that a text begins with, 0 if it begins with none. The
-- characters with the Unicode property `White_Space`, in UTF-8.
abbrev white_len : Text → ℕ
white_len [] = 0
white_len (a ∷ s) = if a == 32 || (leb 9 a && leb a 13) then 1 else white_wide a s

-- `s.split_whitespace()`: the maximal runs without white space, none of them empty. `skip` counts
-- the bytes of a white-space character that are still to be passed over.
abbrev words_onto : ℕ → Text → Text → List Text
words_onto skip word [] = elim word [ [] ↦ [] | c ∷ cs ↦ (c ∷ cs) ∷ [] ]
words_onto (suc skip) word (c ∷ s) = words_onto skip word s
words_onto zero word (c ∷ s) =
    let white = white_len (c ∷ s) in
    let gap = words_onto (pred white) [] s in
    let on = words_onto 0 (word ++ (c ∷ [])) s in
    if white == 0 then on else elim word [ [] ↦ gap | d ∷ ds ↦ (d ∷ ds) ∷ gap ]

abbrev pub split_whitespace : Text → List Text
split_whitespace s = words_onto 0 [] s
