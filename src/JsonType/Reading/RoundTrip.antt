-- ===== src/JsonType/Reading/RoundTrip.antt =====
-- Types are read back from what `Display` writes (lib-lopez/src/type.rs).
use lopez.Prelude.{
  ℕ, zero, suc, ◌<◌, Text, bytes, length, starts_with, false, [], ◌∷◌, ◌++◌, ok, err, arith, ◌≡◌,
  ◌∙◌, refl, append_assoc, append-nil, length-append, subst,
}
use lopez.Extern.{Extern}
use lopez.Nom.{Nom, IsNom, Parser, Err, ErrorKind, error, is_space, multi_space, LeavesLess}
use lopez.Nom.Eats.Rules.{Eats-LeavesLess, Eats-multispace1, Eats-weaken}
use lopez.Nom.Runs.{
  tag-here, tag-missing, map-ok, map-err, tuple-ok, tuple-err, alt-here, alt-next, many0-end,
  many0-more,
}
use lopez.JsonType.{JsonType, any, bool, number, string, array, map, type_text}
use lopez.JsonType.Reading.{whitespace, trailing_whitespace, tag_whitespace, type, type_from_str}

module _ {ext : Extern} {nom : Nom ext} (law : IsNom nom) where
  -- No white space begins here.
  abbrev pub IsSettled : Text → Type 0
  IsSettled rest = whitespace nom rest ≡ ok (rest, tt)

  less : (i : Text) → LeavesLess nom.multispace1 i
  less i = Eats-LeavesLess law (Eats-weaken (Eats-multispace1 law (suc (length i)))) i (omega arith)

  space-missing :
      (c : ℕ) (i : Text)
      → is_space c ≡ false
      → nom.multispace1 (c ∷ i) ≡ err (error (c ∷ i) multi_space)
  space-missing c i e = rw (law.multispace1-run (c ∷ i), e) refl

  whitespace-other : (c : ℕ) (i : Text) → is_space c ≡ false → IsSettled (c ∷ i)
  unfolding whitespace
  whitespace-other c i e = map-ok law (λ _. tt) (many0-end law (less (c ∷ i)) (space-missing c i e))

  whitespace-end : IsSettled []
  unfolding whitespace
  whitespace-end =
      map-ok law (λ _. tt)
        (many0-end law {j = []} {kind = multi_space} (less []) (rw (law.multispace1-run []) refl))

  -- One space, before a character that is none.
  whitespace-space :
      (c : ℕ) (i : Text) → is_space c ≡ false → whitespace nom (32 ∷ c ∷ i) ≡ ok (c ∷ i, tt)
  unfolding whitespace
  whitespace-space c i e =
      let taken : nom.multispace1 (32 ∷ c ∷ i) ≡ ok (c ∷ i, 32 ∷ []) =
        rw (law.multispace1-run (32 ∷ c ∷ i), e) refl in
      map-ok law (λ _. tt)
        (many0-more law (less (32 ∷ c ∷ i)) taken (ground arith)
          (many0-end law (less (c ∷ i)) (space-missing c i e)))

  trailing-ok :
      {T : Type 0} (p : Parser T) {i : Text} (j : Text) {rest : Text} {t : T}
      → p i ≡ ok (j, t)
      → whitespace nom j ≡ ok (rest, tt)
      → trailing_whitespace nom p i ≡ ok (rest, t)
  unfolding trailing_whitespace
  trailing-ok p j e w = map-ok law _ (tuple-ok law e w)

  tag_whitespace-ok :
      (p j : Text) {rest : Text}
      → whitespace nom j ≡ ok (rest, tt)
      → tag_whitespace nom p (p ++ j) ≡ ok (rest, p)
  unfolding tag_whitespace
  tag_whitespace-ok p j w = trailing-ok (nom.tag p) j (tag-here law p j) w

  tag_whitespace-missing :
      (p i : Text) → starts_with i p ≡ false → tag_whitespace nom p i ≡ err (error i ErrorKind.tag)
  unfolding tag_whitespace trailing_whitespace
  tag_whitespace-missing p i e =
      map-err law _ (rw (law.tuple-run (nom.tag p) (whitespace nom) i, tag-missing law p i e) refl)

  Reads : ℕ → Text → Text → JsonType → Type 0
  Reads n i rest t = type nom n i ≡ ok (rest, t)

  -- The names of the four types without parts.
  type-any : (n : ℕ) (rest : Text) → type nom (suc n) (bytes "any" ++ rest) ≡ ok (rest, any)
  unfolding type
  type-any n rest = alt-here law _ _ (map-ok law _ (tag-here law (bytes "any") rest))

  type-bool : (n : ℕ) (rest : Text) → type nom (suc n) (bytes "bool" ++ rest) ≡ ok (rest, bool)
  unfolding type
  type-bool n rest =
      alt-next law _ _ (map-err law _ (tag-missing law (bytes "any") _ refl))
      ∙ alt-here law _ _ (map-ok law _ (tag-here law (bytes "bool") rest))

  type-number :
      (n : ℕ) (rest : Text) → type nom (suc n) (bytes "number" ++ rest) ≡ ok (rest, number)
  unfolding type
  type-number n rest =
      alt-next law _ _ (map-err law _ (tag-missing law (bytes "any") _ refl))
      ∙ alt-next law _ _ (map-err law _ (tag-missing law (bytes "bool") _ refl))
      ∙ alt-here law _ _ (map-ok law _ (tag-here law (bytes "number") rest))

  type-string :
      (n : ℕ) (rest : Text) → type nom (suc n) (bytes "string" ++ rest) ≡ ok (rest, string)
  unfolding type
  type-string n rest =
      alt-next law _ _ (map-err law _ (tag-missing law (bytes "any") _ refl))
      ∙ alt-next law _ _ (map-err law _ (tag-missing law (bytes "bool") _ refl))
      ∙ alt-next law _ _ (map-err law _ (tag-missing law (bytes "number") _ refl))
      ∙ alt-here law _ _ (map-ok law _ (tag-here law (bytes "string") rest))

  -- A type begins with a letter.
  type_text-IsSettled : (t : JsonType) (rest : Text) → IsSettled (type_text t ++ rest)
  unfolding type_text
  type_text-IsSettled any rest = whitespace-other 97 _ refl
  type_text-IsSettled bool rest = whitespace-other 98 _ refl
  type_text-IsSettled number rest = whitespace-other 110 _ refl
  type_text-IsSettled string rest = whitespace-other 115 _ refl
  type_text-IsSettled (array t) rest = whitespace-other 97 _ refl
  type_text-IsSettled (map t) rest = whitespace-other 109 _ refl

  type_text-spaced :
      (t : JsonType) (rest : Text)
      → whitespace nom (32 ∷ (type_text t ++ rest)) ≡ ok (type_text t ++ rest, tt)
  unfolding type_text
  type_text-spaced any rest = whitespace-space 97 _ refl
  type_text-spaced bool rest = whitespace-space 98 _ refl
  type_text-spaced number rest = whitespace-space 110 _ refl
  type_text-spaced string rest = whitespace-space 115 _ refl
  type_text-spaced (array t) rest = whitespace-space 97 _ refl
  type_text-spaced (map t) rest = whitespace-space 109 _ refl

  module _ (n : ℕ) (t : JsonType) (rest : Text)
      (inner : type nom n (type_text t ++ (bytes "]" ++ rest)) ≡ ok (bytes "]" ++ rest, t)) where
    closing :
        trailing_whitespace nom (type nom n) (type_text t ++ (bytes "]" ++ rest))
        ≡ ok (bytes "]" ++ rest, t)
    closing = trailing-ok (type nom n) (bytes "]" ++ rest) inner (whitespace-other 93 rest refl)

    type-array :
        type nom (suc n) (bytes "array[" ++ (type_text t ++ (bytes "]" ++ rest)))
        ≡ ok (rest, array t)
    unfolding type
    type-array =
        alt-next law _ _ (map-err law _ (tag-missing law (bytes "any") _ refl))
        ∙ alt-next law _ _ (map-err law _ (tag-missing law (bytes "bool") _ refl))
        ∙ alt-next law _ _ (map-err law _ (tag-missing law (bytes "number") _ refl))
        ∙ alt-next law _ _ (map-err law _ (tag-missing law (bytes "string") _ refl))
        ∙ alt-here law _ _ (
            map-ok law _ (
              tuple-ok law (tag_whitespace-ok (bytes "array") _ (whitespace-other 91 _ refl)) (
                tuple-ok law (tag_whitespace-ok (bytes "[") _ (type_text-IsSettled t _))
                  (tuple-ok law closing (tag-here law (bytes "]") rest)))))

    type-map :
        whitespace nom rest ≡ ok (rest, tt)
        → type nom (suc n) (bytes "map[string, " ++ (type_text t ++ (bytes "]" ++ rest)))
          ≡ ok (rest, map t)
    unfolding type
    type-map settled =
        alt-next law _ _ (map-err law _ (tag-missing law (bytes "any") _ refl))
        ∙ alt-next law _ _ (map-err law _ (tag-missing law (bytes "bool") _ refl))
        ∙ alt-next law _ _ (map-err law _ (tag-missing law (bytes "number") _ refl))
        ∙ alt-next law _ _ (map-err law _ (tag-missing law (bytes "string") _ refl))
        ∙ alt-next law _ _
            (map-err law _ (tuple-err law _ (tag_whitespace-missing (bytes "array") _ refl)))
        ∙ law.alt-last _ _
        ∙ map-ok law _ (
            tuple-ok law (tag_whitespace-ok (bytes "map") _ (whitespace-other 91 _ refl)) (
              tuple-ok law (tag_whitespace-ok (bytes "[") _ (whitespace-other 115 _ refl)) (
                tuple-ok law (tag_whitespace-ok (bytes "string") _ (whitespace-other 44 _ refl)) (
                  tuple-ok law (tag_whitespace-ok (bytes ",") _ (type_text-spaced t _))
                    (tuple-ok law closing (tag_whitespace-ok (bytes "]") rest settled))))))

  -- A printed type is read back, and what stands behind it is left.
  type-type_text :
      (n : ℕ) (t : JsonType) (rest : Text)
      → length (type_text t) < n
      → IsSettled rest
      → type nom n (type_text t ++ rest) ≡ ok (rest, t)
  unfolding type_text
  type-type_text zero t rest lt h = absurd (omega (arith, lt))
  type-type_text (suc n) any rest lt h = type-any n rest
  type-type_text (suc n) bool rest lt h = type-bool n rest
  type-type_text (suc n) number rest lt h = type-number n rest
  type-type_text (suc n) string rest lt h = type-string n rest
  type-type_text (suc n) (array t) rest lt h =
      let shorter : length (type_text t) < n =
        omega (arith, lt, length-append (type_text t) (bytes "]")) in
      rw (append_assoc (type_text t) (bytes "]") rest) (
        type-array n t rest
          (type-type_text n t (bytes "]" ++ rest) shorter (whitespace-other 93 rest refl)))
  type-type_text (suc n) (map t) rest lt h =
      let shorter : length (type_text t) < n =
        omega (arith, lt, length-append (type_text t) (bytes "]")) in
      rw (append_assoc (type_text t) (bytes "]") rest) (
        type-map n t rest
          (type-type_text n t (bytes "]" ++ rest) shorter (whitespace-other 93 rest refl)) h)

  -- Reading what a type writes gives the type: `from_str` inverts `Display`, whichever way parse
  -- errors are written.
  pub type_from_str-type_text :
      (to_string : Err → Text) (t : JsonType) → type_from_str nom to_string (type_text t) ≡ ok t
  unfolding type_from_str
  type_from_str-type_text to_string t =
      let text = type_text t in
      let typed : type nom (suc (length text)) text ≡ ok ([], t) =
        subst (λ (s : Text). type nom (suc (length text)) s ≡ ok ([], t)) (append-nil text)
          (type-type_text (suc (length text)) t [] (omega arith) whitespace-end) in
      let whole = trailing-ok (type nom (suc (length text))) [] typed whitespace-end in
      rw
        (law.all_consuming-run (trailing_whitespace nom (type nom (suc (length text)))) text, whole)
        refl
