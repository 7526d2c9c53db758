-- ===== src/Directives/Names/Canonical.antt =====
-- What canonical paths are.
use lopez.Prelude.{
  Text, bytes, text_eq, split, join, is_empty, true, false, List, [], ◌∷◌, ◌++◌, ok, err, Result,
  ◌⊎◌, All, All-append, append_assoc, append-nil, ◌≡◌, ◌∙◌, refl, sym, ap, subst, Bool-cases, inl,
  inr,
}
use lopez.Prelude.Outcome.{ok-injective, ◌>>=◌}
use lopez.Prelude.Split.{Lacks, split-join, split-Lacks, split-append}
use lopez.Directives.Names.{pop, canonical_part, canonical_parts, canonical_path}

-- A part that stands for itself: it names a module, and is neither `super` nor `root`.
pub record IsName (part : Text) : Type 0 where
  pub no_dot : Lacks b'.' part
  pub not_empty : is_empty part ≡ false
  pub not_super : text_eq part (bytes "super") ≡ false
  pub not_root : text_eq part (bytes "root") ≡ false

Result-ok-cases : {E A : Type 0} (r : Result E A) → ((a : A) × (r ≡ ok a)) ⊎ ((e : E) × (r ≡ err e))
Result-ok-cases (ok a) = inl (a, refl)
Result-ok-cases (err e) = inr (e, refl)

pop-IsName : (ps : List Text) → All IsName ps → All IsName (pop ps)
pop-IsName [] h = tt
pop-IsName (p ∷ []) h = tt
pop-IsName (p ∷ q ∷ ps) h = (h.0, pop-IsName (q ∷ ps) h.1)

-- A path with a part `super` is not empty.
abbrev Whole : Text → Text → Type 0
Whole path part = text_eq part (bytes "super") ≡ true → is_empty path ≡ false

canonical_part-IsName :
    (path : Text) (parts : List Text) (part : Text)
    → All IsName parts
    → Whole path part
    → Lacks b'.' part
    → (parts' : List Text) × (canonical_part path parts part ≡ ok parts') × All IsName parts'
canonical_part-IsName path parts part h whole lacks =
    elim (Bool-cases (text_eq part (bytes "super"))) [
      | inl up ↦ (pop parts, rw (up, whole up) refl, pop-IsName parts h)
      | inr not_super ↦ elim (Bool-cases (text_eq part (bytes "root"))) [
        | inl root ↦ ([], rw (not_super, root) refl, tt)
        | inr not_root ↦ elim (Bool-cases (is_empty part)) [
          | inl nothing ↦ (parts, rw (not_super, not_root, nothing) refl, h)
          | inr not_empty ↦ (
            parts ++ (part ∷ []),
            rw (not_super, not_root, not_empty) refl,
            All-append IsName parts (part ∷ []) h (
              record {
                no_dot = lacks;
                not_empty = not_empty;
                not_super = not_super;
                not_root = not_root;
              },
              tt,
            ),
          )
        ]
      ]
    ]

canonical_parts-IsName :
    (path : Text) (parts rest : List Text)
    → All IsName parts
    → All (Whole path) rest
    → All (Lacks b'.') rest
    → (names : List Text) × (canonical_parts path parts rest ≡ ok names) × All IsName names
unfolding canonical_parts
canonical_parts-IsName path parts [] h whole lacks = (parts, refl, h)
canonical_parts-IsName path parts (part ∷ rest) h whole lacks =
    let (parts', e, h') = canonical_part-IsName path parts part h whole.0 lacks.0 in
    let (names, q, k) = canonical_parts-IsName path parts' rest h' whole.1 lacks.1 in
    (names, rw (e, q) refl, k)

canonical_parts-names :
    (path : Text) (parts names : List Text)
    → All IsName names
    → canonical_parts path parts names ≡ ok (parts ++ names)
unfolding canonical_parts
canonical_parts-names path parts [] h = ap ok (rw append-nil refl)
canonical_parts-names path parts (name ∷ names) (h, hs) =
    rw
      (
        h.not_super,
        h.not_root,
        h.not_empty,
        canonical_parts-names path (parts ++ (name ∷ [])) names hs,
        append_assoc,
      )
      refl

All-map : {P Q : Text → Type 0} (ps : List Text) → ((p : Text) → P p → Q p) → All P ps → All Q ps
All-map [] f h = tt
All-map (p ∷ ps) f h = (f p h.0, All-map ps f h.1)

All-Whole : (path : Text) (parts : List Text) → is_empty path ≡ false → All (Whole path) parts
All-Whole path [] h = tt
All-Whole path (p ∷ ps) h = ((λ _. h), All-Whole path ps h)

split-Whole : (path : Text) → All (Whole path) (split b'.' path)
split-Whole [] = ((λ e. absurd (cc)), tt)
split-Whole (c ∷ path) = All-Whole (c ∷ path) (split b'.' (c ∷ path)) refl

-- Every path has a canonical one, which joins names by dots: `super` above the root is no error.
canonical_path-IsName :
    (path : Text)
    → (names : List Text) × (canonical_path path ≡ ok (join (bytes ".") names)) × All IsName names
unfolding canonical_path
canonical_path-IsName path =
    let (names, e, h) =
      canonical_parts-IsName path [] (split b'.' path) tt (split-Whole path)
        (split-Lacks b'.' path) in
    (names, rw e refl, h)

-- The path that errors quote does not matter but for being empty.
canonical_parts-same :
    (path path' : Text) (parts rest : List Text)
    → All (Whole path) rest
    → All (Whole path') rest
    → canonical_parts path parts rest ≡ canonical_parts path' parts rest
unfolding canonical_parts
canonical_parts-same path path' parts [] h h' = refl
canonical_parts-same path path' parts (part ∷ rest) h h' =
    elim (Bool-cases (text_eq part (bytes "super"))) [
      | inl up ↦
          rw (up, h.0 up, h'.0 up) (canonical_parts-same path path' (pop parts) rest h.1 h'.1)
      | inr not_super ↦ rw not_super (elim (Bool-cases (text_eq part (bytes "root"))) [
        | inl root ↦ rw root (canonical_parts-same path path' [] rest h.1 h'.1)
        | inr not_root ↦ rw not_root (elim (Bool-cases (is_empty part)) [
          | inl nothing ↦ rw nothing (canonical_parts-same path path' parts rest h.1 h'.1)
          | inr not_empty ↦
              rw not_empty (canonical_parts-same path path' (parts ++ (part ∷ [])) rest h.1 h'.1)
        ])
      ])
    ]

canonical_parts-append :
    (path : Text) (parts rest more names : List Text)
    → canonical_parts path parts rest ≡ ok names
    → canonical_parts path parts (rest ++ more) ≡ canonical_parts path names more
unfolding canonical_parts
canonical_parts-append path parts [] more names e =
    ap (λ ps. canonical_parts path ps more) (ok-injective e)
canonical_parts-append path parts (part ∷ rest) more names e =
    elim (Result-ok-cases (canonical_part path parts part)) [
      | inl (parts', q) ↦ rw q (canonical_parts-append path parts' rest more names (rw q at e))
      | inr (x, q) ↦ absurd (cc (rw q at e))
    ]

-- A path goes on by a part.
abbrev pub then_part : Text → Text → Text
then_part path part = path ++ (b'.' ∷ part)

then_part_not_empty : (path part : Text) → is_empty (then_part path part) ≡ false
then_part_not_empty [] part = refl
then_part_not_empty (c ∷ path) part = refl

bind-ok :
    {E A B : Type 0} (r : Result E A) (f : A → Result E B) → ((r >>= λ a. ok a) >>= f) ≡ (r >>= f)
bind-ok (ok a) f = refl
bind-ok (err e) f = refl

canonical_path-then :
    (path part : Text) (names : List Text)
    → Lacks b'.' part
    → canonical_parts path [] (split b'.' path) ≡ ok names
    → canonical_path (then_part path part)
      ≡ (canonical_part (then_part path part) names part >>= λ parts. ok (join (bytes ".") parts))
unfolding canonical_path canonical_parts
canonical_path-then path part names lacks e =
    let on = then_part path part in
    let same : canonical_parts on [] (split b'.' path) ≡ ok names =
      sym (
        canonical_parts-same path on [] (split b'.' path) (split-Whole path)
          (All-Whole on (split b'.' path) (then_part_not_empty path part)))
      ∙ e in
    let last = canonical_parts-append on [] (split b'.' path) (part ∷ []) names same in
    rw (split-append b'.' path part lacks, last)
      (bind-ok (canonical_part on names part) (λ parts. ok (join (bytes ".") parts)))

-- Every path leads to a list of names, none of them `super`, `root` or empty, and its canonical form
-- joins them by dots, so that no path is an error; and whatever path one goes on from: by `super` the
-- last name is left out, if there is one, by `root` all names, by nothing between two dots none, and
-- by a name it is added at the end.
pub canonical_path-steps :
    (path name : Text)
    → IsName name
    → (names : List Text) × (canonical_path path ≡ ok (join (bytes ".") names))
      × All IsName names
      × (canonical_path (then_part path (bytes "super")) ≡ ok (join (bytes ".") (pop names)))
      × (canonical_path (then_part path (bytes "root")) ≡ ok [])
      × (canonical_path (then_part path []) ≡ ok (join (bytes ".") names))
      × (canonical_path (then_part path name) ≡ ok (join (bytes ".") (names ++ (name ∷ []))))
unfolding canonical_path
canonical_path-steps path name k =
    let (names, e, h) =
      canonical_parts-IsName path [] (split b'.' path) tt (split-Whole path)
        (split-Lacks b'.' path) in
    (
      names,
      rw e refl,
      h,
      canonical_path-then path (bytes "super") names refl e
          ∙ rw (then_part_not_empty path (bytes "super")) refl,
      canonical_path-then path (bytes "root") names refl e,
      canonical_path-then path [] names refl e,
      canonical_path-then path name names k.no_dot e
          ∙ rw (k.not_super, k.not_root, k.not_empty) refl,
    )

canonical_path-names :
    (names : List Text)
    → All IsName names
    → canonical_path (join (bytes ".") names) ≡ ok (join (bytes ".") names)
unfolding canonical_path canonical_parts
canonical_path-names [] h = refl
canonical_path-names (name ∷ names) h =
    rw
      (
        split-join b'.' name names (All-map (name ∷ names) (λ p k. k.no_dot) h),
        canonical_parts-names _ [] (name ∷ names) h,
      )
      refl

-- The canonical form of a canonical path is itself.
pub canonical_path-idempotent :
    (path canonical : Text)
    → canonical_path path ≡ ok canonical
    → canonical_path canonical ≡ ok canonical
canonical_path-idempotent path canonical e =
    let (names, q, h) = canonical_path-IsName path in
    subst (λ s. canonical_path s ≡ ok s) (ok-injective (sym q ∙ e)) (canonical_path-names names h)
