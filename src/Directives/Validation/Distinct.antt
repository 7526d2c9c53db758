-- ===== src/Directives/Validation/Distinct.antt =====
-- When names have no duplicates.
use lopez.Prelude.{
  Text, text_eq, text_eq_sound, text_eq_refl, Bool, false, ◌||◌, List, [], ◌∷◌, ◌++◌, any, All, ◌≡◌,
  ◌≢◌, ◌↔◌, refl, sym, arith, Bool-cases, inl, inr,
}
use lopez.Directives.Validation.{insert_name, see_names, find_duplicates}

-- No two of the names are the same.
abbrev pub Distinct : List Text → Type 0
Distinct [] = Unit
Distinct (n ∷ ns) = All (λ m. n ≢ m) ns × Distinct ns

insert_name_not_empty : (n : Text) (set : List Text) → insert_name n set ≢ []
insert_name_not_empty n [] e = absurd (cc)
insert_name_not_empty n (m ∷ set) e = elim (Bool-cases (any (text_eq n) (m ∷ set))) [
  | inl there ↦ absurd (cc (rw there at e))
  | inr new ↦ absurd (cc (rw new at e))
]

-- A name that is none of those seen.
abbrev Unseen : List Text → Text → Type 0
Unseen seen n = any (text_eq n) seen ≡ false

any-append :
    (p : Text → Bool) (xs : List Text) (y : Text) → any p (xs ++ (y ∷ [])) ≡ (any p xs || p y)
any-append p [] y = ground arith
any-append p (x ∷ xs) y = ground (arith, any-append p xs y)

text_eq-false : (s t : Text) → (text_eq s t ≡ false) ↔ (t ≢ s)
text_eq-false s t = (
  λ h e. absurd (cc (rw (e, text_eq_refl s) at h)),
  λ ne. elim (Bool-cases (text_eq s t)) [
    | inl same ↦ absurd (ne (sym (text_eq_sound s t same)))
    | inr other ↦ other
  ],
)

-- What is unseen with one name more.
Unseen-append :
    (seen : List Text) (n m : Text) → Unseen (seen ++ (n ∷ [])) m ↔ (Unseen seen m × (n ≢ m))
Unseen-append seen n m =
    let (sound, complete) = text_eq-false m n in
    elim (Bool-cases (any (text_eq m) seen)) [
      | inl there ↦
          rw (any-append (text_eq m) seen n, there) ((λ h. absurd (cc)), λ h. absurd (cc (h.0)))
      | inr new ↦
          rw (any-append (text_eq m) seen n, new) ((λ h. (refl, sound h)), λ h. complete h.1)
    ]

All-Unseen-append :
    (seen : List Text) (n : Text) (ns : List Text)
    → All (Unseen (seen ++ (n ∷ []))) ns ↔ (All (Unseen seen) ns × All (λ m. n ≢ m) ns)
All-Unseen-append seen n [] = ((λ h. (tt, tt)), λ h. tt)
All-Unseen-append seen n (m ∷ ns) =
    let (f, g) = Unseen-append seen n m in
    let (fs, gs) = All-Unseen-append seen n ns in
    (
      (λ h. (((f h.0).0, (fs h.1).0), ((f h.0).1, (fs h.1).1))),
      λ h. (g (h.0.0, h.1.0), gs (h.0.1, h.1.1)),
    )

see_names-empty :
    (ns seen duplicates : List Text)
    → ((see_names ns (seen, duplicates)).1 ≡ [])
      ↔ ((duplicates ≡ []) × All (Unseen seen) ns × Distinct ns)
unfolding see_names
see_names-empty [] seen duplicates = ((λ e. (e, tt, tt)), λ h. h.0)
see_names-empty (n ∷ ns) seen duplicates = elim (Bool-cases (any (text_eq n) seen)) [
  | inl there ↦
      let (f, g) = see_names-empty ns seen (insert_name n duplicates) in
      rw (there, see_names)
        ((λ e. absurd (insert_name_not_empty n duplicates ((f e).0))), λ h. absurd (cc (h.1.0)))
  | inr new ↦
      let (f, g) = see_names-empty ns (seen ++ (n ∷ [])) duplicates in
      let (fs, gs) = All-Unseen-append seen n ns in
      rw (new, see_names)
        (
          (λ e. let (d, u, k) = f e in (d, (refl, (fs u).0), ((fs u).1, k))),
          λ h. g (h.0, gs (h.1.1, h.2.0), h.2.1),
        )
]

-- No duplicates are found exactly when no two of the names are the same.
pub find_duplicates-empty : (ns : List Text) → (find_duplicates ns ≡ []) ↔ Distinct ns
find_duplicates-empty ns =
    let (f, g) = see_names-empty ns [] [] in ((λ e. (f e).2), λ h. g (refl, nothing_seen ns, h))
  where
    nothing_seen : (ms : List Text) → All (Unseen []) ms
    nothing_seen [] = tt
    nothing_seen (m ∷ ms) = (refl, nothing_seen ms)
