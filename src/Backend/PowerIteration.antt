-- ===== src/Backend/PowerIteration.antt =====
-- lib-lopez/src/page_rank.rs: the layout of the links before the ranks are iterated. Nodes are
-- numbered as they come, links are sorted by their source, and each node gets the first and the
-- last place of its links. `none` is a panic; the map of the numbers is an association list.
pub mod Numbering
pub mod Places
pub mod Rows
pub mod Graph
use lopez.Prelude.{
  ℕ, zero, suc, ◌+◌, ◌-◌, ◌%◌, ◌^◌, min, max, ltb, leb, ◌==◌, ◌&&◌, Bool, length, take, drop, List,
  [], ◌∷◌, ◌++◌, Option, none, some, if◌then◌else◌,
}
use lopez.Prelude.Panic.{◌>>=◌}

-- `std::usize::MAX`, where a node has no links.
abbrev pub no_offset : ℕ
no_offset = 2 ^ 64 - 1

module _ (T : Type 0) where
  -- What `id_for` changes: `index`, `states` and `n_states`.
  pub record Nodes : Type 0 where
    pub index : List (T × ℕ)
    pub states : List T
    pub n_states : ℕ

module _ {T : Type 0} (same : T → T → Bool) where
  abbrev pub find : T → List (T × ℕ) → Option ℕ
  find node [] = none
  find node ((known, id) ∷ index) =
      let rest = find node index in if same node known then some id else rest

  abbrev pub number : T → Nodes T → Option ℕ → ℕ × Nodes T
  number node s (some id) = (id % 2 ^ 32, s)
  number node s none = (
    s.n_states % 2 ^ 32,
    record {
      index = (node, s.n_states) ∷ s.index;
      states = s.states ++ (node ∷ []);
      n_states = s.n_states + 1;
    },
  )

  unfoldable pub id_for : T → Nodes T → ℕ × Nodes T
  id_for node s = number node s (find node s.index)

  -- The loop that fills `transition`.
  unfoldable pub fetch : Nodes T → List (ℕ × ℕ) → List (T × T) → Nodes T × List (ℕ × ℕ)
  unfolding id_for
  fetch s transition [] = (s, transition)
  fetch s transition ((from, to) ∷ edges) =
      let (from_id, s1) = id_for from s in
      let (to_id, s2) = id_for to s1 in fetch s2 (transition ++ ((from_id, to_id) ∷ [])) edges

-- `offset_length[k] = …`.
unfoldable pub set_at : {A : Type 0} → ℕ → (A → A) → List A → Option (List A)
set_at k f [] = none
set_at zero f (x ∷ xs) = some (f x ∷ xs)
set_at (suc k) f (x ∷ xs) = set_at k f xs >>= λ ys. some (x ∷ ys)

abbrev pub widen : ℕ → ℕ × ℕ → ℕ × ℕ
widen i (offset_min, offset_max) = (min offset_min i, max offset_max i)

-- The loop over `transition.iter().enumerate()`, from the place `i`.
unfoldable pub offsets_from : ℕ → List (ℕ × ℕ) → List (ℕ × ℕ) → Option (List (ℕ × ℕ))
unfolding set_at
offsets_from i offset_length [] = some offset_length
offsets_from i offset_length ((from_id, to_id) ∷ transition) =
    set_at from_id (widen i) offset_length >>= λ next. offsets_from (i + 1) next transition

abbrev pub repeat : {A : Type 0} → ℕ → A → List A
repeat zero a = []
repeat (suc n) a = a ∷ repeat n a

unfoldable pub offset_length : ℕ → List (ℕ × ℕ) → Option (List (ℕ × ℕ))
unfolding offsets_from
offset_length n_states transition = offsets_from 0 (repeat n_states (no_offset, 0)) transition

-- `&transition[offset_min..=offset_max]`.
abbrev pub slice : ℕ → ℕ → List (ℕ × ℕ) → Option (List (ℕ × ℕ))
slice offset_min offset_max transition =
    if leb offset_min (offset_max + 1) && ltb offset_max (length transition)
    then some (take (offset_max + 1 - offset_min) (drop offset_min transition))
    else none

-- The targets of a slice, with `assert_eq!(e_from, from_id as u32)`.
abbrev pub asserted : ℕ → List (ℕ × ℕ) → Option (List ℕ)
asserted from_id [] = some []
asserted from_id ((e_from, to_id) ∷ links) =
    let rest = asserted from_id links in
    if e_from == from_id then (rest >>= λ tos. some (to_id ∷ tos)) else none

-- The targets to which a node gives its share.
unfoldable pub links_of : List (ℕ × ℕ) → ℕ × ℕ → ℕ → Option (List ℕ)
links_of transition (offset_min, offset_max) from_id =
    if offset_min == no_offset
    then some []
    else (slice offset_min offset_max transition >>= λ links. asserted from_id links)
