-- ===== src/Crawler/Origins.antt =====
-- lib-lopez/src/crawler/worker/origins.rs: the throttle of an origin, and how the tasks of a worker
-- share origins. Instants and durations are numbers of one unit. An `Rc<Origin>` is its place in a
-- store, so that two tasks share a throttle when they hold the same place. A task that asks for an
-- origin takes two steps, for it waits between them: `check_origin` before the download, and
-- `finish_origin` with what was loaded.
pub mod Spaced
pub mod Shared
pub mod Load
use lopez.Prelude.{
  ℕ, zero, suc, ◌+◌, ltb, length, get_elem?, Text, text_eq, Bool, true, false, not, Option, none,
  some, List, [], ◌∷◌, ◌++◌, any, if◌then◌else◌,
}

-- The fields of `Origin` that `block` uses.
pub record Origin : Type 0 where
  pub crawl_delay : ℕ
  pub last_instant : ℕ

-- When the task may go on, for a call at `this_instant`, and the origin behind it.
unfoldable pub block : ℕ → Origin → ℕ × Origin
block this_instant self =
    if ltb this_instant self.last_instant
    then (
      self.last_instant,
      record {
        crawl_delay = self.crawl_delay;
        last_instant = self.last_instant + self.crawl_delay;
      },
    )
    else (
      this_instant,
      record { crawl_delay = self.crawl_delay; last_instant = this_instant + self.crawl_delay },
    )

-- When the tasks go on that call `block` at these instants, one behind the other.
unfoldable pub block_all : List ℕ → Origin → List ℕ
unfolding block
block_all [] self = []
block_all (now ∷ instants) self = let next = block now self in next.0 ∷ block_all instants next.1

-- The store of origins, and the map from keys of origins to places in it.
pub record Origins : Type 0 where
  pub store : List Origin
  pub origins : List (Text × ℕ)

abbrev pub contains_origin : Text → List (Text × ℕ) → Bool
contains_origin key entries = any (λ (e : Text × ℕ). text_eq key e.0) entries

-- `HashMap::insert` and indexing, which panics on a missing key.
abbrev pub insert_origin : Text → ℕ → List (Text × ℕ) → List (Text × ℕ)
insert_origin key id [] = (key, id) ∷ []
insert_origin key id (e ∷ entries) =
    let rest = insert_origin key id entries in
    if text_eq key e.0 then (key, id) ∷ entries else e ∷ rest

abbrev pub index_origin : Text → List (Text × ℕ) → Option ℕ
index_origin key [] = none
index_origin key (e ∷ entries) =
    let rest = index_origin key entries in if text_eq key e.0 then some e.1 else rest

-- `should_dowload`.
unfoldable pub check_origin : Text → Origins → Bool
check_origin key self = not (contains_origin key self.origins)

abbrev pub add_origin : Text → Origin → Origins → Origins
add_origin key loaded self = record {
  store = self.store ++ (loaded ∷ []);
  origins = insert_origin key (length self.store) self.origins;
}

-- The place of the origin that the task gets, and the origins behind it.
unfoldable pub finish_origin : Text → Bool → Origin → Origins → Option ℕ × Origins
finish_origin key should_download loaded self =
    let next = if should_download then add_origin key loaded self else self in
    (index_origin key next.origins, next)
