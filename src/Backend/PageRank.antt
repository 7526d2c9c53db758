-- ===== src/Backend/PageRank.antt =====
-- `PageRanker::page_rank`: the ranks are pushed to the backend in batches. The ranked pages are the
-- results of `power_iteration`; the backend answers a push by the batches that it was given before.
pub mod Batches
use lopez.Prelude.{
  ℕ, ltb, length, Bool, true, false, List, [], ◌∷◌, ◌++◌, Result, ok, err, if◌then◌else◌,
}

module _ {Ranked Failure : Type 0}
    (respond : List (List Ranked) → List Ranked → Result Failure Unit) where
  -- The outcome, and the batches that were pushed.
  abbrev pub Pushed : Type 0
  Pushed = Result Failure Unit × List (List Ranked)

  abbrev pub push_page_ranks : List Ranked → List (List Ranked) → Pushed
  push_page_ranks ranked pushed = (respond pushed ranked, pushed ++ (ranked ∷ []))

  -- `.await?` before the rest of the loop.
  abbrev pub after : Pushed → (List (List Ranked) → Pushed) → Pushed
  after (ok u, pushed) next = next pushed
  after (err e, pushed) next = (err e, pushed)

  -- The state of the loop is the batch `ranked`. Where it has room, the next page is put in; where it
  -- is full, the batch is pushed and cleared.
  unfoldable pub push_all : ℕ → List Ranked → List Ranked → List (List Ranked) → Pushed
  push_all room [] ranked pushed = push_page_ranks ranked pushed
  push_all room (r ∷ rs) ranked pushed =
      let more = push_all room rs in
      if ltb (length ranked) room
      then more (ranked ++ (r ∷ [])) pushed
      else after (push_page_ranks ranked pushed) (more [])

  unfoldable pub page_rank : List Ranked → Pushed
  unfolding push_all
  page_rank ranks = push_all 1024 ranks [] []
