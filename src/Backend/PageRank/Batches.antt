-- ===== src/Backend/PageRank/Batches.antt =====
-- Which ranks reach the backend.
use lopez.Prelude.{
  ℕ, zero, suc, ◌+◌, ltb, length, length-append, true, false, List, [], ◌∷◌, ◌++◌, append_assoc,
  append-nil, Result, ok, ◌≡◌, refl, sym, ap, ◌∙◌, arith,
}
use lopez.Backend.PageRank.{push_all, page_rank}

module _ {Ranked : Type 0} where
  abbrev pub concat : List (List Ranked) → List Ranked
  concat [] = []
  concat (b ∷ bs) = b ++ concat bs

  concat-append : (bs cs : List (List Ranked)) → concat (bs ++ cs) ≡ concat bs ++ concat cs
  concat-append [] cs = refl
  concat-append (b ∷ bs) cs =
      rw (concat-append bs cs) (sym (append_assoc b (concat bs) (concat cs)))

  concat_push :
      (ranked : List Ranked) (pushed : List (List Ranked))
      → concat (pushed ++ (ranked ∷ [])) ≡ concat pushed ++ ranked
  concat_push ranked pushed =
      concat-append pushed (ranked ∷ []) ∙ ap (λ b. concat pushed ++ b) (append-nil ranked)

  -- The elements that are left when `left` are kept, one is dropped, and then always `room` are kept
  -- and one is dropped.
  abbrev pub keep_then_drop : (room left : ℕ) → List Ranked → List Ranked
  keep_then_drop room left [] = []
  keep_then_drop room zero (r ∷ rs) = keep_then_drop room room rs
  keep_then_drop room (suc left) (r ∷ rs) = r ∷ keep_then_drop room left rs

module _ {Ranked Failure : Type 0}
    (respond : List (List Ranked) → List Ranked → Result Failure Unit) where
  -- The backend fails no push.
  abbrev pub Accepts : Type 0
  Accepts = (pushed : List (List Ranked)) (ranked : List Ranked) → respond pushed ranked ≡ ok tt

  push_all-pushes :
      (room left : ℕ) (rs ranked : List Ranked) (pushed : List (List Ranked))
      → Accepts
      → length ranked + left ≡ room
      → ((push_all respond room rs ranked pushed).0 ≡ ok tt)
        × (concat (push_all respond room rs ranked pushed).1
            ≡ concat pushed ++ (ranked ++ keep_then_drop room left rs))
  unfolding push_all
  push_all-pushes room left [] ranked pushed h e = (
    h pushed ranked,
    concat_push ranked pushed ∙ ap (λ b. concat pushed ++ b) (sym (append-nil ranked)),
  )
  push_all-pushes room zero (r ∷ rs) ranked pushed h e =
      let full : ltb (length ranked) room ≡ false = ground arith in
      let (done, ih) = push_all-pushes room room rs [] (pushed ++ (ranked ∷ [])) h (omega arith) in
      rw (full, h pushed ranked)
        (
          done,
          ih
              ∙ ap (λ b. b ++ keep_then_drop room room rs) (concat_push ranked pushed)
              ∙ append_assoc (concat pushed) ranked (keep_then_drop room room rs),
        )
  push_all-pushes room (suc left) (r ∷ rs) ranked pushed h e =
      let free : ltb (length ranked) room ≡ true = ground arith in
      let (done, ih) =
        push_all-pushes room left rs (ranked ++ (r ∷ [])) pushed h
          (omega (arith, e, length-append ranked (r ∷ []))) in
      rw free (
        done,
        ih
            ∙ ap (λ b. concat pushed ++ b)
                (append_assoc ranked (r ∷ []) (keep_then_drop room left rs)),
      )

  -- With a backend that fails no push, `page_rank` succeeds, and the ranks that reach the backend are
  -- all but one after every 1024, in their order.
  pub page_rank-pushes :
      (ranks : List Ranked)
      → Accepts
      → ((page_rank respond ranks).0 ≡ ok tt)
        × (concat (page_rank respond ranks).1 ≡ keep_then_drop 1024 1024 ranks)
  unfolding page_rank
  page_rank-pushes ranks h = push_all-pushes 1024 1024 ranks [] [] h refl
