-- ===== src/Yjs/FlushAll/Ends.antt =====
-- src/global/yjs/yjs-doc-manager.ts: the workers of `flushAll` come to an end, however their turns
-- fall, and every document has been flushed by then.
use Prim.Native.Nat.{min}
use aideep_websocket.Common.{
  ℕ, zero, suc, ◌+◌, ◌*◌, ◌≤◌, Text, true, ◌≡◌, refl, ◌⊎◌, some, none, Option-cases, inl, inr, List,
  [], ◌∷◌, arith,
}
use aideep_websocket.Common.Lists.{length, replicate, take-length-le, get_elem?, count}
use aideep_websocket.Yjs.FlushAll.{
  Worker, ready, flushing, returned, Round, Pool, advance, turn, start, run, flush_concurrency,
}
use aideep_websocket.Yjs.FlushAll.Complete.{
  weights, any_returned, all_at_work_on, at_work, at_work-le-length, Inv, run-Inv,
}

weights-replicate : (k : ℕ) → weights (replicate k ready) ≡ k
weights-replicate zero = refl
weights-replicate (suc k) = omega (arith, weights-replicate k)

length-replicate : (k : ℕ) → length (replicate k ready) ≡ k
length-replicate zero = refl
length-replicate (suc k) = omega (arith, length-replicate k)

any_returned-replicate : (k : ℕ) → any_returned (replicate k ready) ≡ true → ⊥
any_returned-replicate zero e = ground arith
any_returned-replicate (suc k) e = ground (arith, any_returned-replicate k)

all_at_work_on-replicate : (n : Text) (k : ℕ) → all_at_work_on n (replicate k ready) ≡ 0
all_at_work_on-replicate n zero = refl
all_at_work_on-replicate n (suc k) = omega (arith, all_at_work_on-replicate n k)

start-Inv : (node_ids : List Text) → Inv node_ids 0 (start node_ids)
unfolding start
start-Inv node_ids =
    let k = min flush_concurrency (length node_ids) in
    record {
      budget = ground (arith, weights-replicate k);
      number = length-replicate k;
      in_order = refl;
      late_return = λ gone. absurd (any_returned-replicate k gone);
      balance = λ n. ground (arith, all_at_work_on-replicate n k);
    }

-- No worker can take a turn.
abbrev pub IsOver : List Text → List Worker → Round → Type 0
IsOver node_ids ws r = (i : ℕ) → turn node_ids i ws r ≡ none

IsOver-tail :
    (node_ids : List Text) (w : Worker) (ws : List Worker) (r : Round)
    → IsOver node_ids (w ∷ ws) r
    → IsOver node_ids ws r
unfolding turn
IsOver-tail node_ids w ws r over i = elim (Option-cases (turn node_ids i ws r)) [
  | inl stuck ↦ stuck
  | inr (p, moved) ↦ ground (arith, over (suc i))
]

IsOver-head :
    (node_ids : List Text) (w : Worker) (ws : List Worker) (r : Round)
    → IsOver node_ids (w ∷ ws) r
    → w ≡ returned
unfolding turn advance
IsOver-head node_ids ready ws r over = elim (Option-cases (get_elem? node_ids r.cursor)) [
  | inl stuck ↦ ground (arith, over 0)
  | inr (m, there) ↦ ground (arith, over 0)
]
IsOver-head node_ids (flushing m) ws r over = ground (arith, over 0)
IsOver-head node_ids returned ws r over = refl

IsOver-all_at_work_on :
    (node_ids : List Text) (ws : List Worker) (r : Round) (n : Text)
    → IsOver node_ids ws r
    → all_at_work_on n ws ≡ 0
IsOver-all_at_work_on node_ids [] r n over = refl
IsOver-all_at_work_on node_ids (w ∷ ws) r n over = ground (
  arith,
  IsOver-head node_ids w ws r over,
  IsOver-all_at_work_on node_ids ws r n (IsOver-tail node_ids w ws r over),
)

IsOver-any_returned :
    (node_ids : List Text) (ws : List Worker) (r : Round)
    → IsOver node_ids ws r
    → (length ws ≡ 0) ⊎ (any_returned ws ≡ true)
IsOver-any_returned node_ids [] r over = inl refl
IsOver-any_returned node_ids (w ∷ ws) r over =
    inr (ground (arith, IsOver-head node_ids w ws r over))

module _ (node_ids : List Text) (schedule : List ℕ) (p : Pool) where
  reached : run node_ids schedule (start node_ids) ≡ some p → Inv node_ids (length schedule + 0) p
  reached ran = run-Inv node_ids schedule 0 (start node_ids) p ran (start-Inv node_ids)

  -- However the workers of flushAll take turns, from the start they take no more than two turns for
  -- each document and one for each worker, and no more than four flushes are under way.
  pub run-bounded :
      run node_ids schedule (start node_ids) ≡ some p
      → (length schedule ≤ 2 * length node_ids + min flush_concurrency (length node_ids))
        × (at_work p.workers ≤ flush_concurrency)
  run-bounded ran =
      let v = reached ran in
      (ground (arith, v.budget), ground (arith, v.number, at_work-le-length p.workers))

  exhausted :
      run node_ids schedule (start node_ids) ≡ some p
      → IsOver node_ids p.workers p.round
      → length node_ids ≤ p.round.cursor
  exhausted ran over =
      let v = reached ran in
      ground (arith, v.number, v.late_return, IsOver-any_returned node_ids p.workers p.round over)

  -- However the workers of flushAll have taken turns from the start, where no worker can take
  -- another one the flushes were started in the order of the documents, one for each, and each
  -- document was flushed to the end as often as it is listed.
  pub run_complete :
      run node_ids schedule (start node_ids) ≡ some p
      → IsOver node_ids p.workers p.round
      → (p.round.started ≡ node_ids) × ((n : Text) → count n p.round.finished ≡ count n node_ids)
  run_complete ran over =
      let v = reached ran in
      let drawn : p.round.started ≡ node_ids =
        ground (arith, v.in_order, take-length-le p.round.cursor node_ids (exhausted ran over)) in
      (
        drawn,
        λ n.
            ground
              (arith, drawn, v.balance n, IsOver-all_at_work_on node_ids p.workers p.round n over),
      )
