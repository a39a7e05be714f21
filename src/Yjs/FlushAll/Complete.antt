-- ===== src/Yjs/FlushAll/Complete.antt =====
-- src/global/yjs/yjs-doc-manager.ts: `flushAll` flushes every document once, a few at a time, and
-- comes to an end.
use Prim.Native.Nat.{min}
use aideep_websocket.Common.{
  ℕ, zero, suc, Bool, true, false, ◌⊎◌, ◌+◌, ◌-◌, ◌*◌, ◌≤◌, Text, ◌≡◌, refl, some, Option-cases,
  inl, inr, List, [], ◌∷◌, arith, text_eq, if◌then◌else◌,
}
use aideep_websocket.Common.Lists.{
  length, get_elem?, take, take-suc, get_elem?-some, get_elem?-none, count, count-append,
}
use aideep_websocket.Yjs.FlushAll.{
  Worker, ready, flushing, returned, Round, Pool, advance, turn, run,
}

abbrev pub weight : Worker → ℕ
weight ready = 1
weight (flushing node_id) = 2
weight returned = 0

abbrev pub weights : List Worker → ℕ
weights [] = 0
weights (w ∷ ws) = weight w + weights ws

-- Whether a worker is flushing a node, and how many workers are.
abbrev at_work_on : Text → Worker → ℕ
at_work_on n (flushing m) = if text_eq m n then 1 else 0
at_work_on n _ = 0

abbrev pub all_at_work_on : Text → List Worker → ℕ
all_at_work_on n [] = 0
all_at_work_on n (w ∷ ws) = at_work_on n w + all_at_work_on n ws

abbrev is_returned : Worker → Bool
is_returned returned = true
is_returned _ = false

abbrev pub any_returned : List Worker → Bool
any_returned [] = false
any_returned (w ∷ ws) = if is_returned w then true else any_returned ws

abbrev pub at_work : List Worker → ℕ
at_work [] = 0
at_work (flushing m ∷ ws) = suc (at_work ws)
at_work (_ ∷ ws) = at_work ws

pub at_work-le-length : (ws : List Worker) → at_work ws ≤ length ws
at_work-le-length [] = omega arith
at_work-le-length (ready ∷ ws) = omega (arith, at_work-le-length ws)
at_work-le-length (flushing m ∷ ws) = omega (arith, at_work-le-length ws)
at_work-le-length (returned ∷ ws) = omega (arith, at_work-le-length ws)

module _ (node_ids : List Text) where
  -- The turns that are left.
  abbrev pub left : List Worker → Round → ℕ
  left ws r = weights ws + 2 * (length node_ids - r.cursor)

  -- What a turn makes of the workers and of what they share.
  record Turned (ws : List Worker) (r : Round) (p : Pool) : Type 0 where
    one_less : left ws r ≡ suc (left p.workers p.round)
    same_number : length p.workers ≡ length ws
    drawn : r.started ≡ take r.cursor node_ids → p.round.started ≡ take p.round.cursor node_ids
    onward : r.cursor ≤ p.round.cursor
    late :
        any_returned p.workers ≡ true
        → (any_returned ws ≡ true) ⊎ (length node_ids ≤ p.round.cursor)
    accounted :
        (n : Text)
        → count n p.round.started + (count n r.finished + all_at_work_on n ws)
          ≡ count n r.started + (count n p.round.finished + all_at_work_on n p.workers)

  advance-Turned :
      (w w' : Worker) (ws : List Worker) (r r' : Round)
      → advance node_ids w r ≡ some (w', r')
      → Turned (w ∷ ws) r (record { workers = w' ∷ ws; round = r' })
  unfolding advance
  advance-Turned ready w' ws r r' e = elim (Option-cases (get_elem? node_ids r.cursor)) [
    | inl over ↦ record {
      one_less = ground (arith, get_elem?-none node_ids r.cursor);
      same_number = refl;
      drawn = λ h. ground arith;
      onward = ground arith;
      late = λ gone. inr (ground (arith, get_elem?-none node_ids r.cursor));
      accounted = λ n. ground arith;
    }
    | inr (m, there) ↦ record {
      one_less = ground (arith, get_elem?-some node_ids r.cursor m);
      same_number = refl;
      drawn = λ h. ground (arith, take-suc r.cursor node_ids m);
      onward = ground arith;
      late = λ gone. ground arith;
      accounted = λ n. ground (arith, count-append n r.started (m ∷ []));
    }
  ]
  advance-Turned (flushing m) w' ws r r' e = record {
    one_less = ground arith;
    same_number = refl;
    drawn = λ h. ground arith;
    onward = ground arith;
    late = λ gone. ground arith;
    accounted = λ n. ground (arith, count-append n r.finished (m ∷ []));
  }
  advance-Turned returned w' ws r r' e = ground arith

  turn-Turned :
      (i : ℕ) (ws : List Worker) (r : Round) (p : Pool)
      → turn node_ids i ws r ≡ some p
      → Turned ws r p
  unfolding turn
  turn-Turned i [] r p e = ground arith
  turn-Turned zero (w ∷ ws) r p e = elim (Option-cases (advance node_ids w r)) [
    | inl over ↦ ground arith
    | inr ((w', r'), moved) ↦
        let t = advance-Turned w w' ws r r' moved in
        record {
          one_less = ground (arith, t.one_less);
          same_number = ground (arith, t.same_number);
          drawn = λ h. ground (arith, t.drawn h);
          onward = ground (arith, t.onward);
          late = λ gone. ground (arith, t.late, t.onward);
          accounted = λ n. ground (arith, t.accounted n);
        }
  ]
  turn-Turned (suc i) (w ∷ ws) r p e = elim (Option-cases (turn node_ids i ws r)) [
    | inl over ↦ ground arith
    | inr (q, moved) ↦
        let t = turn-Turned i ws r q moved in
        record {
          one_less = ground (arith, t.one_less);
          same_number = ground (arith, t.same_number);
          drawn = λ h. ground (arith, t.drawn h);
          onward = ground (arith, t.onward);
          late = λ gone. ground (arith, t.late, t.onward);
          accounted = λ n. ground (arith, t.accounted n);
        }
  ]

  -- What holds after `k` turns.
  pub record Inv (k : ℕ) (p : Pool) : Type 0 where
    pub budget : left p.workers p.round + k ≡ 2 * length node_ids + min 4 (length node_ids)
    pub number : length p.workers ≡ min 4 (length node_ids)
    pub in_order : p.round.started ≡ take p.round.cursor node_ids
    pub late_return : any_returned p.workers ≡ true → length node_ids ≤ p.round.cursor
    pub balance :
        (n : Text) → count n p.round.started ≡ count n p.round.finished + all_at_work_on n p.workers

  turn-Inv :
      (i k : ℕ) (p q : Pool) → turn node_ids i p.workers p.round ≡ some q → Inv k p → Inv (suc k) q
  turn-Inv i k p q e v =
      let t = turn-Turned i p.workers p.round q e in
      record {
        budget = ground (arith, t.one_less, v.budget);
        number = ground (arith, t.same_number, v.number);
        in_order = t.drawn v.in_order;
        late_return = λ gone. ground (arith, t.late gone, v.late_return, t.onward);
        balance = λ n. ground (arith, t.accounted n, v.balance n);
      }

  pub run-Inv :
      (schedule : List ℕ) (k : ℕ) (p q : Pool)
      → run node_ids schedule p ≡ some q
      → Inv k p
      → Inv (length schedule + k) q
  unfolding run
  run-Inv [] k p q e v = ground (arith, v)
  run-Inv (i ∷ rest) k p q e v = elim (Option-cases (turn node_ids i p.workers p.round)) [
    | inl over ↦ ground arith
    | inr (u, moved) ↦
        let w = run-Inv rest (suc k) u q (ground arith) (turn-Inv i k p u moved v) in
        ground (arith, w)
  ]
