-- ===== src/Examples/Queues.antt =====
-- Calls of `runExclusive` that queue on one node, and the workers of a `flushAll` of two documents.
use Prim.Native.Nat.{min}
use aideep_websocket.Common.{
  ℕ, zero, suc, ◌+◌, ◌*◌, ◌≤◌, ◌<◌, Text, codes, ◌≡◌, ◌≢◌, refl, true, some, List, [], ◌∷◌, arith,
}
use aideep_websocket.Common.Lists.{length, count}
use aideep_websocket.Yjs.Exclusive.{
  Calls, running, settled, left, is_done, none_yet, enqueue, set_phase, leave, calls, starts,
  settles, leaves, Reach, start, later,
}
use aideep_websocket.Yjs.Exclusive.Order.{Reach-exclusive, Reach-in_order}
use aideep_websocket.Yjs.Exclusive.Progress.{IsMoving, Reach-moves}
use aideep_websocket.Yjs.FlushAll
use aideep_websocket.Yjs.FlushAll.{Worker, returned, Round, Pool, flush_concurrency}
use aideep_websocket.Yjs.FlushAll.Complete.{at_work}
use aideep_websocket.Yjs.FlushAll.Ends.{IsOver, run-bounded, run_complete}
use aideep_websocket.Examples.World.{node}
use aideep_websocket.Examples.Opened.{documents}

-- A save is called, then an append on the same node; the save starts, settles, the append starts.
abbrev queued : Calls
queued = enqueue node (enqueue node none_yet)

abbrev saving : Calls
saving = set_phase 0 running queued

abbrev appending : Calls
appending = set_phase 1 running (set_phase 0 settled saving)

saving-Reach : Reach saving
unfolding documents
saving-Reach =
    later (later (later start (calls node)) (calls node)) (starts 0 (omega arith) refl refl)

appending-Reach : Reach appending
unfolding documents
appending-Reach =
    later (later saving-Reach (settles 0 (omega arith) refl)) (starts 1 (omega arith) refl refl)

Reach-exclusive_example : (saving.call 1).phase ≢ running
unfolding documents
Reach-exclusive_example =
    Reach-exclusive saving-Reach 0 1 (omega arith) (omega arith) (omega arith) refl refl

Reach-in_order_example : is_done (appending.call 0).phase ≡ true
unfolding documents
Reach-in_order_example =
    Reach-in_order appending-Reach 0 1 (omega arith) (omega arith) refl (λ e. cc)

Reach-moves_example : (i : ℕ) × (i < 2) × ((saving.call i).node_id ≡ node) × IsMoving saving i
unfolding documents
Reach-moves_example = Reach-moves saving-Reach 1 (omega arith) refl

-- One call from its start to its end.
abbrev alone : Calls
alone = leave 0 (set_phase 0 settled (set_phase 0 running (enqueue node none_yet)))

alone-Reach : Reach alone
unfolding documents
alone-Reach =
    later
      (later (later (later start (calls node)) (starts 0 (omega arith) refl refl))
        (settles 0 (omega arith) refl))
      (leaves 0 (omega arith) refl)

alone-left : (i : ℕ) → i < alone.next → (alone.call i).node_id ≡ node → (alone.call i).phase ≡ left
unfolding documents
alone-left zero made same = refl
alone-left (suc i) made same = absurd (omega arith)

-- Two documents: the workers draw "a" and "b", "b" comes back first, and both find nothing left.
abbrev two_ids : List Text
two_ids = codes "a" ∷ codes "b" ∷ []

abbrev schedule : List ℕ
schedule = 0 ∷ 1 ∷ 1 ∷ 0 ∷ 0 ∷ 1 ∷ []

abbrev over : Pool
over = record {
  workers = returned ∷ returned ∷ [];
  round = record { cursor = 2; started = two_ids; finished = codes "b" ∷ codes "a" ∷ [] };
}

over-run : FlushAll.run two_ids schedule (FlushAll.start two_ids) ≡ some over
unfolding documents
over-run = refl

all-IsOver : IsOver two_ids over.workers over.round
unfolding documents
all-IsOver zero = refl
all-IsOver (suc zero) = refl
all-IsOver (suc (suc i)) = refl

run-bounded_example :
    (length schedule ≤ 2 * length two_ids + min flush_concurrency (length two_ids))
    × (at_work over.workers ≤ flush_concurrency)
run-bounded_example = run-bounded two_ids schedule over over-run

run_complete_example :
    (over.round.started ≡ two_ids) × ((n : Text) → count n over.round.finished ≡ count n two_ids)
run_complete_example = run_complete two_ids schedule over over-run all-IsOver
