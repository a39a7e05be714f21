-- ===== src/Yjs/Exclusive/Order.antt =====
-- src/global/yjs/yjs-doc-manager.ts: the tasks of one node run one at a time, in the order of the
-- calls of `runExclusive`.
use aideep_websocket.Common.{
  ℕ, ◌≤◌, ◌<◌, Text, ◌≡◌, ◌≢◌, true, none, some, Option-cases, inl, inr, arith, text_eq_iff,
}
use aideep_websocket.Common.Dict
use aideep_websocket.Common.Dict.{get-insert, get-remove}
use aideep_websocket.Yjs.Exclusive.{
  waiting, running, settled, left, Calls, is_done, none_yet, enqueue, set_phase, is_free, leave,
  Step, calls, starts, settles, leaves, Reach, start, later,
}

pub record Inv (s : Calls) : Type 0 where
  pub linked :
      (j p : ℕ)
      → j < s.next
      → (s.call j).previous ≡ some p
      → (p < j) × ((s.call p).node_id ≡ (s.call j).node_id)
  pub chained :
      (i j p : ℕ)
      → i < j
      → j < s.next
      → (s.call i).node_id ≡ (s.call j).node_id
      → (s.call j).previous ≡ some p
      → i ≤ p
  pub unchained :
      (i j : ℕ)
      → i < j
      → j < s.next
      → (s.call i).node_id ≡ (s.call j).node_id
      → (s.call j).previous ≡ none
      → is_done (s.call i).phase ≡ true
  pub ordered :
      (i j : ℕ)
      → i < j
      → j < s.next
      → (s.call i).node_id ≡ (s.call j).node_id
      → (s.call j).phase ≢ waiting
      → is_done (s.call i).phase ≡ true
  pub tail :
      (n : Text) (t : ℕ)
      → Dict.get n s.operations ≡ some t
      → (t < s.next) × ((s.call t).node_id ≡ n) × ((s.call t).phase ≢ left)
  pub latest :
      (n : Text) (t i : ℕ)
      → Dict.get n s.operations ≡ some t
      → i < s.next
      → (s.call i).node_id ≡ n
      → i ≤ t
  pub untailed :
      (n : Text) (i : ℕ)
      → Dict.get n s.operations ≡ none
      → i < s.next
      → (s.call i).node_id ≡ n
      → is_done (s.call i).phase ≡ true

none_yet-Inv : Inv none_yet
unfolding Dict.get
none_yet-Inv = record {
  linked = λ j p lt e. absurd (omega arith);
  chained = λ i j p lt lt' same e. absurd (omega arith);
  unchained = λ i j lt lt' same e. absurd (omega arith);
  ordered = λ i j lt lt' same e. absurd (omega arith);
  tail = λ n t e. cc;
  latest = λ n t i e lt same. absurd (omega arith);
  untailed = λ n i e lt same. absurd (omega arith);
}

enqueue-Inv : (n : Text) (s : Calls) → Inv s → Inv (enqueue n s)
unfolding enqueue
enqueue-Inv n s v = record {
  linked = λ j p lt e. ground (arith, v.linked j p, v.tail n p);
  chained = λ i j p lt lt' same e. ground (arith, v.chained i j p, v.latest n p i);
  unchained = λ i j lt lt' same e. ground (arith, v.unchained i j, v.untailed n i);
  ordered = λ i j lt lt' same e. ground (arith, v.ordered i j);
  tail = λ m t e. ground (arith, v.tail m t, get-insert n m s.next s.operations, text_eq_iff n m);
  latest = λ m t i e lt same.
      ground (arith, v.latest m t i, get-insert n m s.next s.operations, text_eq_iff n m);
  untailed = λ m i e lt same.
      ground (arith, v.untailed m i, get-insert n m s.next s.operations, text_eq_iff n m);
}

starts-Inv :
    (i : ℕ) (s : Calls)
    → (s.call i).phase ≡ waiting
    → is_free (s.call i).previous s ≡ true
    → Inv s
    → Inv (set_phase i running s)
unfolding set_phase is_free
starts-Inv k s at_start free v = record {
  linked = λ j p lt e. ground (arith, v.linked j p);
  chained = λ i j p lt lt' same e. ground (arith, v.chained i j p);
  unchained = λ i j lt lt' same e. ground (arith, v.unchained i j);
  ordered = λ i j lt lt' same e. elim (Option-cases (s.call k).previous) [
    | inl first ↦ ground (arith, v.ordered i j, v.unchained i k)
    | inr (p, behind) ↦ ground (arith, v.ordered i j, v.ordered i p, v.chained i k p, v.linked k p)
  ];
  tail = λ m t e. ground (arith, v.tail m t);
  latest = λ m t i e lt same. ground (arith, v.latest m t i);
  untailed = λ m i e lt same. ground (arith, v.untailed m i);
}

settles-Inv : (i : ℕ) (s : Calls) → (s.call i).phase ≡ running → Inv s → Inv (set_phase i settled s)
unfolding set_phase
settles-Inv k s at_end v = record {
  linked = λ j p lt e. ground (arith, v.linked j p);
  chained = λ i j p lt lt' same e. ground (arith, v.chained i j p);
  unchained = λ i j lt lt' same e. ground (arith, v.unchained i j);
  ordered = λ i j lt lt' same e. ground (arith, v.ordered i j);
  tail = λ m t e. ground (arith, v.tail m t);
  latest = λ m t i e lt same. ground (arith, v.latest m t i);
  untailed = λ m i e lt same. ground (arith, v.untailed m i);
}

leaves-Inv : (i : ℕ) (s : Calls) → (s.call i).phase ≡ settled → Inv s → Inv (leave i s)
unfolding leave
leaves-Inv k s at_end v =
    let removed = λ (m : Text). get-remove (s.call k).node_id m s.operations in
    record {
      linked = λ j p lt e. ground (arith, v.linked j p);
      chained = λ i j p lt lt' same e. ground (arith, v.chained i j p);
      unchained = λ i j lt lt' same e. ground (arith, v.unchained i j);
      ordered = λ i j lt lt' same e. ground (arith, v.ordered i j);
      tail = λ m t e. ground (arith, v.tail m t, removed m, text_eq_iff (s.call k).node_id m);
      latest = λ m t i e lt same. ground (arith, v.latest m t i, removed m);
      untailed = λ m i e lt same. ground (
        arith,
        v.untailed m i,
        v.latest m k i,
        v.ordered i k,
        v.tail m k,
        removed m,
        text_eq_iff (s.call k).node_id m,
      );
    }

pub Step-Inv : {s t : Calls} → Step s t → Inv s → Inv t
Step-Inv {s} (calls n) v = enqueue-Inv n s v
Step-Inv {s} (starts i made at_start free) v = starts-Inv i s at_start free v
Step-Inv {s} (settles i made at_end) v = settles-Inv i s at_end v
Step-Inv {s} (leaves i made at_end) v = leaves-Inv i s at_end v

pub Reach-Inv : {s : Calls} → Reach s → Inv s
Reach-Inv start = none_yet-Inv
Reach-Inv (later r st) = Step-Inv st (Reach-Inv r)

-- In every state that calls of runExclusive can reach, however they interleave, of two different
-- calls on one node at most one runs its task.
pub Reach-exclusive :
    {s : Calls}
    → Reach s
    → (i j : ℕ) → i ≢ j
    → i < s.next
    → j < s.next
    → (s.call i).node_id ≡ (s.call j).node_id
    → (s.call i).phase ≡ running
    → (s.call j).phase ≢ running
Reach-exclusive r i j differ made made' same runs runs' =
    let v = Reach-Inv r in ground (arith, v.ordered i j, v.ordered j i)

-- In every state that calls of runExclusive can reach, a call whose task has started has the
-- promise of every earlier call on its node settled: the tasks of a node run in the order of the
-- calls.
pub Reach-in_order :
    {s : Calls}
    → Reach s
    → (i j : ℕ) → i < j
    → j < s.next
    → (s.call i).node_id ≡ (s.call j).node_id
    → (s.call j).phase ≢ waiting
    → is_done (s.call i).phase ≡ true
Reach-in_order r i j before made same begun = (Reach-Inv r).ordered i j before made same begun

-- In every state that calls of runExclusive can reach, the map of operations has no entry for a
-- node whose calls have all left.
pub Reach-operations :
    {s : Calls}
    → Reach s
    → (n : Text) → ((i : ℕ) → i < s.next → (s.call i).node_id ≡ n → (s.call i).phase ≡ left)
    → Dict.get n s.operations ≡ none
Reach-operations {s} r n over = elim (Option-cases (Dict.get n s.operations)) [
  | inl absent ↦ absent
  | inr (t, there) ↦ let v = Reach-Inv r in ground (arith, v.tail n t there, over t)
]
