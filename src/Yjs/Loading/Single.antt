-- ===== src/Yjs/Loading/Single.antt =====
-- src/global/yjs/yjs-doc-manager.ts: a node is loaded once at a time, and a load that ends replaces no
-- document.
use aideep_websocket.Common.{
  ℕ, ◌<◌, Text, ◌≡◌, ◌≢◌, ◌⊎◌, none, some, Option-cases, inl, inr, arith, text_eq_iff,
}
use aideep_websocket.Common.Dict
use aideep_websocket.Common.Dict.{get-insert, get-remove}
use aideep_websocket.Yjs.Loading.{
  reading, settled, left, Loads, in_memory, promise_of, nothing_loaded, begin_load, call, set_phase,
  register, leave, drop, Step, calls, loads, fails, leaves, drops, Reach, start, later,
}

pub record Inv (s : Loads) : Type 0 where
  pub listed :
      (i : ℕ)
      → i < s.next
      → (s.load i).phase ≢ left
      → Dict.get (s.load i).node_id s.loading ≡ some i
  pub entry :
      (n : Text) (i : ℕ)
      → Dict.get n s.loading ≡ some i
      → (i < s.next) × ((s.load i).node_id ≡ n) × ((s.load i).phase ≢ left)
  pub fresh :
      (i : ℕ) → i < s.next → (s.load i).phase ≡ reading → Dict.get (s.load i).node_id s.docs ≡ none
  pub made :
      (n : Text) (d : ℕ)
      → Dict.get n s.docs ≡ some d
      → (d < s.next) × ((s.load d).node_id ≡ n) × ((s.load d).phase ≢ reading)

nothing_loaded-Inv : Inv nothing_loaded
unfolding Dict.get
nothing_loaded-Inv = record {
  listed = λ i lt there. absurd (omega arith);
  entry = λ n i e. cc;
  fresh = λ i lt reads. absurd (omega arith);
  made = λ n d e. cc;
}

begin_load-Inv :
    (n : Text) (s : Loads)
    → Dict.get n s.docs ≡ none
    → Dict.get n s.loading ≡ none
    → Inv s
    → Inv (begin_load n s)
unfolding begin_load
begin_load-Inv n s absent idle v = record {
  listed = λ i lt there. ground (
    arith,
    v.listed i,
    get-insert n (s.load i).node_id s.next s.loading,
    get-insert n n s.next s.loading,
    text_eq_iff n (s.load i).node_id,
    text_eq_iff n n,
  );
  entry = λ m i e. ground (arith, v.entry m i, get-insert n m s.next s.loading, text_eq_iff n m);
  fresh = λ i lt reads. ground (arith, v.fresh i);
  made = λ m d e. ground (arith, v.made m d);
}

call-Inv : (n : Text) (s : Loads) → Inv s → Inv (call n s).1
unfolding call
call-Inv n s v = elim (Option-cases (Dict.get n s.docs)) [
  | inr (doc, there) ↦ rw (there, call) v
  | inl absent ↦ elim (Option-cases (Dict.get n s.loading)) [
    | inr (pending, busy) ↦ rw (absent, call, busy) v
    | inl idle ↦ rw (absent, call, idle) (begin_load-Inv n s absent idle v)
  ]
]

settle-Inv : (i : ℕ) (s : Loads) → (s.load i).phase ≡ reading → Inv s → Inv (set_phase i settled s)
unfolding set_phase
settle-Inv k s reads v = record {
  listed = λ i lt there. ground (arith, v.listed i);
  entry = λ m i e. ground (arith, v.entry m i);
  fresh = λ i lt still. ground (arith, v.fresh i);
  made = λ m d e. ground (arith, v.made m d);
}

register-Inv :
    (i : ℕ) (s : Loads) → i < s.next → (s.load i).phase ≡ reading → Inv s → Inv (register i s)
unfolding register
register-Inv k s lt' reads v = record {
  listed = λ i lt there. ground (arith, v.listed i);
  entry = λ m i e. ground (arith, v.entry m i);
  fresh = λ i lt still. ground (
    arith,
    v.fresh i,
    v.listed i,
    v.listed k,
    get-insert (s.load k).node_id (s.load i).node_id k s.docs,
    text_eq_iff (s.load k).node_id (s.load i).node_id,
  );
  made = λ m d e. ground (
    arith,
    v.made m d,
    get-insert (s.load k).node_id m k s.docs,
    text_eq_iff (s.load k).node_id m,
  );
}

leave-Inv : (i : ℕ) (s : Loads) → i < s.next → (s.load i).phase ≡ settled → Inv s → Inv (leave i s)
unfolding leave
leave-Inv k s lt' done v = record {
  listed = λ i lt there. ground (
    arith,
    v.listed i,
    v.listed k,
    get-remove (s.load k).node_id (s.load i).node_id s.loading,
    text_eq_iff (s.load k).node_id (s.load i).node_id,
  );
  entry = λ m i e. ground (
    arith,
    v.entry m i,
    v.listed k,
    get-remove (s.load k).node_id m s.loading,
    text_eq_iff (s.load k).node_id m,
  );
  fresh = λ i lt still. ground (arith, v.fresh i);
  made = λ m d e. ground (arith, v.made m d);
}

drop-Inv : (n : Text) (s : Loads) → Inv s → Inv (drop n s)
unfolding drop
drop-Inv n s v = record {
  listed = λ i lt there. ground (arith, v.listed i);
  entry = λ m i e. ground (arith, v.entry m i);
  fresh = λ i lt still. ground (arith, v.fresh i, get-remove n (s.load i).node_id s.docs);
  made = λ m d e. ground (arith, v.made m d, get-remove n m s.docs);
}

Step-Inv : {s t : Loads} → Step s t → Inv s → Inv t
Step-Inv {s} (calls n) v = call-Inv n s v
Step-Inv {s} (loads i lt reads) v = register-Inv i s lt reads v
Step-Inv {s} (fails i lt reads) v = settle-Inv i s reads v
Step-Inv {s} (leaves i lt done) v = leave-Inv i s lt done v
Step-Inv {s} (drops n) v = drop-Inv n s v

Reach-Inv : {s : Loads} → Reach s → Inv s
Reach-Inv start = nothing_loaded-Inv
Reach-Inv (later r st) = Step-Inv st (Reach-Inv r)

-- In every state that calls of getOrCreateDoc, the loads that they start and removals of documents
-- can reach, however they interleave: of two different loads of one node, where one still reads,
-- the other does not, and there is no document in memory for the node, so that the end of the load
-- replaces none.
pub Reach-single :
    {s : Loads}
    → Reach s
    → (i j : ℕ) → i ≢ j
    → i < s.next
    → j < s.next
    → (s.load i).node_id ≡ (s.load j).node_id
    → (s.load i).phase ≡ reading
    → (s.load j).phase ≢ reading × (Dict.get (s.load j).node_id s.docs ≡ none)
Reach-single r i j differ lt lt' same reads =
    let v = Reach-Inv r in
    (λ reads'. ground (arith, v.listed i, v.listed j), ground (arith, v.fresh i))

-- In every state that calls of getOrCreateDoc can reach, a call for a node goes on with a document
-- that a load of this very node has made, or with the promise of a load of this very node whose
-- first caller has not left yet.
pub Reach-call :
    {s : Loads}
    → Reach s
    → (n : Text)
    → ((d : ℕ) × ((call n s).0 ≡ in_memory d)
        × (d < s.next)
        × ((s.load d).node_id ≡ n)
        × ((s.load d).phase ≢ reading))
      ⊎ ((i : ℕ) × ((call n s).0 ≡ promise_of i)
          × (i < (call n s).1.next)
          × (((call n s).1.load i).node_id ≡ n)
          × (((call n s).1.load i).phase ≢ left))
unfolding call begin_load
Reach-call {s} r n =
    let v = Reach-Inv r in
    elim (Option-cases (Dict.get n s.docs)) [
      | inr (doc, there) ↦
          let (below, same, read) = v.made n doc there in inl (doc, ground arith, below, same, read)
      | inl absent ↦ elim (Option-cases (Dict.get n s.loading)) [
        | inr (i, busy) ↦
            let (below, same, here) = v.entry n i busy in
            inr (i, ground arith, ground arith, ground arith, ground arith)
        | inl idle ↦ inr (s.next, ground arith, ground arith, ground arith, ground arith)
      ]
    ]
