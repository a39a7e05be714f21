-- ===== src/Yjs/Exclusive.antt =====
-- `runExclusive` of src/global/yjs/yjs-doc-manager.ts, with calls that interleave. Its three pieces
-- are steps of their own: what runs up to the `await`, the task between its start and its end, and
-- the `finally`. A call is named by its number; `operations` maps a node to the promise of a call.
pub mod Order
pub mod Progress
use aideep_websocket.Common.{
  ℕ, suc, ◌<◌, Text, ◌≡◌, Bool, true, false, Option, none, some, [], ◌==◌, if◌then◌else◌,
}
use aideep_websocket.Common.Dict
use aideep_websocket.Common.Dict.{Dict}

-- A call waits for the promise before it, runs its task, has a settled promise, has left.
pub data Phase : Type 0 where
  waiting running settled left : Phase

-- One call of `runExclusive`; `previous` is the call whose promise its own is chained to.
pub record Call : Type 0 where
  pub node_id : Text
  pub previous : Option ℕ
  pub phase : Phase

-- The calls from `next` on have not been made.
pub record Calls : Type 0 where
  pub operations : Dict ℕ
  pub call : ℕ → Call
  pub next : ℕ

abbrev pub update : (ℕ → Call) → ℕ → Call → ℕ → Call
update f i c j = if i == j then c else f j

abbrev pub is_done : Phase → Bool
is_done settled = true
is_done left = true
is_done _ = false

abbrev pub none_yet : Calls
none_yet = record {
  operations = [];
  call = λ i. record { node_id = []; previous = none; phase = waiting };
  next = 0;
}

-- const previous = operations.get(nodeId) ?? Promise.resolve(); operations.set(nodeId, current).
unfoldable pub enqueue : Text → Calls → Calls
enqueue node_id s = record {
  operations = Dict.insert node_id s.next s.operations;
  call =
      update s.call s.next
        (record { node_id = node_id; previous = Dict.get node_id s.operations; phase = waiting });
  next = suc s.next;
}

unfoldable pub set_phase : ℕ → Phase → Calls → Calls
set_phase i phase s = record s { call = update s.call i (record (s.call i) { phase = phase }) }

-- Whether the promise that a call is chained to has settled.
unfoldable pub is_free : Option ℕ → Calls → Bool
is_free none s = true
is_free (some p) s = is_done (s.call p).phase

-- operations.get(nodeId) === current
abbrev pub is_current : ℕ → Option ℕ → Bool
is_current i none = false
is_current i (some t) = t == i

-- finally { if (operations.get(nodeId) === current) operations.delete(nodeId) }
unfoldable pub leave : ℕ → Calls → Calls
unfolding set_phase
leave i s =
    let gone = set_phase i left s in
    let node_id = (s.call i).node_id in
    if is_current i (Dict.get node_id s.operations)
    then record gone { operations = Dict.remove node_id s.operations }
    else gone

-- What may happen next: the event loop chooses.
pub data Step (s : Calls) : Calls → Type 0 where
  calls : (node_id : Text) → Step s (enqueue node_id s)
  starts :
      (i : ℕ)
      → i < s.next
      → (s.call i).phase ≡ waiting
      → is_free (s.call i).previous s ≡ true
      → Step s (set_phase i running s)
  settles : (i : ℕ) → i < s.next → (s.call i).phase ≡ running → Step s (set_phase i settled s)
  leaves : (i : ℕ) → i < s.next → (s.call i).phase ≡ settled → Step s (leave i s)

pub data Reach : Calls → Type 0 where
  start : Reach none_yet
  later : {s t : Calls} → Reach s → Step s t → Reach t
