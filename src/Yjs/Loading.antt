-- ===== src/Yjs/Loading.antt =====
-- `getOrCreateDoc` of src/global/yjs/yjs-doc-manager.ts with calls that interleave: what runs up to
-- the `await`, the end of a load, and the `finally`. A load is named by its number, and so is the
-- document that it makes.
pub mod Single
use aideep_websocket.Common.{ℕ, suc, ◌<◌, Text, ◌≡◌, Option, none, some, [], ◌==◌, if◌then◌else◌}
use aideep_websocket.Common.Dict
use aideep_websocket.Common.Dict.{Dict}

-- A load reads, its promise has settled, its first caller has left.
pub data LoadPhase : Type 0 where
  reading settled left : LoadPhase

pub record Load : Type 0 where
  pub node_id : Text
  pub phase : LoadPhase

-- The loads from `next` on have not been started.
pub record Loads : Type 0 where
  pub docs : Dict ℕ
  pub loading : Dict ℕ
  pub load : ℕ → Load
  pub next : ℕ

-- What a call goes on with: a document in memory, or the promise of a load.
pub data Answer : Type 0 where
  in_memory : ℕ → Answer
  promise_of : ℕ → Answer

abbrev pub nothing_loaded : Loads
nothing_loaded = record {
  docs = [];
  loading = [];
  load = λ i. record { node_id = []; phase = left };
  next = 0;
}

abbrev pub update : (ℕ → Load) → ℕ → Load → ℕ → Load
update f i l j = if i == j then l else f j

-- const promise = loadDoc(nodeId, workspaceId); loading.set(nodeId, promise)
unfoldable pub begin_load : Text → Loads → Loads
begin_load node_id s = record s {
  loading = Dict.insert node_id s.next s.loading;
  load = update s.load s.next (record { node_id = node_id; phase = reading });
  next = suc s.next;
}

unfoldable pub call : Text → Loads → Answer × Loads
call node_id s = elim (Dict.get node_id s.docs) [
  | some doc ↦ (in_memory doc, s)
  | none ↦ elim (Dict.get node_id s.loading) [
    | some pending ↦ (promise_of pending, s)
    | none ↦ (promise_of s.next, begin_load node_id s)
  ]
]

unfoldable pub set_phase : ℕ → LoadPhase → Loads → Loads
set_phase i phase s = record s { load = update s.load i (record (s.load i) { phase = phase }) }

-- docs.set(nodeId, …), the end of a load that succeeds
unfoldable pub register : ℕ → Loads → Loads
unfolding set_phase
register i s = record (set_phase i settled s) { docs = Dict.insert (s.load i).node_id i s.docs }

-- finally { loading.delete(nodeId) }
unfoldable pub leave : ℕ → Loads → Loads
unfolding set_phase
leave i s = record (set_phase i left s) { loading = Dict.remove (s.load i).node_id s.loading }

-- docs.delete(nodeId), of `evictDoc` and `cleanupNode`
unfoldable pub drop : Text → Loads → Loads
drop node_id s = record s { docs = Dict.remove node_id s.docs }

-- What may happen next: the event loop chooses.
pub data Step (s : Loads) : Loads → Type 0 where
  calls : (node_id : Text) → Step s (call node_id s).1
  loads : (i : ℕ) → i < s.next → (s.load i).phase ≡ reading → Step s (register i s)
  fails : (i : ℕ) → i < s.next → (s.load i).phase ≡ reading → Step s (set_phase i settled s)
  leaves : (i : ℕ) → i < s.next → (s.load i).phase ≡ settled → Step s (leave i s)
  drops : (node_id : Text) → Step s (drop node_id s)

pub data Reach : Loads → Type 0 where
  start : Reach nothing_loaded
  later : {s t : Loads} → Reach s → Step s t → Reach t
