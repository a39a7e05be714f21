-- ===== src/Yjs/FlushAll.antt =====
-- `flushAll` of src/global/yjs/yjs-doc-manager.ts with its workers, which interleave. A turn takes
-- one worker from one `await` to the next: it draws a node and starts its flush, its flush comes
-- back, or it finds that nothing is left and returns.
pub mod Complete
pub mod Ends
use Prim.Native.Nat.{min}
use aideep_websocket.Common.{ℕ, zero, suc, ◌+◌, Text, Option, none, some, List, [], ◌∷◌, ◌++◌}
use aideep_websocket.Common.Lists.{length, get_elem?, replicate}
use mathlib.Core.Option

-- FLUSH_CONCURRENCY of yjs.constants.ts
abbrev pub flush_concurrency : ℕ
flush_concurrency = 4

pub data Worker : Type 0 where
  ready : Worker
  flushing : Text → Worker
  returned : Worker

-- What the workers share, with the flushes that were started and those that came back, in order.
pub record Round : Type 0 where
  pub cursor : ℕ
  pub started : List Text
  pub finished : List Text

pub record Pool : Type 0 where
  pub workers : List Worker
  pub round : Round

-- while (cursor < nodeIds.length) { const nodeId = nodeIds[cursor++]; await flushDoc(nodeId) … }
unfoldable pub advance : List Text → Worker → Round → Option (Worker × Round)
advance node_ids ready r = elim (get_elem? node_ids r.cursor) [
  | none ↦ some (returned, r)
  | some node_id ↦
      some
        (flushing node_id, record r { cursor = suc r.cursor; started = r.started ++ node_id ∷ [] })
]
advance node_ids (flushing node_id) r =
    some (ready, record r { finished = r.finished ++ node_id ∷ [] })
advance node_ids returned r = none

-- The turn of one worker; `none` if there is no such worker or it has returned.
unfoldable pub turn : List Text → ℕ → List Worker → Round → Option Pool
turn node_ids i [] r = none
turn node_ids zero (w ∷ ws) r = elim (advance node_ids w r) [
  | none ↦ none
  | some (w', r') ↦ some (record { workers = w' ∷ ws; round = r' })
]
turn node_ids (suc i) (w ∷ ws) r = elim (turn node_ids i ws r) [
  | none ↦ none
  | some p ↦ some (record { workers = w ∷ p.workers; round = p.round })
]

-- Array.from({ length: Math.min(FLUSH_CONCURRENCY, nodeIds.length) }, worker)
unfoldable pub start : List Text → Pool
start node_ids = record {
  workers = replicate (min flush_concurrency (length node_ids)) ready;
  round = record { cursor = 0; started = []; finished = [] };
}

-- The turns of the workers that a schedule names.
unfoldable pub run : List Text → List ℕ → Pool → Option Pool
run node_ids [] p = some p
run node_ids (i ∷ rest) p = elim (turn node_ids i p.workers p.round) [
  | none ↦ none
  | some q ↦ run node_ids rest q
]
