-- ===== src/Examples/Loads.antt =====
-- Calls of `getOrCreateDoc` for one node: a load that fails, and the load after it, which succeeds.
use aideep_websocket.Common.{◌≡◌, ◌≢◌, refl, none, arith}
use aideep_websocket.Common.Dict
use aideep_websocket.Yjs.Loading.{
  Loads, reading, settled, nothing_loaded, call, set_phase, register, leave, Reach, calls, loads,
  fails, leaves, start, later,
}
use aideep_websocket.Yjs.Loading.Single.{Reach-single}
use aideep_websocket.Examples.World.{node}
use aideep_websocket.Examples.Opened.{documents}

abbrev failed : Loads
failed = leave 0 (set_phase 0 settled (call node nothing_loaded).1)

abbrev again : Loads
again = (call node failed).1

abbrev loaded : Loads
loaded = register 1 again

failed-Reach : Reach failed
unfolding documents
failed-Reach =
    later (later (later start (calls node)) (fails 0 (omega arith) refl))
      (leaves 0 (omega arith) refl)

again-Reach : Reach again
again-Reach = later failed-Reach (calls node)

loaded-Reach : Reach loaded
unfolding documents
loaded-Reach = later again-Reach (loads 1 (omega arith) refl)

Reach-single_example : ((again.load 0).phase ≢ reading) × (Dict.get node again.docs ≡ none)
unfolding documents
Reach-single_example =
    Reach-single again-Reach 1 0 (omega arith) (omega arith) (omega arith) refl refl
