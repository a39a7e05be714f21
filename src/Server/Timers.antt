-- ===== src/Server/Timers.antt =====
-- After any history of the server, a document has at most one save timer, and it is the one that the
-- document has on record: src/global/yjs/yjs-doc-manager.ts behind every handler.
use aideep_websocket.Common.{Text, refl, List, [], ◌∷◌, Option-cases, inl, inr, arith}
use aideep_websocket.Common.Dict
use aideep_websocket.App.{App}
use aideep_websocket.Yjs.Managed.{Manager}
use aideep_websocket.Yjs.DocManager.{remove_client}
use aideep_websocket.Yjs.Timers.{IsArmed, has_save, count_saves}
use aideep_websocket.Yjs.Timers.Armed.{
  put_doc-IsArmed, fire-IsArmed, add_client-IsArmed, remove_client-IsArmed, schedule_save-IsArmed,
}
use aideep_websocket.Yjs.Timers.Flushes.{
  world-IsArmed, get_or_create_doc-IsArmed, cleanup_node-IsArmed, append_markdown-IsArmed,
  background_flush-IsArmed, flush_all-IsArmed,
}
use aideep_websocket.Ws.State.{Gateway, send, set_data}
use aideep_websocket.Ws.Gateway.{remove_from_docs, leave_docs, accept}
use aideep_websocket.Ws.YjsHandlers.{track_room, set_doc, handle_yjs_leave}
use aideep_websocket.Ws.Rooms.{manager-untrack_room}
use aideep_websocket.Ws.Counted.{manager-count_connection, manager-uncount_connection}
use aideep_websocket.Ws.Stable.{IsStable}
use aideep_websocket.Server.{Input, run, start}
use aideep_websocket.Server.Runs.{run_from-keeps}

abbrev HasArmed : {D W : Type 0} → Gateway D W → Type 0
HasArmed g = IsArmed g.manager

set_doc-IsArmed :
    {D W : Type 0} (n : Text) (doc : D) (s : Manager D W) → IsArmed s → IsArmed (set_doc n doc s)
unfolding set_doc
set_doc-IsArmed n doc s v = elim (Option-cases (Dict.get n s.docs)) [
  | inl absent ↦ rw (absent, set_doc) v
  | inr (m, found) ↦ rw (found, set_doc) (put_doc-IsArmed n m _ s found refl v)
]

module _ {D E W : Type 0} (app : App D E W) where
  remove_from_docs-HasArmed :
      (a : Text) (nodes : List Text) (g : Gateway D W)
      → HasArmed g
      → HasArmed (remove_from_docs app a nodes g)
  unfolding remove_from_docs
  remove_from_docs-HasArmed a [] g v = v
  remove_from_docs-HasArmed a (n ∷ rest) g v =
      remove_from_docs-HasArmed a rest (record g { manager = remove_client app.env n a g.manager })
        (remove_client-IsArmed app.env n a g.manager v)

  leave_docs-HasArmed : (a : Text) (g : Gateway D W) → HasArmed g → HasArmed (leave_docs app a g)
  unfolding leave_docs
  leave_docs-HasArmed a g v = elim (Option-cases (Dict.get a g.yjs_rooms)) [
    | inl absent ↦ rw (absent, leave_docs) v
    | inr (nodes, found) ↦ rw (found, leave_docs) (remove_from_docs-HasArmed a nodes g v)
  ]

  HasArmed-IsStable : IsStable app HasArmed
  unfolding track_room handle_yjs_leave send set_data accept
  HasArmed-IsStable = record {
    sends = λ c g stays v. v;
    sets_data = λ a d g user v. v;
    accepts = λ a u g v. rw (manager-count_connection a _) v;
    uncounts = λ a g v. rw (manager-uncount_connection a g) v;
    worlds = λ w g v. world-IsArmed w g.manager v;
    gets = λ n ws g v. get_or_create_doc-IsArmed app.env n ws g.manager v;
    opens = λ a n g v. add_client-IsArmed app.env n a g.manager v;
    leaves =
        λ a n g v. rw (manager-untrack_room a n _) (remove_client-IsArmed app.env n a g.manager v);
    leaves_all = leave_docs-HasArmed;
    schedules = λ n user g v. schedule_save-IsArmed app.env n user g.manager v;
    sets = λ n doc g v. set_doc-IsArmed n doc g.manager v;
    cleans = λ n g v. cleanup_node-IsArmed app.env n g.manager v;
    appends = λ n ws markdown user g v.
        append_markdown-IsArmed app.env app.jobs n ws markdown user g.manager v;
    flushes = λ n g v. background_flush-IsArmed app.env app.jobs n g.manager v;
    flushes_all = λ g v. flush_all-IsArmed app.env app.jobs g.manager v;
    fires = λ timer g v. fire-IsArmed timer g.manager v;
  }

start-HasArmed : {D W : Type 0} (w : W) → HasArmed (start {D = D} w)
unfolding has_save count_saves
start-HasArmed w = record { owned = λ n h there. cc; single = λ n. omega arith }

module _ {D E W : Type 0} (app : App D E W) where
  -- After any sequence of inputs from the start of the server, handled one at a time, no node has
  -- more than one save timer that runs, and a save timer that runs for a node is the one that its
  -- document, which is then in memory, has on record.
  pub run-IsArmed : (inputs : List Input) (w : W) → IsArmed (run app inputs (start w)).manager
  run-IsArmed inputs w =
      run_from-keeps app (HasArmed-IsStable app) inputs (start w) (start-HasArmed w)
