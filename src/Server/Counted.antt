-- ===== src/Server/Counted.antt =====
-- After any history of the server, the gauge of connections is right: the handlers of
-- src/domain/ws/controller/ws.gateway.ts count each socket once.
use aideep_websocket.Common.{Text, ◌≡◌, refl, List, [], ◌∷◌, Option-cases, inl, inr, arith}
use aideep_websocket.Common.Dict
use aideep_websocket.App.{App}
use aideep_websocket.Ws.State.{Gateway, send, set_data}
use aideep_websocket.Ws.Gateway.{remove_from_docs, leave_docs, accept}
use aideep_websocket.Ws.YjsHandlers.{track_room, untrack_room, handle_yjs_leave}
use aideep_websocket.Ws.Counted.{
  IsCounted, count_connection-IsCounted, uncount_connection-IsCounted,
}
use aideep_websocket.Ws.Stable.{IsStable}
use aideep_websocket.Server.{Input, run, start}
use aideep_websocket.Server.Runs.{run_from-keeps}

module _ {D W : Type 0} where
  same-IsCounted :
      (g g' : Gateway D W)
      → IsCounted g
      → g'.counted_connections ≡ g.counted_connections
      → g'.active ≡ g.active
      → IsCounted g'
  same-IsCounted g g' v counted gauge = record {
    gauge = ground (arith, v.gauge);
    once = λ a. rw counted (v.once a);
  }

  untrack_room-IsCounted :
      (a n : Text) (g : Gateway D W) → IsCounted g → IsCounted (untrack_room a n g)
  unfolding untrack_room
  untrack_room-IsCounted a n g v = elim (Option-cases (Dict.get a g.yjs_rooms)) [
    | inl absent ↦ rw (absent, untrack_room) v
    | inr (nodes, found) ↦ rw (found, untrack_room) (same-IsCounted g _ v refl refl)
  ]

module _ {D E W : Type 0} (app : App D E W) where
  remove_from_docs-IsCounted :
      (a : Text) (nodes : List Text) (g : Gateway D W)
      → IsCounted g
      → IsCounted (remove_from_docs app a nodes g)
  unfolding remove_from_docs
  remove_from_docs-IsCounted a [] g v = v
  remove_from_docs-IsCounted a (n ∷ rest) g v =
      remove_from_docs-IsCounted a rest _ (same-IsCounted g _ v refl refl)

  leave_docs-IsCounted : (a : Text) (g : Gateway D W) → IsCounted g → IsCounted (leave_docs app a g)
  unfolding leave_docs
  leave_docs-IsCounted a g v = elim (Option-cases (Dict.get a g.yjs_rooms)) [
    | inl absent ↦ rw (absent, leave_docs) v
    | inr (nodes, found) ↦
        rw (found, leave_docs)
          (same-IsCounted _ _ (remove_from_docs-IsCounted a nodes g v) refl refl)
  ]

  IsCounted-IsStable : IsStable app IsCounted
  unfolding track_room handle_yjs_leave send set_data accept
  IsCounted-IsStable = record {
    sends = λ c g stays v. same-IsCounted g _ v refl refl;
    sets_data = λ a d g user v. same-IsCounted g _ v refl refl;
    accepts = λ a u g v. count_connection-IsCounted a _ (same-IsCounted g _ v refl refl);
    uncounts = λ a g v. uncount_connection-IsCounted a g v;
    worlds = λ w g v. same-IsCounted g _ v refl refl;
    gets = λ n ws g v. same-IsCounted g _ v refl refl;
    opens = λ a n g v. same-IsCounted g _ v refl refl;
    leaves = λ a n g v. untrack_room-IsCounted a n _ (same-IsCounted g _ v refl refl);
    leaves_all = leave_docs-IsCounted;
    schedules = λ n user g v. same-IsCounted g _ v refl refl;
    sets = λ n doc g v. same-IsCounted g _ v refl refl;
    cleans = λ n g v. same-IsCounted g _ v refl refl;
    appends = λ n ws markdown user g v. same-IsCounted g _ v refl refl;
    flushes = λ n g v. same-IsCounted g _ v refl refl;
    flushes_all = λ g v. same-IsCounted g _ v refl refl;
    fires = λ timer g v. same-IsCounted g _ v refl refl;
  }

start-IsCounted : {D W : Type 0} (w : W) → IsCounted (start {D = D} w)
start-IsCounted w = record { gauge = refl; once = λ a. omega arith }

module _ {D E W : Type 0} (app : App D E W) where
  -- After any sequence of inputs from the start of the server, handled one at a time, the gauge of
  -- active connections is the number of the sockets that are counted, and no socket is counted
  -- twice.
  pub run-IsCounted : (inputs : List Input) (w : W) → IsCounted (run app inputs (start w))
  run-IsCounted inputs w =
      run_from-keeps app (IsCounted-IsStable app) inputs (start w) (start-IsCounted w)
