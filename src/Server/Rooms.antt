-- ===== src/Server/Rooms.antt =====
-- After any history, a document's clients are known to the gateway, so a socket that disconnects
-- leaves no document behind that thinks it is still there.
use aideep_websocket.Common.{Text, List, ◌≡◌, false, none, Result-cases, ok, inl, inr, arith}
use aideep_websocket.Common.Dict
use aideep_websocket.App.{App}
use aideep_websocket.Yjs.Flush.{truthy}
use aideep_websocket.Yjs.DocManager.Clients.{has_client}
use aideep_websocket.Ws.State.{Gateway, client_data}
use aideep_websocket.Ws.Gateway.{handle_disconnect, leave_presence, uncount_connection}
use aideep_websocket.Ws.Rooms.{IsTracked, in_room, leave_docs-gone, leave_docs-rooms}
use aideep_websocket.Ws.Rooms.Tracked.{IsTracked-IsStable}
use aideep_websocket.Ws.Stable.Handlers.{uncount_connection-keeps, leave_presence-keeps}
use aideep_websocket.Server.{Input, run, start}
use aideep_websocket.Server.Runs.{run_from-keeps}

start-IsTracked : {D W : Type 0} (w : W) → IsTracked (start {D = D} w)
unfolding has_client in_room Dict.get
start-IsTracked w = record { tracked = λ n a there. cc }

module _ {D E W : Type 0} (app : App D E W) where
  -- After any sequence of inputs from the start of the server, handled one at a time, every socket
  -- that a document in memory counts among its clients has that document among the rooms that the
  -- gateway tracks for it.
  pub run-IsTracked : (inputs : List Input) (w : W) → IsTracked (run app inputs (start w))
  run-IsTracked inputs w =
      run_from-keeps app (IsTracked-IsStable app) inputs (start w) (start-IsTracked w)

  -- After any sequence of inputs from the start of the server, a disconnection that is handled
  -- without an error leaves the socket a client of no document, and the gateway tracks no room for
  -- it.
  pub handle_disconnect-gone :
      (inputs : List Input) (w : W) (a n : Text) (g' : Gateway D W)
      → handle_disconnect app a (run app inputs (start w)) ≡ (ok tt, g')
      → (has_client n a g'.manager ≡ false) × (Dict.get a g'.yjs_rooms ≡ none)
  unfolding handle_disconnect
  handle_disconnect-gone inputs w a n g' e =
      let g = run app inputs (start w) in
      let tracked =
        uncount_connection-keeps app (IsTracked-IsStable app) a g (run-IsTracked inputs w) in
      let left =
        leave_presence app (truthy (client_data a g).workspace_id)
          (truthy (client_data a g).user_id) (uncount_connection a g) in
      elim (Result-cases left.0) [
        | inr (fault, failed) ↦ ground arith
        | inl (_, done) ↦ ground (
          arith,
          leave_docs-gone app a n left.1 (
              leave_presence-keeps app (IsTracked-IsStable app) _ _ (uncount_connection a g)
                tracked),
          leave_docs-rooms app a left.1,
        )
      ]
