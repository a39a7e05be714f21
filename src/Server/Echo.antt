-- ===== src/Server/Echo.antt =====
-- The broadcasts of src/domain/ws/controller/ws.gateway.ts come back to none of the sockets of their
-- sender.
use aideep_websocket.Common.{
  Text, ◌≡◌, refl, ap, ◌∙◌, Bool, true, Bool-cases, inl, inr, some, List, catch-keeps, arith,
}
use aideep_websocket.Common.Dict
use aideep_websocket.Common.Items
use aideep_websocket.App.{App}
use aideep_websocket.Yjs.Flush.{truthy}
use aideep_websocket.Yjs.Lifecycle.{cleanup_node}
use aideep_websocket.Ws.Event.{
  Command, Message, to_local, workspace_event, user_room, EventBody, node_delete, WsEvent, type_of,
  user_of, echo_suppressed_types,
}
use aideep_websocket.Ws.State.{Gateway, send, client_data, on_manager}
use aideep_websocket.Ws.Gateway.{broadcast, after_broadcast, excluded_room}
use aideep_websocket.Ws.Delivery.{IsSocketIo, was_disconnected}
use aideep_websocket.Ws.Delivery.Joined.{IsJoined, IsJoined-IsStable}
use aideep_websocket.Server.{Input, run, start}
use aideep_websocket.Server.Runs.{run_from-keeps}

excluded_room-sender :
    (body : EventBody) (u : Text)
    → Items.has (type_of body) echo_suppressed_types ≡ true
    → truthy (user_of body) ≡ some u
    → excluded_room body ≡ some (user_room u)
unfolding excluded_room
excluded_room-sender body u quiet by = rw (excluded_room, quiet, by) refl

module _ {D E W : Type 0} (app : App D E W) where
  sent-after_broadcast :
      (body : EventBody) (g : Gateway D W) → (after_broadcast app body g).1.sent ≡ g.sent
  unfolding after_broadcast
  sent-after_broadcast (node_delete user n) g =
      catch-keeps (λ t. t.sent ≡ g.sent) (on_manager (cleanup_node app.env n)) _ g refl (λ _ _ k. k)
  sent-after_broadcast _ g = refl

module _ {in_room : Text → Text → List Command → Bool} {inbox : Text → List Command → List Message}
    (io : IsSocketIo in_room inbox) where
  start-IsJoined : (D W : Type 0) (w : W) → IsJoined io (start {D = D} w)
  unfolding client_data Dict.get
  start-IsJoined D W w a u named here = absurd (ground arith)

  module _ {D E W : Type 0} (app : App D E W) where
    run-IsJoined : (inputs : List Input) (w : W) → IsJoined io (run app inputs (start w))
    run-IsJoined inputs w =
        run_from-keeps app (IsJoined-IsStable app io) inputs (start w) (start-IsJoined D W w)

    -- Let socket.io keep its documentation: a join puts a socket in a room, it stays there until it
    -- leaves the room or is disconnected, a message that excepts a room does not reach the sockets
    -- in it, and nothing reaches a socket that the server has disconnected. After any sequence of
    -- inputs from the start of the server, the broadcast of an event of a type whose echo is
    -- suppressed, which names a user, adds nothing to the inbox of a socket that has this user on
    -- record.
    pub inbox-broadcast :
        (inputs : List Input) (w : W) (event : WsEvent) (a u : Text)
        → Items.has (type_of event.body) echo_suppressed_types ≡ true
        → truthy (user_of event.body) ≡ some u
        → (client_data a (run app inputs (start w))).user_id ≡ some u
        → inbox a (broadcast app event (run app inputs (start w))).1.sent
          ≡ inbox a (run app inputs (start w)).sent
    unfolding broadcast send
    inbox-broadcast inputs w event a u quiet by named =
        let g = run app inputs (start w) in
        let sending =
          to_local event.workspace_id (excluded_room event.body) (workspace_event event) in
        ap (inbox a) (sent-after_broadcast app event.body (send sending g))
        ∙ elim (Bool-cases (was_disconnected a g.sent)) [
          | inl left ↦ io.gone a sending g.sent left
          | inr here ↦ rw (excluded_room-sender event.body u quiet by) (
              io.excepts a event.workspace_id (user_room u) (workspace_event event) g.sent
                (run-IsJoined inputs w a u named here))
        ]
