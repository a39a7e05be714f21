-- ===== src/EventBus/Subscriber.antt =====
-- src/domain/event-bus/service/event-bus.subscriber.ts: what a message of the bus makes the server do.
use aideep_websocket.Common.{Text, ok, err, Io, pure, catch, ◌==◌, if◌then◌else◌}
use aideep_websocket.App.{App}
use aideep_websocket.Ws.State.{Gateway, update}
use aideep_websocket.Ws.Gateway.{broadcast, broadcast_yjs_update}
use aideep_websocket.NodeContent.Service.{apply_node_body_patch}
use aideep_websocket.EventBus.Contract.{
  Payload, of_workspace_event, yjs_update, node_body_patch, unknown, Envelope, contract_version,
}

module _ {D E W : Type 0} (app : App D E W) where
  -- The switch on `kind`; a patch is not waited for, and its failure is only logged.
  unfoldable pub dispatch : Payload → Io (Gateway D W) (Unit {0})
  dispatch (of_workspace_event event) = broadcast app event
  dispatch (yjs_update node_id update_base64) =
      update (broadcast_yjs_update app node_id (app.env.base64.decode update_base64))
  dispatch (node_body_patch patch) = catch (apply_node_body_patch app patch) (λ _. pure tt)
  dispatch (unknown kind) = pure tt

  unfoldable pub handle_envelope : Envelope → Io (Gateway D W) (Unit {0})
  unfolding dispatch
  handle_envelope envelope =
      if envelope.v == contract_version then dispatch envelope.payload else pure tt

  unfoldable pub parse_and_handle : Text → Io (Gateway D W) (Unit {0})
  unfolding handle_envelope
  parse_and_handle message g = elim (app.envelopes.parse message) [
    | err e ↦ (err e, g)
    | ok envelope ↦ handle_envelope envelope g
  ]

  -- Nothing that a message makes the server do is thrown to the bus.
  unfoldable pub handle_message : Text → Io (Gateway D W) (Unit {0})
  unfolding parse_and_handle
  handle_message message = catch (parse_and_handle message) (λ _. pure tt)
