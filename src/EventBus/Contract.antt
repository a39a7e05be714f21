-- ===== src/EventBus/Contract.antt =====
-- src/domain/event-bus/type/event-bus.contract.ts
use aideep_websocket.Common.{ℕ, Text}
use aideep_websocket.Ws.Event.{WsEvent}
use aideep_websocket.NodeContent.Operation.{NodeBodyPatch}

abbrev pub contract_version : ℕ
contract_version = 1

-- `kind` with its payload; `unknown` is a kind that this version does not have.
pub data Payload : Type 0 where
  of_workspace_event : WsEvent → Payload
  yjs_update : Text → Text → Payload
  node_body_patch : NodeBodyPatch → Payload
  unknown : Text → Payload

pub record Envelope : Type 0 where
  pub v : ℕ
  pub message_id : Text
  pub published_at : Text
  pub origin : Text
  pub payload : Payload
