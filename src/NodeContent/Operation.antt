-- ===== src/NodeContent/Operation.antt =====
-- src/domain/node-content/dto/nodeContentOperation.dto.ts, the record that a content operation
-- leaves in Redis, and the payloads of src/domain/event-bus/type/event-bus.contract.ts.
use aideep_websocket.Common.{ℕ, Text, Bool, Option}

-- enum NodeContentOperation
pub data ContentOperation : Type 0 where
  append_markdown : ContentOperation

-- NodeContentOperationSourceDto; `actorType` is always AGENT.
pub record OperationSource : Type 0 where
  pub actor_id : Text
  pub meeting_id : Option Text
  pub chunk_id : Option Text

-- NodeContentOperationBody
pub record OperationBody : Type 0 where
  pub operation : ContentOperation
  pub markdown : Text
  pub expected_version : Option ℕ
  pub source : OperationSource

-- NodeContentOperationResponse
pub record OperationResponse : Type 0 where
  pub operation_id : Text
  pub node_id : Text
  pub operation : ContentOperation
  pub previous_version : ℕ
  pub version : ℕ
  pub updated_at : ℕ
  pub duplicate : Bool

-- The `state` of the record in Redis.
pub data ClaimState : Type 0 where
  in_progress applied : ClaimState

-- { requestHash?, state?, response? }
pub record Claim : Type 0 where
  pub request_hash : Option Text
  pub state : Option ClaimState
  pub response : Option OperationResponse

-- NodeBodyPatchPayload
pub record NodeBodyPatch : Type 0 where
  pub workspace_id : Text
  pub node_id : Text
  pub markdown : Text
  pub actor_id : Text
  pub command_event_id : Text
