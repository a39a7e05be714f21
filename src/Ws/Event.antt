-- ===== src/Ws/Event.antt =====
-- src/domain/ws/type/ws.event.ts, the payloads of the gateway's messages, and the names of rooms in
-- src/global/yjs/yjs.constants.ts and src/domain/ws/controller/ws.gateway.ts.
pub mod Tags
use aideep_websocket.Common.{Text, Bytes, codes, Option, some, List, [], ◌∷◌, ◌++◌}
use aideep_websocket.Env.Database.{Json}

-- The four MEETING_BOT_ types.
pub data BotState : Type 0 where
  requested joined left failed : BotState

-- The union `WsEvent` without its `workspaceId`. What the server only passes on is one JSON value;
-- `other` is a type that the server does not know, with the user that it names.
pub data EventBody : Type 0 where
  node_move : Text → Text → Json → EventBody
  node_create : Text → Json → EventBody
  node_delete : Text → Text → EventBody
  node_update : Text → Text → Json → EventBody
  edge_create : Text → Json → EventBody
  edge_deleted : Text → Text → EventBody
  edge_update : Text → Text → Json → EventBody
  meeting_bot : BotState → Text → Json → EventBody
  other : Text → Option Text → Json → EventBody

pub record WsEvent : Type 0 where
  pub workspace_id : Text
  pub body : EventBody

unfoldable pub bot_type : BotState → Text
bot_type requested = codes "MEETING_BOT_REQUESTED"
bot_type joined = codes "MEETING_BOT_JOINED"
bot_type left = codes "MEETING_BOT_LEFT"
bot_type failed = codes "MEETING_BOT_FAILED"

-- event.type
unfoldable pub type_of : EventBody → Text
unfolding bot_type
type_of (node_move user node rest) = codes "NODE_MOVE"
type_of (node_create user rest) = codes "NODE_CREATE"
type_of (node_delete user node) = codes "NODE_DELETE"
type_of (node_update user node rest) = codes "NODE_UPDATE"
type_of (edge_create user rest) = codes "EDGE_CREATE"
type_of (edge_deleted user edge) = codes "EDGE_DELETED"
type_of (edge_update user edge rest) = codes "EDGE_UPDATE"
type_of (meeting_bot state user rest) = bot_type state
type_of (other type user rest) = type

-- event.userId
unfoldable pub user_of : EventBody → Option Text
user_of (node_move user node rest) = some user
user_of (node_create user rest) = some user
user_of (node_delete user node) = some user
user_of (node_update user node rest) = some user
user_of (edge_create user rest) = some user
user_of (edge_deleted user edge) = some user
user_of (edge_update user edge rest) = some user
user_of (meeting_bot state user rest) = some user
user_of (other type user rest) = user

unfoldable pub echo_suppressed_types : List Text
echo_suppressed_types =
    codes "NODE_MOVE"
    ∷ codes "NODE_CREATE"
    ∷ codes "NODE_DELETE"
    ∷ codes "NODE_UPDATE"
    ∷ codes "EDGE_CREATE"
    ∷ codes "EDGE_DELETED"
    ∷ codes "EDGE_UPDATE"
    ∷ []

pub record PresenceMember : Type 0 where
  pub user_id : Text
  pub user_name : Text
  pub color : Text
  pub profile : Option Text

-- The payload of `node_position_live`.
pub record LivePosition : Type 0 where
  pub workspace_id : Text
  pub node_id : Text
  pub x : Json
  pub y : Json

-- What the server emits.
pub data Message : Type 0 where
  workspace_event : WsEvent → Message
  presence_state : Text → List PresenceMember → Message
  node_position_live : LivePosition → Message
  yjs_sync : Text → Bytes → Message
  yjs_awareness : Text → Bytes → Message
  yjs_ws_awareness : Text → Bytes → Message

-- A command to socket.io. `to_local` reaches the sockets of this instance, less a room.
pub data Command : Type 0 where
  join : Text → Text → Command
  leave : Text → Text → Command
  disconnect : Text → Command
  to_socket : Text → Message → Command
  to_others : Text → Text → Message → Command
  to_room : Text → Message → Command
  to_local : Text → Option Text → Message → Command

unfoldable pub yjs_room : Text → Text
yjs_room node_id = codes "yjs:" ++ node_id

unfoldable pub yjs_ws_room : Text → Text
yjs_ws_room workspace_id = codes "yjs:ws:" ++ workspace_id

unfoldable pub user_room : Text → Text
user_room user_id = codes "user:" ++ user_id
