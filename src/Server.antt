-- ===== src/Server.antt =====
-- The whole server as a machine: what clients, the event bus, the HTTP controller and timers make it
-- do, one handler at a time (src/domain/ws/controller/ws.gateway.ts,
-- src/domain/event-bus/service/event-bus.subscriber.ts,
-- src/domain/node-content/controller/node-content.controller.ts,
-- src/global/yjs/yjs-doc-manager.ts).
pub mod Runs
pub mod Rooms
pub mod Timers
pub mod Counted
pub mod Echo
use aideep_websocket.Common.{Text, Bytes, Option, List, [], ◌∷◌}
use aideep_websocket.App.{App}
use aideep_websocket.Yjs.Managed.{Manager, Timer}
use aideep_websocket.Yjs.Lifecycle.{fire}
use aideep_websocket.Yjs.DocManager.{background_flush, flush_all}
use aideep_websocket.Ws.Event.{LivePosition}
use aideep_websocket.Ws.State.{Gateway, on_manager}
use aideep_websocket.Ws.Gateway.{
  Handshake, JoinWorkspace, CursorMove, handle_connection, handle_disconnect, handle_join,
  handle_live_position, handle_cursor_move, handle_ws_awareness,
}
use aideep_websocket.Ws.YjsHandlers.{
  handle_yjs_join, handle_yjs_sync, handle_yjs_awareness, handle_yjs_leave,
}
use aideep_websocket.NodeContent.Service.{Request, execute_content_operation}
use aideep_websocket.EventBus.Subscriber.{handle_message}

-- The first text of a client's input is its socket.
pub data Input : Type 0 where
  connects : Text → Handshake → Input
  disconnects : Text → Input
  join_workspace : Text → JoinWorkspace → Input
  node_position_live : Text → LivePosition → Input
  cursor_move : Text → CursorMove → Input
  yjs_join : Text → Text → Input
  yjs_sync : Text → Text → Bytes → Input
  yjs_awareness : Text → Text → Bytes → Input
  yjs_leave : Text → Text → Input
  yjs_ws_awareness : Text → Text → Option Bytes → Input
  bus_message : Text → Input
  content_operation : Request → Input
  timer_fires : Timer → Input
  flush_runs : Text → Input
  safety_flush : Input

module _ {D E W : Type 0} (app : App D E W) where
  unfoldable pub step : Input → Gateway D W → Gateway D W
  step (connects a handshake) g = handle_connection app a handshake g
  step (disconnects a) g = (handle_disconnect app a g).1
  step (join_workspace a payload) g = (handle_join app a payload g).1
  step (node_position_live a payload) g = handle_live_position a payload g
  step (cursor_move a payload) g = handle_cursor_move a payload g
  step (yjs_join a n) g = (handle_yjs_join app a n g).1
  step (yjs_sync a n bytes) g = (handle_yjs_sync app a n bytes g).1
  step (yjs_awareness a n bytes) g = handle_yjs_awareness a n bytes g
  step (yjs_leave a n) g = handle_yjs_leave app a n g
  step (yjs_ws_awareness a ws bytes) g = (handle_ws_awareness app a ws bytes g).1
  step (bus_message text) g = (handle_message app text g).1
  step (content_operation r) g = (execute_content_operation app r g).1
  step (timer_fires timer) g = record g { manager = fire timer g.manager }
  step (flush_runs n) g = (on_manager (background_flush app.env app.jobs n) g).1
  step safety_flush g = (on_manager (flush_all app.env app.jobs) g).1

  unfoldable pub run : List Input → Gateway D W → Gateway D W
  run [] g = g
  run (input ∷ rest) g = run rest (step input g)

-- The server before anybody has connected.
abbrev pub start : {D W : Type 0} → W → Gateway D W
start w = record {
  manager = record { docs = []; timers = []; next_timer = 0; flushes = []; world = w };
  sockets = [];
  yjs_rooms = [];
  counted_connections = [];
  active = 0;
  sent = [];
}
