-- ===== src/Server/Runs.antt =====
-- Every input that the server takes keeps what is stable, and so does a run.
use aideep_websocket.Common.{refl, List, [], ◌∷◌}
use aideep_websocket.App.{App}
use aideep_websocket.Ws.State.{Gateway}
use aideep_websocket.Ws.Gateway.{handle_live_position, handle_cursor_move}
use aideep_websocket.Ws.YjsHandlers.{handle_yjs_awareness}
use aideep_websocket.Ws.Stable.{IsStable}
use aideep_websocket.Ws.Stable.Handlers.{
  send-keeps, handle_connection-keeps, handle_disconnect-keeps, handle_join-keeps,
  handle_ws_awareness-keeps,
}
use aideep_websocket.Ws.Stable.Docs.{
  handle_yjs_join-keeps, handle_yjs_sync-keeps, handle_yjs_leave-keeps,
}
use aideep_websocket.Ws.Stable.Bus.{execute_content_operation-keeps, handle_message-keeps}
use aideep_websocket.Server.{
  Input, connects, disconnects, join_workspace, node_position_live, cursor_move, yjs_join, yjs_sync,
  yjs_awareness, yjs_leave, yjs_ws_awareness, bus_message, content_operation, timer_fires,
  flush_runs, safety_flush, step, run,
}

module _ {D E W : Type 0} (app : App D E W) {P : Gateway D W → Type 0} (st : IsStable app P) where
  step-keeps : (input : Input) (g : Gateway D W) → P g → P (step app input g)
  unfolding step handle_live_position handle_yjs_awareness handle_cursor_move
  step-keeps (connects a handshake) g h = handle_connection-keeps app st a handshake g h
  step-keeps (disconnects a) g h = handle_disconnect-keeps app st a g h
  step-keeps (join_workspace a payload) g h = handle_join-keeps app st a payload g h
  step-keeps (node_position_live a payload) g h = send-keeps app st _ refl g h
  step-keeps (cursor_move a payload) g h = h
  step-keeps (yjs_join a n) g h = handle_yjs_join-keeps app st a n g h
  step-keeps (yjs_sync a n bytes) g h = handle_yjs_sync-keeps app st a n bytes g h
  step-keeps (yjs_awareness a n bytes) g h = send-keeps app st _ refl g h
  step-keeps (yjs_leave a n) g h = handle_yjs_leave-keeps app st a n g h
  step-keeps (yjs_ws_awareness a ws bytes) g h = handle_ws_awareness-keeps app st a ws bytes g h
  step-keeps (bus_message text) g h = handle_message-keeps app st text g h
  step-keeps (content_operation r) g h = execute_content_operation-keeps app st r g h
  step-keeps (timer_fires timer) g h = st.fires timer g h
  step-keeps (flush_runs n) g h = st.flushes n g h
  step-keeps safety_flush g h = st.flushes_all g h

  pub run_from-keeps : (inputs : List Input) (g : Gateway D W) → P g → P (run app inputs g)
  unfolding run
  run_from-keeps [] g h = h
  run_from-keeps (input ∷ rest) g h = run_from-keeps rest (step app input g) (step-keeps input g h)
