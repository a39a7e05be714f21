-- ===== src/Ws/Gateway.antt =====
-- src/domain/ws/controller/ws.gateway.ts: connections, workspaces and broadcasts.
use aideep_websocket.Common.{
  ◌+◌, ◌-◌, Text, Bytes, Bool, false, ◌||◌, not, Option, none, some, List, [], ◌∷◌, ok, err, Io,
  pure, catch, ◌>>=◌, ◌>>◌, is_empty, text_eq, if◌then◌else◌,
}
use aideep_websocket.Common.Dict
use aideep_websocket.Common.Items
use aideep_websocket.App.{App}
use aideep_websocket.Membership.{check_workspace}
use aideep_websocket.Yjs.Flush.{truthy}
use aideep_websocket.Yjs.Lifecycle.{cleanup_node}
use aideep_websocket.Yjs.DocManager.{remove_client}
use aideep_websocket.Ws.Event.{
  WsEvent, EventBody, node_delete, type_of, user_of, echo_suppressed_types, LivePosition, join,
  disconnect, to_socket, to_others, to_room, to_local, workspace_event, presence_state,
  node_position_live, yjs_sync, yjs_ws_awareness, yjs_room, yjs_ws_room, user_room,
}
use aideep_websocket.Ws.Presence.{
  upsert_presence, remove_presence, list_presence, cache_awareness, get_cached_awareness,
}
use aideep_websocket.Ws.State.{
  Gateway, Ack, joined, refused, login_required, not_a_member, client_data, set_data, send, update,
  on_manager, on_outside,
}

-- client.handshake
pub record Handshake : Type 0 where
  pub auth_token : Option Text
  pub query_token : Option Text

-- The payload of `join_workspace`; a missing `profile` is null.
pub record JoinWorkspace : Type 0 where
  pub workspace_id : Text
  pub user_name : Text
  pub color : Text
  pub profile : Option Text

-- The payload of `cursor_move`.
pub record CursorMove : Type 0 where
  pub workspace_id : Text
  pub user_name : Text
  pub color : Text

abbrev pub or_else : Option Text → Option Text → Option Text
or_else (some a) b = some a
or_else none b = b

-- handshake.auth?.token ?? handshake.query?.token ?? null, if it is not empty
unfoldable pub handshake_token : Handshake → Option Text
handshake_token h = truthy (or_else h.auth_token h.query_token)

-- Whom a workspace event leaves out.
unfoldable pub excluded_room : EventBody → Option Text
excluded_room body =
    if Items.has (type_of body) echo_suppressed_types
    then elim (truthy (user_of body)) [ none ↦ none | some user ↦ some (user_room user) ]
    else none

-- client.data.workspaceId === workspaceId
abbrev pub is_current : Text → Option Text → Bool
is_current workspace_id none = false
is_current workspace_id (some current) = text_eq current workspace_id

module _ {D W : Type 0} where
  -- A socket is counted once.
  unfoldable pub count_connection : Text → Gateway D W → Gateway D W
  count_connection socket g = if Items.has socket g.counted_connections then g else record g {
    active = g.active + 1;
    counted_connections = Items.add socket g.counted_connections;
  }

  unfoldable pub uncount_connection : Text → Gateway D W → Gateway D W
  uncount_connection socket g =
      if Items.has socket g.counted_connections
      then record g {
        active = g.active - 1;
        counted_connections = Items.delete socket g.counted_connections;
      }
      else g

  unfoldable pub accept : Text → Text → Gateway D W → Gateway D W
  unfolding count_connection
  accept socket user_id g = count_connection socket (
      send (join socket (user_room user_id))
        (set_data socket (record (client_data socket g) { user_id = some user_id }) g))

  -- A position is passed on as it came.
  unfoldable pub handle_live_position : Text → LivePosition → Gateway D W → Gateway D W
  handle_live_position socket payload =
      send (to_others socket payload.workspace_id (node_position_live payload))

  -- Cursors are not shared at present.
  unfoldable pub handle_cursor_move : Text → CursorMove → Gateway D W → Gateway D W
  handle_cursor_move socket payload g = g

module _ {D E W : Type 0} (app : App D E W) where
  -- `client.join` and the metrics are taken not to throw; the `catch` is that of the verification.
  unfoldable pub handle_connection : Text → Handshake → Gateway D W → Gateway D W
  handle_connection socket handshake g = elim (handshake_token handshake) [
    | none ↦ send (disconnect socket) g
    | some token ↦ elim (app.verify token) [
      | err e ↦ send (disconnect socket) g
      | ok user_id ↦ elim (truthy user_id) [
        | none ↦ send (disconnect socket) g
        | some user ↦ accept socket user g
      ]
    ]
  ]

  unfoldable pub broadcast_presence : Text → Io (Gateway D W) (Unit {0})
  broadcast_presence workspace_id = do
    members ← on_outside (list_presence app workspace_id)
    update (send (to_room workspace_id (presence_state workspace_id members)))

  unfoldable pub leave_presence : Option Text → Option Text → Io (Gateway D W) (Unit {0})
  leave_presence (some workspace_id) (some user_id) = do
    on_outside (remove_presence app workspace_id user_id)
    broadcast_presence workspace_id
  leave_presence _ _ = pure tt

  -- for (const nodeId of nodeIds) removeClient(nodeId, client.id)
  unfoldable pub remove_from_docs : Text → List Text → Gateway D W → Gateway D W
  remove_from_docs socket [] g = g
  remove_from_docs socket (node_id ∷ rest) g =
      remove_from_docs socket rest
        (record g { manager = remove_client app.env node_id socket g.manager })

  unfoldable pub leave_docs : Text → Gateway D W → Gateway D W
  leave_docs socket g = elim (Dict.get socket g.yjs_rooms) [
    | none ↦ g
    | some node_ids ↦
        let left = remove_from_docs socket node_ids g in
        record left { yjs_rooms = Dict.remove socket left.yjs_rooms }
  ]

  unfoldable pub handle_disconnect : Text → Io (Gateway D W) (Unit {0})
  handle_disconnect socket g =
      let d = client_data socket g in
      (leave_presence (truthy d.workspace_id) (truthy d.user_id) >> update (leave_docs socket))
        (uncount_connection socket g)

  -- A late joiner gets the cached awareness.
  unfoldable pub send_cached_awareness : Text → Text → Io (Gateway D W) (Unit {0})
  send_cached_awareness socket workspace_id = do
    cached ← on_outside (get_cached_awareness app workspace_id)
    elim cached [
      | none ↦ pure tt
      | some bytes ↦ update (send (to_socket socket (yjs_ws_awareness workspace_id bytes)))
    ]

  unfoldable pub enter_workspace : Text → Text → Gateway D W → Gateway D W
  enter_workspace socket workspace_id g = send (join socket (yjs_ws_room workspace_id)) (
      set_data socket (record (client_data socket g) { workspace_id = some workspace_id })
        (send (join socket workspace_id) g))

  unfoldable pub enter_and_announce : Text → Text → JoinWorkspace → Io (Gateway D W) Ack
  enter_and_announce socket user_id payload = do
    update (enter_workspace socket payload.workspace_id)
    send_cached_awareness socket payload.workspace_id
    on_outside (
        upsert_presence app payload.workspace_id (record {
          user_id = user_id;
          user_name = payload.user_name;
          color = payload.color;
          profile = payload.profile;
        }))
    broadcast_presence payload.workspace_id
    pure joined

  unfoldable pub join_as : Text → Text → JoinWorkspace → Io (Gateway D W) Ack
  join_as socket user_id payload = do
    membership ← on_outside (check_workspace app.env user_id payload.workspace_id)
    elim membership [
      | none ↦ pure (refused not_a_member)
      | some _ ↦ enter_and_announce socket user_id payload
    ]

  unfoldable pub handle_join : Text → JoinWorkspace → Io (Gateway D W) Ack
  handle_join socket payload g = elim (truthy (client_data socket g).user_id) [
    | none ↦ (ok (refused login_required), g)
    | some user_id ↦ join_as socket user_id payload g
  ]

  -- Awareness of a workspace is taken from a socket that has joined it.
  unfoldable pub relay_ws_awareness : Text → Text → Bytes → Io (Gateway D W) (Unit {0})
  relay_ws_awareness socket workspace_id bytes = do
    on_outside (cache_awareness app workspace_id bytes)
    update
        (send (to_others socket (yjs_ws_room workspace_id) (yjs_ws_awareness workspace_id bytes)))

  unfoldable pub handle_ws_awareness : Text → Text → Option Bytes → Io (Gateway D W) (Unit {0})
  handle_ws_awareness socket workspace_id none g = (ok tt, g)
  handle_ws_awareness socket workspace_id (some bytes) g =
      if is_empty workspace_id || not (is_current workspace_id (client_data socket g).workspace_id)
      then (ok tt, g)
      else relay_ws_awareness socket workspace_id bytes g

  -- The document of a deleted node is cleaned up; a failure of that is only logged.
  unfoldable pub after_broadcast : EventBody → Io (Gateway D W) (Unit {0})
  after_broadcast (node_delete user node_id) =
      catch (on_manager (cleanup_node app.env node_id)) (λ _. pure tt)
  after_broadcast _ = pure tt

  unfoldable pub broadcast : WsEvent → Io (Gateway D W) (Unit {0})
  unfolding after_broadcast
  broadcast event = do
    update (send (to_local event.workspace_id (excluded_room event.body) (workspace_event event)))
    after_broadcast event.body

  unfoldable pub broadcast_yjs_update : Text → Bytes → Gateway D W → Gateway D W
  broadcast_yjs_update node_id bytes =
      send (to_room (yjs_room node_id) (yjs_sync node_id (app.env.crdt.write_update bytes)))
