-- ===== src/Ws/YjsHandlers.antt =====
-- src/domain/ws/controller/ws.gateway.ts: the handlers of a document's messages.
use aideep_websocket.Common.{
  Text, Bytes, Bool, true, false, Option, none, some, List, [], ◌∷◌, ok, err, Io, pure, ◌>>=◌, ◌>>◌,
  is_empty, ◌==◌, if◌then◌else◌,
}
use aideep_websocket.Common.Dict
use aideep_websocket.Common.Items
use aideep_websocket.App.{App}
use aideep_websocket.Env.Database.{Membership, Role, viewer}
use aideep_websocket.Membership.{check_workspace}
use aideep_websocket.Yjs.Managed.{Manager, put_doc}
use aideep_websocket.Yjs.Flush.{truthy}
use aideep_websocket.Yjs.Lifecycle.{get_or_create_doc, get_doc}
use aideep_websocket.Yjs.DocManager.{add_client, remove_client, schedule_save}
use aideep_websocket.Ws.Event.{join, leave, to_socket, to_others, yjs_sync, yjs_awareness, yjs_room}
use aideep_websocket.Ws.State.{
  Gateway, Ack, yjs_joined, refused, not_a_member, join_workspace_first, client_data, set_data,
  send, update, on_manager, on_outside,
}

unfoldable pub is_viewer : Role → Bool
is_viewer viewer = true
is_viewer _ = false

abbrev pub flag : Option Bool → Bool
flag none = false
flag (some b) = b

abbrev pub room_list : Option (List Text) → List Text
room_list none = []
room_list (some nodes) = nodes

module _ {D W : Type 0} where
  -- The rooms of a socket get one more node.
  unfoldable pub track_room : Text → Text → Gateway D W → Gateway D W
  track_room socket node_id g = record g {
    yjs_rooms =
        Dict.insert socket (Items.add node_id (room_list (Dict.get socket g.yjs_rooms)))
          g.yjs_rooms;
  }

  -- A socket that is in no document's room any more has no entry.
  unfoldable pub untrack_room : Text → Text → Gateway D W → Gateway D W
  untrack_room socket node_id g = elim (Dict.get socket g.yjs_rooms) [
    | none ↦ g
    | some nodes ↦
        let left = Items.delete node_id nodes in
        record g {
          yjs_rooms =
              if is_empty left
              then Dict.remove socket g.yjs_rooms
              else Dict.insert socket left g.yjs_rooms;
        }
  ]

  unfoldable pub mark_read_only : Text → Text → Bool → Gateway D W → Gateway D W
  mark_read_only socket node_id read_only g =
      let d = client_data socket g in
      set_data socket (record d { yjs_read_only = Dict.insert node_id read_only d.yjs_read_only }) g

  unfoldable pub is_read_only : Text → Text → Gateway D W → Bool
  is_read_only socket node_id g = flag (Dict.get node_id (client_data socket g).yjs_read_only)

  -- `readSyncMessage` changes the document in place.
  unfoldable pub set_doc : Text → D → Manager D W → Manager D W
  set_doc node_id doc s = elim (Dict.get node_id s.docs) [
    | none ↦ s
    | some managed ↦ put_doc node_id (record managed { doc = doc }) s
  ]

  unfoldable pub send_reply : Text → Text → Bytes → Gateway D W → Gateway D W
  send_reply socket node_id [] g = g
  send_reply socket node_id (b ∷ bytes) g = send (to_socket socket (yjs_sync node_id (b ∷ bytes))) g

  -- Awareness of a document is passed on as it came.
  unfoldable pub handle_yjs_awareness : Text → Text → Bytes → Gateway D W → Gateway D W
  handle_yjs_awareness socket node_id bytes =
      send (to_others socket (yjs_room node_id) (yjs_awareness node_id bytes))

module _ {D E W : Type 0} (app : App D E W) where
  unfoldable pub remember_membership : Text → Text → Option Membership → Gateway D W → Gateway D W
  remember_membership socket workspace_id membership g =
      let d = client_data socket g in
      set_data socket
        (record d { membership_cache = Dict.insert workspace_id membership d.membership_cache }) g

  -- The membership of a socket's user, asked for once for each workspace.
  unfoldable pub cached_membership : Text → Text → Text → Io (Gateway D W) (Option Membership)
  cached_membership socket user_id workspace_id g =
      elim (Dict.get workspace_id (client_data socket g).membership_cache) [
        | some membership ↦ (ok membership, g)
        | none ↦
            (do
              membership ← on_outside (check_workspace app.env user_id workspace_id)
              update (remember_membership socket workspace_id membership)
              pure membership)
              g
      ]

  unfoldable pub open_doc : Text → Text → Text → Bool → Io (Gateway D W) Ack
  open_doc socket node_id workspace_id read_only = do
    doc ← on_manager (get_or_create_doc app.env node_id workspace_id)
    update (send (join socket (yjs_room node_id)))
    update (λ g. record g { manager = add_client app.env node_id socket g.manager })
    update (track_room socket node_id)
    update (mark_read_only socket node_id read_only)
    update (send (to_socket socket (yjs_sync node_id (app.env.crdt.write_sync_step1 doc))))
    pure (yjs_joined read_only)

  unfoldable pub yjs_join_as : Text → Text → Text → Text → Io (Gateway D W) Ack
  yjs_join_as socket user_id workspace_id node_id = do
    membership ← cached_membership socket user_id workspace_id
    elim membership [
      | none ↦ pure (refused not_a_member)
      | some m ↦ open_doc socket node_id workspace_id (is_viewer m.role)
    ]

  unfoldable pub handle_yjs_join : Text → Text → Io (Gateway D W) Ack
  handle_yjs_join socket node_id g =
      let d = client_data socket g in
      elim (truthy d.user_id) [
        | none ↦ (ok (refused join_workspace_first), g)
        | some user_id ↦ elim (truthy d.workspace_id) [
          | none ↦ (ok (refused join_workspace_first), g)
          | some workspace_id ↦ yjs_join_as socket user_id workspace_id node_id g
        ]
      ]

  -- An update goes to the others and is saved, unless the socket may only read.
  unfoldable pub relay_update : Text → Text → Bytes → Gateway D W → Gateway D W
  relay_update socket node_id bytes g =
      if is_read_only socket node_id g
      then g
      else let relayed = send (to_others socket (yjs_room node_id) (yjs_sync node_id bytes)) g in
        record relayed {
          manager =
              schedule_save app.env node_id (client_data socket relayed).user_id relayed.manager;
        }

  -- The message is applied to the document before the rights of its sender are looked at.
  unfoldable pub handle_yjs_sync : Text → Text → Bytes → Io (Gateway D W) (Unit {0})
  handle_yjs_sync socket node_id bytes g = elim (get_doc node_id g.manager) [
    | none ↦ (ok tt, g)
    | some doc ↦ elim (app.env.crdt.read_sync_message doc bytes) [
      | err e ↦ (err e, g)
      | ok answer ↦
          let applied = record g { manager = set_doc node_id answer.doc g.manager } in
          let replied = send_reply socket node_id answer.reply applied in
          (
            ok tt,
            if answer.message_type == 2 then relay_update socket node_id bytes replied else replied,
          )
    ]
  ]

  unfoldable pub handle_yjs_leave : Text → Text → Gateway D W → Gateway D W
  handle_yjs_leave socket node_id g =
      let gone = send (leave socket (yjs_room node_id)) g in
      untrack_room socket node_id
        (record gone { manager = remove_client app.env node_id socket gone.manager })
